-- ===== src/Kubernetes.antt =====
-- The client of the API server, which client-go makes, as far as the program calls it. The cluster is a
-- state `W`.
use kube_graffiti.Common.{String, Result}
use kube_graffiti.Dict.{Dict}

-- The map `Data` of the config map extension-apiserver-authentication, or the error of reading it.
abbrev pub ConfigMap : Type 0
ConfigMap = Result (Dict String)

-- Of a list of namespaces only the error is read.
pub record NamespaceAccessor (W : Type 0) : Type 0 where
  pub list : W → Result (Unit {0})

-- CoreV1().Namespaces(), and what CoreV1().ConfigMaps(metav1.NamespaceSystem) gets.
pub record Clientset (W : Type 0) : Type 0 where
  pub namespaces : NamespaceAccessor W
  pub config_map : ConfigMap
