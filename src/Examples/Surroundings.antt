-- ===== src/Examples/Surroundings.antt =====
-- Surroundings for a run of the program: a small viper, clients, files, and listeners that do nothing.
use kube_graffiti.Common.{String, Bool, true, false, Option, none, some, [], ◌∷◌, ok}
use kube_graffiti.Decimal.{ℤ, pos}
use kube_graffiti.Dict.{Dict, lookup, insert}
use kube_graffiti.Healthcheck.{KubernetesClient}
use kube_graffiti.Config.{Configuration}
use kube_graffiti.Cmd.Run.{Surroundings}
use kube_graffiti.Cmd.Settings.{Setting, text, number, boolean, Viper, Mapstructure}
use kube_graffiti.Examples.Web.{World}
use kube_graffiti.Examples.Start.{config_map, listener}
use kube_graffiti.Examples.Cluster.{clients}

abbrev pub healthy : KubernetesClient World
healthy = record { namespaces = record { list = λ w. ok tt } }

-- Viper, with settings and defaults in one map, and the configuration of its file.
abbrev pub Values : Type 0
Values = Dict Setting

abbrev text_of : Option Setting → String
text_of (some (text s)) = s
text_of (some (boolean true)) = "true"
text_of (some (boolean false)) = "false"
text_of _ = ""

abbrev number_of : Option Setting → ℤ
number_of (some (number n)) = n
number_of _ = pos 0

abbrev is_there : Option Setting → Bool
is_there none = false
is_there (some x) = true

abbrev pub viper : Configuration → Viper Values Bool
viper c = record {
  bind_pflag = λ name flag v. insert name flag.value v;
  set_env_prefix = λ prefix v. v;
  set_env_key_replacer = λ pairs v. v;
  automatic_env = λ v. v;
  set_default = λ k x v. insert k x v;
  set_config_file = λ file v. insert "file" (text file) v;
  set_config_name = λ name v. insert "file" (text name) v;
  read_in_config = λ v.
      ok (insert "server.namespace" (text "graffiti") (insert "server.service" (text "webhook") v));
  unmarshal = λ option v. ok c;
  get_string = λ k v. text_of (lookup k v);
  get_int = λ k v. number_of (lookup k v);
  is_set = λ k v. is_there (lookup k v);
}

abbrev hooks : Mapstructure Bool
hooks = record {
  string_to_time_duration_hook_func = true;
  string_to_slice_hook_func = λ s. true;
  of_function = λ f. true;
  compose_decode_hook_func = λ hooks. true;
}

abbrev pub surroundings : Configuration → Surroundings Values Bool String World
surroundings c = record {
  viper = viper c;
  mapstructure = hooks;
  in_cluster_config = ok "cluster";
  new_for_config =
      λ config. ok (record { namespaces = healthy.namespaces; config_map = config_map });
  clients = λ config. clients;
  read_file = λ path. ok "ca";
  health_listener = record { listen_and_serve = λ h w. w };
  webhook_listener = listener;
}

abbrev pub flags : Values
flags =
    ("config", text "/config") ∷ ("log-level", text "info") ∷ ("check-existing", boolean false) ∷ []
