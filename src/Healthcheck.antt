-- ===== src/Healthcheck.antt =====
-- pkg/healthcheck/healthcheck.go: the server that tells whether the API server answers.
pub mod Reports
use kube_graffiti.Common.{String, List, [], ◌∷◌, Result, ok, err, abort, ◌>>=◌, ◌<>◌}
use kube_graffiti.Decimal.{ℤ, format_int}
use kube_graffiti.Kubernetes.{NamespaceAccessor, Clientset}
use kube_graffiti.Http.{Writer, set_header, write_header, write_string, handle}

-- The interface kubernetesClient over the state `W` of the cluster.
pub record KubernetesClient (W : Type 0) : Type 0 where
  pub namespaces : NamespaceAccessor W

-- `addr` is that of the http.Server, and `patterns` are those that its http.ServeMux has a handler for.
pub record HealthChecker (W : Type 0) : Type 0 where
  pub port : ℤ
  pub path : String
  pub client : KubernetesClient W
  pub addr : String
  pub patterns : List String

unfoldable pub report : Result (Unit {0}) → Writer → Result Writer
report (ok u) w = ok (
    write_string "{\"healthy\": true}"
      (set_header "Content-Type" "application/json" (write_header 200 w)))
report (err e) w = ok (
    write_string "{\"healthy\": false}"
      (set_header "Content-Type" "application/json" (write_header 500 w)))
report (abort e) w = abort e

-- What starting the goroutine that listens does to the world. What it does later, and its end at level
-- Fatal when it cannot listen, are its own.
pub record HealthListener (W : Type 0) : Type 0 where
  pub listen_and_serve : HealthChecker W → W → W

module _ {W : Type 0} where
  -- The client that wraps a clientset, as the interface that it implements.
  unfoldable pub new_cut_down_namespace_client : Clientset W → KubernetesClient W
  new_cut_down_namespace_client k = record { namespaces = k.namespaces }

  unfoldable pub new_health_checker : KubernetesClient W → ℤ → String → HealthChecker W
  new_health_checker k port path = record {
    port = port;
    path = path;
    client = k;
    addr = ":" <> format_int port;
    patterns = [];
  }

  -- What follows mux.Handle, which may panic: the goroutine starts with the checker as the handler.
  unfoldable pub listen_with :
      HealthListener W → HealthChecker W → Result (List String) → W → Result (HealthChecker W) × W
  listen_with N h (ok patterns) w =
      let routed = record h { patterns = patterns } in (ok routed, N.listen_and_serve routed w)
  listen_with N h (err e) w = (err e, w)
  listen_with N h (abort e) w = (abort e, w)

  unfoldable pub start_health_checker :
      HealthListener W → HealthChecker W → W → Result (HealthChecker W) × W
  start_health_checker N h w = listen_with N h (handle h.patterns h.path) w

  unfoldable pub serve_http : HealthChecker W → W → Writer → Result Writer
  unfolding report
  serve_http h world w = report (h.client.namespaces.list world) w
