-- ===== src/Webhook/Server.antt =====
-- pkg/webhook/server.go: the webhook server, its TLS settings, its rules and the start of its listener.
pub mod Registry
use kube_graffiti.Common.{
  exits, String, Option, none, some, List, [], ◌∷◌, Result, ok, err, abort, ◌>>=◌, ◌<>◌,
}
use kube_graffiti.Dict.{lookup}
use kube_graffiti.Kubernetes.{ConfigMap}
use kube_graffiti.Decimal.{ℤ, format_int}
use kube_graffiti.Http.{handle}
use kube_graffiti.Graffiti.Libs.{Libs}
use kube_graffiti.Graffiti.Rule.{Rule, mutate_admission}
use kube_graffiti.Webhook.PathEscape.{path_from_name}
use kube_graffiti.Webhook.Handler.{GraffitiHandler, new_graffiti_handler, add_rule}

pub data ClientAuth : Type 0 where
  no_client_cert require_and_verify_client_cert : ClientAuth

-- `client_cas` are the PEM texts whose certificates went into the pool.
pub record TlsConfig : Type 0 where
  pub client_cas : List String
  pub client_auth : ClientAuth
  pub next_protos : List String

-- Both failures are logged at level Fatal.
unfoldable pub get_api_server_cert : ConfigMap → Result String
get_api_server_cert (ok entries) = elim (lookup "requestheader-client-ca-file" entries) [
  | some pem ↦ ok pem
  | none ↦ abort (exits "cannot find the ca.crt in the configmap")
]
get_api_server_cert (err e) =
    abort (exits "failed to read the extension-apiserver-authentication configmap")
get_api_server_cert (abort e) = abort e

unfoldable pub config_tls : ConfigMap → Result TlsConfig
config_tls k = do
  cert ← get_api_server_cert k
  ok (record {
    client_cas = cert ∷ [];
    client_auth = no_client_cert;
    next_protos = "http/1.1" ∷ [];
  })

-- `addr`, `tls` and `patterns` are those of the http.Server and of its http.ServeMux.
pub record Server : Type 0 where
  pub company_domain : String
  pub namespace : String
  pub service : String
  pub ca_cert : String
  pub addr : String
  pub tls : TlsConfig
  pub patterns : List String
  pub handler : GraffitiHandler

unfoldable pub server_with : String → String → String → String → String → TlsConfig → Server
server_with cd ns svc ca addr tls = record {
  company_domain = cd;
  namespace = ns;
  service = svc;
  ca_cert = ca;
  addr = addr;
  tls = tls;
  patterns = [];
  handler = new_graffiti_handler;
}

unfoldable pub new_server : String → String → String → String → ConfigMap → ℤ → Result Server
new_server cd ns svc ca k port = do
  tls ← config_tls k
  ok (server_with cd ns svc ca (":" <> format_int port) tls)

unfoldable pub add_graffiti_rule : Libs → Server → Rule → Result Server
add_graffiti_rule L s rule = do
  let path = path_from_name rule.name
  patterns ← handle s.patterns path
  ok (record s { patterns = patterns; handler = add_rule s.handler path (mutate_admission L rule) })

-- What starting a goroutine that listens, with the certificate and the key of the two paths, does to
-- the world. What the goroutine does later, and its end at level Fatal when it cannot listen, are its own.
pub record WebhookListener (W : Type 0) : Type 0 where
  pub listen_and_serve_tls : Server → String → String → W → W

unfoldable pub start_webhook_server :
    {W : Type 0} → WebhookListener W → Server → String → String → W → W
start_webhook_server N s cert_path key_path w = N.listen_and_serve_tls s cert_path key_path w
