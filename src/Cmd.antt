-- ===== src/Cmd.antt =====
-- cmd/command.go: how initWebhookServer puts the rules of a configuration to work. Its sleep of two
-- seconds, in which the listener starts, is left out.
pub mod Rules
pub mod Registered
pub mod Answered
pub mod Entered
pub mod Steady
pub mod Partial
pub mod Run
pub mod Execute
pub mod Settings
use kube_graffiti.Common.{String, List, [], ◌∷◌, Result, ok, err, abort, ◌>>=◌}
use kube_graffiti.Decimal.{ℤ}
use kube_graffiti.Graffiti.Libs.{Libs}
use kube_graffiti.Kubernetes.{ConfigMap}
use kube_graffiti.Webhook.Server.{
  Server, new_server, add_graffiti_rule, WebhookListener, start_webhook_server,
}
use kube_graffiti.Webhook.Registration.{Unicode, HookClient, register_hook}
use kube_graffiti.Config.{Rule, Configuration, graffiti_rule}
use kube_graffiti.Cmd.Settings.{Viper}

-- The settings of the server, which initWebhookServer asks viper for.
pub record ServerSettings : Type 0 where
  pub port : ℤ
  pub company_domain : String
  pub namespace : String
  pub service : String
  pub ca_cert_path : String
  pub cert_path : String
  pub key_path : String

unfoldable pub server_settings : {V H : Type 0} → Viper V H → V → ServerSettings
server_settings P v = record {
  port = P.get_int "server.port" v;
  company_domain = P.get_string "server.company-domain" v;
  namespace = P.get_string "server.namespace" v;
  service = P.get_string "server.service" v;
  ca_cert_path = P.get_string "server.ca-cert-path" v;
  cert_path = P.get_string "server.cert-path" v;
  key_path = P.get_string "server.key-path" v;
}

-- The loop that adds the graffiti rules into the mux.
unfoldable pub add_rules : Libs → Server → List Rule → Result Server
add_rules L s [] = ok s
add_rules L s (rule ∷ rules) = do
  added ← add_graffiti_rule L s (graffiti_rule rule)
  add_rules L added rules

module _ {S W : Type 0} (K : HookClient S W) (U : Unicode) where
  -- What follows a registration in the loop: the first error ends it.
  unfoldable pub unless_failed :
      Result (Unit {0}) × W → (W → Result (Unit {0}) × W) → Result (Unit {0}) × W
  unless_failed (ok u, w) rest = rest w
  unless_failed (err e, w) rest = (err e, w)
  unless_failed (abort e, w) rest = (abort e, w)

  -- The loop that registers all rules with the API server.
  unfoldable pub register_rules : Server → List Rule → W → Result (Unit {0}) × W
  register_rules s [] w = (ok tt, w)
  register_rules s (rule ∷ rules) w =
      unless_failed (register_hook K U s rule.registration w) (λ w'. register_rules s rules w')

module _ {S W : Type 0} (K : HookClient S W) (U : Unicode) (N : WebhookListener W) where
  -- What follows the loop over the rules: the listener starts, then the rules are registered.
  unfoldable pub register_on :
      ServerSettings → Result Server → List Rule → W → Result (Unit {0}) × W
  register_on st (ok s) rules w =
      register_rules K U s rules (start_webhook_server N s st.cert_path st.key_path w)
  register_on st (err e) rules w = (err e, w)
  register_on st (abort e) rules w = (abort e, w)

  -- `ca` is what reading the file of the certificate gives, and `k` the config map of the API server.
  unfoldable pub init_webhook_server :
      Libs → Configuration → ServerSettings → Result String → ConfigMap → W → Result (Unit {0}) × W
  init_webhook_server L c st (ok ca) k w =
      let server = new_server st.company_domain st.namespace st.service ca k st.port in
      register_on st (server >>= λ s. add_rules L s c.rules) c.rules w
  init_webhook_server L c st (err e) k w = (err "failed to load ca from file", w)
  init_webhook_server L c st (abort e) k w = (abort e, w)
