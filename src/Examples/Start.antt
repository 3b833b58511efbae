-- ===== src/Examples/Start.antt =====
-- A start of the webhook server on a configuration with one rule.
use kube_graffiti.Common.{
  String, ◌≡◌, refl, List, [], ◌∷◌, ◌++◌, none, ok, ◌>>=◌, ◌==◌, ◌↔◌, Returns, with_value,
  with_error, if-both, All, IsOk, ◌<>◌,
}
use kube_graffiti.Decimal.{pos, format_int}
use kube_graffiti.Http.{handle}
use kube_graffiti.Graffiti.Matchers
use kube_graffiti.Graffiti.Payload.Validate
use kube_graffiti.Graffiti.Payload.Validate.{
  validate_additions_deletions, validate_additions_labels, validate_additions_annotations,
  validate_deletions_keys, has_template,
}
use kube_graffiti.Graffiti.Selectors.{validate_label_selector, validate_field_selector}
use kube_graffiti.Graffiti.Rule
use kube_graffiti.Graffiti.Rule.{AdmissionRequest, mutate_admission}
use kube_graffiti.Dict.{lookup, insert}
use kube_graffiti.Webhook.PathEscape.{path_from_name, path_escape}
use kube_graffiti.Webhook.Handler.{add_rule, serve_http}
use kube_graffiti.Webhook.Handler.Returning.{DoesNotPanic}
use kube_graffiti.Graffiti.Operator.{is_a_boolean_operator}
use kube_graffiti.Cmd.Partial.{Ended, register_rules-Ended}
use kube_graffiti.Cmd.Steady.{HaveOperators, add_rules-Returns_iff}
use kube_graffiti.Examples.Rules.{toy-DoesNotPanic}
use kube_graffiti.Kubernetes.{ConfigMap}
use kube_graffiti.Webhook.Server.{
  Server, WebhookListener, start_webhook_server, TlsConfig, no_client_cert, get_api_server_cert,
  config_tls, server_with, new_server, add_graffiti_rule,
}
use kube_graffiti.Webhook.Registration.{register_hook, failure_policy}
use kube_graffiti.Config.{
  Rule, validate_config, validate_log_args, validate_webhook_args, validate_rules, validate_each,
}
use kube_graffiti.Config.Validity.{HasOwnNames, IsValid, validate_config_iff}
use kube_graffiti.Cmd.{
  ServerSettings, add_rules, register_rules, register_on, unless_failed, init_webhook_server,
}
use kube_graffiti.Cmd.Answered.{IsAnswered, init_webhook_server-Answered}
use kube_graffiti.Cmd.Entered.{enter_all, Serves, add_rules-Serves}
use kube_graffiti.Examples.Fixtures.{toy, team_matchers, paint, paint_rule}
use kube_graffiti.Examples.Web.{
  World, codec, post, client, stored, client_stores, ascii, empty_world, registration,
  configuration,
}

accepted : IsOk (validate_config toy configuration)
unfolding validate_config validate_log_args validate_webhook_args validate_rules validate_each
    lookup Rule.validate Matchers.validate validate_label_selector validate_field_selector
    Validate.validate validate_additions_deletions validate_additions_labels validate_deletions_keys
    has_template
accepted = tt

pub valid : IsValid toy configuration
valid = (validate_config_iff toy configuration).0 accepted

abbrev pub config_map : ConfigMap
config_map = ok (("requestheader-client-ca-file", "client ca") ∷ [])

abbrev pub settings : ServerSettings
settings = record {
  port = pos 8443;
  company_domain = "acme.com";
  namespace = "graffiti";
  service = "webhook";
  ca_cert_path = "/ca-cert";
  cert_path = "/server-cert";
  key_path = "/server-key";
}

-- A listener that changes nothing that is registered.
abbrev pub listener : WebhookListener World
listener = record { listen_and_serve_tls = λ s cert key w. w }

abbrev tls : TlsConfig
tls = record {
  client_cas = "client ca" ∷ [];
  client_auth = no_client_cert;
  next_protos = "http/1.1" ∷ [];
}

abbrev new : Server
new = server_with "acme.com" "graffiti" "webhook" "ca" (":" <> format_int (pos 8443)) tls

made : new_server "acme.com" "graffiti" "webhook" "ca" config_map (pos 8443) ≡ ok new
unfolding new_server config_tls get_api_server_cert lookup
made = refl

pub started :
    IsOk
      (init_webhook_server client ascii listener toy configuration settings
        (ok "ca")
        config_map
        empty_world).0
unfolding init_webhook_server register_on start_webhook_server add_rules add_graffiti_rule handle
    new_server server_with config_tls get_api_server_cert lookup register_rules unless_failed
    register_hook failure_policy path_from_name path_escape
started = tt

init_webhook_server-Answered_example :
    (pem : String) × (s : Server) × (ok "ca" ≡ ok pem)
    × ((new_server "acme.com" "graffiti" "webhook" pem config_map (pos 8443) >>= λ new.
          add_rules toy new configuration.rules)
        ≡ ok s)
    × All
        (IsAnswered client stored client_stores ascii toy codec s
          (init_webhook_server client ascii listener toy configuration settings
            (ok "ca")
            config_map
            empty_world).1)
        configuration.rules
init_webhook_server-Answered_example =
    init_webhook_server-Answered client stored client_stores ascii toy codec listener configuration
      settings (ok "ca") config_map empty_world valid started

-- Two rules of one name.
add_rules-Serves_example :
    Serves toy
      (enter_all [] (configuration.rules ++ configuration.rules))
      (add_rules toy new (configuration.rules ++ configuration.rules))
add_rules-Serves_example =
    add_rules-Serves toy "acme.com" "graffiti" "webhook" "ca" config_map (pos 8443)
      (configuration.rules ++ configuration.rules) made

-- The new server with the one rule at its path.
abbrev loaded : Server
loaded = record new {
  patterns = "/graffiti/paint-team" ∷ [];
  handler = record { tagmap = ("/graffiti/paint-team", mutate_admission toy paint_rule) ∷ [] };
}

loads : add_rules toy new configuration.rules ≡ ok loaded
unfolding add_rules add_graffiti_rule handle server_with path_from_name path_escape add_rule insert
loads = refl

codec-DoesNotPanic : DoesNotPanic codec
codec-DoesNotPanic = record {
  decodes = λ body.
      if-both Returns (body == "review") with_value
        (if-both Returns (body == "empty") with_value with_error);
  marshals = λ resp. with_value;
}

known : HaveOperators toy toy-DoesNotPanic configuration.rules
unfolding is_a_boolean_operator
known = (refl, tt)

add_rules-Returns_iff_example : Returns (serve_http codec loaded.handler (post "review")) ↔ (
    ¬ (
      (◌≡◌ {A = String} "POST" "POST")
      × (◌≡◌ {A = String} "application/json" "application/json")
      × (codec.decode_review "review" ≡ ok (record { request = none }))))
add_rules-Returns_iff_example =
    add_rules-Returns_iff toy toy-DoesNotPanic codec codec-DoesNotPanic "acme.com" "graffiti"
      "webhook" "ca" config_map (pos 8443) configuration.rules (post "review") known made loads

-- A second rule, whose failure policy is unknown.
abbrev unregistered : Rule
unregistered = record {
  registration = record registration { name = "broken"; failure_policy = "never" };
  matchers = team_matchers;
  payload = paint;
}

abbrev two_rules : List Rule
two_rules = configuration.rules ++ unregistered ∷ []

two_names : HasOwnNames two_rules
two_names = (((λ e. cc), tt), (tt, tt))

register_rules-Ended_example :
    Ended client stored client_stores ascii loaded two_rules empty_world
      (register_rules client ascii loaded two_rules empty_world)
register_rules-Ended_example =
    register_rules-Ended client stored client_stores ascii loaded two_rules empty_world two_names
