-- ===== src/Examples/Web.antt =====
-- The webhook at concrete inputs: its handler, its paths, its registrations, and a configuration.
use kube_graffiti.Common.{
  ◌≤◌, ◌*◌, ◌<>◌, String, ◌≡◌, ◌≢◌, refl, Bool, true, false, ◌==◌, Option, none, some, [], ◌∷◌, ok,
  err, ◌↔◌, IsOk, if◌then◌else◌, str-cases, inl, inr, eq_iff,
}
use kube_graffiti.Decimal.{pos}
use kube_graffiti.Dict.{lookup}
use kube_graffiti.Webhook.PathEscape.Injective.{path_from_name_injective}
use kube_graffiti.Webhook.PathEscape.{path_from_name, path_prefix}
use kube_graffiti.Webhook.PathEscape.Bounds.{AreSegmentChars, length, path_from_name-IsSegment}
use kube_graffiti.Webhook.Server
use kube_graffiti.Webhook.Handler.{
  Request, Response, ReviewCodec, new_graffiti_handler, serve_http, decode, answer, review, written,
}
use kube_graffiti.Webhook.Handler.Answers.{Explains, serve_http-Explains}
use kube_graffiti.Webhook.Registration.{
  Registration, Unicode, failure_policy, HookClient, WebhookConfig, register_hook,
}
use kube_graffiti.Webhook.Registration.Replaced.{IsWebhookOf, IsStore, register_hook-registers}
use kube_graffiti.Config.{Configuration, validate_config}
use kube_graffiti.Config.Validity.{IsValid, validate_config_iff}
use kube_graffiti.Examples.Fixtures.{toy, team_matchers, paint, pod_request}

path_from_name_injective_example : ◌≡◌ {A = String} "add labels" "add labels"
path_from_name_injective_example = path_from_name_injective "add labels" "add labels" refl

path_from_name-IsSegment_example :
    (segment : String) × (path_from_name "add labels" ≡ path_prefix <> segment)
    × AreSegmentChars segment
    × (length segment ≤ 12 * length "add labels")
path_from_name-IsSegment_example = path_from_name-IsSegment "add labels"

-- A codec that reads one review and one without a request.
abbrev pub codec : ReviewCodec
codec = record {
  decode_review = λ body.
      if body == "review"
      then ok (record { request = some pod_request })
      else if body == "empty"
      then ok (record { request = none })
      else err "no review";
  marshal_response = λ resp. ok resp.uid;
}

abbrev pub post : String → Request
post body = record {
  path = "/graffiti/x";
  method = "POST";
  content_type = "application/json";
  body = body;
}

abbrev allowed : Response
allowed = record { status = 200; content_type = "application/json"; body = "7" }

answers : serve_http codec new_graffiti_handler (post "review") ≡ ok allowed
unfolding serve_http decode answer review written lookup
answers = refl

serve_http-Explains_example : Explains codec new_graffiti_handler (post "review") allowed
serve_http-Explains_example =
    serve_http-Explains codec new_graffiti_handler (post "review") allowed answers

-- An API server that holds its configurations as a function of their names.
abbrev pub World : Type 0
World = String → Option (WebhookConfig String)

abbrev put : String → Option (WebhookConfig String) → World → World
put n c w j = if n == j then c else w j

abbrev is_some : Option (WebhookConfig String) → Bool
is_some none = false
is_some (some c) = true

abbrev pub client : HookClient String World
client = record {
  parse_to_label_selector = λ s. ok s;
  get = λ n w. (is_some (w n), w);
  delete = λ n w. (is_some (w n), put n none w);
  create = λ c w. (true, put c.name (some c) w);
}

abbrev pub stored : World → String → Option (WebhookConfig String)
stored w = w

put-other :
    (n : String) (c : Option (WebhookConfig String)) (w : World) (j : String)
    → n ≢ j
    → put n c w j ≡ w j
put-other n c w j differs = elim (str-cases n j) [
  | inl same ↦ absurd (differs same)
  | inr other ↦ rw other refl
]

put_self : (n : String) (c : Option (WebhookConfig String)) (w : World) → put n c w n ≡ c
put_self n c w = rw ((eq_iff n n).1 refl) refl

pub client_stores : IsStore client stored
client_stores = record {
  get_view = λ n w j. refl;
  delete_other = λ n w j. put-other n none w j;
  create_other = λ c w j. put-other c.name (some c) w j;
  create_self = λ c w made. put_self c.name (some c) w;
}

abbrev pub ascii : Unicode
ascii = record { to_title = λ c. c; is_separator = λ c. false }

abbrev server : Server.Server
server = record {
  company_domain = "acme.com";
  namespace = "graffiti";
  service = "webhook";
  ca_cert = "ca";
  addr = ":8443";
  tls = record {
    client_cas = "client ca" ∷ [];
    client_auth = Server.no_client_cert;
    next_protos = "http/1.1" ∷ [];
  };
  patterns = [];
  handler = new_graffiti_handler;
}

abbrev pub registration : Registration
registration = record {
  name = "paint-team";
  targets = [];
  namespace_selector = "team";
  failure_policy = "fail";
}

abbrev pub empty_world : World
empty_world name = none

registered : IsOk (register_hook client ascii server registration empty_world).0
unfolding register_hook failure_policy
registered = tt

register_hook-registers_example :
    (hook : WebhookConfig String) × (stored
        (register_hook client ascii server registration empty_world).1
        "paint-team"
      ≡ some hook)
    × IsWebhookOf client ascii server registration hook
register_hook-registers_example =
    register_hook-registers client stored client_stores ascii server registration empty_world
      registered

abbrev pub configuration : Configuration
configuration = record {
  log_level = "info";
  check_existing = false;
  health_checker = record { port = pos 8080; path = "/healthz" };
  server = record {
    webhook_port = pos 8443;
    company_domain = "acme.com";
    namespace = "graffiti";
    service = "webhook";
    ca_cert_path = "/ca-cert";
    server_cert_path = "/server-cert";
    server_key_path = "/server-key";
  };
  rules = record { registration = registration; matchers = team_matchers; payload = paint } ∷ [];
}

validate_config_iff_example : IsOk (validate_config toy configuration) ↔ IsValid toy configuration
validate_config_iff_example = validate_config_iff toy configuration
