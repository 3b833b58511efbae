-- ===== src/Webhook/Registration.antt =====
-- pkg/webhook/registration.go: the registration of a rule as a mutating webhook.
pub mod Replaced
use Prim.Native.Char.{Char, code}
use Prim.Native.String
use kube_graffiti.Common.{
  ℕ, ◌-◌, String, Bool, true, false, not, ◌&&◌, ◌||◌, ◌==◌, Option, none, some, List, [], ◌∷◌, map,
  Result, ok, err, abort, if◌then◌else◌, leb, ltb, nat_eq, ◌<>◌, ◌>>=◌,
}
use kube_graffiti.Webhook.PathEscape.{path_from_name}
use kube_graffiti.Webhook.Server.{Server}

pub record Target : Type 0 where
  pub api_groups : List String
  pub api_versions : List String
  pub resources : List String

pub record Registration : Type 0 where
  pub name : String
  pub targets : List Target
  pub namespace_selector : String
  pub failure_policy : String

pub data FailurePolicy : Type 0 where
  ignore fail : FailurePolicy

-- unicode.ToTitle, and whether a character parts words, for characters outside ASCII.
pub record Unicode : Type 0 where
  pub to_title : ℕ → ℕ
  pub is_separator : ℕ → Bool

module _ (U : Unicode) where
  separates : ℕ → Bool
  separates c =
      if ltb c 128
      then not (
          (leb 48 c && leb c 57)
          || ((leb 97 c && leb c 122) || ((leb 65 c && leb c 90) || nat_eq c 95)))
      else U.is_separator c

  title_char : ℕ → ℕ
  title_char c = if ltb c 128 then (if leb 97 c && leb c 122 then c - 32 else c) else U.to_title c

  -- strings.Title behind the character `prev`, as code points.
  title_from : ℕ → String → List ℕ
  unfolding separates title_char
  title_from prev String.[] = []
  title_from prev (String.◌∷◌ c s) =
      (if separates prev then title_char (code c) else code c) ∷ title_from (code c) s

  unfoldable pub title : String → List ℕ
  unfolding title_from
  title s = title_from 32 s

abbrev pub codes : String → List ℕ
codes String.[] = []
codes (String.◌∷◌ c s) = code c ∷ codes s

abbrev pub same_codes : List ℕ → List ℕ → Bool
same_codes [] [] = true
same_codes (a ∷ as') (b ∷ bs) = nat_eq a b && same_codes as' bs
same_codes _ _ = false

unfoldable pub failure_policy : Unicode → String → Result FailurePolicy
unfolding title
failure_policy U s =
    if same_codes (title U s) (codes "Ignore")
    then ok ignore
    else if same_codes (title U s) (codes "Fail")
    then ok fail
    else err "invalid admission registration failure policy type"

-- A rule of the webhook; its operations are always Create and Update.
pub record RuleWithOperations : Type 0 where
  pub operations : List String
  pub api_groups : List String
  pub api_versions : List String
  pub resources : List String

-- A MutatingWebhookConfiguration with its one webhook; `S` are the label selectors of the API.
pub record WebhookConfig (S : Type 0) : Type 0 where
  pub name : String
  pub webhook_name : String
  pub policy : FailurePolicy
  pub namespace_selector : S
  pub rules : List RuleWithOperations
  pub service_namespace : String
  pub service_name : String
  pub path : String
  pub ca_bundle : String

-- The client of the API server's webhook configurations, over the state `W` of the cluster. Each call
-- tells whether it returned without an error.
pub record HookClient (S W : Type 0) : Type 0 where
  pub parse_to_label_selector : String → Result S
  pub get : String → W → Bool × W
  pub delete : String → W → Bool × W
  pub create : WebhookConfig S → W → Bool × W

unfoldable pub rule_of : Target → RuleWithOperations
rule_of target = record {
  operations = "CREATE" ∷ "UPDATE" ∷ [];
  api_groups = target.api_groups;
  api_versions = target.api_versions;
  resources = target.resources;
}

module _ {S W : Type 0} (K : HookClient S W) where
  unfoldable pub webhook_config : Server → Registration → S → FailurePolicy → WebhookConfig S
  webhook_config s r selector policy = record {
    name = r.name;
    webhook_name = r.name <> "." <> s.company_domain;
    policy = policy;
    namespace_selector = selector;
    rules = map rule_of r.targets;
    service_namespace = s.namespace;
    service_name = s.service;
    path = path_from_name r.name;
    ca_bundle = s.ca_cert;
  }

  -- The last step of RegisterHook.
  create_hook : WebhookConfig S → W → Result (Unit {0}) × W
  create_hook config w =
      let (created, w') = K.create config w in
      (if created then ok tt else err "webhook registration failed", w')

  -- A webhook of that name is deleted first; the rest runs only if that succeeds.
  replace_hook : WebhookConfig S → W → Result (Unit {0}) × W
  unfolding create_hook
  replace_hook config w =
      let (found, w1) = K.get config.name w in
      let (deleted, w2) = K.delete config.name w1 in
      if found
      then (if deleted then create_hook config w2 else (err "failed to delete the webhook", w2))
      else create_hook config w1

  abbrev proceed :
      Server → Registration → W → Result S → Result FailurePolicy → Result (Unit {0}) × W
  proceed s r w (ok selector) (ok policy) = replace_hook (webhook_config s r selector policy) w
  proceed s r w (ok selector) (err e) = (err e, w)
  proceed s r w (ok selector) (abort e) = (abort e, w)
  proceed s r w (err e) policy = (err ("could not parse the namespace selector: " <> e), w)
  proceed s r w (abort e) policy = (abort e, w)

  unfoldable pub register_hook : Unicode → Server → Registration → W → Result (Unit {0}) × W
  unfolding replace_hook
  register_hook U s r w =
      proceed s r w (K.parse_to_label_selector r.namespace_selector)
        (failure_policy U r.failure_policy)
