-- ===== src/Webhook/Server/Registry.antt =====
-- What the webhook server promises: a registry of rules by their names.
use text.Mathlib.TextLemmas.{append-eq-nil_iff}
use kube_graffiti.Common.{
  panics, String, ◌≡◌, refl, sym, ap, ◌∙◌, subst, Bool, true, false, ◌==◌, Option, none, some, List,
  [], ◌∷◌, Result, ok, abort, if◌then◌else◌, any, eq_iff, str-cases, Bool-cases, Option-cases, inl,
  inr, ok_injective, >>=-eq-ok,
}
use kube_graffiti.Decimal.{ℤ}
use kube_graffiti.Dict.{lookup}
use kube_graffiti.Dict.Laws.{lookup-insert}
use kube_graffiti.Http.{handle}
use kube_graffiti.Graffiti.Libs.{Libs}
use kube_graffiti.Graffiti.Rule.{Rule, AdmissionRequest, AdmissionResponse, allow, mutate_admission}
use kube_graffiti.Webhook.PathEscape.{path_from_name, path_prefix}
use kube_graffiti.Webhook.PathEscape.Injective.{path_from_name_injective}
use kube_graffiti.Webhook.Handler.{Mutator, add_rule, review}
use kube_graffiti.Kubernetes.{ConfigMap}
use kube_graffiti.Webhook.Server.{Server, config_tls, server_with, new_server, add_graffiti_rule}

abbrev pub Registry : Type 0
Registry = List Rule

abbrev pub find : String → Registry → Option Rule
find name [] = none
find name (rule ∷ registry) = if rule.name == name then some rule else find name registry

-- A registry takes each name once.
abbrev pub enter : Rule → Registry → Option Registry
enter rule registry = elim (find rule.name registry) [
  | none ↦ some (rule ∷ registry)
  | some other ↦ none
]

abbrev is_found : Option Rule → Bool
is_found none = false
is_found (some rule) = true

pub path_from_name-ne-nil : (name : String) → (path_from_name name == "") ≡ false
unfolding path_from_name
path_from_name-ne-nil name = elim (str-cases (path_from_name name) "") [
  | inl empty ↦
      let prefix : path_prefix ≡ "" = (append-eq-nil_iff.0 empty).0 in
      let test : false ≡ true = ap (λ t. t == "") prefix in cc
  | inr test ↦ test
]

module _ (L : Libs) where
  abbrev pub mutator_of : Option Rule → Option Mutator
  mutator_of none = none
  mutator_of (some rule) = some (mutate_admission L rule)

  -- The mux and the handler have, at the path of every name, what the registry has under it.
  pub record Represents (registry : Registry) (s : Server) : Type 0 where
    pub routed :
        (name : String)
        → any (λ p. p == path_from_name name) s.patterns ≡ is_found (find name registry)
    pub mutators :
        (name : String)
        → lookup (path_from_name name) s.handler.tagmap ≡ mutator_of (find name registry)

  pub new_server-Represents :
      (cd ns svc ca : String) (k : ConfigMap) (port : ℤ) {s : Server}
      → new_server cd ns svc ca k port ≡ ok s
      → Represents [] s
  unfolding new_server server_with lookup
  new_server-Represents cd ns svc ca k port made =
      let (tls, configured, final) = >>=-eq-ok (config_tls k) _ made in
      subst (Represents []) (ok_injective final)
        (record { routed = λ name. refl; mutators = λ name. refl })

  same-path : (a b : String) → (path_from_name a == path_from_name b) ≡ (a == b)
  same-path a b = elim (str-cases a b) [
    | inl same ↦ (eq_iff _ _).1 (ap path_from_name same) ∙ sym ((eq_iff a b).1 same)
    | inr other ↦ elim (str-cases (path_from_name a) (path_from_name b)) [
      | inl same ↦ let names = (eq_iff a b).1 (path_from_name_injective a b same) in cc
      | inr test ↦ test ∙ sym other
    ]
  ]

  -- The server with one more rule.
  abbrev entered : Server → Rule → Server
  entered s rule = record s {
    patterns = path_from_name rule.name ∷ s.patterns;
    handler = add_rule s.handler (path_from_name rule.name) (mutate_admission L rule);
  }

  entered-Represents :
      (registry : Registry) (s : Server) (rule : Rule)
      → Represents registry s
      → Represents (rule ∷ registry) (entered s rule)
  unfolding add_rule
  entered-Represents registry s rule r = record {
    routed = λ name. elim (Bool-cases (rule.name == name)) [
      | inl e ↦ rw (same-path rule.name name, e) refl
      | inr e ↦ rw (same-path rule.name name, e) (r.routed name)
    ];
    mutators = λ name.
        lookup-insert (path_from_name rule.name) (mutate_admission L rule) s.handler.tagmap
          (path_from_name name)
        ∙ elim (Bool-cases (rule.name == name)) [
          | inl e ↦ rw (same-path rule.name name, e) refl
          | inr e ↦ rw (same-path rule.name name, e) (r.mutators name)
        ];
  }

  -- How a server takes what a registry does.
  abbrev pub Follows : Option Registry → Result Server → Type 0
  Follows none r = (message : String) × (r ≡ abort (panics message))
  Follows (some registry) r = (s : Server) × (r ≡ ok s) × Represents registry s

  pub add_graffiti_rule-Follows :
      (registry : Registry) (s : Server) (rule : Rule)
      → Represents registry s
      → Follows (enter rule registry) (add_graffiti_rule L s rule)
  unfolding add_graffiti_rule handle
  add_graffiti_rule-Follows registry s rule r = elim (Option-cases (find rule.name registry)) [
    | inl new ↦
        rw (path_from_name-ne-nil rule.name, r.routed rule.name, enter, new)
          (entered s rule, refl, entered-Represents registry s rule r)
    | inr (other, taken) ↦
        rw (path_from_name-ne-nil rule.name, r.routed rule.name, enter, taken) (_, refl)
  ]

  -- The answer of a registry to a request for the rule of a name: a name that it does not have is
  -- allowed as it is.
  abbrev pub reply_of : Option Rule → AdmissionRequest → Result AdmissionResponse
  reply_of none request = ok (allow "")
  reply_of (some rule) request = mutate_admission L rule request

  pub review-Represents :
      (registry : Registry) (s : Server)
      → Represents registry s
      → (name : String) (request : AdmissionRequest)
      → review s.handler (path_from_name name) request ≡ reply_of (find name registry) request
  unfolding review
  review-Represents registry s r name request = elim (Option-cases (find name registry)) [
    | inl missing ↦ rw (review, r.mutators name, missing) refl
    | inr (rule, found) ↦ rw (review, r.mutators name, found) refl
  ]
