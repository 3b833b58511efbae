-- ===== src/Cmd/Rules.antt =====
-- The rules of a configuration in the webhook server.
use kube_graffiti.Common.{
  String, ◌≡◌, ◌≢◌, refl, sym, ◌∙◌, false, ◌==◌, Option, some, List, [], ◌∷◌, ok, if◌then◌else◌,
  All, any, >>=-eq-ok, ok_injective, subst, str-cases, inl, inr, eq_iff,
}
use kube_graffiti.Dict.{lookup}
use kube_graffiti.Dict.Laws.{lookup-insert}
use kube_graffiti.Graffiti.Libs.{Libs}
use kube_graffiti.Graffiti.Rule.{AdmissionRequest, mutate_admission}
use kube_graffiti.Webhook.PathEscape.{path_from_name}
use kube_graffiti.Webhook.PathEscape.Injective.{path_from_name_injective}
use kube_graffiti.Webhook.Handler.{GraffitiHandler, Mutator, add_rule, review}
use kube_graffiti.Kubernetes.{ConfigMap}
use kube_graffiti.Webhook.Server.{
  Server, TlsConfig, config_tls, server_with, new_server, add_graffiti_rule,
}
use kube_graffiti.Webhook.Server.Registry.{path_from_name-ne-nil}
use kube_graffiti.Decimal.{ℤ}
use kube_graffiti.Http.{handle}
use kube_graffiti.Config.{Configuration, Rule, graffiti_rule}
use kube_graffiti.Config.Validity.{HasOwnNames, IsValid}
use kube_graffiti.Cmd.{add_rules}

abbrev pub path_of : Rule → String
path_of rule = path_from_name rule.registration.name

-- The server's mux has no handler yet for the rule's path.
abbrev pub IsFree : Server → Rule → Type 0
IsFree s rule = any (λ p. p == path_of rule) s.patterns ≡ false

-- The handler finds the rule at its path.
abbrev pub IsServed : Libs → Server → Rule → Type 0
IsServed L s rule =
    lookup (path_of rule) s.handler.tagmap ≡ some (mutate_admission L (graffiti_rule rule))

pub review-found :
    (h : GraffitiHandler) (path : String) (mutator : Mutator)
    → lookup path h.tagmap ≡ some mutator
    → (request : AdmissionRequest) → review h path request ≡ mutator request
unfolding review
review-found h path mutator found request = rw (found, review) refl

module _ (L : Libs) where
  -- The server with the rule.
  abbrev with_rule : Server → Rule → Server
  with_rule s rule = record s {
    patterns = path_of rule ∷ s.patterns;
    handler = add_rule s.handler (path_of rule) (mutate_admission L (graffiti_rule rule));
  }

  add_graffiti_rule-free :
      (s : Server) (rule : Rule)
      → IsFree s rule
      → add_graffiti_rule L s (graffiti_rule rule) ≡ ok (with_rule s rule)
  unfolding add_graffiti_rule handle
  add_graffiti_rule-free s rule free = rw (path_from_name-ne-nil rule.registration.name, free) refl

  server_with-IsFree :
      (cd ns svc ca addr : String) (tls : TlsConfig) (rules : List Rule)
      → All (IsFree (server_with cd ns svc ca addr tls)) rules
  unfolding server_with
  server_with-IsFree cd ns svc ca addr tls [] = tt
  server_with-IsFree cd ns svc ca addr tls (rule ∷ rules) =
      (refl, server_with-IsFree cd ns svc ca addr tls rules)

  pub new_server-IsFree :
      (cd ns svc ca : String) (k : ConfigMap) (port : ℤ) {s : Server} (rules : List Rule)
      → new_server cd ns svc ca k port ≡ ok s
      → All (IsFree s) rules
  unfolding new_server
  new_server-IsFree cd ns svc ca k port rules e =
      let (tls, configured, made) = >>=-eq-ok (config_tls k) _ e in
      subst (λ x. All (IsFree x) rules) (ok_injective made)
        (server_with-IsFree cd ns svc ca _ tls rules)

  path-ne :
      (rule later : Rule)
      → rule.registration.name ≢ later.registration.name
      → path_of rule ≢ path_of later
  path-ne rule later differ same =
      differ (path_from_name_injective rule.registration.name later.registration.name same)

  IsFree-with_rule :
      (s : Server) (rule : Rule) (rules : List Rule)
      → All (λ later. rule.registration.name ≢ later.registration.name) rules
      → All (IsFree s) rules
      → All (IsFree (with_rule s rule)) rules
  IsFree-with_rule s rule [] differ free = tt
  IsFree-with_rule s rule (later ∷ rules) (differ, others) (free, frees) =
      elim (str-cases (path_of rule) (path_of later)) [
        | inl same ↦ absurd (path-ne rule later differ same)
        | inr test ↦ (rw test free, IsFree-with_rule s rule rules others frees)
      ]

  abbrev handler_at : Server → String → Option Mutator
  handler_at s path = lookup path s.handler.tagmap

  handler_at-with_rule :
      (s : Server) (rule : Rule) (path : String)
      → handler_at (with_rule s rule) path ≡ (
          if path_of rule == path
          then some (mutate_admission L (graffiti_rule rule))
          else handler_at s path)
  unfolding add_rule
  handler_at-with_rule s rule path =
      lookup-insert (path_of rule) (mutate_admission L (graffiti_rule rule)) s.handler.tagmap path

  -- Rules with names of their own, whose paths are free, are all added to a server, and nothing
  -- changes at other paths.
  pub add_rules-Adds :
      (s : Server) (rules : List Rule)
      → HasOwnNames rules
      → All (IsFree s) rules
      → (t : Server) × (add_rules L s rules ≡ ok t)
        × All (IsServed L t) rules
        × ((path : String)
            → All (λ rule. path_of rule ≢ path) rules
            → handler_at t path ≡ handler_at s path)
  unfolding add_rules
  add_rules-Adds s [] own free = (s, refl, tt, λ path others. refl)
  add_rules-Adds s (rule ∷ rules) (differ, own) (free, frees) =
      let u = with_rule s rule in
      let (t, added, served, kept) =
        add_rules-Adds u rules own (IsFree-with_rule s rule rules differ frees) in
      (
        t,
        rw (add_graffiti_rule-free s rule free) added,
        (
          kept (path_of rule) (all_ne rule rules differ)
              ∙ rw
                  (
                    handler_at-with_rule s rule (path_of rule),
                    (eq_iff (path_of rule) (path_of rule)).1 refl,
                  )
                  refl,
          served,
        ),
        λ path others. kept path others.1 ∙ elim (str-cases (path_of rule) path) [
          | inl same ↦ absurd (others.0 same)
          | inr test ↦ rw (handler_at-with_rule s rule path, test) refl
        ],
      )
    where
      all_ne :
          (rule : Rule) (rules : List Rule)
          → All (λ later. rule.registration.name ≢ later.registration.name) rules
          → All (λ later. path_of later ≢ path_of rule) rules
      all_ne rule [] h = tt
      all_ne rule (later ∷ rules) (n, h) =
          (λ same. path-ne rule later n (sym same), all_ne rule rules h)

  -- The rules of a valid configuration are all added to a new server, without a panic of its mux, and
  -- its handler then answers a request at the path of each of them as that rule does.
  add_rules-answers :
      (c : Configuration) (cd ns svc ca : String) (k : ConfigMap) (port : ℤ) {s : Server}
      → IsValid L c
      → new_server cd ns svc ca k port ≡ ok s
      → (t : Server) × (add_rules L s c.rules ≡ ok t)
        × All
            (λ rule.
              (request : AdmissionRequest)
              → review t.handler (path_of rule) request
                ≡ mutate_admission L (graffiti_rule rule) request)
            c.rules
  add_rules-answers c cd ns svc ca k port {s} valid made =
      let (t, added, served, kept) =
        add_rules-Adds s c.rules valid.own_names
          (new_server-IsFree cd ns svc ca k port c.rules made) in
      (t, added, answers t c.rules served)
    where
      answers :
          (t : Server) (rules : List Rule)
          → All (IsServed L t) rules
          → All
              (λ rule.
                (request : AdmissionRequest)
                → review t.handler (path_of rule) request
                  ≡ mutate_admission L (graffiti_rule rule) request)
              rules
      answers t [] h = tt
      answers t (rule ∷ rules) (served, h) =
          (review-found t.handler (path_of rule) _ served, answers t rules h)
