-- ===== src/Cmd/Entered.antt =====
-- The rules of a configuration, whatever they are, against a registry of rules by their names.
use kube_graffiti.Common.{
  panics, String, ◌≡◌, refl, Option, none, some, List, [], ◌∷◌, Result, ok, abort, ◌>>=◌,
}
use kube_graffiti.Decimal.{ℤ}
use kube_graffiti.Graffiti.Libs.{Libs}
use kube_graffiti.Graffiti.Rule.{AdmissionRequest}
use kube_graffiti.Webhook.PathEscape.{path_from_name}
use kube_graffiti.Webhook.Handler.{review}
use kube_graffiti.Kubernetes.{ConfigMap}
use kube_graffiti.Webhook.Server.{Server, new_server, add_graffiti_rule}
use kube_graffiti.Webhook.Server.Registry.{
  Registry, find, enter, Represents, Follows, new_server-Represents, add_graffiti_rule-Follows,
  reply_of, review-Represents,
}
use kube_graffiti.Config.{Rule, graffiti_rule}
use kube_graffiti.Cmd.{add_rules}

-- The rules entered in turn, none if a name comes twice.
abbrev pub enter_all : Registry → List Rule → Option Registry
enter_all registry [] = some registry
enter_all registry (rule ∷ rules) = elim (enter (graffiti_rule rule) registry) [
  | none ↦ none
  | some more ↦ enter_all more rules
]

module _ (L : Libs) where
  add_rules-Follows :
      (registry : Registry) (s : Server) (rules : List Rule)
      → Represents L registry s
      → Follows L (enter_all registry rules) (add_rules L s rules)
  unfolding add_rules
  add_rules-Follows registry s [] r = (s, refl, r)
  add_rules-Follows registry s (rule ∷ rules) r =
      go (enter (graffiti_rule rule) registry)
        (add_graffiti_rule-Follows L registry s (graffiti_rule rule) r)
        (λ more t kept. add_rules-Follows more t rules kept)
    where
      go :
          (o : Option Registry)
          → Follows L o (add_graffiti_rule L s (graffiti_rule rule))
          → ((more : Registry) (t : Server)
              → Represents L more t
              → Follows L (enter_all more rules) (add_rules L t rules))
          → Follows L
              (elim o [ none ↦ none | some more ↦ enter_all more rules ])
              (add_graffiti_rule L s (graffiti_rule rule) >>= λ added. add_rules L added rules)
      go none (message, ends) later = rw ends (message, refl)
      go (some more) (t, added, kept) later = rw added (later more t kept)

  -- What a server that follows the registry does: with a name twice, the start panics; else there is a
  -- server that answers at the path of any name as the registry does.
  abbrev pub Serves : Option Registry → Result Server → Type 0
  Serves none r = (message : String) × (r ≡ abort (panics message))
  Serves (some registry) r =
      (t : Server) × (r ≡ ok t)
      × ((name : String) (request : AdmissionRequest)
          → review t.handler (path_from_name name) request
            ≡ reply_of L (find name registry) request)

  Follows-Serves : (o : Option Registry) (r : Result Server) → Follows L o r → Serves o r
  Follows-Serves none r ends = ends
  Follows-Serves (some registry) r (t, made, kept) = (t, made, review-Represents L registry t kept)

  -- Any rules, valid or not, that are added to a new server in turn do there what they do in a
  -- registry of rules by names: a name that comes twice makes the mux panic, and else the handler
  -- answers at the path of every name, of a rule or not, as the registry does.
  pub add_rules-Serves :
      (cd ns svc ca : String) (k : ConfigMap) (port : ℤ) {s : Server} (rules : List Rule)
      → new_server cd ns svc ca k port ≡ ok s
      → Serves (enter_all [] rules) (add_rules L s rules)
  add_rules-Serves cd ns svc ca k port {s} rules made =
      Follows-Serves (enter_all [] rules) (add_rules L s rules)
        (add_rules-Follows [] s rules (new_server-Represents L cd ns svc ca k port made))
