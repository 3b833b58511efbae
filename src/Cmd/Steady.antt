-- ===== src/Cmd/Steady.antt =====
-- A server with the rules of a configuration answers all but one kind of request.
use kube_graffiti.Common.{
  String, ◌≡◌, none, subst, ◌↔◌, true, List, [], ◌∷◌, ok, Returns, with_value, >>=-eq-ok, All,
  ok_injective,
}
use kube_graffiti.Decimal.{ℤ}
use kube_graffiti.Http.{handle}
use kube_graffiti.Graffiti.Libs.{Libs}
use kube_graffiti.Graffiti.Libs as GraffitiLibs
use kube_graffiti.Graffiti.Operator.{is_a_boolean_operator}
use kube_graffiti.Graffiti.Rule.{AdmissionRequest, AdmissionResponse, mutate_admission}
use kube_graffiti.Graffiti.Rule as GraffitiRule
use kube_graffiti.Graffiti.Rule.Responding.{mutate_admission-IsFormed}
use kube_graffiti.Webhook.PathEscape.{path_from_name}
use kube_graffiti.Webhook.Handler.{Request, ReviewCodec, serve_http}
use kube_graffiti.Webhook.Handler.Returning.{
  AllAnswer, DoesNotPanic, add_rule-AllAnswer, serve_http-Returns_iff,
}
use kube_graffiti.Kubernetes.{ConfigMap}
use kube_graffiti.Webhook.Server.{Server, config_tls, server_with, new_server, add_graffiti_rule}
use kube_graffiti.Config.{Rule, graffiti_rule}
use kube_graffiti.Cmd.{add_rules}

new_server-AllAnswer :
    (cd ns svc ca : String) (k : ConfigMap) (port : ℤ) {s : Server}
    → new_server cd ns svc ca k port ≡ ok s
    → AllAnswer s.handler.tagmap
unfolding new_server server_with
new_server-AllAnswer cd ns svc ca k port made =
    let (tls, configured, final) = >>=-eq-ok (config_tls k) _ made in
    subst (λ (x : Server). AllAnswer x.handler.tagmap) (ok_injective final) tt

module _ (L : Libs) (safe : GraffitiLibs.DoesNotPanic L) where
  rule-Returns :
      (r : GraffitiRule.Rule) (request : AdmissionRequest)
      → is_a_boolean_operator r.matchers.boolean_operator ≡ true
      → Returns (mutate_admission L r request)
  rule-Returns r request known =
      let (resp, answers, formed) = mutate_admission-IsFormed L safe r request known in
      rw answers with_value

  -- The rules have one of the three operators.
  abbrev pub HaveOperators : List Rule → Type 0
  HaveOperators = All (λ rule. is_a_boolean_operator rule.matchers.boolean_operator ≡ true)

  add_graffiti_rule-AllAnswer :
      (s : Server) (r : GraffitiRule.Rule) {t : Server}
      → is_a_boolean_operator r.matchers.boolean_operator ≡ true
      → add_graffiti_rule L s r ≡ ok t
      → AllAnswer s.handler.tagmap
      → AllAnswer t.handler.tagmap
  unfolding add_graffiti_rule
  add_graffiti_rule-AllAnswer s r known added all =
      let (patterns, handled, final) =
        >>=-eq-ok (handle s.patterns (path_from_name r.name)) _ added in
      subst (λ (x : Server). AllAnswer x.handler.tagmap) (ok_injective final)
        (add_rule-AllAnswer s.handler (path_from_name r.name) (mutate_admission L r)
          (λ request. rule-Returns r request known) all)

  add_rules-AllAnswer :
      (s : Server) (rules : List Rule) {t : Server}
      → HaveOperators rules
      → add_rules L s rules ≡ ok t
      → AllAnswer s.handler.tagmap
      → AllAnswer t.handler.tagmap
  unfolding add_rules
  add_rules-AllAnswer s [] known added all =
      subst (λ (x : Server). AllAnswer x.handler.tagmap) (ok_injective added) all
  add_rules-AllAnswer s (rule ∷ rules) (first, known) added all =
      let (u, one, rest) = >>=-eq-ok (add_graffiti_rule L s (graffiti_rule rule)) _ added in
      add_rules-AllAnswer u rules known rest
        (add_graffiti_rule-AllAnswer s (graffiti_rule rule) first one all)

  -- Where the other code does not panic, a new server to which rules with one of the three operators
  -- have been added panics on exactly the requests that are a POST of JSON which decodes to an
  -- admission review without a request; to every other request, at any path, its handler responds.
  pub add_rules-Returns_iff :
      (C : ReviewCodec)
      → DoesNotPanic C
      → (cd ns svc ca : String) (k : ConfigMap) (port : ℤ) {s t : Server} (rules : List Rule)
        (r : Request)
      → HaveOperators rules
      → new_server cd ns svc ca k port ≡ ok s
      → add_rules L s rules ≡ ok t
      → Returns (serve_http C t.handler r) ↔ (
          ¬ (
            (r.method ≡ "POST")
            × (r.content_type ≡ "application/json")
            × (C.decode_review r.body ≡ ok (record { request = none }))))
  add_rules-Returns_iff C careful cd ns svc ca k port {s} {t} rules r known made added =
      serve_http-Returns_iff C careful t.handler
        (add_rules-AllAnswer s rules known added (new_server-AllAnswer cd ns svc ca k port made)) r
