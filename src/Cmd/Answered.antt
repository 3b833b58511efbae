-- ===== src/Cmd/Answered.antt =====
-- From the configuration to the answers: the API server calls, and the handler answers as the rule.
use kube_graffiti.Common.{
  String, ◌≡◌, refl, ◌∙◌, Option, some, List, [], ◌∷◌, Result, ok, ◌>>=◌, All, IsOk, eq_iff,
}
use kube_graffiti.Graffiti.Libs.{Libs}
use kube_graffiti.Graffiti.Rule.{AdmissionRequest, AdmissionResponse, mutate_admission}
use kube_graffiti.Webhook.Handler.{
  GraffitiHandler, Request, ReviewCodec, written, review, answer, decode, serve_http,
}
use kube_graffiti.Webhook.Handler.Answers.{Asks}
use kube_graffiti.Kubernetes.{ConfigMap}
use kube_graffiti.Webhook.Server.{Server, WebhookListener, new_server}
use kube_graffiti.Webhook.Registration.{Unicode, HookClient, WebhookConfig}
use kube_graffiti.Webhook.Registration.Replaced.{IsStore}
use kube_graffiti.Config.{Configuration, Rule, graffiti_rule}
use kube_graffiti.Config.Validity.{IsValid}
use kube_graffiti.Cmd.{ServerSettings, add_rules, init_webhook_server}
use kube_graffiti.Cmd.Rules.{path_of, IsServed, review-found}
use kube_graffiti.Cmd.Registered.{IsRegistered, init_webhook_server-Registered}

module _ (C : ReviewCodec) (h : GraffitiHandler) (r : Request) where
  serve_http-review :
      (request : AdmissionRequest) (resp : AdmissionResponse) (body : String)
      → Asks C h r request
      → review h r.path request ≡ ok resp
      → written (C.marshal_response (record resp { uid = request.uid })) ≡ ok body
      → serve_http C h r
        ≡ ok (record { status = 200; content_type = "application/json"; body = body })
  unfolding serve_http decode answer
  serve_http-review request resp body asks reviewed wrote =
      rw
        (
          (eq_iff r.method "POST").1 asks.post,
          (eq_iff r.content_type "application/json").1 asks.json,
          asks.decoded,
          reviewed,
          wrote,
        )
        refl

module _ {S W : Type 0} (K : HookClient S W) (view : W → String → Option (WebhookConfig S))
    (store : IsStore K view) (U : Unicode) (L : Libs) (C : ReviewCodec) where
  -- The API server holds a webhook under the rule's name, and a review that is posted to its path is
  -- answered with the rule's response to the request, under the request's identifier.
  abbrev pub IsAnswered : Server → W → Rule → Type 0
  IsAnswered s w rule =
      (hook : WebhookConfig S) × (view w rule.registration.name ≡ some hook)
      × ((r : Request) (request : AdmissionRequest) (resp : AdmissionResponse) (body : String)
          → r.path ≡ hook.path
          → Asks C s.handler r request
          → mutate_admission L (graffiti_rule rule) request ≡ ok resp
          → written (C.marshal_response (record resp { uid = request.uid })) ≡ ok body
          → serve_http C s.handler r
            ≡ ok (record { status = 200; content_type = "application/json"; body = body }))

  rule-IsAnswered :
      (s : Server) (w : W) (rule : Rule)
      → IsServed L s rule
      → IsRegistered K view store U s w rule
      → IsAnswered s w rule
  rule-IsAnswered s w rule served (hook, there, is) = (
    hook,
    there,
    λ r request resp body at_path asks answered wrote.
        serve_http-review C s.handler r request resp body asks
          (rw (at_path, is.path)
            (review-found s.handler (path_of rule) _ served request ∙ answered))
          wrote,
  )

  rules-IsAnswered :
      (s : Server) (w : W) (rules : List Rule)
      → All (IsServed L s) rules
      → All (IsRegistered K view store U s w) rules
      → All (IsAnswered s w) rules
  rules-IsAnswered s w [] served registered = tt
  rules-IsAnswered s w (rule ∷ rules) (here, served) (there, registered) =
      (rule-IsAnswered s w rule here there, rules-IsAnswered s w rules served registered)

  -- After a start of the webhook server on a valid configuration that returns no error, the API server
  -- holds a webhook for every rule, under its name, and an admission review that is posted as JSON to
  -- the path of that webhook gets status 200 and the response that this rule gives to the request, with
  -- the request's identifier, if the rule gives one and it can be marshalled.
  pub init_webhook_server-Answered :
      (N : WebhookListener W) (c : Configuration) (st : ServerSettings) (ca : Result String)
      (k : ConfigMap) (w : W)
      → IsValid L c
      → IsOk (init_webhook_server K U N L c st ca k w).0
      → (pem : String) × (s : Server) × (ca ≡ ok pem)
        × ((new_server st.company_domain st.namespace st.service pem k st.port >>= λ new.
              add_rules L new c.rules)
            ≡ ok s)
        × All (IsAnswered s (init_webhook_server K U N L c st ca k w).1) c.rules
  init_webhook_server-Answered N c st ca k w valid done =
      let (pem, new, s, read, made, added, served, registered) =
        init_webhook_server-Registered K view store U N L c st ca k w valid done in
      (pem, s, read, rw made added, rules-IsAnswered s _ c.rules served registered)
