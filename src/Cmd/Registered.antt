-- ===== src/Cmd/Registered.antt =====
-- The rules of a configuration in the API server.
use kube_graffiti.Common.{
  String, ◌≡◌, ◌≢◌, refl, sym, subst, ◌∙◌, Option, some, List, [], ◌∷◌, Result, ok, err, abort,
  ◌>>=◌, All, IsOk,
}
use kube_graffiti.Graffiti.Libs.{Libs}
use kube_graffiti.Kubernetes.{ConfigMap}
use kube_graffiti.Webhook.Server.{Server, WebhookListener, start_webhook_server, new_server}
use kube_graffiti.Webhook.Registration.{Unicode, HookClient, WebhookConfig, register_hook}
use kube_graffiti.Webhook.Registration.Replaced.{
  IsStore, IsWebhookOf, register_hook-registers, register_hook-other,
}
use kube_graffiti.Config.{Rule, Configuration}
use kube_graffiti.Config.Validity.{HasOwnNames, IsValid}
use kube_graffiti.Cmd.{
  ServerSettings, add_rules, unless_failed, register_rules, register_on, init_webhook_server,
}
use kube_graffiti.Cmd.Rules.{IsServed, IsFree, add_rules-Adds, new_server-IsFree}

-- Names that differ from a rule's.
pub flipped :
    (rule : Rule) (rules : List Rule)
    → All (λ later. rule.registration.name ≢ later.registration.name) rules
    → All (λ later. later.registration.name ≢ rule.registration.name) rules
flipped rule [] h = tt
flipped rule (later ∷ rules) (n, h) = (λ same. n (sym same), flipped rule rules h)

module _ {S W : Type 0} (K : HookClient S W) (view : W → String → Option (WebhookConfig S))
    (store : IsStore K view) (U : Unicode) where
  -- The API server holds, under the rule's name, the webhook that the server and the registration ask
  -- for.
  abbrev pub IsRegistered : Server → W → Rule → Type 0
  IsRegistered s w rule =
      (hook : WebhookConfig S) × (view w rule.registration.name ≡ some hook)
      × IsWebhookOf K U s rule.registration hook

  -- However a step ends, what is true of its state and kept by the rest is true at the end.
  unless_failed-keeps :
      (Q : W → Type 0) (step : Result (Unit {0}) × W) (rest : W → Result (Unit {0}) × W)
      → Q step.1
      → ((w : W) → Q w → Q (rest w).1)
      → Q (unless_failed K U step rest).1
  unfolding unless_failed
  unless_failed-keeps Q (ok u, w) rest q keep = keep w q
  unless_failed-keeps Q (err e, w) rest q keep = q
  unless_failed-keeps Q (abort e, w) rest q keep = q

  -- Only a step that succeeded is followed by one that does.
  unless_failed-IsOk :
      (step : Result (Unit {0}) × W) (rest : W → Result (Unit {0}) × W)
      → IsOk (unless_failed K U step rest).0
      → IsOk step.0 × (unless_failed K U step rest ≡ rest step.1)
  unfolding unless_failed
  unless_failed-IsOk (ok u, w) rest h = (tt, refl)
  unless_failed-IsOk (err e, w) rest h = absurd h
  unless_failed-IsOk (abort e, w) rest h = absurd h

  pub register_rules-other :
      (s : Server) (rules : List Rule) (w : W) (j : String)
      → All (λ rule. rule.registration.name ≢ j) rules
      → view (register_rules K U s rules w).1 j ≡ view w j
  unfolding register_rules
  register_rules-other s [] w j others = refl
  register_rules-other s (rule ∷ rules) w j (differ, others) =
      unless_failed-keeps (λ w'. view w' j ≡ view w j) (register_hook K U s rule.registration w)
        (λ w'. register_rules K U s rules w')
        (register_hook-other K view store U s rule.registration w j differ)
        (λ w' same. register_rules-other s rules w' j others ∙ same)

  register_rules-Registered :
      (s : Server) (rules : List Rule) (w : W)
      → HasOwnNames rules
      → IsOk (register_rules K U s rules w).0
      → All (IsRegistered s (register_rules K U s rules w).1) rules
  unfolding register_rules
  register_rules-Registered s [] w own done = tt
  register_rules-Registered s (rule ∷ rules) w (differ, own) done =
      let step = register_hook K U s rule.registration w in
      let (first, same) = unless_failed-IsOk step (λ w'. register_rules K U s rules w') done in
      let later = subst (λ r. IsOk r.0) same done in
      let (hook, there, is) = register_hook-registers K view store U s rule.registration w first in
      subst (λ r. All (IsRegistered s r.1) (rule ∷ rules)) (sym same)
        (
          (
            hook,
            register_rules-other s rules step.1 rule.registration.name (flipped rule rules differ)
                ∙ there,
            is,
          ),
          register_rules-Registered s rules step.1 own later,
        )

  module _ (N : WebhookListener W) where
    -- What is left of a start behind the new server.
    register_on-Registered :
        (L : Libs) (c : Configuration) (st : ServerSettings) (made : Result Server) (w : W)
        → IsValid L c
        → ((s : Server) → made ≡ ok s → All (IsFree s) c.rules)
        → IsOk (register_on K U N st (made >>= λ s. add_rules L s c.rules) c.rules w).0
        → (new s : Server) × (made ≡ ok new)
          × (add_rules L new c.rules ≡ ok s)
          × All (IsServed L s) c.rules
          × All
              (IsRegistered s
                (register_on K U N st (made >>= λ s. add_rules L s c.rules) c.rules w).1)
              c.rules
    unfolding register_on
    register_on-Registered L c st (ok new) w valid free done =
        let (s, added, served, kept) =
          add_rules-Adds L new c.rules valid.own_names (free new refl) in
        (
          new,
          s,
          refl,
          added,
          served,
          rw added (
              register_rules-Registered s c.rules
                (start_webhook_server N s st.cert_path st.key_path w) valid.own_names
                (rw added at done)),
        )
    register_on-Registered L c st (err e) w valid free done = absurd done
    register_on-Registered L c st (abort e) w valid free done = absurd done

    -- A start of the webhook server that returns no error, on a valid configuration, has read the
    -- certificate, made a server with every rule at its path, and leaves the webhook of every rule in the
    -- API server, which calls that path.
    pub init_webhook_server-Registered :
        (L : Libs) (c : Configuration) (st : ServerSettings) (ca : Result String) (k : ConfigMap)
        (w : W)
        → IsValid L c
        → IsOk (init_webhook_server K U N L c st ca k w).0
        → (pem : String) × (new s : Server) × (ca ≡ ok pem)
          × (new_server st.company_domain st.namespace st.service pem k st.port ≡ ok new)
          × (add_rules L new c.rules ≡ ok s)
          × All (IsServed L s) c.rules
          × All (IsRegistered s (init_webhook_server K U N L c st ca k w).1) c.rules
    unfolding init_webhook_server
    init_webhook_server-Registered L c st (ok pem) k w valid done =
        let (new, s, made, added, served, registered) =
          register_on-Registered L c st
            (new_server st.company_domain st.namespace st.service pem k st.port) w valid
            (λ new made.
              new_server-IsFree L st.company_domain st.namespace st.service pem k st.port c.rules
                made)
            done in
        (pem, new, s, refl, made, added, served, registered)
    init_webhook_server-Registered L c st (err e) k w valid done = absurd done
    init_webhook_server-Registered L c st (abort e) k w valid done = absurd done
