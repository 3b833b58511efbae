-- ===== src/Webhook/Registration/Replaced.antt =====
-- What a registration leaves in the API server.
use kube_graffiti.Common.{
  ℕ, arith, List, [], ◌∷◌, map, ◌⊎◌, ◌<>◌, String, ◌≡◌, ◌≢◌, refl, ◌∙◌, true, Option, some, Result,
  ok, err, abort, Bool-cases, inl, inr, IsOk,
}
use kube_graffiti.Webhook.PathEscape.{path_from_name}
use kube_graffiti.Webhook.Server.{Server}
use kube_graffiti.Webhook.Registration.{
  Registration, Target, RuleWithOperations, rule_of, title, codes, same_codes, ignore, fail,
  Unicode, FailurePolicy, failure_policy, WebhookConfig, HookClient, webhook_config, create_hook,
  replace_hook, register_hook, proceed,
}

-- The documented behaviour of the API server's webhook configurations, as the client sees them by
-- `view`: a read changes nothing, a call concerns its own name alone, and a configuration that is
-- created is there.
pub record IsStore {S W : Type 0} (K : HookClient S W)
    (view : W → String → Option (WebhookConfig S)) : Type 0 where
  pub get_view : (n : String) (w : W) (j : String) → view (K.get n w).1 j ≡ view w j
  pub delete_other : (n : String) (w : W) (j : String) → n ≢ j → view (K.delete n w).1 j ≡ view w j
  pub create_other :
      (c : WebhookConfig S) (w : W) (j : String) → c.name ≢ j → view (K.create c w).1 j ≡ view w j
  pub create_self :
      (c : WebhookConfig S) (w : W)
      → (K.create c w).0 ≡ true
      → view (K.create c w).1 c.name ≡ some c

same_codes-eq : (a b : List ℕ) → same_codes a b ≡ true → a ≡ b
same_codes-eq [] [] e = refl
same_codes-eq [] (y ∷ b) e = cc
same_codes-eq (x ∷ a) [] e = cc
same_codes-eq (x ∷ a) (y ∷ b) e = let rest = same_codes-eq a b in ground arith

-- The policy is what the title of the text spells.
abbrev pub Spells : Unicode → String → FailurePolicy → Type 0
Spells U text policy =
    ((title U text ≡ codes "Ignore") × (policy ≡ ignore))
    ⊎ ((title U text ≡ codes "Fail") × (policy ≡ fail))

failure_policy-Spells :
    (U : Unicode) (text : String) {policy : FailurePolicy}
    → failure_policy U text ≡ ok policy
    → Spells U text policy
unfolding failure_policy
failure_policy-Spells U text e = elim (Bool-cases (same_codes (title U text) (codes "Ignore"))) [
  | inl same ↦ inl (same_codes-eq _ _ same, cc (rw same at e))
  | inr other ↦ elim (Bool-cases (same_codes (title U text) (codes "Fail"))) [
    | inl same ↦ inr (same_codes-eq _ _ same, cc (rw (other, same) at e))
    | inr neither ↦ cc (rw (other, neither) at e)
  ]
]

-- One rule for each target, in their order, for the creation and the update of what it names.
abbrev pub AreRulesOf : List Target → List RuleWithOperations → Type 0
AreRulesOf [] [] = Unit
AreRulesOf (target ∷ targets) (rule ∷ rules) =
    (rule.operations ≡ "CREATE" ∷ "UPDATE" ∷ [])
    × (rule.api_groups ≡ target.api_groups)
    × (rule.api_versions ≡ target.api_versions)
    × (rule.resources ≡ target.resources)
    × AreRulesOf targets rules
AreRulesOf _ _ = ⊥

rule_of-AreRulesOf : (targets : List Target) → AreRulesOf targets (map rule_of targets)
unfolding rule_of
rule_of-AreRulesOf [] = tt
rule_of-AreRulesOf (target ∷ targets) = (refl, refl, refl, refl, rule_of-AreRulesOf targets)

-- The webhook that a server and a registration ask for.
pub record IsWebhookOf {S W : Type 0} (K : HookClient S W) (U : Unicode) (s : Server)
    (r : Registration) (hook : WebhookConfig S) : Type 0 where
  pub name : hook.name ≡ r.name
  pub webhook_name : hook.webhook_name ≡ r.name <> "." <> s.company_domain
  pub policy : Spells U r.failure_policy hook.policy
  pub selector : K.parse_to_label_selector r.namespace_selector ≡ ok hook.namespace_selector
  pub rules : AreRulesOf r.targets hook.rules
  pub service_namespace : hook.service_namespace ≡ s.namespace
  pub service_name : hook.service_name ≡ s.service
  pub path : hook.path ≡ path_from_name r.name
  pub ca_bundle : hook.ca_bundle ≡ s.ca_cert

webhook_config-IsWebhookOf :
    {S W : Type 0} (K : HookClient S W) (U : Unicode) (s : Server) (r : Registration) (x : S)
    (p : FailurePolicy)
    → K.parse_to_label_selector r.namespace_selector ≡ ok x
    → failure_policy U r.failure_policy ≡ ok p
    → IsWebhookOf K U s r (webhook_config K s r x p)
unfolding webhook_config
webhook_config-IsWebhookOf K U s r x p parsed spelled = record {
  name = refl;
  webhook_name = refl;
  policy = failure_policy-Spells U r.failure_policy spelled;
  selector = parsed;
  rules = rule_of-AreRulesOf r.targets;
  service_namespace = refl;
  service_name = refl;
  path = refl;
  ca_bundle = refl;
}

module _ {S W : Type 0} (K : HookClient S W) (view : W → String → Option (WebhookConfig S))
    (store : IsStore K view) where
  create_hook_self :
      (c : WebhookConfig S) (w : W)
      → IsOk (create_hook K c w).0
      → view (create_hook K c w).1 c.name ≡ some c
  unfolding create_hook
  create_hook_self c w h = elim (Bool-cases (K.create c w).0) [
    | inl created ↦ store.create_self c w created
    | inr refused ↦ absurd (rw refused at h)
  ]

  replace_hook_self :
      (c : WebhookConfig S) (w : W)
      → IsOk (replace_hook K c w).0
      → view (replace_hook K c w).1 c.name ≡ some c
  unfolding replace_hook
  replace_hook_self c w h = elim (Bool-cases (K.get c.name w).0) [
    | inr missing ↦ rw missing (create_hook_self c (K.get c.name w).1 (rw missing at h))
    | inl found ↦ elim (Bool-cases (K.delete c.name (K.get c.name w).1).0) [
      | inl deleted ↦
          rw (found, deleted)
            (create_hook_self c (K.delete c.name (K.get c.name w).1).1 (rw (found, deleted) at h))
      | inr kept ↦ absurd (rw (found, kept) at h)
    ]
  ]

  create_hook-other :
      (c : WebhookConfig S) (w : W) (j : String)
      → c.name ≢ j
      → view (create_hook K c w).1 j ≡ view w j
  unfolding create_hook
  create_hook-other c w j n = store.create_other c w j n

  replace_hook-other :
      (c : WebhookConfig S) (w : W) (j : String)
      → c.name ≢ j
      → view (replace_hook K c w).1 j ≡ view w j
  unfolding replace_hook
  replace_hook-other c w j n =
      let w1 = (K.get c.name w).1 in
      let read = store.get_view c.name w j in
      let gone = store.delete_other c.name w1 j n ∙ read in
      elim (Bool-cases (K.get c.name w).0) [
        | inr missing ↦ rw missing (create_hook-other c w1 j n ∙ read)
        | inl found ↦ elim (Bool-cases (K.delete c.name w1).0) [
          | inl deleted ↦
              rw (found, deleted) (create_hook-other c (K.delete c.name w1).1 j n ∙ gone)
          | inr kept ↦ rw (found, kept) gone
        ]
      ]

  module _ (U : Unicode) (s : Server) (r : Registration) (w : W) where
    -- What `register_hook` does with the two parsed settings.
    proceed-registers :
        (selector : Result S) (policy : Result FailurePolicy)
        → IsOk (proceed K s r w selector policy).0
        → (x : S) × (p : FailurePolicy) × (selector ≡ ok x)
          × (policy ≡ ok p)
          × (view (proceed K s r w selector policy).1 r.name ≡ some (webhook_config K s r x p))
    unfolding webhook_config
    proceed-registers (ok x) (ok p) h =
        (x, p, refl, refl, replace_hook_self (webhook_config K s r x p) w h)
    proceed-registers (ok x) (err e) h = absurd h
    proceed-registers (ok x) (abort e) h = absurd h
    proceed-registers (err e) p h = absurd h
    proceed-registers (abort e) p h = absurd h

    proceed-other :
        (selector : Result S) (policy : Result FailurePolicy) (j : String)
        → r.name ≢ j
        → view (proceed K s r w selector policy).1 j ≡ view w j
    unfolding webhook_config
    proceed-other (ok x) (ok p) j n = replace_hook-other (webhook_config K s r x p) w j n
    proceed-other (ok x) (err e) j n = refl
    proceed-other (ok x) (abort e) j n = refl
    proceed-other (err e) p j n = refl
    proceed-other (abort e) p j n = refl

    -- After a registration that returns no error, whether or not there was a webhook before, the API
    -- server holds under its name a webhook which has this name with the company's domain, the namespace
    -- selector as it was parsed, the failure policy that the title of its text spells, Ignore or Fail,
    -- one rule for each target, for the creation and the update of what the target lists, and which
    -- calls the server's service in its namespace, at the path of the name, with the server's
    -- certificate.
    pub register_hook-registers :
        IsOk (register_hook K U s r w).0
        → (hook : WebhookConfig S) × (view (register_hook K U s r w).1 r.name ≡ some hook)
          × IsWebhookOf K U s r hook
    unfolding register_hook
    register_hook-registers h =
        let (x, p, parsed, spelled, there) = proceed-registers _ _ h in
        (webhook_config K s r x p, there, webhook_config-IsWebhookOf K U s r x p parsed spelled)

    -- Whether it fails or not, a registration leaves the webhooks of other names as they are.
    pub register_hook-other :
        (j : String) → r.name ≢ j → view (register_hook K U s r w).1 j ≡ view w j
    unfolding register_hook
    register_hook-other j n = proceed-other _ _ j n
