-- ===== src/Cmd/Partial.antt =====
-- What a failed registration leaves in the API server.
use kube_graffiti.Common.{
  String, ◌≡◌, ◌≢◌, refl, sym, ap, subst, ◌∙◌, Option, List, [], ◌∷◌, ◌++◌, Result, ok, err, abort,
  All, IsOk, ◌⊎◌, inl, inr,
}
use kube_graffiti.Webhook.Server.{Server}
use kube_graffiti.Webhook.Registration.{Unicode, HookClient, WebhookConfig, register_hook}
use kube_graffiti.Webhook.Registration.Replaced.{
  IsStore, register_hook-registers, register_hook-other,
}
use kube_graffiti.Config.{Rule}
use kube_graffiti.Config.Validity.{HasOwnNames}
use kube_graffiti.Cmd.{unless_failed, register_rules}
use kube_graffiti.Cmd.Registered.{IsRegistered, flipped, register_rules-other}

abbrev pub AreOther : String → List Rule → Type 0
AreOther j = All (λ rule. rule.registration.name ≢ j)

module _ {S W : Type 0} (K : HookClient S W) (view : W → String → Option (WebhookConfig S))
    (store : IsStore K view) (U : Unicode) (s : Server) where
  -- A failure at one rule, at the state `at` that the rules before it led to: these are registered, and
  -- nothing changes under names that none of them and not the rule itself has.
  pub record StopsAt (rules : List Rule) (w w' : W) : Type 0 where
    pub before : List Rule
    pub rule : Rule
    pub after : List Rule
    pub rules_are : rules ≡ before ++ rule ∷ after
    pub registered : All (IsRegistered K view store U s w') before
    pub at : W
    pub reached : ◌≡◌ {A = Result (Unit {0}) × W} (register_rules K U s before w) (ok tt, at)
    pub left : w' ≡ (register_hook K U s rule.registration at).1
    pub failed : ¬ IsOk (register_hook K U s rule.registration at).0
    pub untouched :
        (j : String) → AreOther j before → rule.registration.name ≢ j → view w' j ≡ view w j

  -- How the loop over the registrations ends.
  abbrev pub Ended : List Rule → W → Result (Unit {0}) × W → Type 0
  Ended rules w (r, w') =
      (IsOk r × All (IsRegistered K view store U s w') rules) ⊎ ((¬ IsOk r) × StopsAt rules w w')

  unless_failed-cases :
      (step : Result (Unit {0}) × W)
      → (IsOk step.0
          × ((rest : W → Result (Unit {0}) × W) → unless_failed K U step rest ≡ rest step.1))
        ⊎ ((¬ IsOk step.0)
            × ((rest : W → Result (Unit {0}) × W) → unless_failed K U step rest ≡ step))
  unfolding unless_failed
  unless_failed-cases (ok u, w) = inl (tt, λ rest. refl)
  unless_failed-cases (err e, w) = inr ((λ h. h), λ rest. refl)
  unless_failed-cases (abort e, w) = inr ((λ h. h), λ rest. refl)

  -- The loop over the registrations of rules with names of their own, on an API server that stores
  -- configurations by name: either it succeeds and every rule is registered, or it fails and has
  -- stopped at the first rule for which RegisterHook failed, with the state that this left; the rules
  -- before that one stay registered, and nothing has changed under any name but theirs and its own.
  pub register_rules-Ended :
      (rules : List Rule) (w : W) → HasOwnNames rules → Ended rules w (register_rules K U s rules w)
  unfolding register_rules
  register_rules-Ended [] w own = inl (tt, tt)
  register_rules-Ended (rule ∷ rules) w (differ, own) =
      let step = register_hook K U s rule.registration w in
      elim (unless_failed-cases step) [
        | inr (failed, ends) ↦
            subst (Ended (rule ∷ rules) w) (sym (ends (register_rules K U s rules))) (
              inr (
                failed,
                record {
                  before = [];
                  rule = rule;
                  after = rules;
                  rules_are = refl;
                  registered = tt;
                  at = w;
                  reached = refl;
                  left = refl;
                  failed = failed;
                  untouched =
                      λ j none_ n. register_hook-other K view store U s rule.registration w j n;
                },
              ))
        | inl (done, goes_on) ↦
            let (hook, there, is) =
              register_hook-registers K view store U s rule.registration w done in
            let kept =
              register_rules-other K view store U s rules step.1 rule.registration.name
                (flipped rule rules differ) in
            let here : IsRegistered K view store U s (register_rules K U s rules step.1).1 rule =
              (hook, kept ∙ there, is) in
            subst (Ended (rule ∷ rules) w) (sym (goes_on (register_rules K U s rules)))
              (elim (register_rules-Ended rules step.1 own) [
                | inl (all_done, registered) ↦ inl (all_done, (here, registered))
                | inr (failed, stops) ↦ inr (
                  failed,
                  record {
                    before = rule ∷ stops.before;
                    rule = stops.rule;
                    after = stops.after;
                    rules_are = ap (λ l. rule ∷ l) stops.rules_are;
                    registered = (here, stops.registered);
                    at = stops.at;
                    reached = goes_on (register_rules K U s stops.before) ∙ stops.reached;
                    left = stops.left;
                    failed = stops.failed;
                    untouched = λ j others n.
                        stops.untouched j others.1 n
                        ∙ register_hook-other K view store U s rule.registration w j others.0;
                  },
                )
              ])
      ]
