-- ===== src/Config/Validity.antt =====
-- When a configuration is valid.
use kube_graffiti.Common.{
  ◌≡◌, ◌≢◌, refl, Bool, true, false, Option, none, some, List, [], ◌∷◌, ok, err, if◌then◌else◌,
  ◌>>◌, Bool-cases, inl, inr, eq_iff, str-cases, IsOk, then_iff, same_iff, All, ◌↔◌, is_empty, ◌<>◌,
}
use kube_graffiti.Dict.{Dict, lookup, insert}
use kube_graffiti.Dict.Laws.{lookup-insert}
use kube_graffiti.Log.{Level, log_levels}
use kube_graffiti.Graffiti.Libs.{Libs}
use kube_graffiti.Graffiti.Rule.{validate as validate_rule}
use kube_graffiti.Config.{
  Rule, Configuration, graffiti_rule, validate_log_args, validate_webhook_args, is_set,
  validate_each, validate_rules, validate_config,
}

-- Every rule has a name of its own.
abbrev pub HasOwnNames : List Rule → Type 0
HasOwnNames [] = Unit
HasOwnNames (rule ∷ rules) =
    All (λ later. rule.registration.name ≢ later.registration.name) rules × HasOwnNames rules

module _ (L : Libs) where
  abbrev pub AllValid : List Rule → Type 0
  AllValid rules = All (λ rule. IsOk (validate_rule L (graffiti_rule rule))) rules

  -- The names that were seen.
  abbrev IsFresh : Dict Bool → Rule → Type 0
  IsFresh seen rule = is_set (lookup rule.registration.name seen) ≡ false

  pub record IsValid (c : Configuration) : Type 0 where
    pub level : lookup c.log_level log_levels ≢ none
    pub namespace : c.server.namespace ≢ ""
    pub service : c.server.service ≢ ""
    pub given : c.rules ≢ []
    pub own_names : HasOwnNames c.rules
    pub rules : AllValid c.rules

  abbrev Differs : Rule → Rule → Type 0
  Differs rule later = rule.registration.name ≢ later.registration.name

  IsFresh-insert_iff :
      (seen : Dict Bool) (rule later : Rule)
      → IsFresh (insert rule.registration.name true seen) later
        ↔ (Differs rule later × IsFresh seen later)
  IsFresh-insert_iff seen rule later =
      let step = lookup-insert rule.registration.name true seen later.registration.name in
      elim (str-cases rule.registration.name later.registration.name) [
        | inl same ↦ (
          λ h. cc (rw (step, (eq_iff rule.registration.name later.registration.name).1 same) at h),
          λ h. absurd (h.0 same),
        )
        | inr other ↦ (
          λ h. (
            λ same. cc ((eq_iff rule.registration.name later.registration.name).1 same),
            rw (step, other) at h,
          ),
          λ h. rw (step, other) (h.1),
        )
      ]

  AllFresh-insert_iff :
      (seen : Dict Bool) (rule : Rule) (rules : List Rule)
      → All (IsFresh (insert rule.registration.name true seen)) rules
        ↔ (All (Differs rule) rules × All (IsFresh seen) rules)
  AllFresh-insert_iff seen rule [] = (λ h. (tt, tt), λ h. tt)
  AllFresh-insert_iff seen rule (later ∷ rules) =
      let (to, from) = IsFresh-insert_iff seen rule later in
      let (tos, froms) = AllFresh-insert_iff seen rule rules in
      (
        λ h. let (d, f) = to h.0 in let (ds, fs) = tos h.1 in ((d, ds), (f, fs)),
        λ h. (from (h.0.0, h.1.0), froms (h.0.1, h.1.1)),
      )

  abbrev EachValid : Dict Bool → List Rule → Type 0
  EachValid seen rules = All (IsFresh seen) rules × HasOwnNames rules × AllValid rules

  validate_each_iff :
      (seen : Dict Bool) (rules : List Rule)
      → IsOk (validate_each L seen rules) ↔ EachValid seen rules
  unfolding validate_each
  validate_each_iff seen [] = (λ h. (tt, tt, tt), λ h. tt)
  validate_each_iff seen (rule ∷ rules) =
      let name = rule.registration.name in
      let (apart, together) = AllFresh-insert_iff seen rule rules in
      let (to, from) =
        then_iff (validate_rule L (graffiti_rule rule))
          (validate_each L (insert name true seen) rules) same_iff
          (validate_each_iff (insert name true seen) rules) in
      elim (Bool-cases (is_set (lookup name seen))) [
        | inl seen_before ↦ rw seen_before (λ h. absurd h, λ h. let e = h.0.0 in cc)
        | inr fresh ↦ rw fresh (
          λ h.
              let (good, rest) = to h in
              let (differs, others) = apart rest.0 in
              ((refl, others), (differs, rest.1), (good, rest.2)),
          λ h. from (h.2.0, (together (h.1.0, h.0.1), h.1.1, h.2.1)),
        )
      ]

  log_args_iff :
      (c : Configuration) → IsOk (validate_log_args c) ↔ (lookup c.log_level log_levels ≢ none)
  unfolding validate_log_args
  log_args_iff c = go (lookup c.log_level log_levels)
    where
      go :
          (o : Option Level)
          → IsOk {0} (elim o [
            | some level ↦ ok tt
            | none ↦ err (c.log_level <> " is not a valid log-level")
          ])
            ↔ (o ≢ none)
      go none = (λ h. absurd h, λ h. absurd (h refl))
      go (some level) = (λ h. λ e. cc, λ h. tt)

  webhook_args_iff :
      (c : Configuration)
      → IsOk (validate_webhook_args c) ↔ ((c.server.namespace ≢ "") × (c.server.service ≢ ""))
  unfolding validate_webhook_args
  webhook_args_iff c = elim (str-cases c.server.namespace "") [
    | inl same ↦
        let test = (eq_iff c.server.namespace "").1 same in
        (λ h. absurd (rw test at h), λ h. absurd (h.0 same))
    | inr other ↦ elim (str-cases c.server.service "") [
      | inl same ↦
          let test = (eq_iff c.server.service "").1 same in
          (λ h. absurd (rw (other, test) at h), λ h. absurd (h.1 same))
      | inr also ↦ (
        λ h. (
          λ e. let test = (eq_iff c.server.namespace "").1 e in cc,
          λ e. let test = (eq_iff c.server.service "").1 e in cc,
        ),
        λ h. rw (other, also) (tt {0}),
      )
    ]
  ]

  rules_iff :
      (c : Configuration)
      → IsOk (validate_rules L c) ↔ ((c.rules ≢ []) × HasOwnNames c.rules × AllValid c.rules)
  unfolding validate_rules lookup
  rules_iff c = go c.rules
    where
      all_fresh : (rules : List Rule) → All (IsFresh []) rules
      all_fresh [] = tt
      all_fresh (rule ∷ rules) = (refl, all_fresh rules)

      go :
          (rules : List Rule)
          → IsOk (if is_empty rules then err "no rules found" else validate_each L [] rules)
            ↔ ((rules ≢ []) × HasOwnNames rules × AllValid rules)
      go [] = (λ h. absurd h, λ h. absurd (h.0 refl))
      go (rule ∷ rules) =
          let (to, from) = validate_each_iff [] (rule ∷ rules) in
          (
            λ h. let (fresh, own, valid) = to h in (λ e. cc, own, valid),
            λ h. from (all_fresh (rule ∷ rules), h.1, h.2),
          )

  -- ValidateConfig accepts a configuration exactly when its log level is one of the six, the server
  -- has a namespace and a service, there is a rule, no two rules have the same name, and each rule is
  -- itself valid.
  pub validate_config_iff : (c : Configuration) → IsOk (validate_config L c) ↔ IsValid c
  unfolding validate_config
  validate_config_iff c =
      let (to, from) =
        then_iff (validate_log_args c) (validate_webhook_args c >> validate_rules L c)
          (log_args_iff c)
          (then_iff (validate_webhook_args c) (validate_rules L c) (webhook_args_iff c)
            (rules_iff c)) in
      (
        λ h.
            let (level, rest) = to h in
            let ((namespace, service), (given, own_names, rules)) = rest in
            record {
              level = level;
              namespace = namespace;
              service = service;
              given = given;
              own_names = own_names;
              rules = rules;
            },
        λ v. from (v.level, ((v.namespace, v.service), (v.given, v.own_names, v.rules))),
      )
