-- ===== src/Existing/Groups/Confined.antt =====
-- The check of existing objects keeps to the targets of the rules.
use kube_graffiti.Common.{
  panics, exits, ok, err, abort, map, [], ◌∷◌, str-cases, eq_iff, Option, ℕ, String, ◌≡◌, refl, sym,
  ap, none, subst, true, some, List, Some, here, there, Result, Bool-cases, inl, inr, ◌⊎◌,
}
use kube_graffiti.Graffiti.Libs.{Libs}
use kube_graffiti.Webhook.Registration.{Target}
use kube_graffiti.Config.{Rule}
use kube_graffiti.Existing.Namespaces.{NamespaceCache, Reflector, start_namespace_reflector}
use kube_graffiti.Existing.Objects.{GroupVersionResource, DynamicClient, resource_of}
use kube_graffiti.Existing.Targets.{is_targetted, resource_targets}
use kube_graffiti.Existing.Paging.{apply_to_all_resources_of_type}
use kube_graffiti.Existing.Groups.{
  Discovered, Outcome, ApiGroup, is_wildcard, result_of, state_of, preferred_version, resources_of,
  is_resource_wildcard, target_groups, apply_to_all_resources_in_a_group_version,
  apply_to_targettted_api_groups_and_versions, apply_rule_against_existing_objects, for_each,
  close_after, apply_rules_against_existing_objects,
}
use kube_graffiti.Dict.{Dict}
use kube_graffiti.Existing.Groups.Targeted.{
  Reaches, Reaches-wildcard, is_targetted-resource_targets_iff,
}
use kube_graffiti.Existing.Groups.Reached.{
  Calls, Ends, for_each-Ends, when-Ends, apply_to_all_resources_of_type-Ends,
}

-- A list of versions names one, or has the wildcard.
abbrev pub HasVersion : String → List String → Type 0
HasVersion version = Some (λ t. (t ≡ "*") ⊎ (t ≡ version))

is_targetted-HasVersion :
    (version : String) (versions : List String)
    → is_targetted version versions ≡ true
    → HasVersion version versions
unfolding is_targetted
is_targetted-HasVersion version [] e = cc
is_targetted-HasVersion version (t ∷ versions) e = elim (str-cases t "*") [
  | inl star ↦ here (inl star)
  | inr plain ↦ elim (str-cases version t) [
    | inl same ↦ here (inr (sym same))
    | inr other ↦ there (is_targetted-HasVersion version versions (rw (plain, other) at e))
  ]
]

-- A target goes through the groups that it lists, or for the wildcard alone through all discovered.
abbrev pub GoesThrough : Discovered → Target → String → Type 0
GoesThrough d target group =
    Some (λ g. g ≡ group) target.api_groups
    ⊎ ((target.api_groups ≡ "*" ∷ []) × Some (λ e. e.1.name ≡ group) d.api_groups)

is_wildcard-alone : (groups : List String) → is_wildcard groups ≡ true → groups ≡ "*" ∷ []
is_wildcard-alone [] e = cc
is_wildcard-alone (x ∷ []) e = ap (λ t. t ∷ []) ((eq_iff x "*").0 e)
is_wildcard-alone (x ∷ y ∷ groups) e = cc

Some-names :
    (groups : Dict ApiGroup) {group : String}
    → Some (λ g. g ≡ group) (map (λ e. e.1.name) groups)
    → Some (λ e. e.1.name ≡ group) groups
Some-names [] h = elim h [ ]
Some-names (e ∷ groups) (here same) = here same
Some-names (e ∷ groups) (there h) = there (Some-names groups h)

target_groups-GoesThrough :
    (d : Discovered) (target : Target) {group : String}
    → Some (λ g. g ≡ group) (target_groups d target)
    → GoesThrough d target group
unfolding target_groups
target_groups-GoesThrough d target h = elim (Bool-cases (is_wildcard target.api_groups)) [
  | inl wild ↦
      inr (is_wildcard-alone target.api_groups wild, Some-names d.api_groups (rw wild at h))
  | inr listed ↦ inl (rw listed at h)
]

module _ (d : Discovered) (rules : List Rule) where
  -- A discovered resource that a target of the rule reaches, in the preferred version, which the target
  -- lists or has the wildcard for, of one of the groups that it goes through.
  pub record InTarget (grv : GroupVersionResource) (target : Target) : Type 0 where
    pub group : String
    pub name : String
    pub goes_through : GoesThrough d target group
    pub version : HasVersion (preferred_version d group).version target.api_versions
    pub discovered : Some (λ n. n ≡ name) (resources_of d (preferred_version d group).group_version)
    pub named : Reaches target.resources name
    pub there : grv ≡ resource_of (preferred_version d group).group_version name

  abbrev pub IsTargetOf : Rule → GroupVersionResource → Type 0
  IsTargetOf rule grv =
      Some (λ r. r ≡ rule) rules × Some (λ target. InTarget grv target) rule.registration.targets

result_at :
    {W : Type 0} {r r' : Result (Unit {0})} {w w' : W}
    → ◌≡◌ {A = Outcome W} (some (r, w)) (some (r', w'))
    → r ≡ r'
result_at {r = r} e = ap (or_result r) (ap result_of e)
  where
    or_result : Result (Unit {0}) → Option (Result (Unit {0})) → Result (Unit {0})
    or_result r none = r
    or_result r (some x) = x

module _ {W : Type 0} (D : DynamicClient W) (L : Libs) (nsc : NamespaceCache) (d : Discovered)
    (fuel : ℕ) (rules : List Rule) where
  abbrev Within : W → Outcome W → Type 0
  Within = Ends D L nsc (IsTargetOf d rules)

  Some-of {ℓ} :
      {A : Type ℓ} {P : A → Type 0} {x : A} {xs : List A} → Some (λ y. y ≡ x) xs → P x → Some P xs
  Some-of {P} (here same) p = here (subst P (sym same) p)
  Some-of (there m) p = there (Some-of m p)

  resources-Within :
      (rule : Rule) (target : Target) (group : String)
      → Some (λ r. r ≡ rule) rules
      → Some (λ t. t ≡ target) rule.registration.targets
      → Some (λ g. g ≡ group) (target_groups d target)
      → is_targetted (preferred_version d group).version target.api_versions ≡ true
      → (w : W)
      → Within w (
          apply_to_all_resources_in_a_group_version D L nsc d fuel rule target
            (preferred_version d group)
            w)
  unfolding apply_to_all_resources_in_a_group_version
  resources-Within rule target group in_rules in_targets in_groups version w =
      elim (Bool-cases (is_resource_wildcard target.resources)) [
        | inl wild ↦ rw wild (
            for_each-Ends D L nsc (IsTargetOf d rules) _ _
              (λ name m u. apply name m (Reaches-wildcard target.resources wild name) u) w)
        | inr named ↦ rw named (
            for_each-Ends D L nsc (IsTargetOf d rules) _ _
              (λ name m u.
                when-Ends D L nsc (IsTargetOf d rules)
                  (is_targetted name (resource_targets target.resources)) _
                  (λ hit v.
                    apply name m
                      (inr (inr ((is_targetted-resource_targets_iff name target.resources).0 hit)))
                      v)
                  u)
              w)
      ]
    where
      apply :
          (name : String)
          → Some (λ n. n ≡ name) (resources_of d (preferred_version d group).group_version)
          → Reaches target.resources name
          → (u : W)
          → Within u (
              apply_to_all_resources_of_type D L nsc rule
                (preferred_version d group).group_version
                name
                fuel
                u)
      apply name m how u =
          apply_to_all_resources_of_type-Ends D L nsc (IsTargetOf d rules) rule
            (preferred_version d group).group_version name
            (
              in_rules,
              Some-of in_targets (record {
                group = group;
                name = name;
                goes_through = target_groups-GoesThrough d target in_groups;
                version = is_targetted-HasVersion _ target.api_versions version;
                discovered = m;
                named = how;
                there = refl;
              }),
            )
            fuel u

  rules-Within :
      (w : W) → Within w (for_each (apply_rule_against_existing_objects D L nsc d fuel) rules w)
  unfolding apply_rule_against_existing_objects apply_to_targettted_api_groups_and_versions
  rules-Within w =
      for_each-Ends D L nsc (IsTargetOf d rules) _ rules
        (λ rule in_rules u.
          for_each-Ends D L nsc (IsTargetOf d rules) _ rule.registration.targets
            (λ target in_targets v.
              for_each-Ends D L nsc (IsTargetOf d rules) _ (target_groups d target)
                (λ group in_groups x.
                  when-Ends D L nsc (IsTargetOf d rules)
                    (is_targetted (preferred_version d group).version target.api_versions) _
                    (λ version y.
                      resources-Within rule target group in_rules in_targets in_groups version y)
                    x)
                v)
            u)
        w

  -- The process has ended, without the deferred calls.
  abbrev pub Exits : Result (Unit {0}) → Type 0
  Exits (ok u) = ⊥
  Exits (err e) = ⊥
  Exits (abort (panics e)) = ⊥
  Exits (abort (exits e)) = Unit

  -- How the check may end: what comes behind the start of the reflector are calls, and then the
  -- reflector is stopped, unless the process has ended.
  abbrev pub MakesCalls : Reflector W → W → Result (Unit {0}) → W → Type 0
  MakesCalls reflector w r w' =
      (at : W) × Calls D L nsc (IsTargetOf d rules) (reflector.run w) at
      × ((Exits r × (w' ≡ at)) ⊎ ((¬ Exits r) × (w' ≡ reflector.stop at)))

  close_after-MakesCalls :
      (reflector : Reflector W) (w : W) (o : Outcome W)
      → Within (reflector.run w) o
      → {r : Result (Unit {0})} {w' : W} → close_after D L nsc d fuel reflector o ≡ some (r, w')
      → MakesCalls reflector w r w'
  unfolding close_after
  close_after-MakesCalls reflector w none h e = cc
  close_after-MakesCalls reflector w (some (ok u, at)) h e =
      (at, h, inr (subst (λ r. ¬ Exits r) (result_at e) (λ x. x), sym (ap (state_of w) e)))
  close_after-MakesCalls reflector w (some (err m, at)) h e =
      (at, h, inr (subst (λ r. ¬ Exits r) (result_at e) (λ x. x), sym (ap (state_of w) e)))
  close_after-MakesCalls reflector w (some (abort (panics m), at)) h e =
      (at, h, inr (subst (λ r. ¬ Exits r) (result_at e) (λ x. x), sym (ap (state_of w) e)))
  close_after-MakesCalls reflector w (some (abort (exits m), at)) h e =
      (at, h, inl (subst Exits (result_at e) tt, sym (ap (state_of w) e)))

  -- However the check of existing objects ends, with an error and a panic too, the reflector of
  -- namespaces has been started, then the cluster is what a sequence of calls made of it, and then
  -- the reflector has been stopped, unless the process has ended with a log line at level Fatal, as
  -- it does at an unknown operator. The calls are pages of listings, and patches of objects that a
  -- rule selects and that Mutate made of their text for that rule, all of them on discovered
  -- resources that a target of that rule reaches, by a wildcard or by what stands before the slash of
  -- a listed resource, in the preferred version of a group that the target goes through, which the
  -- target lists or has the wildcard for.
  pub apply_rules_against_existing_objects-MakesCalls :
      (reflector : Reflector W) (w : W) {r : Result (Unit {0})} {w' : W}
      → apply_rules_against_existing_objects D L nsc d fuel reflector rules w ≡ some (r, w')
      → MakesCalls reflector w r w'
  unfolding apply_rules_against_existing_objects start_namespace_reflector
  apply_rules_against_existing_objects-MakesCalls reflector w e =
      close_after-MakesCalls reflector w _ (rules-Within (reflector.run w)) e
