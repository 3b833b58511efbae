-- ===== src/Existing/Groups/Targeted.antt =====
-- Which resources of a group and version a rule's target reaches.
use kube_graffiti.Common.{
  ℕ, String, ◌≡◌, ◌≢◌, ◌↔◌, ◌⊎◌, inl, inr, refl, sym, ap, subst, ◌∙◌, Bool, true, false, List, [],
  ◌∷◌, Some, here, there, str-cases, eq_iff, Bool-cases,
}
use kube_graffiti.Graffiti.Libs.{Libs}
use kube_graffiti.Webhook.Registration.{Target}
use kube_graffiti.Config.{Rule}
use kube_graffiti.Existing.Namespaces.{NamespaceCache}
use kube_graffiti.Existing.Objects.{DynamicClient}
use kube_graffiti.Existing.Targets.{is_targetted, split_slashed_resource_string, resource_targets}
use kube_graffiti.Existing.Paging.{apply_to_all_resources_of_type}
use kube_graffiti.Existing.Groups.{
  Discovered, GroupVersion, Outcome, resources_of, is_resource_wildcard, go_on, for_each, when,
  apply_to_all_resources_in_a_group_version,
}

-- The part of a target before a slash is the name, and no wildcard.
abbrev pub Names : String → String → Type 0
Names name r = ((split_slashed_resource_string r).0 ≡ name) × (name ≢ "*")

pub is_targetted-resource_targets_iff :
    (name : String) (resources : List String)
    → (is_targetted name (resource_targets resources) ≡ true) ↔ Some (Names name) resources
unfolding is_targetted resource_targets
is_targetted-resource_targets_iff name [] = (λ e. cc, λ h. elim h [ ])
is_targetted-resource_targets_iff name (r ∷ resources) =
    let x = (split_slashed_resource_string r).0 in
    let (to, from) = is_targetted-resource_targets_iff name resources in
    elim (str-cases x "*") [
      | inl wild ↦
          rw ((eq_iff x "*").1 wild)
            (λ e. there (to e), λ h. from (drop r (λ n. n.1 (sym n.0 ∙ wild)) h))
      | inr plain ↦ elim (str-cases name x) [
        | inl same ↦
            rw (plain, (eq_iff name x).1 same, plain)
              (
                λ e. here (sym same, λ star. let hit = (eq_iff x "*").1 (sym same ∙ star) in cc),
                λ h. refl,
              )
        | inr other ↦
            rw (plain, other, plain)
              (
                λ e. there (to e),
                λ h. from (drop r (λ n. let hit = (eq_iff name x).1 (sym n.0) in cc) h),
              )
      ]
    ]
  where
    drop :
        (r : String) {rest : List String}
        → ¬ Names name r
        → Some (Names name) (r ∷ rest)
        → Some (Names name) rest
    drop r n (here p) = absurd (n p)
    drop r n (there h) = h

-- The resources of a target reach a name: they are one wildcard, or one of them names it.
abbrev pub Reaches : List String → String → Type 0
Reaches resources name =
    (resources ≡ "*" ∷ []) ⊎ (resources ≡ "*/*" ∷ []) ⊎ Some (Names name) resources

-- `ys` are those of `xs` of which `P` holds, in their order.
pub data Chosen (P : String → Type 0) : List String → List String → Type 0 where
  no_more : Chosen P [] []
  taken : {x : String} {xs ys : List String} → P x → Chosen P xs ys → Chosen P (x ∷ xs) (x ∷ ys)
  skipped : {x : String} {xs ys : List String} → ¬ P x → Chosen P xs ys → Chosen P (x ∷ xs) ys

all_chosen : (P : String → Type 0) (xs : List String) → ((x : String) → P x) → Chosen P xs xs
all_chosen P [] h = no_more
all_chosen P (x ∷ xs) h = taken (h x) (all_chosen P xs h)

-- A loop under a test goes over the names that pass it.
for_each-when :
    {W : Type 0} (P : String → Type 0) (test : String → Bool) (f : String → W → Outcome W)
    (xs : List String)
    → ((x : String) → (test x ≡ true) ↔ P x)
    → (ys : List String) × Chosen P xs ys
      × ((w : W) → for_each (λ x. when (test x) (f x)) xs w ≡ for_each f ys w)
unfolding for_each go_on
for_each-when P test f [] h = ([], no_more, λ w. refl)
for_each-when P test f (x ∷ xs) h =
    let (ys, chosen, same) = for_each-when P test f xs h in
    elim (Bool-cases (test x)) [
      | inl hit ↦
          (x ∷ ys, taken ((h x).0 hit) chosen, λ w. rw hit (ap (go_on (f x w)) (λ i w'. same w' i)))
      | inr miss ↦ (ys, skipped (λ p. let hit = (h x).1 p in cc) chosen, λ w. rw miss (same w))
    ]

-- A list that is no wildcard reaches what it names.
Reaches-plain :
    (resources : List String) (name : String)
    → is_resource_wildcard resources ≡ false
    → Reaches resources name
    → Some (Names name) resources
Reaches-plain resources name plain (inl star) =
    absurd (let hit = subst (λ r. is_resource_wildcard r ≡ false) star plain in cc)
Reaches-plain resources name plain (inr (inl star)) =
    absurd (let hit = subst (λ r. is_resource_wildcard r ≡ false) star plain in cc)
Reaches-plain resources name plain (inr (inr h)) = h

pub Reaches-wildcard :
    (resources : List String)
    → is_resource_wildcard resources ≡ true
    → (name : String) → Reaches resources name
Reaches-wildcard [] wild name = cc
Reaches-wildcard (x ∷ y ∷ rest) wild name = cc
Reaches-wildcard (x ∷ []) wild name = elim (str-cases x "*") [
  | inl star ↦ inl (ap (λ t. t ∷ []) star)
  | inr other ↦ elim (str-cases x "*/*") [
    | inl star ↦ inr (inl (ap (λ t. t ∷ []) star))
    | inr neither ↦ cc (rw (other, neither) at wild)
  ]
]

module _ {W : Type 0} (D : DynamicClient W) (L : Libs) (nsc : NamespaceCache) (d : Discovered)
    (fuel : ℕ) where
  -- For a target, the objects are gone through of exactly those discovered resources of a group and
  -- version that the target reaches, each once and in the order of the discovery: all of them for the
  -- wildcard "*" or "*/*" alone, else those that stand before the slash, if any, of a listed resource.
  pub apply_to_all_resources_in_a_group_version-Chosen :
      (rule : Rule) (target : Target) (gv : GroupVersion)
      → (names : List String) × Chosen
          (Reaches target.resources)
          (resources_of d gv.group_version)
          names
        × ((w : W)
            → apply_to_all_resources_in_a_group_version D L nsc d fuel rule target gv w
              ≡ for_each
                  (λ name. apply_to_all_resources_of_type D L nsc rule gv.group_version name fuel)
                  names
                  w)
  unfolding apply_to_all_resources_in_a_group_version
  apply_to_all_resources_in_a_group_version-Chosen rule target gv =
      let discovered = resources_of d gv.group_version in
      elim (Bool-cases (is_resource_wildcard target.resources)) [
        | inl wild ↦ (
          discovered,
          all_chosen _ discovered (Reaches-wildcard target.resources wild),
          λ w. rw wild refl,
        )
        | inr plain ↦
            let (names, chosen, same) =
              for_each-when (Reaches target.resources)
                (λ name. is_targetted name (resource_targets target.resources))
                (λ name. apply_to_all_resources_of_type D L nsc rule gv.group_version name fuel)
                discovered
                (λ name.
                  let (to, from) = is_targetted-resource_targets_iff name target.resources in
                  (
                    λ e. inr (inr (to e)),
                    λ h. from (Reaches-plain target.resources name plain h),
                  )) in
            (names, chosen, λ w. rw plain (same w))
      ]
