-- ===== src/Existing/Groups.antt =====
-- pkg/existing/existing.go: the loops over the rules, their targets, the API groups and the resources.
pub mod Targeted
pub mod Reached
pub mod Confined
use kube_graffiti.Common.{
  panics, exits, ℕ, String, Bool, true, false, ◌&&◌, ◌||◌, ◌==◌, Option, none, some, List, [], ◌∷◌,
  map, Result, ok, err, abort, if◌then◌else◌,
}
use kube_graffiti.Dict.{Dict, lookup}
use kube_graffiti.Graffiti.Libs.{Libs}
use kube_graffiti.Webhook.Registration.{Target}
use kube_graffiti.Config.{Rule}
use kube_graffiti.Existing.Namespaces.{NamespaceCache, Reflector, start_namespace_reflector}
use kube_graffiti.Existing.Objects.{DynamicClient}
use kube_graffiti.Existing.Targets.{is_targetted, resource_targets}
use kube_graffiti.Existing.Paging.{apply_to_all_resources_of_type}

-- metav1.GroupVersionForDiscovery, and a group with its preferred version.
pub record GroupVersion : Type 0 where
  pub group_version : String
  pub version : String

pub record ApiGroup : Type 0 where
  pub name : String
  pub preferred_version : GroupVersion

-- The two maps that the discovery fills; of a resource only the name is read.
pub record Discovered : Type 0 where
  pub api_groups : Dict ApiGroup
  pub resources : Dict (List String)

-- What a missing key reads as: the zero value.
unfoldable pub preferred_version : Discovered → String → GroupVersion
preferred_version d g = elim (lookup g d.api_groups) [
  | some group ↦ group.preferred_version
  | none ↦ record { group_version = ""; version = "" }
]

unfoldable pub resources_of : Discovered → String → List String
resources_of d gv = elim (lookup gv d.resources) [ some names ↦ names | none ↦ [] ]

-- The targets ["*"], and for resources also ["*/*"].
abbrev pub is_wildcard : List String → Bool
is_wildcard (x ∷ []) = x == "*"
is_wildcard _ = false

abbrev pub is_resource_wildcard : List String → Bool
is_resource_wildcard (x ∷ []) = x == "*" || x == "*/*"
is_resource_wildcard _ = false

unfoldable pub target_groups : Discovered → Target → List String
target_groups d target =
    if is_wildcard target.api_groups then map (λ g. g.1.name) d.api_groups else target.api_groups

-- A loop whose steps may panic, or run out of fuel, which end it.
abbrev pub Outcome : Type 0 → Type 0
Outcome W = Option (Result (Unit {0}) × W)

-- What an outcome holds.
abbrev pub result_of : {W : Type 0} → Outcome W → Option (Result (Unit {0}))
result_of none = none
result_of (some (r, w)) = some r

abbrev pub state_of : {W : Type 0} → W → Outcome W → W
state_of w none = w
state_of w (some (r, w')) = w'

module _ {W : Type 0} where
  unfoldable pub go_on : Outcome W → (W → Outcome W) → Outcome W
  go_on none rest = none
  go_on (some (ok u, w)) rest = rest w
  go_on (some (err e, w)) rest = some (err e, w)
  go_on (some (abort e, w)) rest = some (abort e, w)

  unfoldable pub for_each {ℓ} : {A : Type ℓ} → (A → W → Outcome W) → List A → W → Outcome W
  for_each f [] w = some (ok tt, w)
  for_each f (x ∷ xs) w = go_on (f x w) (λ w'. for_each f xs w')

  -- A step under `if`, which does nothing otherwise.
  abbrev pub when : Bool → (W → Outcome W) → W → Outcome W
  when true f w = f w
  when false f w = some (ok tt, w)

module _ {W : Type 0} (D : DynamicClient W) (L : Libs) (nsc : NamespaceCache) (d : Discovered)
    (fuel : ℕ) where
  unfoldable pub apply_to_all_resources_in_a_group_version :
      Rule → Target → GroupVersion → W → Outcome W
  apply_to_all_resources_in_a_group_version rule target gv w =
      let apply =
        λ (name : String). apply_to_all_resources_of_type D L nsc rule gv.group_version name fuel in
      if is_resource_wildcard target.resources
      then for_each apply (resources_of d gv.group_version) w
      else for_each
          (λ name. when (is_targetted name (resource_targets target.resources)) (apply name))
          (resources_of d gv.group_version) w

  unfoldable pub apply_to_targettted_api_groups_and_versions : Rule → Target → W → Outcome W
  apply_to_targettted_api_groups_and_versions rule target w =
      for_each
        (λ g.
          when (is_targetted (preferred_version d g).version target.api_versions)
            (apply_to_all_resources_in_a_group_version rule target (preferred_version d g)))
        (target_groups d target) w

  unfoldable pub apply_rule_against_existing_objects : Rule → W → Outcome W
  apply_rule_against_existing_objects rule w =
      for_each (apply_to_targettted_api_groups_and_versions rule) rule.registration.targets w

  -- The deferred closing of the channel, which a panic does not skip, but the end of the process does.
  unfoldable pub close_after : Reflector W → Outcome W → Outcome W
  close_after reflector none = none
  close_after reflector (some (ok u, w)) = some (ok u, reflector.stop w)
  close_after reflector (some (err e, w)) = some (err e, reflector.stop w)
  close_after reflector (some (abort (panics e), w)) = some (abort (panics e), reflector.stop w)
  close_after reflector (some (abort (exits e), w)) = some (abort (exits e), w)

  -- The reflector is the one of the namespace cache.
  unfoldable pub apply_rules_against_existing_objects : Reflector W → List Rule → W → Outcome W
  apply_rules_against_existing_objects reflector rules w =
      close_after reflector
        (for_each apply_rule_against_existing_objects rules (start_namespace_reflector reflector w))
