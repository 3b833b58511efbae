-- ===== src/Existing/Targets.antt =====
-- pkg/existing/existing.go: what a rule's target names.
pub mod RoundTrip
use Prim.Native.Char.{code}
use kube_graffiti.Common.{
  String, Bool, true, false, ◌||◌, ◌==◌, Option, none, some, List, [], ◌∷◌, if◌then◌else◌, nat_eq,
}

unfoldable pub is_targetted : String → List String → Bool
is_targetted element [] = false
is_targetted element (target ∷ targets) =
    let later = is_targetted element targets in
    if target == "*" || element == target then true else later

-- strings.SplitN(s, "/", 2): what stands before the first slash, and behind it if there is one.
unfoldable pub split_slash : String → String × Option String
split_slash String.[] = ("", none)
split_slash (String.◌∷◌ c s) =
    let (first, second) = split_slash s in
    if nat_eq (code c) 47 then ("", some s) else (String.◌∷◌ c first, second)

unfoldable pub split_slashed_resource_string : String → String × String
split_slashed_resource_string s = elim (split_slash s).1 [
  | some second ↦ ((split_slash s).0, second)
  | none ↦ ((split_slash s).0, "")
]

unfoldable pub split_group_version_string : String → String × String
split_group_version_string s = elim (split_slash s).1 [
  | some version ↦ ((split_slash s).0, version)
  | none ↦ ("", (split_slash s).0)
]

-- The resources of a target without subtypes; a wildcard in the list is left out.
unfoldable pub resource_targets : List String → List String
resource_targets [] = []
resource_targets (r ∷ resources) =
    let x = (split_slashed_resource_string r).0 in
    let rest = resource_targets resources in if x == "*" then rest else x ∷ rest
