-- ===== src/Existing/Objects.antt =====
-- pkg/existing/existing.go: applying a rule to one object.
pub mod Outcomes
pub mod Admitted
use kube_graffiti.Common.{
  String, Bool, true, false, ◌==◌, Option, none, some, List, Result, ok, err, abort, if◌then◌else◌,
}
use kube_graffiti.Dict.{GoMap}
use kube_graffiti.Graffiti.Json.{Json}
use kube_graffiti.Graffiti.Libs.{Libs}
use kube_graffiti.Graffiti.Rule.{mutate}
use kube_graffiti.Config.{Rule, graffiti_rule}
use kube_graffiti.Existing.Targets.{split_group_version_string}
use kube_graffiti.Existing.Namespaces.{NamespaceCache, objects_namespace_matches_provided_selector}

-- schema.GroupVersionResource
pub record GroupVersionResource : Type 0 where
  pub group : String
  pub version : String
  pub resource : String

-- A list that the API server returns: its items, and its own fields.
pub record ItemList : Type 0 where
  pub items : List (GoMap Json)
  pub object : GoMap Json

-- The dynamic client over the state `W` of the cluster: List with a token to continue from, of which
-- the result may be nil, and Patch in a namespace or, at the empty one, of a cluster level object,
-- which tells whether it returned without an error; and the accessors of a vendored object.
pub record DynamicClient (W : Type 0) : Type 0 where
  pub list : GroupVersionResource → Option String → W → Result (Option ItemList) × W
  pub patch : GroupVersionResource → String → String → String → W → Bool × W
  pub get_name : GoMap Json → String
  pub get_namespace : GoMap Json → String

unfoldable pub resource_of : String → String → GroupVersionResource
resource_of gv resource = record {
  group = (split_group_version_string gv).0;
  version = (split_group_version_string gv).1;
  resource = resource;
}

module _ {W : Type 0} (D : DynamicClient W) (L : Libs) (nsc : NamespaceCache) where
  -- The optional namespace selector; an error is logged and counts as no match.
  unfoldable pub selects : Rule → GoMap Json → Result Bool
  selects rule object =
      if rule.registration.namespace_selector == ""
      then ok true
      else elim (objects_namespace_matches_provided_selector L nsc object
          rule.registration.namespace_selector) [
            | ok match ↦ ok match
            | err e ↦ ok false
            | abort e ↦ abort e
          ]

  -- What Mutate returned is sent, if it is a patch.
  unfoldable pub send :
      GroupVersionResource → GoMap Json → Result (Option String) → W → Result Bool × W
  send grv object (ok (some patch)) w =
      let (sent, w') = D.patch grv (D.get_namespace object) (D.get_name object) patch w in
      (ok sent, w')
  send grv object (ok none) w = (ok false, w)
  send grv object (err e) w = (ok false, w)
  send grv object (abort e) w = (abort e, w)

  unfoldable pub mutate_and_send :
      Rule → GroupVersionResource → GoMap Json → Result String → W → Result Bool × W
  mutate_and_send rule grv object (ok raw) w = send grv object (mutate L (graffiti_rule rule) raw) w
  mutate_and_send rule grv object (err e) w = (ok false, w)
  mutate_and_send rule grv object (abort e) w = (abort e, w)

  unfoldable pub if_selected :
      Rule → GroupVersionResource → GoMap Json → Result Bool → W → Result Bool × W
  if_selected rule grv object (ok true) w =
      mutate_and_send rule grv object (L.marshal_object object) w
  if_selected rule grv object (ok false) w = (ok false, w)
  if_selected rule grv object (err e) w = (err e, w)
  if_selected rule grv object (abort e) w = (abort e, w)

  unfoldable pub apply_to_object : Rule → String → String → GoMap Json → W → Result Bool × W
  apply_to_object rule gv resource object w =
      if_selected rule (resource_of gv resource) object (selects rule object) w
