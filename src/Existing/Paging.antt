-- ===== src/Existing/Paging.antt =====
-- pkg/existing/existing.go: the loop over the pages of a listing.
pub mod Complete
use kube_graffiti.Common.{
  panics, ℕ, zero, suc, String, Bool, Option, none, some, List, [], ◌∷◌, Result, ok, err, abort,
}
use kube_graffiti.Dict.{GoMap, lookup, entries}
use kube_graffiti.Graffiti.Json.{Json, str}
use kube_graffiti.Graffiti.Libs.{Libs}
use kube_graffiti.Config.{Rule}
use kube_graffiti.Existing.Namespaces.{NamespaceCache, as_map}
use kube_graffiti.Existing.Objects.{ItemList, DynamicClient, resource_of, apply_to_object}

-- `meta["continue"]`, and its assertion to be a text.
abbrev token : Option Json → Result (Option String)
token none = ok none
token (some (str t)) = ok (some t)
token (some other) = abort (panics "interface conversion: interface {} is not string")

abbrev pub continue_of : GoMap Json → Result (Option String)
continue_of object = elim (as_map (lookup "metadata" (entries object))) [
  | none ↦ abort (panics "interface conversion: interface {} is not map[string]interface {}")
  | some meta ↦ token (lookup "continue" meta)
]

module _ {W : Type 0} where
  -- A step that panics ends all.
  unfoldable pub and_then {ℓ} :
      {A : Type ℓ} → Result A × W → (W → Result (Unit {0}) × W) → Result (Unit {0}) × W
  and_then (ok a, w) rest = rest w
  and_then (err e, w) rest = (err e, w)
  and_then (abort e, w) rest = (abort e, w)

  -- What follows the items of a page: the end, a panic, or the page of a token.
  unfoldable pub next_page :
      Result (Unit {0}) × W
      → Result (Option String)
      → (String → W → Option (Result (Unit {0}) × W))
      → Option (Result (Unit {0}) × W)
  next_page (ok u, w) (ok none) rest = some (ok tt, w)
  next_page (ok u, w) (ok (some t)) rest = rest t w
  next_page (ok u, w) (err e) rest = some (err e, w)
  next_page (ok u, w) (abort e) rest = some (abort e, w)
  next_page (err e, w) c rest = some (err e, w)
  next_page (abort e, w) c rest = some (abort e, w)

  -- A listing that fails, or is nil, ends the loop without an error.
  unfoldable pub with_list :
      Result (Option ItemList) × W
      → (ItemList → W → Option (Result (Unit {0}) × W))
      → Option (Result (Unit {0}) × W)
  with_list (ok (some list), w) rest = rest list w
  with_list (ok none, w) rest = some (ok tt, w)
  with_list (err e, w) rest = some (ok tt, w)
  with_list (abort e, w) rest = some (abort e, w)

module _ {W : Type 0} (D : DynamicClient W) (L : Libs) (nsc : NamespaceCache) (rule : Rule)
    (gv resource : String) where
  -- The loop over the items of a page.
  unfoldable pub apply_to_items : List (GoMap Json) → W → Result (Unit {0}) × W
  apply_to_items [] w = (ok tt, w)
  apply_to_items (item ∷ items) w =
      and_then (apply_to_object D L nsc rule gv resource item w) (λ w'. apply_to_items items w')

  -- The pages from a token on, the first of which has none; the fuel counts pages, and `none` is its
  -- end.
  unfoldable pub apply_to_pages : ℕ → Option String → W → Option (Result (Unit {0}) × W)
  apply_to_pages zero cont w = none
  apply_to_pages (suc n) cont w = with_list (D.list (resource_of gv resource) cont w) (λ list w1.
      next_page (apply_to_items list.items w1) (continue_of list.object)
        (λ t w2. apply_to_pages n (some t) w2))

  unfoldable pub apply_to_all_resources_of_type : ℕ → W → Option (Result (Unit {0}) × W)
  apply_to_all_resources_of_type fuel w = apply_to_pages fuel none w
