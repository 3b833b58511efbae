-- ===== src/Existing/Paging/Complete.antt =====
-- The loop over the pages reaches every object.
use kube_graffiti.Common.{
  ℕ, zero, suc, ◌≤◌, arith, String, ◌≡◌, refl, sym, ap, ◌∙◌, Option, none, some, List, [], ◌∷◌,
  ◌++◌, Result, ok, err, abort,
}
use kube_graffiti.Dict.{GoMap}
use kube_graffiti.Graffiti.Json.{Json}
use kube_graffiti.Graffiti.Libs.{Libs}
use kube_graffiti.Config.{Rule}
use kube_graffiti.Existing.Namespaces.{NamespaceCache}
use kube_graffiti.Existing.Objects.{ItemList, DynamicClient, resource_of, apply_to_object}
use kube_graffiti.Existing.Paging.{
  continue_of, and_then, next_page, with_list, apply_to_items, apply_to_pages,
  apply_to_all_resources_of_type,
}

-- The pages that follow a token, up to the last, hold these objects.
pub data Pages (page : Option String → ItemList)
    : Option String → List (GoMap Json) → ℕ → Type 0 where
  last_page :
      {cont : Option String}
      → continue_of (page cont).object ≡ ok none
      → Pages page cont (page cont).items 1
  more_pages :
      {cont : Option String} {t : String} {objects : List (GoMap Json)} {n : ℕ}
      → continue_of (page cont).object ≡ ok (some t)
      → Pages page (some t) objects n
      → Pages page cont ((page cont).items ++ objects) (suc n)

module _ {W : Type 0} (D : DynamicClient W) (L : Libs) (nsc : NamespaceCache) (rule : Rule)
    (gv resource : String) where
  abbrev run : List (GoMap Json) → W → Result (Unit {0}) × W
  run = apply_to_items D L nsc rule gv resource

  and_then_assoc {ℓ} :
      {A : Type ℓ} (step : Result A × W) (f g : W → Result (Unit {0}) × W)
      → and_then (and_then step f) g ≡ and_then step (λ w. and_then (f w) g)
  unfolding and_then
  and_then_assoc (ok a, w) f g = refl
  and_then_assoc (err e, w) f g = refl
  and_then_assoc (abort e, w) f g = refl

  apply_to_items-append :
      (xs ys : List (GoMap Json)) (w : W) → run (xs ++ ys) w ≡ and_then (run xs w) (run ys)
  unfolding apply_to_items and_then
  apply_to_items-append [] ys w = refl
  apply_to_items-append (x ∷ xs) ys w =
      ap (and_then (apply_to_object D L nsc rule gv resource x w))
        (λ i w'. apply_to_items-append xs ys w' i)
      ∙ sym (and_then_assoc (apply_to_object D L nsc rule gv resource x w) (run xs) (run ys))

  next_page-last :
      (r : Result (Unit {0}) × W) (rest : String → W → Option (Result (Unit {0}) × W))
      → next_page r (ok none) rest ≡ some r
  unfolding next_page
  next_page-last (ok u, w) rest = refl
  next_page-last (err e, w) rest = refl
  next_page-last (abort e, w) rest = refl

  next_page-more :
      (r : Result (Unit {0}) × W) (t : String) (rest : String → W → Option (Result (Unit {0}) × W))
      (f : W → Result (Unit {0}) × W)
      → ((w : W) → rest t w ≡ some (f w))
      → next_page r (ok (some t)) rest ≡ some (and_then r f)
  unfolding next_page and_then
  next_page-more (ok u, w) t rest f h = h w
  next_page-more (err e, w) t rest f h = refl
  next_page-more (abort e, w) t rest f h = refl

  module _ (page : Option String → ItemList)
      (lists : (cont : Option String) (w : W)
        → D.list (resource_of gv resource) cont w ≡ (ok (some (page cont)), w)) where
    apply_to_pages-run :
        {cont : Option String} {objects : List (GoMap Json)} {n : ℕ}
        → Pages page cont objects n
        → (fuel : ℕ) → n ≤ fuel
        → (w : W) → apply_to_pages D L nsc rule gv resource fuel cont w ≡ some (run objects w)
    unfolding apply_to_pages with_list
    apply_to_pages-run (last_page ends) zero enough w = absurd (omega arith)
    apply_to_pages-run {cont} (last_page ends) (suc fuel) enough w =
        rw (lists cont w, ends) (next_page-last (run (page cont).items w) _)
    apply_to_pages-run (more_pages goes later) zero enough w = absurd (omega arith)
    apply_to_pages-run {cont} (more_pages {t = t} {objects = objects} {n = n} goes later) (suc fuel)
          enough w =
        rw (lists cont w, goes)
          (next_page-more (run (page cont).items w) t _ (run objects)
              (apply_to_pages-run later fuel (omega arith))
            ∙ ap some (sym (apply_to_items-append (page cont).items objects w)))

    -- When the API server lists the objects of a type in finitely many pages, which do not depend on what
    -- the program writes in between, fuel for their number, or more, is enough, and the loop applies the
    -- rule to every object of every page, once and in order.
    pub apply_to_all_resources_of_type-run :
        {objects : List (GoMap Json)} {n : ℕ}
        → Pages page none objects n
        → (fuel : ℕ) → n ≤ fuel
        → (w : W)
        → apply_to_all_resources_of_type D L nsc rule gv resource fuel w
          ≡ some (apply_to_items D L nsc rule gv resource objects w)
    unfolding apply_to_all_resources_of_type
    apply_to_all_resources_of_type-run pages fuel enough w = apply_to_pages-run pages fuel enough w
