-- ===== src/Graffiti/Patch/Maps.antt =====
-- The map that the additions and deletions make of the labels or annotations of an object.
use kube_graffiti.Common.{
  String, ◌≡◌, refl, str-cases, sym, ap, subst, ◌∙◌, Bool, true, false, not, ◌==◌, Option, none,
  some, List, [], ◌∷◌, ok, if◌then◌else◌, ◌>>=◌, is_empty, arith, eq_iff, any, >>=-eq-ok, inl, inr,
}
use kube_graffiti.Dict.{Dict, GoMap, lookup, insert, erase, insert_all, entries, IsDistinct}
use kube_graffiti.Dict.Laws.{
  or_else, lookup-insert, lookup-erase, lookup-insert_all, insert-IsDistinct, insert_all-IsDistinct,
  erase-IsDistinct,
}
use kube_graffiti.Graffiti.Libs.{Libs}
use kube_graffiti.Graffiti.Patch.{
  merge_maps, merge_into, add_rendered, delete_keys, render_string_template, render_into,
  render_map_values, modify,
}

or_else-none : (o : Option String) → or_else o none ≡ o
or_else-none none = refl
or_else-none (some x) = refl

abbrev pub contains : String → List String → Bool
contains k del = any (λ d. d == k) del

-- The step of the loop over the keys to delete.
abbrev delete_key : String → Dict String → Dict String
delete_key d modified = elim (lookup d modified) [ some _ ↦ erase d modified | none ↦ modified ]

lookup-delete_key :
    (d : String) (m : Dict String) (k : String)
    → lookup k (delete_key d m) ≡ (if d == k then none else lookup k m)
lookup-delete_key d m k = ground (arith, eq_iff d k, lookup-erase d m k)

delete_key-IsDistinct : (d : String) (m : Dict String) → IsDistinct m → IsDistinct (delete_key d m)
delete_key-IsDistinct d m h = ground (arith, erase-IsDistinct d m h)

lookup-delete_keys :
    (m : Dict String) (del : List String) (k : String)
    → lookup k (delete_keys m del) ≡ (if contains k del then none else lookup k m)
unfolding delete_keys
lookup-delete_keys m [] k = refl
lookup-delete_keys m (d ∷ del) k =
    ground (arith, lookup-delete_keys (delete_key d m) del k, lookup-delete_key d m k)

delete_keys-IsDistinct :
    (m : Dict String) (del : List String) → IsDistinct m → IsDistinct (delete_keys m del)
unfolding delete_keys
delete_keys-IsDistinct m [] h = h
delete_keys-IsDistinct m (d ∷ del) h =
    delete_keys-IsDistinct (delete_key d m) del (delete_key-IsDistinct d m h)

module _ (L : Libs) (values : Dict String) where
  -- What a value of the additions, or none, makes of what stood there.
  abbrev pub Rendered : Option String → Option String → Option String → Type 0
  Rendered none before after = after ≡ before
  Rendered (some v) before after =
      (s : String) × (render_string_template L v values ≡ ok s) × (after ≡ some s)

  render_into-Rendered :
      (result src : Dict String) {rendered : Dict String}
      → IsDistinct src
      → render_into L result src values ≡ ok rendered
      → (k : String) → Rendered (lookup k src) (lookup k result) (lookup k rendered)
  unfolding render_into lookup
  render_into-Rendered result [] h e k = cc
  render_into-Rendered result ((j, v) ∷ src) h e k =
      let (s, parsed, later) = >>=-eq-ok (render_string_template L v values) _ e in
      let ih = render_into-Rendered (insert j s result) src h.1 later k in
      let step = lookup-insert j s result k in
      elim (str-cases j k) [
        | inl same ↦
            let test = (eq_iff j k).1 same in
            let fresh = subst (λ x. lookup x src ≡ none) same h.0 in
            rw test (s, parsed, (rw fresh at ih) ∙ step ∙ rw test)
        | inr other ↦ rw other (rw (step, other) at ih)
      ]

  render_into-IsDistinct :
      (result src : Dict String) {rendered : Dict String}
      → IsDistinct result
      → render_into L result src values ≡ ok rendered
      → IsDistinct rendered
  unfolding render_into
  render_into-IsDistinct result [] h e = subst IsDistinct (cc) h
  render_into-IsDistinct result ((j, v) ∷ src) h e =
      let (s, _, later) = >>=-eq-ok (render_string_template L v values) _ e in
      render_into-IsDistinct (insert j s result) src (insert-IsDistinct j s result h) later

-- What stands at the key `k` after the additions and the deletions, where `before` stood: nothing
-- if the key is deleted, else the rendered addition if there is one, else what stood there.
abbrev pub Desired :
    Libs → Dict String → Bool → Option String → Option String → Option String → Type 0
Desired L fm true addition before after = after ≡ none
Desired L fm false addition before after = Rendered L fm addition before after

merge_into-IsDistinct :
    (result : Dict String) (sources : List (Dict String))
    → IsDistinct result
    → IsDistinct (merge_into result sources)
unfolding merge_into
merge_into-IsDistinct result [] h = h
merge_into-IsDistinct result (source ∷ sources) h =
    merge_into-IsDistinct (insert_all result source) sources (insert_all-IsDistinct result source h)

lookup-merge_one :
    (src : Dict String) (k : String)
    → IsDistinct src
    → lookup k (merge_maps (src ∷ [])) ≡ lookup k src
unfolding merge_maps lookup
lookup-merge_one src k h = lookup-insert_all [] src k h ∙ or_else-none (lookup k src)

lookup-merge_two :
    (src rendered : Dict String) (k : String)
    → IsDistinct src
    → IsDistinct rendered
    → lookup k (merge_maps (src ∷ rendered ∷ [])) ≡ or_else (lookup k rendered) (lookup k src)
unfolding merge_maps lookup
lookup-merge_two src rendered k h g =
    lookup-insert_all (insert_all [] src) rendered k g
    ∙ ap (or_else (lookup k rendered)) (lookup-merge_one src k h)

merge_maps-IsDistinct : (sources : List (Dict String)) → IsDistinct (merge_maps sources)
unfolding merge_maps
merge_maps-IsDistinct sources = merge_into-IsDistinct [] sources tt

Rendered-or_else :
    (L : Libs) (fm : Dict String) (addition before rendered : Option String)
    → Rendered L fm addition none rendered
    → Rendered L fm addition before (or_else rendered before)
Rendered-or_else L fm none before rendered h = rw h refl
Rendered-or_else L fm (some v) before rendered (s, e, h) = (s, e, rw h refl)

delete_keys-if :
    (m : Dict String) (del : List String)
    → (if not (is_empty del) then delete_keys m del else m) ≡ delete_keys m del
unfolding delete_keys
delete_keys-if m [] = refl
delete_keys-if m (d ∷ del) = refl

Desired-if :
    (L : Libs) (fm : Dict String) (b : Bool) (addition before o : Option String)
    → Rendered L fm addition before o
    → Desired L fm b addition before (if b then none else o)
Desired-if L fm true addition before o h = refl
Desired-if L fm false addition before o h = h

module _ (L : Libs) (src : GoMap String) (fm : Dict String) (hs : IsDistinct (entries src)) where
  -- What a map that the additions made holds.
  abbrev IsPainted : Dict String → Dict String → Type 0
  IsPainted adds m =
      IsDistinct m
      × ((k : String) → Rendered L fm (lookup k adds) (lookup k (entries src)) (lookup k m))

  unpainted : {m : Dict String} → merge_maps (entries src ∷ []) ≡ m → IsPainted [] m
  unfolding lookup
  unpainted same =
      subst (IsPainted []) same
        (merge_maps-IsDistinct (entries src ∷ []), λ k. lookup-merge_one (entries src) k hs)

  painted :
      (adds : Dict String) {m : Dict String}
      → IsDistinct adds
      → (render_map_values L adds fm >>= λ r. ok (merge_maps (entries src ∷ r ∷ []))) ≡ ok m
      → IsPainted adds m
  unfolding render_map_values
  painted adds ha e =
      let (r, rendered, same) = >>=-eq-ok (render_map_values L adds fm) _ e in
      let distinct = render_into-IsDistinct L fm [] adds tt rendered in
      subst (IsPainted adds) (cc) (
        merge_maps-IsDistinct (entries src ∷ r ∷ []),
        λ k. rw (lookup-merge_two (entries src) r k hs distinct) (
            Rendered-or_else L fm (lookup k adds) _ (lookup k r)
              (unfold lookup in render_into-Rendered L fm [] adds ha rendered k)),
      )

  add_rendered-IsPainted :
      (add : GoMap String) {m : Dict String}
      → IsDistinct (entries add)
      → add_rendered L src add fm ≡ ok m
      → IsPainted (entries add) m
  unfolding add_rendered
  add_rendered-IsPainted none ha e = unpainted (cc)
  add_rendered-IsPainted (some []) ha e = unpainted (cc)
  add_rendered-IsPainted (some (x ∷ adds)) ha e = painted (x ∷ adds) ha e

  -- The rendered additions win over what stood there, the deletions over both, and nothing else
  -- changes.
  pub modify-Desired :
      (add : GoMap String) (del : List String) {m : Dict String}
      → IsDistinct (entries add)
      → modify L src add fm del ≡ ok m
      → IsDistinct m
        × ((k : String)
            → Desired L fm
                (contains k del)
                (lookup k (entries add))
                (lookup k (entries src))
                (lookup k m))
  unfolding modify
  modify-Desired add del {m = m} ha e =
      let (p, first, same) = >>=-eq-ok (add_rendered L src add fm) _ e in
      let (distinct, holds_at) = add_rendered-IsPainted add ha first in
      let deleted : delete_keys p del ≡ m = sym (delete_keys-if p del) ∙ cc in
      subst
        (λ x.
          IsDistinct x
          × ((k : String)
              → Desired L fm (contains k del) (lookup k (entries add)) (lookup k (entries src))
                  (lookup k x)))
        deleted
        (
          delete_keys-IsDistinct p del distinct,
          λ k.
              rw (lookup-delete_keys p del k) (Desired-if L fm (contains k del) _ _ _ (holds_at k)),
        )
