-- ===== src/Graffiti/Patch/Writable.antt =====
-- The labels and annotations that a rule makes can be written as JSON.
use kube_graffiti.Common.{
  String, ◌≡◌, subst, ◌==◌, none, some, List, [], ◌∷◌, ok, is_empty, >>=-eq-ok, Bool-cases, inl,
  inr, All,
}
use kube_graffiti.Dict.{Dict, GoMap, lookup, insert, erase, insert_all, entries}
use kube_graffiti.Graffiti.JsonText.Quoted.{IsPlainText, IsWritable}
use kube_graffiti.Graffiti.JsonText.Operands.{IsWritableMap}
use kube_graffiti.Graffiti.Libs.{Libs}
use kube_graffiti.Graffiti.Patch.{
  merge_maps, merge_into, delete_keys, render_string_template, render_into, render_map_values,
  add_rendered, modify,
}

insert-IsWritableMap :
    (k v : String) (m : Dict String)
    → IsPlainText k
    → IsWritable v
    → IsWritableMap m
    → IsWritableMap (insert k v m)
unfolding insert
insert-IsWritableMap k v [] hk hv h = ((hk, hv), tt)
insert-IsWritableMap k v ((j, w) ∷ m) hk hv ((hj, hw), h) = elim (Bool-cases (j == k)) [
  | inl e ↦ rw e ((hj, hv), h)
  | inr e ↦ rw e ((hj, hw), insert-IsWritableMap k v m hk hv h)
]

erase-IsWritableMap : (k : String) (m : Dict String) → IsWritableMap m → IsWritableMap (erase k m)
unfolding erase
erase-IsWritableMap k [] h = tt
erase-IsWritableMap k ((j, w) ∷ m) (hj, h) = elim (Bool-cases (j == k)) [
  | inl e ↦ rw e (erase-IsWritableMap k m h)
  | inr e ↦ rw e (hj, erase-IsWritableMap k m h)
]

insert_all-IsWritableMap :
    (m source : Dict String)
    → IsWritableMap m
    → IsWritableMap source
    → IsWritableMap (insert_all m source)
unfolding insert_all
insert_all-IsWritableMap m [] h s = h
insert_all-IsWritableMap m ((k, v) ∷ source) h ((hk, hv), s) =
    insert_all-IsWritableMap (insert k v m) source (insert-IsWritableMap k v m hk hv h) s

delete_keys-IsWritableMap :
    (m : Dict String) (del : List String) → IsWritableMap m → IsWritableMap (delete_keys m del)
unfolding delete_keys
delete_keys-IsWritableMap m [] h = h
delete_keys-IsWritableMap m (d ∷ del) h =
    elim (lookup d m)
      as (λ x. IsWritableMap (delete_keys (elim x [ some _ ↦ erase d m | none ↦ m ]) del)) [
        | none ↦ delete_keys-IsWritableMap m del h
        | some v ↦ delete_keys-IsWritableMap (erase d m) del (erase-IsWritableMap d m h)
      ]

module _ (L : Libs) (fm : Dict String) where
  -- Additions whose keys are plain and whose values render to texts that can be written.
  abbrev pub RendersWritable : Dict String → Type 0
  RendersWritable adds =
      All
        (λ e.
          IsPlainText e.0 × ((r : String) → render_string_template L e.1 fm ≡ ok r → IsWritable r))
        adds

  render_into-IsWritableMap :
      (result adds : Dict String) {m : Dict String}
      → IsWritableMap result
      → RendersWritable adds
      → render_into L result adds fm ≡ ok m
      → IsWritableMap m
  unfolding render_into
  render_into-IsWritableMap result [] h r e = subst IsWritableMap (cc) h
  render_into-IsWritableMap result ((k, v) ∷ adds) h ((hk, hv), r) e =
      let (x, rendered, rest) = >>=-eq-ok (render_string_template L v fm) _ e in
      render_into-IsWritableMap (insert k x result) adds
        (insert-IsWritableMap k x result hk (hv x rendered) h) r rest

  merged-IsWritableMap :
      (a b : Dict String)
      → IsWritableMap a
      → IsWritableMap b
      → IsWritableMap (merge_maps (a ∷ b ∷ []))
  unfolding merge_maps merge_into
  merged-IsWritableMap a b ha hb =
      insert_all-IsWritableMap (insert_all [] a) b (insert_all-IsWritableMap [] a tt ha) hb

  copied-IsWritableMap : (a : Dict String) → IsWritableMap a → IsWritableMap (merge_maps (a ∷ []))
  unfolding merge_maps merge_into
  copied-IsWritableMap a ha = insert_all-IsWritableMap [] a tt ha

  add_rendered-IsWritableMap :
      (src add : GoMap String) {m : Dict String}
      → IsWritableMap (entries src)
      → RendersWritable (entries add)
      → add_rendered L src add fm ≡ ok m
      → IsWritableMap m
  unfolding add_rendered render_map_values
  add_rendered-IsWritableMap src add h r e = elim (Bool-cases (is_empty (entries add))) [
    | inl idle ↦ subst IsWritableMap (cc (rw idle at e)) (copied-IsWritableMap (entries src) h)
    | inr busy ↦
        let (rendered, made, rest) =
          >>=-eq-ok (render_into L [] (entries add) fm) _ (rw busy at e) in
        subst IsWritableMap (cc) (
          merged-IsWritableMap (entries src) rendered h
            (render_into-IsWritableMap [] (entries add) tt r made))
  ]

  pub modify-IsWritableMap :
      (src add : GoMap String) (del : List String) {m : Dict String}
      → IsWritableMap (entries src)
      → RendersWritable (entries add)
      → modify L src add fm del ≡ ok m
      → IsWritableMap m
  unfolding modify
  modify-IsWritableMap src add del h r e =
      let (made, first, rest) = >>=-eq-ok (add_rendered L src add fm) _ e in
      let before = add_rendered-IsWritableMap src add h r first in
      elim (Bool-cases (is_empty del)) [
        | inl idle ↦ subst IsWritableMap (cc (rw idle at rest)) before
        | inr busy ↦
            subst IsWritableMap (cc (rw busy at rest)) (delete_keys-IsWritableMap made del before)
      ]
