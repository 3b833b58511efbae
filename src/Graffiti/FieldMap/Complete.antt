-- ===== src/Graffiti/FieldMap/Complete.antt =====
-- Every leaf of the object has an entry in the field map.
use kube_graffiti.Common.{
  ℕ, suc, String, ◌≡◌, refl, subst, some, List, [], ◌∷◌, inl, inr, eq_iff, str-cases, ◌<>◌, here,
  there, eq_refl,
}
use kube_graffiti.Decimal.{itoa}
use kube_graffiti.Dict.{Dict, insert, lookup}
use kube_graffiti.Dict.Laws.{lookup-insert}
use kube_graffiti.Graffiti.Json.{
  Json, null, bool, num, str, arr, obj, Items, nil, cons, Fields, end, field,
}
use kube_graffiti.Graffiti.FieldMap.{
  format_bool, add_field_recursive, add_items, add_fields, add_all,
}
use kube_graffiti.Graffiti.FieldMap.Leaves.{
  LeafAt, a_null, a_num, a_str, a_bool, an_arr, an_obj, ItemLeaf, this_item, later_item, FieldLeaf,
  this_field, later_field, key_of, path_key, key_of-nil, item_key, field_key, IsLeaf,
}

-- The map has a value at the key.
abbrev pub HasKey : String → Dict String → Type 0
HasKey j m = (t : String) × (lookup j m ≡ some t)

insert-HasKey : (key n : String) (fm : Dict String) → HasKey key (insert key n fm)
insert-HasKey key n fm = (n, rw (lookup-insert, eq_refl key))

insert_keeps : (key n j : String) (fm : Dict String) → HasKey j fm → HasKey j (insert key n fm)
insert_keeps key n j fm (t, e) =
    let step = lookup-insert key n fm j in
    elim (str-cases key j) [
      | inl same ↦ (n, rw (step, (eq_iff key j).1 same) refl)
      | inr other ↦ (t, rw (step, other) e)
    ]

mutual
  unfolding add_field_recursive

  value_keeps :
      (v : Json) (fm : Dict String) (prefix k j : String)
      → HasKey j fm
      → HasKey j (add_field_recursive fm prefix k v)
  value_keeps null fm prefix k j h = insert_keeps (prefix <> k) "" j fm h
  value_keeps (num n) fm prefix k j h = insert_keeps (prefix <> k) n j fm h
  value_keeps (str s) fm prefix k j h = insert_keeps (prefix <> k) s j fm h
  value_keeps (bool b) fm prefix k j h = insert_keeps (prefix <> k) (format_bool b) j fm h
  value_keeps (arr items) fm prefix k j h = items_keep items fm (prefix <> k <> ".") 0 j h
  value_keeps (obj fields) fm prefix k j h = fields_keep fields fm (prefix <> k <> ".") j h

  items_keep :
      (items : Items) (fm : Dict String) (prefix : String) (i : ℕ) (j : String)
      → HasKey j fm
      → HasKey j (add_items fm prefix i items)
  items_keep nil fm prefix i j h = h
  items_keep (cons v items) fm prefix i j h =
      items_keep items (add_field_recursive fm prefix (itoa i) v) prefix (suc i) j
        (value_keeps v fm prefix (itoa i) j h)

  fields_keep :
      (fields : Fields) (fm : Dict String) (prefix j : String)
      → HasKey j fm
      → HasKey j (add_fields fm prefix fields)
  fields_keep end fm prefix j h = h
  fields_keep (field x y fields) fm prefix j h =
      fields_keep fields (add_field_recursive fm prefix x y) prefix j
        (value_keeps y fm prefix x j h)

scalar_complete :
    (prefix k n : String) (fm : Dict String)
    → HasKey (key_of prefix k []) (insert (prefix <> k) n fm)
scalar_complete prefix k n fm =
    subst (λ key. HasKey key (insert (prefix <> k) n fm)) (key_of-nil prefix k)
      (insert-HasKey (prefix <> k) n fm)

mutual
  unfolding add_field_recursive

  value_complete :
      {v : Json} {p : List String} {s : String}
      → LeafAt v p s
      → (fm : Dict String) (prefix k : String)
      → HasKey (key_of prefix k p) (add_field_recursive fm prefix k v)
  value_complete a_null fm prefix k = scalar_complete prefix k "" fm
  value_complete (a_num n) fm prefix k = scalar_complete prefix k n fm
  value_complete (a_str s) fm prefix k = scalar_complete prefix k s fm
  value_complete (a_bool b) fm prefix k = scalar_complete prefix k (format_bool b) fm
  value_complete (an_arr {items} leaf) fm prefix k =
      subst (λ key. HasKey key (add_items fm (prefix <> k <> ".") 0 items)) (item_key prefix k leaf)
        (items_complete leaf fm (prefix <> k <> "."))
  value_complete (an_obj {fields} leaf) fm prefix k =
      subst (λ key. HasKey key (add_fields fm (prefix <> k <> ".") fields))
        (field_key prefix k leaf) (fields_complete leaf fm (prefix <> k <> "."))

  items_complete :
      {i : ℕ} {items : Items} {p : List String} {s : String}
      → ItemLeaf i items p s
      → (fm : Dict String) (prefix : String)
      → HasKey (path_key prefix p) (add_items fm prefix i items)
  items_complete (this_item {i} {v} {items} {p} leaf) fm prefix =
      items_keep items (add_field_recursive fm prefix (itoa i) v) prefix (suc i)
        (key_of prefix (itoa i) p) (value_complete leaf fm prefix (itoa i))
  items_complete (later_item {i} {v} leaf) fm prefix =
      items_complete leaf (add_field_recursive fm prefix (itoa i) v) prefix

  fields_complete :
      {fields : Fields} {p : List String} {s : String}
      → FieldLeaf fields p s
      → (fm : Dict String) (prefix : String)
      → HasKey (path_key prefix p) (add_fields fm prefix fields)
  fields_complete (this_field {k = x} {v} {fields} {p} leaf) fm prefix =
      fields_keep fields (add_field_recursive fm prefix x v) prefix (key_of prefix x p)
        (value_complete leaf fm prefix x)
  fields_complete (later_field {k = x} {v} leaf) fm prefix =
      fields_complete leaf (add_field_recursive fm prefix x v) prefix

all_keep :
    (object : Dict Json) (fm : Dict String) (j : String)
    → HasKey j fm
    → HasKey j (add_all fm object)
unfolding add_all
all_keep [] fm j h = h
all_keep ((k, v) ∷ object) fm j h =
    all_keep object (add_field_recursive fm "" k v) j (value_keeps v fm "" k j h)

pub add_all_complete :
    (object : Dict Json) (fm : Dict String) (j s : String)
    → IsLeaf object j s
    → HasKey j (add_all fm object)
unfolding add_all
add_all_complete [] fm j s leaf = elim leaf [ ]
add_all_complete ((k, v) ∷ object) fm j s (here (p, leaf, at_key)) =
    rw at_key (
      all_keep object (add_field_recursive fm "" k v) (key_of "" k p) (value_complete leaf fm "" k))
add_all_complete ((k, v) ∷ object) fm j s (there later) =
    add_all_complete object (add_field_recursive fm "" k v) j s later
