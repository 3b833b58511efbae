-- ===== src/Graffiti/FieldMap/Sound.antt =====
-- Every entry of a field map is a leaf of the object.
use kube_graffiti.Common.{
  ℕ, suc, String, ◌≡◌, sym, subst, ◌∙◌, Option, some, List, [], ◌∷◌, ◌⊎◌, inl, inr, arith, eq_iff,
  str-cases, ◌<>◌, here, there,
}
use kube_graffiti.Decimal.{itoa}
use kube_graffiti.Dict.{Dict, insert, lookup}
use kube_graffiti.Dict.Laws.{lookup-insert}
use kube_graffiti.Graffiti.Json.{
  Json, null, bool, num, str, arr, obj, Items, nil, cons, Fields, end, field,
}
use kube_graffiti.Graffiti.FieldMap.{
  format_bool, add_field_recursive, add_items, add_fields, add_all,
}
use kube_graffiti.Graffiti.FieldMap.Leaves.{
  LeafAt, a_null, a_num, a_str, a_bool, an_arr, an_obj, ItemLeaf, this_item, later_item, FieldLeaf,
  this_field, later_field, key_of, path_key, key_of-nil, item_key, field_key, IsLeaf,
}

insert_sound :
    (key n : String) (fm : Dict String) (j s : String)
    → lookup j (insert key n fm) ≡ some s
    → (lookup j fm ≡ some s) ⊎ ((s ≡ n) × (j ≡ key))
insert_sound key n fm j s e =
    let step = lookup-insert key n fm j in
    elim (str-cases key j) [
      | inl same ↦ inr (ground (arith, eq_iff key j), sym same)
      | inr other ↦ inl (ground arith)
    ]

-- An entry was there, or it is a leaf of the value `v` under the key `k`.
abbrev pub OldOrLeaf :
    (List String → String → Type 0)
    → (List String → String)
    → Option String
    → String
    → String
    → Type 0
OldOrLeaf Leaf key before j s = (before ≡ some s) ⊎ ((p : List String) × Leaf p s × (j ≡ key p))

scalar_sound :
    (v : Json) (n prefix k : String) (fm : Dict String) (j s : String)
    → LeafAt v [] n
    → lookup j (insert (prefix <> k) n fm) ≡ some s
    → OldOrLeaf (LeafAt v) (key_of prefix k) (lookup j fm) j s
scalar_sound v n prefix k fm j s leaf e = elim (insert_sound (prefix <> k) n fm j s e) [
  | inl old ↦ inl old
  | inr (same, at_key) ↦ inr ([], subst (LeafAt v []) (sym same) leaf, at_key ∙ key_of-nil prefix k)
]

item_step :
    {v : Json} {items : Items} {prefix : String} {i : ℕ} {j s : String}
    {before between : Option String}
    → (between ≡ some s → OldOrLeaf (LeafAt v) (key_of prefix (itoa i)) before j s)
    → OldOrLeaf (ItemLeaf (suc i) items) (path_key prefix) between j s
    → OldOrLeaf (ItemLeaf i (cons v items)) (path_key prefix) before j s
item_step {i} this (inl old) = elim (this old) [
  | inl older ↦ inl older
  | inr (p, leaf, at_key) ↦ inr (itoa i ∷ p, this_item leaf, at_key)
]
item_step this (inr (p, leaf, at_key)) = inr (p, later_item leaf, at_key)

field_step :
    {x : String} {v : Json} {fields : Fields} {prefix : String} {j s : String}
    {before between : Option String}
    → (between ≡ some s → OldOrLeaf (LeafAt v) (key_of prefix x) before j s)
    → OldOrLeaf (FieldLeaf fields) (path_key prefix) between j s
    → OldOrLeaf (FieldLeaf (field x v fields)) (path_key prefix) before j s
field_step {x} this (inl old) = elim (this old) [
  | inl older ↦ inl older
  | inr (p, leaf, at_key) ↦ inr (x ∷ p, this_field leaf, at_key)
]
field_step this (inr (p, leaf, at_key)) = inr (p, later_field leaf, at_key)

mutual
  unfolding add_field_recursive

  pub value_sound :
      (v : Json) (fm : Dict String) (prefix k j s : String)
      → lookup j (add_field_recursive fm prefix k v) ≡ some s
      → OldOrLeaf (LeafAt v) (key_of prefix k) (lookup j fm) j s
  value_sound null fm prefix k j s e = scalar_sound null "" prefix k fm j s a_null e
  value_sound (num n) fm prefix k j s e = scalar_sound (num n) n prefix k fm j s (a_num n) e
  value_sound (str n) fm prefix k j s e = scalar_sound (str n) n prefix k fm j s (a_str n) e
  value_sound (bool b) fm prefix k j s e =
      scalar_sound (bool b) (format_bool b) prefix k fm j s (a_bool b) e
  value_sound (arr items) fm prefix k j s e =
      elim (items_sound items fm (prefix <> k <> ".") 0 j s e) [
        | inl old ↦ inl old
        | inr (p, leaf, at_key) ↦ inr (p, an_arr leaf, at_key ∙ item_key prefix k leaf)
      ]
  value_sound (obj fields) fm prefix k j s e =
      elim (fields_sound fields fm (prefix <> k <> ".") j s e) [
        | inl old ↦ inl old
        | inr (p, leaf, at_key) ↦ inr (p, an_obj leaf, at_key ∙ field_key prefix k leaf)
      ]

  items_sound :
      (items : Items) (fm : Dict String) (prefix : String) (i : ℕ) (j s : String)
      → lookup j (add_items fm prefix i items) ≡ some s
      → OldOrLeaf (ItemLeaf i items) (path_key prefix) (lookup j fm) j s
  items_sound nil fm prefix i j s e = inl e
  items_sound (cons v items) fm prefix i j s e =
      item_step (value_sound v fm prefix (itoa i) j s)
        (items_sound items (add_field_recursive fm prefix (itoa i) v) prefix (suc i) j s e)

  fields_sound :
      (fields : Fields) (fm : Dict String) (prefix j s : String)
      → lookup j (add_fields fm prefix fields) ≡ some s
      → OldOrLeaf (FieldLeaf fields) (path_key prefix) (lookup j fm) j s
  fields_sound end fm prefix j s e = inl e
  fields_sound (field x y fields) fm prefix j s e =
      field_step (value_sound y fm prefix x j s)
        (fields_sound fields (add_field_recursive fm prefix x y) prefix j s e)

all_sound :
    (object : Dict Json) (fm : Dict String) (j s : String)
    → lookup j (add_all fm object) ≡ some s
    → (lookup j fm ≡ some s) ⊎ IsLeaf object j s
unfolding add_all
all_sound [] fm j s e = inl e
all_sound ((k, v) ∷ object) fm j s e =
    elim (all_sound object (add_field_recursive fm "" k v) j s e) [
      | inl between ↦ elim (value_sound v fm "" k j s between) [
        | inl old ↦ inl old
        | inr leaf ↦ inr (here leaf)
      ]
      | inr leaf ↦ inr (there leaf)
    ]

-- In a map that was empty before, every entry is a leaf.
pub add_all_sound :
    (object : Dict Json) (j s : String) → lookup j (add_all [] object) ≡ some s → IsLeaf object j s
unfolding lookup
add_all_sound object j s e = elim (all_sound object [] j s e) [
  | inl none_there ↦ cc
  | inr leaf ↦ leaf
]
