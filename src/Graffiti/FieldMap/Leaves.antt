-- ===== src/Graffiti/FieldMap/Leaves.antt =====
-- The leaves of a JSON value, and the keys of their paths in a field map.
use text.Mathlib.TextLemmas.{append_assoc, append-nil}
use kube_graffiti.Common.{ℕ, suc, String, ◌≡◌, sym, ap, ◌∙◌, Bool, List, [], ◌∷◌, ◌<>◌, Some}
use kube_graffiti.Decimal.{itoa}
use kube_graffiti.Dict.{Dict}
use kube_graffiti.Graffiti.Json.{Json, null, bool, num, str, arr, obj, Items, cons, Fields, field}
use kube_graffiti.Graffiti.FieldMap.{format_bool}

-- The text `s` stands in a value at the end of a path of keys and positions.
mutual
  pub data LeafAt : Json → List String → String → Type 0 where
    a_null : LeafAt null [] ""
    a_num : (n : String) → LeafAt (num n) [] n
    a_str : (s : String) → LeafAt (str s) [] s
    a_bool : (b : Bool) → LeafAt (bool b) [] (format_bool b)
    an_arr :
        {items : Items} {p : List String} {s : String}
        → ItemLeaf 0 items p s
        → LeafAt (arr items) p s
    an_obj :
        {fields : Fields} {p : List String} {s : String}
        → FieldLeaf fields p s
        → LeafAt (obj fields) p s

  pub data ItemLeaf : ℕ → Items → List String → String → Type 0 where
    this_item :
        {i : ℕ} {v : Json} {items : Items} {p : List String} {s : String}
        → LeafAt v p s
        → ItemLeaf i (cons v items) (itoa i ∷ p) s
    later_item :
        {i : ℕ} {v : Json} {items : Items} {p : List String} {s : String}
        → ItemLeaf (suc i) items p s
        → ItemLeaf i (cons v items) p s

  pub data FieldLeaf : Fields → List String → String → Type 0 where
    this_field :
        {k : String} {v : Json} {fields : Fields} {p : List String} {s : String}
        → LeafAt v p s
        → FieldLeaf (field k v fields) (k ∷ p) s
    later_field :
        {k : String} {v : Json} {fields : Fields} {p : List String} {s : String}
        → FieldLeaf fields p s
        → FieldLeaf (field k v fields) p s

-- The steps of a path behind its first, each after a dot.
abbrev pub dotted : List String → String
dotted [] = ""
dotted (x ∷ p) = "." <> x <> dotted p

-- The key that a leaf at the path `p` below the key `k` gets.
abbrev pub key_of : String → String → List String → String
key_of prefix k p = prefix <> k <> dotted p

-- The keys below `k` continue the prefix that the code hands down.
key_of-cons :
    (prefix k x : String) (p : List String)
    → key_of (prefix <> k <> ".") x p ≡ key_of prefix k (x ∷ p)
key_of-cons prefix k x p =
    append_assoc prefix (k <> ".") (x <> dotted p)
    ∙ ap (λ t. prefix <> t) (append_assoc k "." (x <> dotted p))

pub key_of-nil : (prefix k : String) → prefix <> k ≡ key_of prefix k []
key_of-nil prefix k = ap (λ t. prefix <> t) (sym (append-nil k))

-- The key of a path below a prefix that ends in a dot.
abbrev pub path_key : String → List String → String
path_key prefix [] = prefix
path_key prefix (x ∷ p) = key_of prefix x p

pub item_key :
    (prefix k : String) {i : ℕ} {items : Items} {p : List String} {s : String}
    → ItemLeaf i items p s
    → path_key (prefix <> k <> ".") p ≡ key_of prefix k p
item_key prefix k (this_item {i} {p} l) = key_of-cons prefix k (itoa i) p
item_key prefix k (later_item l) = item_key prefix k l

pub field_key :
    (prefix k : String) {fields : Fields} {p : List String} {s : String}
    → FieldLeaf fields p s
    → path_key (prefix <> k <> ".") p ≡ key_of prefix k p
field_key prefix k (this_field {k = x} {p} l) = key_of-cons prefix k x p
field_key prefix k (later_field l) = field_key prefix k l

-- The text `s` stands in the object at a path of the key `j`.
abbrev pub IsLeaf : Dict Json → String → String → Type 0
IsLeaf object j s = Some (λ e. (p : List String) × LeafAt e.1 p s × (j ≡ key_of "" e.0 p)) object
