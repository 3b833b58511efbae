-- ===== src/Graffiti/FieldMap.antt =====
-- pkg/graffiti/fields.go: an object flattened to texts under dotted paths.
pub mod Leaves
pub mod Sound
pub mod Complete
pub mod Flatten
use kube_graffiti.Common.{
  ℕ, suc, String, Bool, true, false, ◌==◌, Option, none, some, List, [], ◌∷◌, Result, ok, err,
  if◌then◌else◌, ◌>>=◌, map_err, ◌<>◌,
}
use kube_graffiti.Decimal.{itoa}
use kube_graffiti.Dict.{Dict, GoMap, insert, entries}
use kube_graffiti.Graffiti.Json.{
  Json, null, bool, num, str, arr, obj, Items, nil, cons, Fields, end, field,
}
use kube_graffiti.Graffiti.Libs.{Libs}

-- strconv.FormatBool
abbrev pub format_bool : Bool → String
format_bool true = "true"
format_bool false = "false"

-- addFieldRecursive, and its two loops; the map is handed on as the calls write to it.
unfoldable mutual
  pub add_field_recursive : Dict String → String → String → Json → Dict String
  add_field_recursive fm prefix k null = insert (prefix <> k) "" fm
  add_field_recursive fm prefix k (num n) = insert (prefix <> k) n fm
  add_field_recursive fm prefix k (str s) = insert (prefix <> k) s fm
  add_field_recursive fm prefix k (bool b) = insert (prefix <> k) (format_bool b) fm
  add_field_recursive fm prefix k (arr items) = add_items fm (prefix <> k <> ".") 0 items
  add_field_recursive fm prefix k (obj fields) = add_fields fm (prefix <> k <> ".") fields

  pub add_items : Dict String → String → ℕ → Items → Dict String
  add_items fm prefix i nil = fm
  add_items fm prefix i (cons v items) =
      add_items (add_field_recursive fm prefix (itoa i) v) prefix (suc i) items

  pub add_fields : Dict String → String → Fields → Dict String
  add_fields fm prefix end = fm
  add_fields fm prefix (field x y fields) =
      add_fields (add_field_recursive fm prefix x y) prefix fields

-- The loop of makeFieldMapFromRawObject over the keys at the top.
unfoldable pub add_all : Dict String → Dict Json → Dict String
add_all fm [] = fm
add_all fm ((k, v) ∷ object) = add_all (add_field_recursive fm "" k v) object

unfoldable pub make_field_map_from_raw_object : Libs → String → Result (Dict String)
make_field_map_from_raw_object L raw = if raw == "" then err "no fields found" else do
  object ← map_err (λ e. "failed to unmarshal object: " <> e) (L.decode_object raw)
  ok (add_all [] (entries object))
