-- ===== src/Graffiti/Patch.antt =====
-- pkg/graffiti/patch.go: the JSON patch operand for the labels or the annotations of an object.
pub mod Maps
pub mod Operand
pub mod Idempotence
pub mod Writable
pub mod Returning
use Prim.Native.Char.{Char, code}
use Prim.Native.String
use kube_graffiti.Common.{
  ℕ, String, Bool, true, false, not, ◌&&◌, ◌==◌, Option, none, some, List, [], ◌∷◌, Result, ok, err,
  abort, if◌then◌else◌, ◌>>=◌, map_err, is_empty, ◌<>◌, nat_eq,
}
use kube_graffiti.Dict.{Dict, GoMap, lookup, insert, erase, insert_all, entries, deep_equal}
use kube_graffiti.Graffiti.Libs.{Libs}

-- mergeMaps: the entries of each source in turn, into a new map.
merge_into : Dict String → List (Dict String) → Dict String
merge_into result [] = result
merge_into result (source ∷ sources) = merge_into (insert_all result source) sources

unfoldable pub merge_maps : List (Dict String) → Dict String
unfolding merge_into
merge_maps sources = merge_into [] sources

-- strings.Replace(s, old, new, -1) where `old` is one ASCII character.
unfoldable pub replace_char : ℕ → String → String → String
replace_char old new String.[] = ""
replace_char old new (String.◌∷◌ c s) =
    let rest = replace_char old new s in
    if nat_eq (code c) old then new <> rest else String.◌∷◌ c rest

unfoldable pub escape_string : String → String
unfolding replace_char
escape_string s = let result = replace_char 10 "" s in replace_char 34 "\\\"" result

-- strings.Join
unfoldable pub join : String → List String → String
join sep [] = ""
join sep (x ∷ []) = x
join sep (x ∷ y ∷ rest) = x <> sep <> join sep (y ∷ rest)

-- The texts `"key": "value"` of a map.
unfoldable pub render_values : Dict String → List String
render_values [] = []
render_values ((k, v) ∷ m) = ("\"" <> k <> "\": \"" <> escape_string v <> "\"") ∷ render_values m

unfoldable pub render_string_map_as_patch : String → String → Dict String → String
render_string_map_as_patch op path m =
    if is_empty m
    then ""
    else "{ \"op\": \""
      <> op
      <> "\", \"path\": \""
      <> path
      <> "\", \"value\": { "
      <> join ", " (render_values m)
      <> " }}"

unfoldable pub delete_path : String → String
delete_path path = "{ \"op\": \"delete\", \"path\": \"" <> path <> "\" }"

-- The loop over the keys to delete.
unfoldable pub delete_keys : Dict String → List String → Dict String
delete_keys modified [] = modified
delete_keys modified (d ∷ del) =
    delete_keys (elim (lookup d modified) [ some _ ↦ erase d modified | none ↦ modified ]) del

-- The text of the operand for a source map and what it shall become.
unfoldable pub patch_text : GoMap String → Dict String → String → String
patch_text src modified path =
    if deep_equal src (some modified)
    then ""
    else if not (is_empty (entries src)) && is_empty modified
    then delete_path path
    else if is_empty (entries src)
    then render_string_map_as_patch "add" path modified
    else render_string_map_as_patch "replace" path modified

module _ (L : Libs) where
  unfoldable pub render_string_template : String → Dict String → Result String
  render_string_template field values = do
    tmpl ← map_err (λ e. "failed to parse field template: " <> e) (L.parse_template field)
    map_err (λ e. "error rendering template: " <> e) (tmpl values)

  -- The loop of renderMapValues; an error ends it.
  render_into : Dict String → Dict String → Dict String → Result (Dict String)
  render_into result [] values = ok result
  render_into result ((k, v) ∷ src) values = do
    rendered ← render_string_template v values
    render_into (insert k rendered result) src values

  unfoldable pub render_map_values : Dict String → Dict String → Result (Dict String)
  unfolding render_into
  render_map_values src values = render_into [] src values

  -- The additions, rendered, in a copy of the source map.
  unfoldable pub add_rendered : GoMap String → GoMap String → Dict String → Result (Dict String)
  add_rendered src add fm =
      let modified = merge_maps (entries src ∷ []) in
      if not (is_empty (entries add))
      then (do
        rendered ← render_map_values (entries add) fm
        ok (merge_maps (entries src ∷ rendered ∷ [])))
      else ok modified

  -- Then the deletions.
  unfoldable pub modify :
      GoMap String → GoMap String → Dict String → List String → Result (Dict String)
  modify src add fm del = do
    modified ← add_rendered src add fm
    ok (if not (is_empty del) then delete_keys modified del else modified)

  unfoldable pub create_patch_operand :
      GoMap String → GoMap String → Dict String → List String → String → Result String
  create_patch_operand src add fm del path = do
    modified ← modify src add fm del
    ok (patch_text src modified path)
