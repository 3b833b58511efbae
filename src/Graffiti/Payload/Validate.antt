-- ===== src/Graffiti/Payload/Validate.antt =====
-- pkg/graffiti/payload.go: the validation of a payload.
pub mod Changes
pub mod Kinds
use Prim.Native.Char.{Char, code}
use Prim.Native.String
use kube_graffiti.Common.{
  ℕ, ◌+◌, String, Bool, true, false, not, ◌&&◌, ◌||◌, ◌==◌, List, [], ◌∷◌, Result, ok, err,
  if◌then◌else◌, ◌>>=◌, ◌>>◌, map_err, is_empty, ◌<>◌, nat_eq, ltb,
}
use kube_graffiti.Dict.{Dict, entries}
use kube_graffiti.Graffiti.Libs.{Libs}
use kube_graffiti.Graffiti.Patch.{join}
use kube_graffiti.Graffiti.Payload.{Payload, Additions, Deletions}

-- The regular expression \{\{.*\}\}: two closing braces behind two opening ones on one line.
starts_brace : String → Bool
starts_brace String.[] = false
starts_brace (String.◌∷◌ c s) = nat_eq (code c) 125

closes : String → Bool
unfolding starts_brace
closes String.[] = false
closes (String.◌∷◌ c s) =
    let later = closes s in
    if nat_eq (code c) 10 then false else (nat_eq (code c) 125 && starts_brace s) || later

opens : String → Bool
opens String.[] = false
opens (String.◌∷◌ c s) = nat_eq (code c) 123 && closes s

unfoldable pub has_template : String → Bool
unfolding closes opens
has_template String.[] = false
has_template (String.◌∷◌ c s) = (nat_eq (code c) 123 && opens s) || has_template s

abbrev pub has_json_patch : Payload → Bool
has_json_patch p = not (p.json_patch == "")

abbrev pub has_additions_deletions : Payload → Bool
has_additions_deletions p =
    not (is_empty (entries p.additions.labels))
    || (not (is_empty (entries p.additions.annotations))
        || (not (is_empty p.deletions.labels) || not (is_empty p.deletions.annotations)))

abbrev pub count : Bool → ℕ
count b = if b then 1 else 0

-- How many of a block, a JSON patch and additions or deletions are given.
unfoldable pub payload_types : Payload → ℕ
payload_types p = count p.block + count (has_json_patch p) + count (has_additions_deletions p)

-- Messages of a validator as an error.
abbrev pub refuse : List String → (String → String) → Result (Unit {0})
refuse [] message = ok tt
refuse (e ∷ errors) message = err (message (join "; " (e ∷ errors)))

-- if len(xs) > 0 { if err = check(xs); err != nil { return err } }
abbrev pub unless_empty {ℓ} :
    {A : Type ℓ} → List A → (List A → Result (Unit {0})) → Result (Unit {0})
unless_empty xs check = if not (is_empty xs) then check xs else ok tt

module _ (L : Libs) where
  unfoldable pub validate_json_patch : String → Result (Unit {0})
  validate_json_patch p =
      map_err (λ e. "invalid json-patch: " <> e) (L.json_patch_from_string p >> ok tt)

  unfoldable pub validate_additions_labels : Dict String → Result (Unit {0})
  validate_additions_labels [] = ok tt
  validate_additions_labels ((k, v) ∷ labels) =
      let later = validate_additions_labels labels in
      do
        refuse (L.is_qualified_name k)
            (λ e. "invalid additions: invalid label key \"" <> k <> "\": " <> e)
        if has_template v then later else do
          refuse (L.is_valid_label_value v)
              (λ e. "invalid additions: invalid label value \"" <> v <> "\": " <> e)
          later

  unfoldable pub validate_additions_annotations : Dict String → Result (Unit {0})
  validate_additions_annotations annotations =
      refuse (L.validate_annotations annotations)
        (λ e. "invalid additions: invalid annotations: " <> e)

  unfoldable pub validate_deletions_keys : List String → Result (Unit {0})
  validate_deletions_keys [] = ok tt
  validate_deletions_keys (v ∷ labels) =
      let later = validate_deletions_keys labels in
      do refuse (L.is_qualified_name v) (λ e. "invalid deletions: invalid key: " <> e); later

  unfoldable pub validate_additions_deletions : Additions → Deletions → Result (Unit {0})
  validate_additions_deletions add del = do
    unless_empty (entries add.labels) validate_additions_labels
    unless_empty (entries add.annotations) validate_additions_annotations
    unless_empty del.labels validate_deletions_keys
    unless_empty del.annotations validate_deletions_keys

  unfoldable pub validate : Payload → Result (Unit {0})
  unfolding payload_types
  validate p =
      if nat_eq (payload_types p) 0
      then err "a rule payload must specify either additions/deletions, a json-patch, or a block"
      else if ltb 1 (payload_types p)
      then err
          "a rule payload can only specify additions/deletions, or a json-patch or a block, but not a combination of them"
      else if has_json_patch p
      then validate_json_patch p.json_patch
      else if has_additions_deletions p
      then validate_additions_deletions p.additions p.deletions
      else ok tt
