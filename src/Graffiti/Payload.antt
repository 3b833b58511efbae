-- ===== src/Graffiti/Payload.antt =====
-- pkg/graffiti/payload.go: what a rule does to an object that matches.
pub mod Validate
pub mod Painting
use kube_graffiti.Common.{
  ℕ, zero, suc, ◌+◌, String, Bool, true, false, not, ◌&&◌, ◌||◌, ◌==◌, Option, none, some, List, [],
  ◌∷◌, ◌++◌, Result, ok, err, abort, if◌then◌else◌, ◌>>=◌, ◌>>◌, map_err, is_empty, ◌<>◌, nat_eq,
  ltb,
}
use kube_graffiti.Dict.{Dict, GoMap, entries}
use kube_graffiti.Graffiti.Json.{MetaObject}
use kube_graffiti.Graffiti.Libs.{Libs}
use kube_graffiti.Graffiti.Patch.{create_patch_operand, join}

pub record Additions : Type 0 where
  pub annotations : GoMap String
  pub labels : GoMap String

pub record Deletions : Type 0 where
  pub annotations : List String
  pub labels : List String

pub record Payload : Type 0 where
  pub additions : Additions
  pub deletions : Deletions
  pub block : Bool
  pub json_patch : String

unfoldable pub contains_additions : Payload → Bool
contains_additions p =
    if is_empty (entries p.additions.labels) && is_empty (entries p.additions.annotations)
    then false
    else true

unfoldable pub contains_deletions : Payload → Bool
contains_deletions p =
    if is_empty p.deletions.labels && is_empty p.deletions.annotations then false else true

-- `if op != "" { patches = append(patches, op) }`
abbrev pub append_operand : List String → String → List String
append_operand patches op = if not (op == "") then patches ++ op ∷ [] else patches

module _ (L : Libs) where
  unfoldable pub process_metadata_additions_deletions :
      Payload → MetaObject → Dict String → Result String
  process_metadata_additions_deletions p obj fm = do
    labels ←
        create_patch_operand L obj.meta.labels p.additions.labels fm p.deletions.labels
          "/metadata/labels"
    let patches = append_operand [] labels
    annotations ←
        create_patch_operand L obj.meta.annotations p.additions.annotations fm
          p.deletions.annotations "/metadata/annotations"
    let both = append_operand patches annotations
    ok (if is_empty both then "" else "[ " <> join ", " both <> " ]")

  -- paintObject; `none` is the nil patch.
  unfoldable pub paint_object : Payload → MetaObject → Dict String → Result (Option String)
  paint_object p object fm =
      if p.block
      then ok (some "BLOCK")
      else if not (p.json_patch == "")
      then ok (some p.json_patch)
      else do
        patch_string ←
            if contains_additions p || contains_deletions p
            then map_err (λ e. "could not create json patch: " <> e)
                (process_metadata_additions_deletions p object fm)
            else ok ""
        ok (if patch_string == "" then none else some patch_string)
