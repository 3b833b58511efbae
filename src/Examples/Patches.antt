-- ===== src/Examples/Patches.antt =====
-- Patch operands at concrete inputs.
use kube_graffiti.Common.{
  String, ◌≡◌, refl, true, none, some, [], ◌∷◌, ok, ◌↔◌, ◌⊎◌, IsOk, subst, ok_injective,
}
use kube_graffiti.Dict.{
  Dict, lookup, insert, insert_all, erase, entries, IsDistinct, covers, deep_equal,
}
use kube_graffiti.Graffiti.Patch.{
  create_patch_operand, modify, add_rendered, render_map_values, render_string_template, patch_text,
  render_string_map_as_patch, merge_maps, delete_keys, join, escape_string, render_values,
  replace_char,
}
use kube_graffiti.Graffiti.Patch.Maps.{Desired, contains}
use kube_graffiti.Graffiti.Patch.Operand.{
  AllRender, Describes, create_patch_operand-Describes, create_patch_operand-IsOk_iff,
}
use kube_graffiti.Graffiti.Patch.Idempotence.{create_patch_operand_idempotent}
use kube_graffiti.Graffiti.Patch.Writable.{RendersWritable}
use kube_graffiti.Graffiti.Json.{nil}
use kube_graffiti.Graffiti.JsonText.Quoted.{
  is_plain_text, IsPlainText, IsPlainText-of_test, IsWritable, IsWritable-of_plain,
}
use kube_graffiti.Graffiti.Payload.Validate.Kinds.{IsUnchanged}
use kube_graffiti.Graffiti.JsonText.Painted.{IsWritten, with_operation, paint_object-IsWritten}
use kube_graffiti.Examples.Rules.{paints_pod}
use kube_graffiti.Examples.Fixtures.{
  toy, pod, paint, pod_patch, pod_map, pod_operand, team_labels, painted_labels,
}

distinct : IsDistinct {V = String} (("team", "a") ∷ [])
unfolding lookup
distinct = (refl, tt)

IsDistinct-painted : IsDistinct {V = String} (("painted", "yes") ∷ [])
unfolding lookup
IsDistinct-painted = (refl, tt)

modified :
    modify toy team_labels painted_labels pod_map ("team" ∷ []) ≡ ok (("painted", "yes") ∷ [])
unfolding modify add_rendered render_map_values render_string_template merge_maps insert_all insert
    delete_keys lookup erase
modified = refl

operand :
    create_patch_operand toy team_labels painted_labels pod_map ("team" ∷ []) "/metadata/labels"
    ≡ ok pod_operand
unfolding create_patch_operand modify add_rendered render_map_values render_string_template
    merge_maps insert_all insert delete_keys lookup erase patch_text deep_equal covers
    render_string_map_as_patch join escape_string render_values replace_char
operand = refl

create_patch_operand-Describes_example :
    (m : Dict String) × IsDistinct m
    × ((k : String)
        → Desired toy pod_map
            (contains k ("team" ∷ []))
            (lookup k (entries painted_labels))
            (lookup k (entries team_labels))
            (lookup k m))
    × Describes "/metadata/labels" (entries team_labels) m pod_operand
create_patch_operand-Describes_example =
    create_patch_operand-Describes toy team_labels painted_labels pod_map ("team" ∷ [])
      "/metadata/labels" pod_operand distinct IsDistinct-painted operand

create_patch_operand-IsOk_iff_example :
    IsOk
      (create_patch_operand toy team_labels painted_labels pod_map ("team" ∷ []) "/metadata/labels")
    ↔ AllRender toy pod_map (entries painted_labels)
create_patch_operand-IsOk_iff_example =
    create_patch_operand-IsOk_iff toy team_labels pod_map painted_labels ("team" ∷ [])
      "/metadata/labels"

create_patch_operand_idempotent_example :
    create_patch_operand toy painted_labels painted_labels pod_map ("team" ∷ []) "/metadata/labels"
    ≡ ok ""
create_patch_operand_idempotent_example =
    create_patch_operand_idempotent toy pod_map pod_map team_labels painted_labels ("team" ∷ [])
      "/metadata/labels" distinct IsDistinct-painted (refl, tt) modified

IsPlain-of : (s : String) → is_plain_text s ≡ true → IsPlainText s × IsWritable s
IsPlain-of s e = let plain = IsPlainText-of_test s e in (plain, IsWritable-of_plain s plain)

renders : RendersWritable toy pod_map (entries painted_labels)
unfolding render_string_template
renders = (
  (
    (IsPlain-of "painted" refl).0,
    λ r e. subst IsWritable (ok_injective e) (IsPlain-of "yes" refl).1,
  ),
  tt,
)

paint_object-IsWritten_example :
    (IsUnchanged paint × (some pod_patch ≡ none))
    ⊎ ((l a : Dict String) × (modify toy team_labels painted_labels pod_map ("team" ∷ []) ≡ ok l)
        × (modify toy none none pod_map [] ≡ ok a)
        × IsWritten (some pod_patch) (
            with_operation team_labels l "/metadata/labels"
              (with_operation none a "/metadata/annotations" nil)))
paint_object-IsWritten_example =
    paint_object-IsWritten toy paint pod pod_map refl refl
      (((IsPlain-of "team" refl).0, (IsPlain-of "a" refl).1), tt) tt renders tt paints_pod
