-- ===== src/Examples/Rules.antt =====
-- Rules, matchers and payloads at concrete inputs.
use kube_graffiti.Common.{
  String, ◌≡◌, refl, sym, Bool, true, some, ok, err, ◌↔◌, IsOk, ◌<>◌, ◌==◌, subst, Returns,
  with_value, with_error, if-both, ok_injective,
}
use kube_graffiti.Dict.{lookup, insert, insert_all, entries, erase, covers, deep_equal}
use kube_graffiti.Graffiti.Operator.{
  marshal_json, unmarshal_json, marshal_yaml, unmarshal_yaml, text, operator, decode_hook, or,
  is_a_boolean_operator, boolean_operator_string, to_string, and,
}
use kube_graffiti.Graffiti.Operator.RoundTrip.{
  boolean_operator_string_iff, unmarshal_json-marshal_json,
}
use kube_graffiti.Graffiti.Selectors.{
  source_labels, validate_label_selector, validate_field_selector, match_any, match_labels,
  match_fields, match_label_selector, match_field_selector,
}
use kube_graffiti.Graffiti.Matchers
use kube_graffiti.Graffiti.Matchers.{
  Matchers, matches, match_label_selectors, match_field_selectors, combine,
}
use kube_graffiti.Graffiti.Matchers.Decision.{Accepts, matches_decides}
use kube_graffiti.Graffiti.FieldMap.{make_field_map_from_raw_object, add_all, add_field_recursive}
use kube_graffiti.Graffiti.FieldMap.Leaves.{IsLeaf}
use kube_graffiti.Graffiti.FieldMap.Flatten.{make_field_map-IsLeaf}
use kube_graffiti.Graffiti.Payload.{
  paint_object, contains_additions, contains_deletions, process_metadata_additions_deletions,
}
use kube_graffiti.Graffiti.Patch.{
  create_patch_operand, modify, add_rendered, render_map_values, render_string_template, patch_text,
  render_string_map_as_patch, merge_maps, delete_keys, join, delete_path, escape_string,
  render_values, replace_char,
}
use kube_graffiti.Graffiti.Payload.Painting.{Painted, paint_object-Painted}
use kube_graffiti.Graffiti.Payload.Validate
use kube_graffiti.Graffiti.Payload.Validate.Kinds.{Kind, validate-Kind_iff}
use kube_graffiti.Graffiti.Rule
use kube_graffiti.Graffiti.Rule.{
  AdmissionResponse, allow, mutate, extract_object, mutate_admission, extracted, respond,
  patch_result,
}
use kube_graffiti.Graffiti.Rule.Mutation.{Reads}
use kube_graffiti.Graffiti.Rule.Admission.{
  Refuses, Sends, mutate_admission-Refuses_iff, mutate_admission-extract_err,
  mutate_admission-patch,
}
use kube_graffiti.Graffiti.Libs.{DoesNotPanic}
use kube_graffiti.Graffiti.Rule.Responding.{IsFormed, mutate_admission-IsFormed}
use kube_graffiti.Examples.Fixtures.{
  toy, pod_fields, pod_meta, pod, pod_map, team_matchers, paint, block_rule, paint_rule,
  pod_request, broken_request, pod_patch,
}

team_matchers_valid : Matchers.validate toy team_matchers ≡ ok tt
unfolding Matchers.validate validate_label_selector validate_field_selector
team_matchers_valid = refl

known : is_a_boolean_operator and ≡ true
unfolding is_a_boolean_operator
known = refl

block_rule_valid : Rule.validate toy block_rule ≡ ok tt
unfolding Rule.validate Matchers.validate validate_label_selector validate_field_selector
    Validate.validate
block_rule_valid = refl

pub extracts : extract_object toy pod_request ≡ ok "pod"
unfolding extract_object
extracts = refl

extracts_err : extract_object toy broken_request ≡ err "no object"
unfolding extract_object
extracts_err = refl

pub pod_decodes : make_field_map_from_raw_object toy "pod" ≡ ok pod_map
unfolding make_field_map_from_raw_object add_all add_field_recursive insert
pod_decodes = refl

reads : Reads toy "pod" pod_meta pod_map
reads = (refl, pod_decodes)

pub paints_pod : paint_object toy paint pod pod_map ≡ ok (some pod_patch)
unfolding paint_object contains_additions process_metadata_additions_deletions create_patch_operand
    modify add_rendered render_map_values render_string_template patch_text deep_equal
    render_string_map_as_patch merge_maps insert_all delete_keys lookup insert erase join covers
    delete_path escape_string render_values replace_char contains_deletions
paints_pod = refl

mutate_admission-Refuses_iff_example :
    Refuses toy block_rule pod_request ↔ ((true ≡ true) × Accepts toy team_matchers pod pod_map)
mutate_admission-Refuses_iff_example =
    mutate_admission-Refuses_iff toy block_rule pod_request block_rule_valid known (λ h. h) extracts
      reads

matches_decides_example :
    (b : Bool) × (matches toy team_matchers pod pod_map ≡ ok b)
    × ((b ≡ true) ↔ Accepts toy team_matchers pod pod_map)
matches_decides_example = matches_decides toy team_matchers pod pod_map team_matchers_valid known

validate-Kind_iff_example : IsOk (Validate.validate toy paint) ↔ Kind toy paint
validate-Kind_iff_example = validate-Kind_iff toy paint

paint_object-Painted_example : Painted toy paint pod pod_map (some pod_patch)
paint_object-Painted_example = paint_object-Painted toy paint pod pod_map paints_pod

make_field_map-IsLeaf_example :
    ((s : String) → lookup "kind" pod_map ≡ some s → IsLeaf (entries pod_fields) "kind" s)
    × ((s : String)
        → IsLeaf (entries pod_fields) "kind" s
        → (t : String) × (lookup "kind" pod_map ≡ some t) × IsLeaf (entries pod_fields) "kind" t)
make_field_map-IsLeaf_example = make_field_map-IsLeaf toy "pod" refl pod_decodes "kind"

boolean_operator_string_iff_example :
    (boolean_operator_string "AND" ≡ ok and)
    ↔ ((is_a_boolean_operator and ≡ true) × (to_string and ≡ "AND"))
boolean_operator_string_iff_example = boolean_operator_string_iff "AND" and

or_is_listed : is_a_boolean_operator or ≡ true
unfolding is_a_boolean_operator
or_is_listed = refl

unmarshal_json-marshal_json_example :
    ((t : String) → marshal_json (λ s. ok s) or ≡ ok t → unmarshal_json and t (ok t) ≡ (or, ok tt))
    × (unmarshal_yaml and (marshal_yaml or) ≡ (or, ok tt))
    × (decode_hook true true (text (to_string or)) ≡ ok (operator or))
unmarshal_json-marshal_json_example =
    unmarshal_json-marshal_json (λ s. ok s) (λ t. ok t) (λ s t e. sym e) or and or_is_listed

mutate_admission-extract_err_example :
    mutate_admission toy block_rule broken_request
    ≡ ok (
        allow (
          "failed to mutate object: "
          <> "failed to unmarshal generic object metadata from the admission request: "
          <> "no object"))
mutate_admission-extract_err_example =
    mutate_admission-extract_err toy block_rule broken_request extracts_err refl

abbrev painted_response : AdmissionResponse
painted_response = record (allow "object painted by kube-graffiti") {
  patch_type = some "JSONPatch";
  patch = some pod_patch;
}

pub paint_mutates : mutate toy paint_rule "pod" ≡ ok (some pod_patch)
unfolding mutate matches match_label_selectors match_field_selectors combine match_labels
    match_fields match_any match_label_selector match_field_selector source_labels insert_all insert
    lookup
paint_mutates = rw (pod_decodes, paints_pod) refl

paint_answers : mutate_admission toy paint_rule pod_request ≡ ok painted_response
unfolding mutate_admission extracted respond patch_result
paint_answers = rw (extracts, paint_mutates) refl

mutate_admission-patch_example :
    (painted_response.patch ≡ some pod_patch)
    ↔ Sends (mutate toy paint_rule "pod") pod_patch painted_response
mutate_admission-patch_example =
    mutate_admission-patch toy paint_rule pod_request pod_patch extracts paint_answers

pub toy-DoesNotPanic : DoesNotPanic toy
toy-DoesNotPanic = record {
  labels = λ s. if-both Returns (s == "") with_error with_value;
  fields = λ s. if-both Returns (s == "") with_error with_value;
  parses = λ s. with_value;
  executes = λ s e d. subst (λ t. Returns (t d)) (ok_injective e) with_value;
  unmarshals = λ s. if-both Returns (s == "pod") with_value with_error;
  marshals = λ o. with_value;
  decodes = λ s. if-both Returns (s == "pod") with_value with_error;
  reads_meta = λ s. if-both Returns (s == "pod") with_value with_error;
}

mutate_admission-IsFormed_example :
    (resp : AdmissionResponse) × (mutate_admission toy paint_rule broken_request ≡ ok resp)
    × IsFormed resp
mutate_admission-IsFormed_example =
    mutate_admission-IsFormed toy toy-DoesNotPanic paint_rule broken_request known
