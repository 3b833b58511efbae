-- ===== src/Examples/Admitted.antt =====
-- A rule that blocks, on a pod that exists and on a request that holds the same pod.
use kube_graffiti.Common.{
  String, ◌≡◌, refl, inr, true, false, some, List, [], ◌∷◌, Result, Bool, ok,
}
use kube_graffiti.Dict.{lookup, insert, entries}
use kube_graffiti.Graffiti.Rule.{
  AdmissionResponse, allow, mutate, mutate_admission, extracted, respond, patch_result,
}
use kube_graffiti.Graffiti.Matchers.{matches, match_label_selectors, match_field_selectors, combine}
use kube_graffiti.Graffiti.Selectors.{
  match_labels, match_fields, source_labels, match_any, match_label_selector, match_field_selector,
}
use kube_graffiti.Graffiti.Payload.{paint_object}
use kube_graffiti.Dict.{insert_all}
use kube_graffiti.Config.{Rule, graffiti_rule}
use kube_graffiti.Existing.Objects.{selects, apply_to_object}
use kube_graffiti.Existing.Objects.Admitted.{IsObjectOf, apply_to_object-mutate_admission}
use kube_graffiti.Examples.Fixtures.{toy, pod_fields, pod_request, block_rule}
use kube_graffiti.Examples.Rules.{pod_decodes, extracts}
use kube_graffiti.Examples.Cluster.{cluster, cache, everywhere}

abbrev blocking : Rule
blocking = record everywhere { payload = block_rule.payload }

abbrev refusal : AdmissionResponse
refusal = record (allow "blocked by kube-graffiti rule: paint-team") {
  allowed = false;
  reason = "Forbidden";
}

blocks : mutate toy (graffiti_rule blocking) "pod" ≡ ok (some "BLOCK")
unfolding mutate matches match_label_selectors match_field_selectors combine match_labels
    match_fields match_any match_label_selector match_field_selector source_labels insert_all insert
    lookup paint_object
blocks = rw pod_decodes refl

refuses : mutate_admission toy (graffiti_rule blocking) pod_request ≡ ok refusal
unfolding mutate_admission extracted respond patch_result
refuses = rw (extracts, blocks) refl

is_the_pod : IsObjectOf (entries pod_fields) pod_request
unfolding lookup
is_the_pod = record { fields = _; metadata = refl; name = inr refl; namespace = inr refl }

chosen : selects cluster toy cache blocking pod_fields ≡ ok true
unfolding selects
chosen = refl

-- The marker of the block is sent as a patch.
apply_to_object-mutate_admission_example :
    ◌≡◌ {A = Result Bool × List String}
      (apply_to_object cluster toy cache blocking "v1" "pods" pod_fields [])
      (ok true, "BLOCK" ∷ [])
apply_to_object-mutate_admission_example =
    apply_to_object-mutate_admission cluster toy cache blocking "v1" "pods" (entries pod_fields)
      pod_request [] refl is_the_pod refl chosen refuses
