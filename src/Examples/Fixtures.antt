-- ===== src/Examples/Fixtures.antt =====
-- A small stand-in for the vendored packages, and a pod, rules and requests to run the models on.
use kube_graffiti.Common.{
  String, Bool, true, false, ◌==◌, none, some, [], ◌∷◌, ok, err, if◌then◌else◌,
}
use kube_graffiti.Dict.{Dict, GoMap, lookup}
use kube_graffiti.Graffiti.Json.{Json, str, obj, end, field, ObjectMeta, MetaObject}
use kube_graffiti.Graffiti.Libs.{Libs}
use kube_graffiti.Graffiti.Operator.{and}
use kube_graffiti.Graffiti.Matchers.{Matchers}
use kube_graffiti.Graffiti.Payload.{Payload}
use kube_graffiti.Graffiti.Rule.{Rule, AdmissionRequest}

abbrev pub has_key : String → Dict String → Bool
has_key k d = elim (lookup k d) [ some _ ↦ true | none ↦ false ]

abbrev pub pod_fields : GoMap Json
pod_fields = some (
    ("kind", str "Pod")
    ∷ (
      "metadata",
      obj (
          field "labels" (obj (field "team" (str "a") end))
            (field "name" (str "web") (field "namespace" (str "shop") end))),
    )
    ∷ [])

abbrev pub pod_meta : ObjectMeta
pod_meta = record {
  name = "web";
  namespace = "shop";
  labels = some (("team", "a") ∷ []);
  annotations = none;
}

abbrev pub pod : MetaObject
pod = record { meta = pod_meta }

-- A selector is the name of a key that has to be there; a template is its own text; "pod" is the
-- text of the one object that is known.
abbrev pub toy : Libs
toy = record {
  parse_label_selector = λ s. if s == "" then err "empty" else ok (has_key s);
  parse_field_selector = λ s. if s == "" then err "empty" else ok (has_key s);
  is_qualified_name = λ s. if s == "" then "empty" ∷ [] else [];
  is_valid_label_value = λ s. [];
  validate_annotations = λ d. [];
  json_patch_from_string = λ s. if s == "[]" then ok tt else err "no patch";
  parse_template = λ s. ok (λ d. ok s);
  unmarshal_object = λ s. if s == "pod" then ok pod_fields else err "no object";
  marshal_object = λ o. ok "pod";
  decode_object = λ s. if s == "pod" then ok pod_fields else err "no object";
  unmarshal_meta = λ s. if s == "pod" then ok pod_meta else err "no object";
}

abbrev pub team_matchers : Matchers
team_matchers = record {
  label_selectors = "team" ∷ [];
  field_selectors = "kind" ∷ [];
  boolean_operator = and;
}

abbrev pub no_changes : Payload
no_changes = record {
  additions = record { annotations = none; labels = none };
  deletions = record { annotations = []; labels = [] };
  block = false;
  json_patch = "";
}

abbrev pub block_rule : Rule
block_rule = record {
  name = "block-team";
  matchers = team_matchers;
  payload = record no_changes { block = true };
}

abbrev pub paint : Payload
paint = record no_changes {
  additions = record { annotations = none; labels = some (("painted", "yes") ∷ []) };
  deletions = record { annotations = []; labels = "team" ∷ [] };
}

abbrev pub paint_rule : Rule
paint_rule = record { name = "paint-team"; matchers = team_matchers; payload = paint }

abbrev pub pod_request : AdmissionRequest
pod_request = record { uid = "7"; name = "web"; namespace = "shop"; raw = "pod" }

abbrev pub broken_request : AdmissionRequest
broken_request = record pod_request { raw = "?" }

abbrev pub pod_map : Dict String
pod_map =
    ("kind", "Pod")
    ∷ ("metadata.labels.team", "a")
    ∷ ("metadata.name", "web")
    ∷ ("metadata.namespace", "shop")
    ∷ []

-- The patch of `paint` on the pod.
abbrev pub pod_operand : String
pod_operand =
    "{ \"op\": \"replace\", \"path\": \"/metadata/labels\", \"value\": { \"painted\": \"yes\" }}"

abbrev pub pod_patch : String
pod_patch =
    "[ { \"op\": \"replace\", \"path\": \"/metadata/labels\", \"value\": { \"painted\": \"yes\" }} ]"

abbrev pub team_labels : GoMap String
team_labels = some (("team", "a") ∷ [])

abbrev pub painted_labels : GoMap String
painted_labels = some (("painted", "yes") ∷ [])
