-- ===== src/Graffiti/Libs.antt =====
-- What package graffiti takes from other code: the selectors, validators and JSON patch parser of
-- the vendored packages, text/template, and the codec encoding/json.
use kube_graffiti.Common.{String, ◌≡◌, Bool, List, Result, ok, Returns}
use kube_graffiti.Dict.{Dict, GoMap}
use kube_graffiti.Graffiti.Json.{Json, ObjectMeta}

pub record Libs : Type 0 where
  -- labels.Parse and fields.ParseSelector. A selector is given by its method `Matches`.
  pub parse_label_selector : String → Result (Dict String → Bool)
  pub parse_field_selector : String → Result (Dict String → Bool)
  -- The validators return messages, and none for a valid value.
  pub is_qualified_name : String → List String
  pub is_valid_label_value : String → List String
  pub validate_annotations : Dict String → List String
  -- jsonpatch.FromString
  pub json_patch_from_string : String → Result (Unit {0})
  -- template.Parse; a template is given by its method `Execute`.
  pub parse_template : String → Result (Dict String → Result String)
  -- json.Unmarshal and json.Marshal at a map[string]interface{}; a decoder with UseNumber at the
  -- same type; json.Unmarshal at `metaObject`.
  pub unmarshal_object : String → Result (GoMap Json)
  pub marshal_object : GoMap Json → Result String
  pub decode_object : String → Result (GoMap Json)
  pub unmarshal_meta : String → Result ObjectMeta

-- The other code returns a value or an error, and does not panic.
pub record DoesNotPanic (L : Libs) : Type 0 where
  pub labels : (s : String) → Returns (L.parse_label_selector s)
  pub fields : (s : String) → Returns (L.parse_field_selector s)
  pub parses : (s : String) → Returns (L.parse_template s)
  pub executes :
      (s : String) {t : Dict String → Result String}
      → L.parse_template s ≡ ok t
      → (d : Dict String) → Returns (t d)
  pub unmarshals : (s : String) → Returns (L.unmarshal_object s)
  pub marshals : (o : GoMap Json) → Returns (L.marshal_object o)
  pub decodes : (s : String) → Returns (L.decode_object s)
  pub reads_meta : (s : String) → Returns (L.unmarshal_meta s)
