-- ===== src/Graffiti/Rule.antt =====
-- pkg/graffiti/graffiti.go: a rule, its effect on an object, and its answer to an admission request.
pub mod Mutation
pub mod Admission
pub mod Responding
use kube_graffiti.Common.{
  String, Bool, true, false, not, ◌==◌, Option, none, some, List, [], ◌∷◌, Result, ok, err, abort,
  if◌then◌else◌, ◌>>=◌, ◌>>◌, map_err, ◌<>◌,
}
use kube_graffiti.Dict.{Dict, GoMap, lookup, insert}
use kube_graffiti.Graffiti.Json.{Json, str, obj, Fields, end, field, to_dict, of_dict, MetaObject}
use kube_graffiti.Graffiti.Libs.{Libs}
use kube_graffiti.Graffiti.FieldMap.{make_field_map_from_raw_object}
use kube_graffiti.Graffiti.Matchers
use kube_graffiti.Graffiti.Matchers.{Matchers, matches}
use kube_graffiti.Graffiti.Payload.{Payload, paint_object}
use kube_graffiti.Graffiti.Payload.Validate

pub record Rule : Type 0 where
  pub name : String
  pub matchers : Matchers
  pub payload : Payload

-- The fields of an admission request that the program reads; `raw` is Object.Raw.
pub record AdmissionRequest : Type 0 where
  pub uid : String
  pub name : String
  pub namespace : String
  pub raw : String

-- `reason` and `message` are those of the status in `Result`.
pub record AdmissionResponse : Type 0 where
  pub uid : String
  pub allowed : Bool
  pub reason : String
  pub message : String
  pub patch_type : Option String
  pub patch : Option String

-- An allowed response without a patch.
abbrev pub allow : String → AdmissionResponse
allow message = record {
  uid = "";
  allowed = true;
  reason = "";
  message = message;
  patch_type = none;
  patch = none;
}

unfoldable pub admission_response_error : String → AdmissionResponse
admission_response_error e = allow e

unfoldable pub patch_result : Option String → String → AdmissionResponse
patch_result none name = allow "rule didn't match"
patch_result (some patch) name =
    if patch == "BLOCK"
    then record (allow ("blocked by kube-graffiti rule: " <> name)) {
      allowed = false;
      reason = "Forbidden";
    }
    else record (allow "object painted by kube-graffiti") {
      patch_type = some "JSONPatch";
      patch = some patch;
    }

-- `obj["metadata"]` when it is there: a map takes the entry, any other value stays.
abbrev set_metadata : String → String → Json → Json
set_metadata k v (obj fields) = obj (of_dict (insert k (str v) (to_dict fields)))
set_metadata k v other = other

unfoldable pub add_metadata : GoMap Json → String → String → GoMap Json
add_metadata none k v = none
add_metadata (some object) k v = elim (lookup "metadata" object) [
  | some metadata ↦ some (insert "metadata" (set_metadata k v metadata) object)
  | none ↦ some (insert "metadata" (obj (field k (str v) end)) object)
]

-- What MutateAdmission goes on with: the response to a failed extraction is dropped, and the
-- object is then nil.
unfoldable pub extracted : Result String → Result String
extracted (ok object) = ok object
extracted (err e) = ok ""
extracted (abort e) = abort e

unfoldable pub respond : Rule → Result (Option String) → Result AdmissionResponse
respond r (ok patch) = ok (patch_result patch r.name)
respond r (err e) = ok (admission_response_error ("failed to mutate object: " <> e))
respond r (abort e) = abort e

module _ (L : Libs) where
  unfoldable pub validate : Rule → Result (Unit {0})
  validate r = do
    map_err (λ e. "rule '" <> r.name <> "' failed validation: " <> e)
        (Matchers.validate L r.matchers)
    map_err (λ e. "rule '" <> r.name <> "' failed validation: " <> e)
        (Validate.validate L r.payload)

  unfoldable pub extract_object : AdmissionRequest → Result String
  extract_object req = do
    object ← L.unmarshal_object req.raw
    let named = if not (req.name == "") then add_metadata object "name" req.name else object
    let placed =
        if not (req.namespace == "") then add_metadata named "namespace" req.namespace else named
    L.marshal_object placed

  -- Mutate; `none` is the nil patch.
  unfoldable pub mutate : Rule → String → Result (Option String)
  mutate r object = do
    meta ←
        map_err
          (λ e. "failed to unmarshal generic object metadata from the admission request: " <> e)
          (L.unmarshal_meta object)
    field_map ← make_field_map_from_raw_object L object
    match ← matches L r.matchers (record { meta = meta }) field_map
    if match then paint_object L r.payload (record { meta = meta }) field_map else ok none

  unfoldable pub mutate_admission : Rule → AdmissionRequest → Result AdmissionResponse
  unfolding extracted respond
  mutate_admission r req = do object ← extracted (extract_object req); respond r (mutate r object)
