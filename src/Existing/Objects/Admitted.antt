-- ===== src/Existing/Objects/Admitted.antt =====
-- An existing object against an admission request that holds it.
use kube_graffiti.Common.{
  String, ◌≡◌, ◌⊎◌, not, refl, sym, ap, ◌∙◌, ◌==◌, Bool, true, false, Option, none, some, [], ◌∷◌,
  Result, ok_injective, ok, err, abort, str-cases, inl, inr, if◌then◌else◌, Bool-cases, eq_iff,
}
use kube_graffiti.Dict.{Dict, GoMap, lookup, insert}
use kube_graffiti.Graffiti.Json.{Json, str, obj, Fields, end, field, to_dict, of_dict}
use kube_graffiti.Graffiti.Libs.{Libs}
use kube_graffiti.Graffiti.Rule.{
  AdmissionRequest, AdmissionResponse, add_metadata, extract_object, mutate, mutate_admission,
  respond, patch_result, admission_response_error,
}
use kube_graffiti.Graffiti.Rule.Admission.{admission-extracted}
use kube_graffiti.Config.{Rule, graffiti_rule}
use kube_graffiti.Existing.Namespaces.{NamespaceCache}
use kube_graffiti.Existing.Objects.{
  GroupVersionResource, DynamicClient, resource_of, selects, send, mutate_and_send, if_selected,
  apply_to_object,
}

insert_same :
    {V : Type 0} (k : String) (v : V) (m : Dict V) → lookup k m ≡ some v → insert k v m ≡ m
unfolding lookup insert
insert_same k v [] e = cc
insert_same k v ((j, w) ∷ m) e = elim (Bool-cases (j == k)) [
  | inl hit ↦
      let same : some w ≡ some v = rw hit at e in
      let back : v ≡ w = cc in rw hit (ap (λ x. (j, x) ∷ m) back)
  | inr miss ↦ rw (miss, insert_same k v m (rw miss at e)) refl
]

of_dict-to_dict : (fields : Fields) → of_dict (to_dict fields) ≡ fields
of_dict-to_dict end = refl
of_dict-to_dict (field k v fields) = ap (field k v) (of_dict-to_dict fields)

-- A value that is asked for stands in the metadata.
abbrev Has : Fields → String → String → Type 0
Has fields k v = (v ≡ "") ⊎ (lookup k (to_dict fields) ≡ some (str v))

-- The object has the name and the namespace of the request, as far as these are not empty.
pub record IsObjectOf (d : Dict Json) (req : AdmissionRequest) : Type 0 where
  pub fields : Fields
  pub metadata : lookup "metadata" d ≡ some (obj fields)
  pub name : Has fields "name" req.name
  pub namespace : Has fields "namespace" req.namespace

-- The step of extractObject for one of them.
abbrev placed : String → String → GoMap Json → GoMap Json
placed k v object = if not (v == "") then add_metadata object k v else object

placed_same :
    (d : Dict Json) (fields : Fields) (k v : String)
    → lookup "metadata" d ≡ some (obj fields)
    → Has fields k v
    → placed k v (some d) ≡ some d
unfolding add_metadata
placed_same d fields k v there (inl empty) = rw ((eq_iff v "").1 empty) refl
placed_same d fields k v there (inr has) = elim (Bool-cases (v == "")) [
  | inl empty ↦ rw empty refl
  | inr given ↦
      rw
        (
          given,
          add_metadata,
          there,
          insert_same k (str v) (to_dict fields) has,
          of_dict-to_dict fields,
        )
        (ap some (insert_same "metadata" (obj fields) d there))
]

extract_object_same :
    (L : Libs) (req : AdmissionRequest) (d : Dict Json)
    → L.unmarshal_object req.raw ≡ ok (some d)
    → IsObjectOf d req
    → extract_object L req ≡ L.marshal_object (some d)
unfolding extract_object
extract_object_same L req d decoded is =
    rw
      (
        decoded,
        placed_same d is.fields "name" req.name is.metadata is.name,
        placed_same d is.fields "namespace" req.namespace is.metadata is.namespace,
      )
      refl

module _ {W : Type 0} (D : DynamicClient W) (L : Libs) (nsc : NamespaceCache) (rule : Rule)
    (grv : GroupVersionResource) (object : GoMap Json) (w : W) where
  -- The call that sends a patch of the object.
  abbrev patched : String → Result Bool × W
  patched p =
      let (sent, w') = D.patch grv (D.get_namespace object) (D.get_name object) p w in (ok sent, w')

  -- What a response would do to the object: its patch is sent, or nothing if it allows the object
  -- without one; for a refusal it is the marker of a block that is sent.
  abbrev pub effect_of : AdmissionResponse → Result Bool × W
  effect_of resp = elim resp.patch [
    | some p ↦ patched p
    | none ↦ if resp.allowed then (ok false, w) else patched "BLOCK"
  ]

  patch_effect : (p name : String) → effect_of (patch_result (some p) name) ≡ patched p
  unfolding patch_result
  patch_effect p name = elim (str-cases p "BLOCK") [
    | inl same ↦ rw same refl
    | inr other ↦ rw other refl
  ]

  send-effect_of :
      (m : Result (Option String)) {resp : AdmissionResponse}
      → respond (graffiti_rule rule) m ≡ ok resp
      → send D L nsc grv object m w ≡ effect_of resp
  unfolding respond patch_result admission_response_error send
  send-effect_of (ok none) e = ap effect_of (ok_injective e)
  send-effect_of (ok (some p)) e =
      sym (patch_effect p rule.registration.name) ∙ ap effect_of (ok_injective e)
  send-effect_of (err m) e = ap effect_of (ok_injective e)
  send-effect_of (abort m) e = cc

module _ {W : Type 0} (D : DynamicClient W) (L : Libs) (nsc : NamespaceCache) where
  -- Applying a rule to an existing object that its namespace selector lets pass does what the rule
  -- answers to an admission request that holds this object, under its own name and namespace: the
  -- patch of the response is sent to the object, and without one nothing is; but where the response
  -- refuses the object, the text BLOCK is sent as a patch.
  pub apply_to_object-mutate_admission :
      (rule : Rule) (gv resource : String) (d : Dict Json) (req : AdmissionRequest) (w : W)
      {raw : String} {resp : AdmissionResponse}
      → L.unmarshal_object req.raw ≡ ok (some d)
      → IsObjectOf d req
      → L.marshal_object (some d) ≡ ok raw
      → selects D L nsc rule (some d) ≡ ok true
      → mutate_admission L (graffiti_rule rule) req ≡ ok resp
      → apply_to_object D L nsc rule gv resource (some d) w
        ≡ effect_of D L nsc rule (resource_of gv resource) (some d) w resp
  unfolding apply_to_object if_selected mutate_and_send
  apply_to_object-mutate_admission rule gv resource d req w {raw} decoded is marshals chosen
        answers =
      let extracts = extract_object_same L req d decoded is ∙ marshals in
      let step = admission-extracted L (graffiti_rule rule) req extracts in
      rw (chosen, marshals)
        (send-effect_of D L nsc rule (resource_of gv resource) (some d) w
          (mutate L (graffiti_rule rule) raw) (sym step ∙ answers))
