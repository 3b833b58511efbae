-- ===== src/Graffiti/Rule/Admission.antt =====
-- The answer to an admission request: when it refuses, when it patches, and what errors do.
use kube_graffiti.Common.{
  String, ◌≡◌, ◌≢◌, refl, sym, ap, subst, ◌∙◌, true, false, Option, none, some, Result, ok, err,
  abort, IsOk, inl, inr, ◌↔◌, eq_iff, str-cases, ◌<>◌,
}
use kube_graffiti.Dict.{Dict}
use kube_graffiti.Graffiti.Json.{ObjectMeta}
use kube_graffiti.Graffiti.Libs.{Libs}
use kube_graffiti.Graffiti.Matchers.Decision.{Accepts}
use kube_graffiti.Graffiti.Operator.{is_a_boolean_operator}
use kube_graffiti.Graffiti.Rule.{
  Rule, AdmissionRequest, AdmissionResponse, validate, extract_object, mutate, respond,
  mutate_admission, patch_result, admission_response_error, allow,
}
use kube_graffiti.Graffiti.Rule.Mutation.{Reads, mutate-marker_iff}

-- A response that refuses comes from the marker of a block.
patch_result-refuses :
    (patch : Option String) (name : String)
    → (patch_result patch name).allowed ≡ false
    → patch ≡ some "BLOCK"
unfolding patch_result
patch_result-refuses none name e = cc
patch_result-refuses (some p) name e = elim (str-cases p "BLOCK") [
  | inl same ↦ ap some same
  | inr other ↦ cc (rw other at e)
]

-- The answer to the request is a response that refuses the object.
abbrev pub Refuses : Libs → Rule → AdmissionRequest → Type 0
Refuses L r req =
    (resp : AdmissionResponse) × (mutate_admission L r req ≡ ok resp) × (resp.allowed ≡ false)

respond-refuses :
    (r : Rule) (m : Result (Option String)) (resp : AdmissionResponse)
    → respond r m ≡ ok resp
    → resp.allowed ≡ false
    → m ≡ ok (some "BLOCK")
unfolding respond admission_response_error
respond-refuses r (ok patch) resp e refused =
    let same : patch_result patch r.name ≡ resp = cc in
    ap ok (patch_result-refuses patch r.name (subst (λ x. x.allowed ≡ false) (sym same) refused))
respond-refuses r (err e) resp h refused =
    let same : allow ("failed to mutate object: " <> e) ≡ resp = cc in
    cc (subst (λ x. x.allowed ≡ false) (sym same) refused)
respond-refuses r (abort e) resp h refused = cc

-- The result of Mutate is the patch `p`, no marker of a block, and the response allows the object.
abbrev pub Sends : Result (Option String) → String → AdmissionResponse → Type 0
Sends m p resp =
    (m ≡ ok (some p)) × (p ≢ "BLOCK") × (resp.allowed ≡ true) × (resp.patch_type ≡ some "JSONPatch")

patch_result-Sends_iff :
    (o : Option String) (name p : String)
    → ((patch_result o name).patch ≡ some p) ↔ Sends (ok o) p (patch_result o name)
unfolding patch_result
patch_result-Sends_iff none name p = (λ e. cc, λ h. cc)
patch_result-Sends_iff (some q) name p = elim (str-cases q "BLOCK") [
  | inl same ↦ rw same (λ e. cc, λ h. absurd (h.1 (let e = h.0 in cc)))
  | inr other ↦ rw other (
    λ e. (
      ap ok e,
      λ block. let hit = (eq_iff q "BLOCK").1 (let f : some q ≡ some p = e in cc) in cc,
      refl,
      refl,
    ),
    λ h. let e = h.0 in cc,
  )
]

respond-Sends_iff :
    (r : Rule) (m : Result (Option String)) (resp : AdmissionResponse)
    → respond r m ≡ ok resp
    → (p : String) → (resp.patch ≡ some p) ↔ Sends m p resp
unfolding respond admission_response_error
respond-Sends_iff r (ok o) resp e p =
    let same : patch_result o r.name ≡ resp = cc in
    subst (λ x. (x.patch ≡ some p) ↔ Sends (ok o) p x) same (patch_result-Sends_iff o r.name p)
respond-Sends_iff r (err e) resp h p =
    let same : allow ("failed to mutate object: " <> e) ≡ resp = cc in
    subst (λ x. (x.patch ≡ some p) ↔ Sends (err e) p x) same (λ f. cc, λ f. cc (f.0))
respond-Sends_iff r (abort e) resp h p = cc

module _ (L : Libs) (r : Rule) (req : AdmissionRequest) where
  pub admission-extracted :
      {object : String}
      → extract_object L req ≡ ok object
      → mutate_admission L r req ≡ respond r (mutate L r object)
  unfolding mutate_admission
  admission-extracted e = rw e refl

  -- A rule that passes its validation and whose operator is one of AND, OR and XOR, which the
  -- validation does not check, refuses the object of a request exactly when it is a block and its
  -- selectors accept the object, provided that the text BLOCK is no JSON patch; the object is the one that the request
  -- holds, with the request's name and namespace, read as metadata and a field map.
  pub mutate_admission-Refuses_iff :
      {object : String} {meta : ObjectMeta} {fm : Dict String}
      → validate L r ≡ ok tt
      → is_a_boolean_operator r.matchers.boolean_operator ≡ true
      → ¬ IsOk (L.json_patch_from_string "BLOCK")
      → extract_object L req ≡ ok object
      → Reads L object meta fm
      → Refuses L r req
        ↔ ((r.payload.block ≡ true) × Accepts L r.matchers (record { meta = meta }) fm)
  unfolding respond patch_result
  mutate_admission-Refuses_iff {object} valid known no_patch extracts reads =
      let (to, from) = mutate-marker_iff L r valid known object reads no_patch in
      let step = admission-extracted extracts in
      (
        λ (resp, answered, refused).
            to (respond-refuses r (mutate L r object) resp (sym step ∙ answered) refused),
        λ h. (patch_result (some "BLOCK") r.name, step ∙ rw (from h) refl, refl),
      )

  -- Errors fail open: when the request's object cannot be read, the answer allows it without a patch.
  -- The response to a failed extraction is dropped, so its text is not the one that is sent: the empty
  -- object, which does not unmarshal either, is reported instead.
  pub mutate_admission-extract_err :
      {e e' : String}
      → extract_object L req ≡ err e
      → L.unmarshal_meta "" ≡ err e'
      → mutate_admission L r req
        ≡ ok (
            allow (
              "failed to mutate object: "
              <> "failed to unmarshal generic object metadata from the admission request: " <> e'))
  unfolding mutate_admission admission_response_error mutate
  mutate_admission-extract_err extracts unread = rw (extracts, unread) refl

  -- A patch is sent exactly with an allowed response of type JSONPatch, and it is what Mutate returned
  -- for the extracted object, never the marker of a block.
  pub mutate_admission-patch :
      {object : String} {resp : AdmissionResponse} (p : String)
      → extract_object L req ≡ ok object
      → mutate_admission L r req ≡ ok resp
      → (resp.patch ≡ some p) ↔ Sends (mutate L r object) p resp
  mutate_admission-patch {object} {resp} p extracts answered =
      respond-Sends_iff r (mutate L r object) resp (sym (admission-extracted extracts) ∙ answered) p
