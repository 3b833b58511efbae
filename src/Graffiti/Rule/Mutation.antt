-- ===== src/Graffiti/Rule/Mutation.antt =====
-- What the rule's answer to an admission request says about the object.
use kube_graffiti.Common.{
  String, ◌≡◌, ◌≢◌, refl, sym, subst, ◌∙◌, Bool, true, none, some, ok, if◌then◌else◌, map_err,
  map_err-eq-ok, IsOk, IsOk-of_eq, >>=-eq-ok, inl, inr, ◌↔◌, Bool-cases,
}
use kube_graffiti.Dict.{Dict}
use kube_graffiti.Graffiti.Json.{MetaObject, ObjectMeta}
use kube_graffiti.Graffiti.Libs.{Libs}
use kube_graffiti.Graffiti.FieldMap.{make_field_map_from_raw_object}
use kube_graffiti.Graffiti.Matchers
use kube_graffiti.Graffiti.Matchers.{matches}
use kube_graffiti.Graffiti.Matchers.Decision.{Accepts, matches_decides}
use kube_graffiti.Graffiti.Operator.{is_a_boolean_operator}
use kube_graffiti.Graffiti.Payload.{paint_object}
use kube_graffiti.Graffiti.Payload.Painting.{block_of_marker, marker_of_block}
use kube_graffiti.Graffiti.Payload.Validate
use kube_graffiti.Graffiti.Payload.Validate.Kinds.{block, json_patch, changes, validate-Kind_iff}
use kube_graffiti.Graffiti.Rule.{Rule, validate, mutate}

-- A text that reads as an object with this metadata and this field map.
abbrev pub Reads : Libs → String → ObjectMeta → Dict String → Type 0
Reads L object meta fm =
    (L.unmarshal_meta object ≡ ok meta) × (make_field_map_from_raw_object L object ≡ ok fm)

module _ (L : Libs) (r : Rule) (valid : validate L r ≡ ok tt) where
  matchers_valid : Matchers.validate L r.matchers ≡ ok tt
  unfolding validate
  matchers_valid =
      let (u, first, _) = >>=-eq-ok (map_err _ (Matchers.validate L r.matchers)) _ valid in
      map_err-eq-ok _ _ first

  payload_valid : Validate.validate L r.payload ≡ ok tt
  unfolding validate
  payload_valid =
      let (u, _, second) = >>=-eq-ok (map_err _ (Matchers.validate L r.matchers)) _ valid in
      map_err-eq-ok _ _ second

  -- A valid payload's own patch is not the marker of a block.
  json_patch-ne-marker : ¬ IsOk (L.json_patch_from_string "BLOCK") → r.payload.json_patch ≢ "BLOCK"
  json_patch-ne-marker no_patch e =
      elim ((validate-Kind_iff L r.payload).0 (IsOk-of_eq _ payload_valid)) [
        | block b f u ↦ absurd (nil-ne-BLOCK (sym f ∙ e))
        | json_patch b n u h ↦ no_patch (subst (λ t. IsOk (L.json_patch_from_string t)) e h)
        | changes b f n h ↦ absurd (nil-ne-BLOCK (sym f ∙ e))
      ]
    where
      nil-ne-BLOCK : ◌≢◌ {A = String} "" "BLOCK"
      nil-ne-BLOCK h = cc

  module _ (known : is_a_boolean_operator r.matchers.boolean_operator ≡ true) (object : String)
      {meta : ObjectMeta} {fm : Dict String} (reads : Reads L object meta fm) where
    abbrev subject : MetaObject
    subject = record { meta = meta }

    mutate-matched :
        (b : Bool)
        → matches L r.matchers subject fm ≡ ok b
        → mutate L r object ≡ (if b then paint_object L r.payload subject fm else ok none)
    unfolding mutate
    mutate-matched b e = rw (reads.0, reads.1, e) refl

    -- A valid rule with one of the three operators asks for an object to be refused exactly when it is
    -- a block and its selectors accept the object, provided that the text BLOCK is no JSON patch.
    pub mutate-marker_iff :
        ¬ IsOk (L.json_patch_from_string "BLOCK")
        → (mutate L r object ≡ ok (some "BLOCK"))
          ↔ ((r.payload.block ≡ true) × Accepts L r.matchers subject fm)
    mutate-marker_iff no_patch =
        let (b, decided, truth) = matches_decides L r.matchers subject fm matchers_valid known in
        let step = mutate-matched b decided in
        (
          λ e. elim (Bool-cases b) [
            | inl hit ↦ (
              block_of_marker L r.payload subject fm (json_patch-ne-marker no_patch)
                  (rw (step, hit) at e),
              truth.0 hit,
            )
            | inr miss ↦ cc (rw (step, miss) at e)
          ],
          λ h. rw (step, truth.1 h.1) (marker_of_block L r.payload subject fm h.0),
        )
