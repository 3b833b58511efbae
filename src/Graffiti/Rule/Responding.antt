-- ===== src/Graffiti/Rule/Responding.antt =====
-- Every admission request is answered.
use kube_graffiti.Common.{
  zero, suc, String, ◌≡◌, ◌≢◌, refl, Bool, true, ◌==◌, Option, none, some, List, [], ◌∷◌, Result,
  ok, err, abort, not, is_empty, ◌&&◌, ◌||◌, Returns, with_value, with_error, >>=-Returns,
  map_err-Returns, if-both, ◌>>=◌, ◌⊎◌, inl, inr, arith, eq_iff, str-cases,
}
use kube_graffiti.Decimal.{pos, negsuc}
use kube_graffiti.Dict.{Dict}
use kube_graffiti.Graffiti.Json.{MetaObject}
use kube_graffiti.Graffiti.Libs.{Libs, DoesNotPanic}
use kube_graffiti.Graffiti.Operator.{BooleanOperator, and, or, xor, is_a_boolean_operator}
use kube_graffiti.Graffiti.Selectors.{
  match_any, match_labels, match_fields, match_label_selector, match_field_selector, source_labels,
}
use kube_graffiti.Graffiti.Matchers.{
  Matchers, matches, match_label_selectors, match_field_selectors, combine,
}
use kube_graffiti.Graffiti.FieldMap.{make_field_map_from_raw_object}
use kube_graffiti.Graffiti.Patch.Returning.{create_patch_operand-Returns}
use kube_graffiti.Graffiti.Payload.{
  Payload, paint_object, process_metadata_additions_deletions, contains_additions,
  contains_deletions,
}
use kube_graffiti.Graffiti.Rule.{
  Rule, AdmissionRequest, AdmissionResponse, extract_object, extracted, respond, patch_result,
  admission_response_error, mutate, mutate_admission,
}

match_any-Returns :
    (match : String → Result Bool) (selectors : List String)
    → ((s : String) → Returns (match s))
    → Returns (match_any match selectors)
unfolding match_any
match_any-Returns match [] h = with_value
match_any-Returns match (s ∷ selectors) h =
    >>=-Returns (h s) (λ b e. if-both Returns b with_value (match_any-Returns match selectors h))

-- Known operators are the three that the switch has cases for.
known-cases :
    (i : BooleanOperator) → is_a_boolean_operator i ≡ true → (i ≡ and) ⊎ ((i ≡ or) ⊎ (i ≡ xor))
unfolding is_a_boolean_operator
known-cases (negsuc n) h = cc
known-cases (pos zero) h = inl refl
known-cases (pos (suc zero)) h = inr (inl refl)
known-cases (pos (suc (suc zero))) h = inr (inr refl)
known-cases (pos (suc (suc (suc n)))) h = ground arith

combine-Returns :
    (m : Matchers) (a b : Bool)
    → is_a_boolean_operator m.boolean_operator ≡ true
    → Returns (combine m a b)
unfolding combine
combine-Returns m a b known = elim (known-cases m.boolean_operator known) [
  | inl e ↦ rw e with_value
  | inr (inl e) ↦ rw e with_value
  | inr (inr e) ↦ rw e with_value
]

module _ (L : Libs) (safe : DoesNotPanic L) where
  match_label_selector-Returns :
      (s : String) (d : Dict String) → Returns (match_label_selector L s d)
  unfolding match_label_selector
  match_label_selector-Returns s d =
      >>=-Returns (safe.labels s) (λ f e. if-both Returns _ with_value with_value)

  match_field_selector-Returns :
      (s : String) (d : Dict String) → Returns (match_field_selector L s d)
  unfolding match_field_selector
  match_field_selector-Returns s d =
      >>=-Returns (safe.fields s) (λ f e. if-both Returns _ with_value with_value)

  match_label_selectors-Returns :
      (m : Matchers) (object : MetaObject) → Returns (match_label_selectors L m object)
  unfolding match_label_selectors match_labels
  match_label_selectors-Returns m object =
      if-both Returns (not (is_empty m.label_selectors))
        (match_any-Returns _ m.label_selectors
          (λ s. match_label_selector-Returns s (source_labels object)))
        with_value

  match_field_selectors-Returns :
      (m : Matchers) (fm : Dict String) → Returns (match_field_selectors L m fm)
  unfolding match_field_selectors match_fields
  match_field_selectors-Returns m fm =
      if-both Returns (not (is_empty m.field_selectors))
        (match_any-Returns _ m.field_selectors (λ s. match_field_selector-Returns s fm)) with_value

  matches-Returns :
      (m : Matchers) (object : MetaObject) (fm : Dict String)
      → is_a_boolean_operator m.boolean_operator ≡ true
      → Returns (matches L m object fm)
  unfolding matches
  matches-Returns m object fm known =
      if-both Returns (is_empty m.label_selectors && is_empty m.field_selectors) with_value (
        >>=-Returns (match_label_selectors-Returns m object) (λ a e.
          >>=-Returns (match_field_selectors-Returns m fm) (λ b e'. combine-Returns m a b known)))

  make_field_map-Returns : (raw : String) → Returns (make_field_map_from_raw_object L raw)
  unfolding make_field_map_from_raw_object
  make_field_map-Returns raw =
      if-both Returns (raw == "") with_error
        (>>=-Returns (map_err-Returns _ (safe.decodes raw)) (λ o e. with_value))

  process-Returns :
      (p : Payload) (object : MetaObject) (fm : Dict String)
      → Returns (process_metadata_additions_deletions L p object fm)
  unfolding process_metadata_additions_deletions
  process-Returns p object fm =
      >>=-Returns
        (create_patch_operand-Returns L safe fm object.meta.labels p.additions.labels
          p.deletions.labels "/metadata/labels")
        (λ l e.
          >>=-Returns
            (create_patch_operand-Returns L safe fm object.meta.annotations p.additions.annotations
              p.deletions.annotations "/metadata/annotations")
            (λ a e'. with_value))

  paint_object-Returns :
      (p : Payload) (object : MetaObject) (fm : Dict String) → Returns (paint_object L p object fm)
  unfolding paint_object
  paint_object-Returns p object fm = if-both Returns p.block with_value (
      if-both Returns (not (p.json_patch == "")) with_value (
        >>=-Returns
          (if-both Returns (contains_additions p || contains_deletions p)
            (map_err-Returns _ (process-Returns p object fm)) with_value)
          (λ t e. with_value)))

  mutate-Returns :
      (r : Rule) (raw : String)
      → is_a_boolean_operator r.matchers.boolean_operator ≡ true
      → Returns (mutate L r raw)
  unfolding mutate
  mutate-Returns r raw known = >>=-Returns (map_err-Returns _ (safe.reads_meta raw)) (λ meta e.
      >>=-Returns (make_field_map-Returns raw) (λ fm e.
        >>=-Returns (matches-Returns r.matchers _ fm known)
          (λ b e. if-both Returns b (paint_object-Returns r.payload _ fm) with_value)))

  extract_object-Returns : (req : AdmissionRequest) → Returns (extract_object L req)
  unfolding extract_object
  extract_object-Returns req = >>=-Returns (safe.unmarshals req.raw) (λ o e. safe.marshals _)

-- A response has either no patch and no type of one, or, for an object that is allowed, a JSON patch.
abbrev pub IsFormed : AdmissionResponse → Type 0
IsFormed resp =
    ((resp.patch ≡ none) × (resp.patch_type ≡ none))
    ⊎ ((resp.allowed ≡ true)
        × (resp.patch_type ≡ some "JSONPatch")
        × ((patch : String) × (resp.patch ≡ some patch) × (patch ≢ "BLOCK")))

patch_result-IsFormed : (patch : Option String) (name : String) → IsFormed (patch_result patch name)
unfolding patch_result
patch_result-IsFormed none name = inl (refl, refl)
patch_result-IsFormed (some p) name = elim (str-cases p "BLOCK") [
  | inl same ↦ rw ((eq_iff p "BLOCK").1 same) (inl (refl, refl))
  | inr other ↦
      rw other (inr (refl, refl, (p, refl, λ same. let hit = (eq_iff p "BLOCK").1 same in cc)))
]

respond-IsFormed :
    (r : Rule) {m : Result (Option String)}
    → Returns m
    → (resp : AdmissionResponse) × (respond r m ≡ ok resp) × IsFormed resp
unfolding respond admission_response_error
respond-IsFormed r {m = ok patch} h = (_, refl, patch_result-IsFormed patch r.name)
respond-IsFormed r {m = err e} h = (_, refl, inl (refl, refl))
respond-IsFormed r {m = abort e} h = absurd (elim h [ ])

-- Where the other code does not panic, MutateAdmission of a rule with one of the three operators
-- answers every request, whatever text it holds: it returns a response with no patch, or with a JSON
-- patch that is not the marker of a block, and then the object is allowed.
pub mutate_admission-IsFormed :
    (L : Libs)
    → DoesNotPanic L
    → (r : Rule) (req : AdmissionRequest) → is_a_boolean_operator r.matchers.boolean_operator ≡ true
    → (resp : AdmissionResponse) × (mutate_admission L r req ≡ ok resp) × IsFormed resp
unfolding mutate_admission extracted
mutate_admission-IsFormed L safe r req known =
    go (extract_object L req) (extract_object-Returns L safe req)
  where
    go :
        (x : Result String)
        → Returns x
        → (resp : AdmissionResponse) × ((extracted x >>= λ object. respond r (mutate L r object))
            ≡ ok resp)
          × IsFormed resp
    go (ok object) h = respond-IsFormed r (mutate-Returns L safe r object known)
    go (err e) h = respond-IsFormed r (mutate-Returns L safe r "" known)
    go (abort e) h = absurd (elim h [ ])
