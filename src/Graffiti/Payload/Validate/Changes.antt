-- ===== src/Graffiti/Payload/Validate/Changes.antt =====
-- When additions and deletions are valid.
use kube_graffiti.Common.{
  String, ◌≡◌, ◌↔◌, ◌⊎◌, inl, inr, refl, true, List, [], ◌∷◌, Result, Bool-cases, if◌then◌else◌,
  IsOk, then_iff, same_iff, All, ◌>>◌,
}
use kube_graffiti.Dict.{Dict, entries}
use kube_graffiti.Graffiti.Libs.{Libs}
use kube_graffiti.Graffiti.Payload.{Additions, Deletions}
use kube_graffiti.Graffiti.Payload.Validate.{
  has_template, refuse, unless_empty, validate_additions_labels, validate_additions_annotations,
  validate_deletions_keys, validate_additions_deletions,
}

module _ (L : Libs) where
  -- A label that may be added: its key is qualified, and its value is a template or valid.
  abbrev pub IsLabel : String × String → Type 0
  IsLabel e =
      (L.is_qualified_name e.0 ≡ [])
      × ((has_template e.1 ≡ true) ⊎ (L.is_valid_label_value e.1 ≡ []))

  abbrev pub IsQualified : String → Type 0
  IsQualified k = L.is_qualified_name k ≡ []

  abbrev pub AreValid : Additions → Deletions → Type 0
  AreValid add del =
      All IsLabel (entries add.labels)
      × ((entries add.annotations ≡ []) ⊎ (L.validate_annotations (entries add.annotations) ≡ []))
      × All IsQualified del.labels
      × All IsQualified del.annotations

refuse-IsOk_iff :
    (errors : List String) (message : String → String)
    → IsOk (refuse errors message) ↔ (errors ≡ [])
refuse-IsOk_iff [] message = (λ _. refl, λ _. tt)
refuse-IsOk_iff (e ∷ errors) message = (λ h. absurd h, λ e. cc)

unless_empty_iff {ℓ} :
    {A : Type ℓ} (xs : List A) (check : List A → Result (Unit {0}))
    → IsOk (unless_empty xs check) ↔ ((xs ≡ []) ⊎ IsOk (check xs))
unless_empty_iff [] check = (λ _. inl refl, λ _. tt)
unless_empty_iff (x ∷ xs) check = (λ h. inr h, elim [ inl e ↦ cc | inr h ↦ h ])

module _ (L : Libs) where
  label_value_iff :
      (v : String) (message : String → String) (later : Result (Unit {0}))
      → IsOk
          (if has_template v then later else (refuse (L.is_valid_label_value v) message >> later))
        ↔ (((has_template v ≡ true) ⊎ (L.is_valid_label_value v ≡ [])) × IsOk later)
  label_value_iff v message later =
      let (to, from) =
        then_iff (refuse (L.is_valid_label_value v) message) later
          (refuse-IsOk_iff (L.is_valid_label_value v) message) same_iff in
      elim (Bool-cases (has_template v)) [
        | inl templated ↦ rw templated (λ h. (inl refl, h), λ h. h.1)
        | inr plain ↦ rw plain (
          λ h. let (valid, rest) = to h in (inr valid, rest),
          λ h. from (elim (h.0) [ inl e ↦ cc | inr valid ↦ valid ], h.1),
        )
      ]

  labels_iff :
      (labels : Dict String) → IsOk (validate_additions_labels L labels) ↔ All (IsLabel L) labels
  unfolding validate_additions_labels
  labels_iff [] = (λ h. tt, λ h. tt)
  labels_iff ((k, v) ∷ labels) =
      let ih = labels_iff labels in
      let value = label_value_iff v _ (validate_additions_labels L labels) in
      let (to, from) =
        then_iff (refuse (L.is_qualified_name k) _) _ (refuse-IsOk_iff (L.is_qualified_name k) _)
          value in
      (
        λ h. let (key, (good, rest)) = to h in ((key, good), ih.0 rest),
        λ h. from (h.0.0, (h.0.1, ih.1 h.1)),
      )

  keys_iff : (keys : List String) → IsOk (validate_deletions_keys L keys) ↔ All (IsQualified L) keys
  unfolding validate_deletions_keys
  keys_iff [] = (λ h. tt, λ h. tt)
  keys_iff (k ∷ keys) =
      then_iff (refuse (L.is_qualified_name k) _) _ (refuse-IsOk_iff (L.is_qualified_name k) _)
        (keys_iff keys)

  -- A check that is left out for the empty list, where it would pass.
  unless_empty-All_iff {ℓ} :
      {A : Type ℓ} (P : A → Type 0) (xs : List A) (check : List A → Result (Unit {0}))
      → IsOk (check xs) ↔ All P xs
      → IsOk (unless_empty xs check) ↔ All P xs
  unless_empty-All_iff P [] check e = (λ _. tt, λ _. tt)
  unless_empty-All_iff P (x ∷ xs) check e = e

  annotations_iff :
      (annotations : Dict String)
      → IsOk (unless_empty annotations (validate_additions_annotations L))
        ↔ ((annotations ≡ []) ⊎ (L.validate_annotations annotations ≡ []))
  unfolding validate_additions_annotations
  annotations_iff [] = (λ _. inl refl, λ _. tt)
  annotations_iff (x ∷ annotations) =
      let (to, from) = refuse-IsOk_iff (L.validate_annotations (x ∷ annotations)) _ in
      (λ h. inr (to h), elim [ inl e ↦ cc | inr e ↦ from e ])

  pub AreValid-iff :
      (add : Additions) (del : Deletions)
      → IsOk (validate_additions_deletions L add del) ↔ AreValid L add del
  unfolding validate_additions_deletions validate_additions_annotations
  AreValid-iff add del =
      let labels =
        unless_empty-All_iff (IsLabel L) (entries add.labels) (validate_additions_labels L)
          (labels_iff (entries add.labels)) in
      let annotations = annotations_iff (entries add.annotations) in
      let del_labels =
        unless_empty-All_iff (IsQualified L) del.labels (validate_deletions_keys L)
          (keys_iff del.labels) in
      let del_annotations =
        unless_empty-All_iff (IsQualified L) del.annotations (validate_deletions_keys L)
          (keys_iff del.annotations) in
      let (to, from) =
        then_iff (unless_empty (entries add.labels) (validate_additions_labels L)) _ labels (
          then_iff (unless_empty (entries add.annotations) (validate_additions_annotations L)) _
            annotations
            (then_iff (unless_empty del.labels (validate_deletions_keys L)) _ del_labels
              del_annotations)) in
      (
        λ h. let (a, rest) = to h in (a, rest.0, rest.1.0, rest.1.1),
        λ h. from (h.0, (h.1, (h.2, h.3))),
      )
