-- ===== src/Graffiti/Payload/Painting.antt =====
-- What paintObject makes of a payload, and that only a block asks for the object to be refused.
use Prim.Native.String.{slice}
use text.Mathlib.TextPositions.{slice-append_left}
use kube_graffiti.Common.{
  String, ◌≡◌, ◌≢◌, ◌↔◌, arith, refl, sym, ap, ◌∙◌, true, false, ◌||◌, ◌==◌, Option, none, some, [],
  Result, ok, if◌then◌else◌, ◌>>=◌, map_err, is_empty, ◌<>◌, eq_iff, >>=-eq-ok, map_err-eq-ok,
  str-cases, inl, inr, Bool-cases,
}
use kube_graffiti.Dict.{Dict}
use kube_graffiti.Graffiti.Json.{MetaObject}
use kube_graffiti.Graffiti.Libs.{Libs}
use kube_graffiti.Graffiti.Patch.{create_patch_operand, join}
use kube_graffiti.Graffiti.Payload.Validate.Kinds.{IsUnchanged}
use kube_graffiti.Graffiti.Payload.{
  Payload, paint_object, process_metadata_additions_deletions, append_operand, contains_additions,
  contains_deletions,
}

-- A text that begins as a list in JSON is not the marker of a block.
bracket-ne-marker : (x : String) → ("[ " <> x) ≢ "BLOCK"
bracket-ne-marker x e = cc (sym (slice-append_left "[ " x) ∙ ap (λ t. slice t 0 2) e)

bracket-ne-nil : (x : String) → ("[ " <> x) ≢ ""
bracket-ne-nil x e = cc (sym (slice-append_left "[ " x) ∙ ap (λ t. slice t 0 2) e)

-- The patch of the operands of the labels and of the annotations: none if both are empty.
abbrev pub combined : String → String → Option String
combined l a =
    if l == ""
    then (if a == "" then none else some ("[ " <> a <> " ]"))
    else (if a == "" then some ("[ " <> l <> " ]") else some ("[ " <> (l <> (", " <> a)) <> " ]"))

bracket-eq-nil : (x : String) → (("[ " <> x) == "") ≡ false
bracket-eq-nil x = elim (Bool-cases (("[ " <> x) == "")) [
  | inl e ↦ absurd (bracket-ne-nil x ((eq_iff ("[ " <> x) "").0 e))
  | inr e ↦ e
]

-- The text that processMetadataAdditionsDeletions returns for two operands.
abbrev operands_text : String → String → String
operands_text l a =
    let both = append_operand (append_operand [] l) a in
    if is_empty both then "" else "[ " <> join ", " both <> " ]"

operands_text-combined :
    (l a : String)
    → (if operands_text l a == "" then none else some (operands_text l a)) ≡ combined l a
unfolding join
operands_text-combined l a = elim (Bool-cases (l == "")) [
  | inl no_l ↦ elim (Bool-cases (a == "")) [
    | inl no_a ↦ rw (no_l, no_a) refl
    | inr an_a ↦ rw (no_l, an_a, bracket-eq-nil) refl
  ]
  | inr an_l ↦ elim (Bool-cases (a == "")) [
    | inl no_a ↦ rw (an_l, no_a, bracket-eq-nil) refl
    | inr an_a ↦ rw (an_l, an_a, bracket-eq-nil) refl
  ]
]

module _ (L : Libs) (p : Payload) (obj : MetaObject) (fm : Dict String) where
  abbrev labels_operand : Result String
  labels_operand =
      create_patch_operand L obj.meta.labels p.additions.labels fm p.deletions.labels
        "/metadata/labels"

  abbrev annotations_operand : Result String
  annotations_operand =
      create_patch_operand L obj.meta.annotations p.additions.annotations fm p.deletions.annotations
        "/metadata/annotations"

  contains_iff : ((contains_additions p || contains_deletions p) ≡ false) ↔ IsUnchanged p
  unfolding contains_additions contains_deletions
  contains_iff = ground arith

  -- The patch `o` that a payload comes to.
  pub data Painted (o : Option String) : Type 0 where
    blocked : p.block ≡ true → o ≡ some "BLOCK" → Painted o
    patched : p.block ≡ false → p.json_patch ≢ "" → o ≡ some p.json_patch → Painted o
    changed :
        (l a : String)
        → p.block ≡ false
        → p.json_patch ≡ ""
        → ¬ IsUnchanged p
        → labels_operand ≡ ok l
        → annotations_operand ≡ ok a
        → o ≡ combined l a
        → Painted o
    nothing : p.block ≡ false → p.json_patch ≡ "" → IsUnchanged p → o ≡ none → Painted o

  process-operands :
      {t : String}
      → process_metadata_additions_deletions L p obj fm ≡ ok t
      → (l a : String) × (labels_operand ≡ ok l)
        × (annotations_operand ≡ ok a)
        × (operands_text l a ≡ t)
  unfolding process_metadata_additions_deletions
  process-operands e =
      let (l, first, rest) = >>=-eq-ok labels_operand _ e in
      let (a, second, text) = >>=-eq-ok annotations_operand _ rest in (l, a, first, second, cc)

  Painted-changes :
      {o : Option String}
      → p.block ≡ false
      → p.json_patch ≡ ""
      → ¬ IsUnchanged p
      → (do
        patch_string ←
            map_err
              (λ e. "could not create json patch: " <> e)
              (process_metadata_additions_deletions L p obj fm)
        ok (if patch_string == "" then none else some patch_string))
        ≡ ok o
      → Painted o
  Painted-changes free empty asked e =
      let (t, wrapped, rest) =
        >>=-eq-ok (map_err _ (process_metadata_additions_deletions L p obj fm)) _ e in
      let (l, a, first, second, text) = process-operands (map_err-eq-ok _ _ wrapped) in
      let final = rw (← text) at rest in
      changed l a free empty asked first second (cc (operands_text-combined l a, final))

  -- What paintObject returns is the marker of a block for a block, else the payload's own JSON patch if
  -- it has one; else, for a payload without a label or an annotation to add or to delete, no patch, and
  -- for one that has any, the operands for both the labels and the annotations, joined into one patch,
  -- or no patch when both are empty.
  pub paint_object-Painted : {o : Option String} → paint_object L p obj fm ≡ ok o → Painted o
  unfolding paint_object process_metadata_additions_deletions contains_additions contains_deletions
  paint_object-Painted {o} e = elim (Bool-cases (p.block)) [
    | inl block ↦ blocked block (cc (rw block at e))
    | inr free ↦ elim (str-cases p.json_patch "") [
      | inr given ↦
          patched free (λ empty. cc ((eq_iff p.json_patch "").1 empty)) (cc (rw (free, given) at e))
      | inl empty ↦ elim (Bool-cases (contains_additions p || contains_deletions p)) [
        | inr idle ↦
            nothing free empty (contains_iff.0 idle)
              (cc (rw (free, (eq_iff p.json_patch "").1 empty, idle) at e))
        | inl busy ↦
            Painted-changes free empty (λ h. let idle = contains_iff.1 h in cc)
              (rw (free, (eq_iff p.json_patch "").1 empty, busy) at e)
      ]
    ]
  ]

  -- Only a block is painted as a block.
  combined-ne-marker : (l a : String) → combined l a ≢ some "BLOCK"
  combined-ne-marker l a e = elim (Bool-cases (l == "")) [
    | inl no_l ↦ elim (Bool-cases (a == "")) [
      | inl no_a ↦ cc (rw (no_l, no_a) at e)
      | inr an_a ↦ bracket-ne-marker _ (some_injective (rw (no_l, an_a) at e))
    ]
    | inr an_l ↦ elim (Bool-cases (a == "")) [
      | inl no_a ↦ bracket-ne-marker _ (some_injective (rw (an_l, no_a) at e))
      | inr an_a ↦ bracket-ne-marker _ (some_injective (rw (an_l, an_a) at e))
    ]
  ]
    where
      some_injective : {a b : String} → some a ≡ some b → a ≡ b
      some_injective e = cc

  pub block_of_marker :
      p.json_patch ≢ "BLOCK" → paint_object L p obj fm ≡ ok (some "BLOCK") → p.block ≡ true
  block_of_marker n e = elim (paint_object-Painted e) [
    | blocked block o ↦ block
    | patched free given o ↦ absurd (n (cc))
    | changed l a free empty asked first second o ↦ absurd (combined-ne-marker l a (sym o))
    | nothing free empty idle o ↦ cc
  ]

  pub marker_of_block : p.block ≡ true → paint_object L p obj fm ≡ ok (some "BLOCK")
  unfolding paint_object
  marker_of_block block = rw block refl
