-- ===== src/Graffiti/JsonText/Painted.antt =====
-- The patch that a rule's additions and deletions come to, as JSON.
use Prim.Native.Char.{Char}
use text.Mathlib.TextLemmas.{append_assoc, append-nil, cons-append, nil≢cons}
use kube_graffiti.Common.{
  String, ◌≡◌, ◌≢◌, refl, sym, ◌∙◌, subst, false, ◌==◌, Option, none, some, List, [], ◌∷◌, ok,
  if◌then◌else◌, ◌<>◌, >>=-eq-ok, Bool-cases, inl, inr, eq_iff, str-cases, ◌⊎◌,
}
use kube_graffiti.Dict.{Dict, GoMap, entries}
use kube_graffiti.Graffiti.Json.{Json, arr, Items, nil, cons, MetaObject}
use kube_graffiti.Graffiti.JsonText.{
  Denotes, Value, a_text, after_space, an_array, an_object, element, MoreElements, last_element,
  next_element, space_elements,
}
use kube_graffiti.Graffiti.JsonText.Quoted.{IsPlainText, IsPlainText-of_test}
use kube_graffiti.Graffiti.JsonText.Pieces.{pieces-append}
use kube_graffiti.Graffiti.JsonText.Operands.{
  IsWritableMap, operation, is_unchanged, patch_text-unchanged, patch_text-Value,
}
use kube_graffiti.Graffiti.Libs.{Libs}
use kube_graffiti.Graffiti.Patch.{modify, create_patch_operand, patch_text}
use kube_graffiti.Graffiti.Patch.Writable.{RendersWritable, modify-IsWritableMap}
use kube_graffiti.Graffiti.Payload.{Payload, paint_object}
use kube_graffiti.Graffiti.Payload.Validate.Kinds.{IsUnchanged}
use kube_graffiti.Graffiti.Payload.Painting.{
  paint_object-Painted, combined, blocked, patched, changed, nothing,
}

char-ne-nil : (c : Char) (u : String) → (String.◌∷◌ c "" <> u) ≢ ""
char-ne-nil c u e = nil≢cons (sym e ∙ cons-append c "" u)

-- A text that starts with a value is not empty.
Value-ne-nil : {t rest : String} {j : Json} → Value t j rest → t ≢ ""
Value-ne-nil (a_text {u} e _) n = char-ne-nil "\"" u (sym e ∙ n)
Value-ne-nil (an_object {u} e _) n = char-ne-nil "{" u (sym e ∙ n)
Value-ne-nil (an_array {u} e _) n = char-ne-nil "[" u (sym e ∙ n)
Value-ne-nil (after_space {u} e _) n = char-ne-nil " " u (sym e ∙ n)

-- The operations that take labels or annotations to `m`, in front of further ones.
abbrev pub with_operation : GoMap String → Dict String → String → Items → Items
with_operation src m path items =
    if is_unchanged src m then items else cons (operation (entries src) m path) items

closing_bracket : MoreElements " ]" nil ""
closing_bracket = space_elements refl (last_element refl)

-- One operand between brackets, and two.
one-Denotes :
    (o : String) {j : Json}
    → Value (o <> " ]") j " ]"
    → Denotes ("[ " <> o <> " ]") (arr (cons j nil))
one-Denotes o v =
    an_array (append_assoc "[" " " (o <> " ]")) (element (after_space refl v) closing_bracket)

two-Denotes :
    (o p : String) {j k : Json}
    → Value (o <> (", " <> (p <> " ]"))) j (", " <> (p <> " ]"))
    → Value (p <> " ]") k " ]"
    → Denotes ("[ " <> (o <> (", " <> p)) <> " ]") (arr (cons j (cons k nil)))
two-Denotes o p {j} {k} v w =
    subst (λ t. Denotes ("[ " <> t) (arr (cons j (cons k nil))))
      (sym (pieces-append (o ∷ ", " ∷ []) p " ]"))
      (an_array (append_assoc "[" " " _) (
        element (after_space refl v) (
          next_element (append_assoc "," " " (p <> " ]"))
            (element (after_space refl w) closing_bracket))))

-- No patch for no operations, else the text of their array.
abbrev pub IsWritten : Option String → Items → Type 0
IsWritten o nil = o ≡ none
IsWritten o (cons j items) = (t : String) × (o ≡ some t) × Denotes t (arr (cons j items))

text-eq-nil :
    (src : GoMap String) (m : Dict String) (path : String)
    → IsPlainText path
    → IsWritableMap m
    → (patch_text src m path == "") ≡ is_unchanged src m
text-eq-nil src m path hp h = elim (Bool-cases (is_unchanged src m)) [
  | inl same ↦ (eq_iff _ "").1 (patch_text-unchanged src m path same) ∙ sym same
  | inr other ↦ elim (str-cases (patch_text src m path) "") [
    | inl none_ ↦
        absurd (Value-ne-nil (patch_text-Value src m path "" hp h other) (append-nil _ ∙ none_))
    | inr some_ ↦ some_ ∙ sym other
  ]
]

abbrev labels_path : String
labels_path = "/metadata/labels"

abbrev annotations_path : String
annotations_path = "/metadata/annotations"

-- The patch of the operands that take labels to `l` and annotations to `a`.
module _ (labels annotations : GoMap String) (l a : Dict String) where
  abbrev labels_text : String
  labels_text = patch_text labels l labels_path

  abbrev annotations_text : String
  annotations_text = patch_text annotations a annotations_path

  combined-IsWritten :
      IsWritableMap l
      → IsWritableMap a
      → IsWritten
          (combined labels_text annotations_text)
          (with_operation labels l labels_path (with_operation annotations a annotations_path nil))
  combined-IsWritten hl ha =
      let lp = IsPlainText-of_test labels_path refl in
      let ap_ = IsPlainText-of_test annotations_path refl in
      let el = text-eq-nil labels l labels_path lp hl in
      let ea = text-eq-nil annotations a annotations_path ap_ ha in
      elim (Bool-cases (is_unchanged labels l)) [
        | inl same ↦ elim (Bool-cases (is_unchanged annotations a)) [
          | inl same' ↦ rw (el, ea, same, same') refl
          | inr other' ↦
              rw (el, ea, same, other')
                (
                  _,
                  refl,
                  one-Denotes annotations_text
                      (patch_text-Value annotations a annotations_path " ]" ap_ ha other'),
                )
        ]
        | inr other ↦ elim (Bool-cases (is_unchanged annotations a)) [
          | inl same' ↦
              rw (el, ea, other, same')
                (
                  _,
                  refl,
                  one-Denotes labels_text (patch_text-Value labels l labels_path " ]" lp hl other),
                )
          | inr other' ↦
              rw (el, ea, other, other')
                (
                  _,
                  refl,
                  two-Denotes labels_text annotations_text
                      (patch_text-Value labels l labels_path _ lp hl other)
                      (patch_text-Value annotations a annotations_path " ]" ap_ ha other'),
                )
        ]
      ]

operand-modify :
    (L : Libs) (src add : GoMap String) (fm : Dict String) (del : List String) (path : String)
    {t : String}
    → create_patch_operand L src add fm del path ≡ ok t
    → (m : Dict String) × (modify L src add fm del ≡ ok m) × (patch_text src m path ≡ t)
unfolding create_patch_operand
operand-modify L src add fm del path e =
    let (m, made, text) = >>=-eq-ok (modify L src add fm del) _ e in (m, made, cc)

module _ (L : Libs) (p : Payload) (object : MetaObject) (fm : Dict String) where
  -- For a payload without a block and without a JSON patch of its own, over labels, annotations and
  -- rendered additions whose keys have no quotes, backslashes or control characters and whose values
  -- have no backslashes and no control characters but newlines: when paintObject returns, either
  -- there is no label or annotation to add or to delete and no patch, or the patch is the text of a
  -- JSON array of at most two operations, one on the labels and one on the annotations. An operation
  -- adds, or replaces by, the map that the additions and deletions make, each value without its
  -- newlines, or is the operation delete where they leave none; a map that they do not change has no
  -- operation, and without any operation there is no patch.
  pub paint_object-IsWritten :
      {o : Option String}
      → p.block ≡ false
      → p.json_patch ≡ ""
      → IsWritableMap (entries object.meta.labels)
      → IsWritableMap (entries object.meta.annotations)
      → RendersWritable L fm (entries p.additions.labels)
      → RendersWritable L fm (entries p.additions.annotations)
      → paint_object L p object fm ≡ ok o
      → (IsUnchanged p × (o ≡ none))
        ⊎ ((l a : Dict String) × (modify L object.meta.labels p.additions.labels fm
                p.deletions.labels
              ≡ ok l)
            × (modify L object.meta.annotations p.additions.annotations fm p.deletions.annotations
                ≡ ok a)
            × IsWritten o (
                with_operation object.meta.labels l "/metadata/labels"
                  (with_operation object.meta.annotations a "/metadata/annotations" nil)))
  paint_object-IsWritten {o} free unpatched hl ha rl ra e =
      elim (paint_object-Painted L p object fm e) [
        | blocked block _ ↦ cc
        | patched _ given _ ↦ absurd (given unpatched)
        | nothing _ _ idle found ↦ inl (idle, found)
        | changed lt at _ _ _ first second found ↦
            let (l, made_l, text_l) =
              operand-modify L object.meta.labels p.additions.labels fm p.deletions.labels
                "/metadata/labels" first in
            let (a, made_a, text_a) =
              operand-modify L object.meta.annotations p.additions.annotations fm
                p.deletions.annotations "/metadata/annotations" second in
            inr (
              l,
              a,
              made_l,
              made_a,
              rw (found, ← text_l, ← text_a)
                  (combined-IsWritten object.meta.labels object.meta.annotations l a
                    (modify-IsWritableMap L fm object.meta.labels p.additions.labels
                      p.deletions.labels hl rl made_l)
                    (modify-IsWritableMap L fm object.meta.annotations p.additions.annotations
                      p.deletions.annotations ha ra made_a)),
            )
      ]
