-- ===== src/Graffiti/Patch/Idempotence.antt =====
-- Painting twice: an object that already has what the rule asks for gets no operand.
use kube_graffiti.Common.{
  String, ◌≡◌, refl, sym, ap, subst, ◌∙◌, Bool, true, false, Option, none, some, List, [], ◌∷◌, ok,
  eq_iff, eq_refl, IsOk, IsOk-value, IsOk-of_eq, All, str-cases, inl, inr,
}
use kube_graffiti.Dict.{Dict, GoMap, lookup, entries, IsDistinct}
use kube_graffiti.Dict.Equality.{SameValues}
use kube_graffiti.Graffiti.Libs.{Libs}
use kube_graffiti.Graffiti.Patch.{render_string_template, modify, create_patch_operand, patch_text}
use kube_graffiti.Graffiti.Patch.Maps.{Desired, contains, modify-Desired}
use kube_graffiti.Graffiti.Patch.Operand.{
  Describes, unchanged, removed, added, replaced, create_patch_operand-Describes,
  create_patch_operand-IsOk_iff, AllRender,
}

lookup-All :
    (Q : String → Type 0) (m : Dict String) (k v : String)
    → All (λ e. Q e.1) m
    → lookup k m ≡ some v
    → Q v
unfolding lookup
lookup-All Q [] k v h e = cc
lookup-All Q ((j, w) ∷ m) k v (q, h) e = elim (str-cases j k) [
  | inl same ↦ subst Q (let hit = rw ((eq_iff j k).1 same) at e in cc) q
  | inr other ↦ lookup-All Q m k v h (rw other at e)
]

SameValues-nil : (a : Dict String) → SameValues a [] → a ≡ []
unfolding lookup
SameValues-nil [] same = refl
SameValues-nil ((k, v) ∷ a) same = let found = rw (eq_refl k) at (same k) in cc

SameValues-nil_left : (b : Dict String) → SameValues [] b → b ≡ []
SameValues-nil_left b same = SameValues-nil b (λ k. sym (same k))

Describes-same :
    {path : String} {a b : Dict String} {op : String}
    → Describes path a b op
    → SameValues a b
    → op ≡ ""
Describes-same (unchanged same' e) same = e
Describes-same {a} (removed n e o) same =
    absurd (n (SameValues-nil a (subst (SameValues a) e same)))
Describes-same {b} (added e n o) same =
    absurd (n (SameValues-nil_left b (subst (λ a. SameValues a b) e same)))
Describes-same (replaced n k differs o) same = absurd (differs same)

module _ (L : Libs) (fm fm' : Dict String) where
  -- Every value of a map renders the same over both field maps.
  abbrev pub RendersSame : Dict String → Type 0
  RendersSame adds =
      All (λ e. render_string_template L e.1 fm ≡ render_string_template L e.1 fm') adds

  Desired-twice :
      (b : Bool) (addition before x y : Option String)
      → ((v : String)
          → addition ≡ some v
          → render_string_template L v fm ≡ render_string_template L v fm')
      → Desired L fm b addition before x
      → Desired L fm' b addition x y
      → x ≡ y
  Desired-twice true addition before x y same h g = h ∙ sym g
  Desired-twice false none before x y same h g = sym g
  Desired-twice false (some v) before x y same (s, e, h) (t, f, g) = let agree = same v refl in cc

  AllRender-same :
      (adds : Dict String) → RendersSame adds → AllRender L fm adds → AllRender L fm' adds
  AllRender-same [] same h = tt
  AllRender-same ((k, v) ∷ adds) (e, same) (p, h) = (subst IsOk e p, AllRender-same adds same h)

  -- Once the labels or annotations are what the additions and deletions made of them, createPatchOperand
  -- succeeds on them with the empty operand, provided that the additions render as before.
  pub create_patch_operand_idempotent :
      (src add : GoMap String) (del : List String) (path : String) {m : Dict String}
      → IsDistinct (entries src)
      → IsDistinct (entries add)
      → RendersSame (entries add)
      → modify L src add fm del ≡ ok m
      → create_patch_operand L (some m) add fm' del path ≡ ok ""
  unfolding create_patch_operand
  create_patch_operand_idempotent src add del path {m} ds da same made =
      let (distinct, wanted) = modify-Desired L src fm ds add del da made in
      let first : create_patch_operand L src add fm del path ≡ ok (patch_text src m path) =
        rw made refl in
      let renders = (create_patch_operand-IsOk_iff L src fm add del path).0 (IsOk-of_eq _ first) in
      let again =
        (create_patch_operand-IsOk_iff L (some m) fm' add del path).1
          (AllRender-same (entries add) same renders) in
      let (op, second) = IsOk-value (create_patch_operand L (some m) add fm' del path) again in
      let (m', _, kept, describes) =
        create_patch_operand-Describes L (some m) add fm' del path op distinct da second in
      let agree : SameValues m m' = λ k.
        Desired-twice (contains k del) (lookup k (entries add)) _ _ _
          (λ v found. lookup-All _ (entries add) k v same found) (wanted k) (kept k) in
      second ∙ ap ok (Describes-same describes agree)
