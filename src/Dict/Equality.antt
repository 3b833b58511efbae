-- ===== src/Dict/Equality.antt =====
-- `reflect.DeepEqual` on two maps decides that they hold the same values at the same keys.
use kube_graffiti.Common.{
  suc, ◌≤◌, String, ◌≡◌, ◌↔◌, inl, inr, refl, sym, ap, ◌∙◌, true, Option, none, some, [], ◌∷◌,
  arith, eq_iff, length, eq_refl, Option-cases,
}
use kube_graffiti.Dict.{Dict, lookup, erase, covers, has_value, deep_equal, IsDistinct}
use kube_graffiti.Dict.Laws.{lookup-erase, erase-IsDistinct}

-- Two maps with the same value, or none, at every key.
abbrev pub SameValues : Dict String → Dict String → Type 0
SameValues a b = (k : String) → lookup k a ≡ lookup k b

-- Every entry of the first is found in the second.
abbrev Within : Dict String → Dict String → Type 0
Within a b = (k v : String) → lookup k a ≡ some v → lookup k b ≡ some v

has_value-eq-some : (w : String) (o : Option String) → has_value w o ≡ true → o ≡ some w
has_value-eq-some w none h = cc
has_value-eq-some w (some x) h = ap some ((eq_iff x w).0 h)

covers_sound : (a b : Dict String) → covers a b ≡ true → Within a b
unfolding covers lookup
covers_sound [] b h k v e = cc
covers_sound ((j, w) ∷ a) b h k v e = ground (
  arith,
  eq_iff j k,
  has_value-eq-some w (lookup j b),
  λ (t : covers a b ≡ true). covers_sound a b t k v,
)

-- The entries behind the first of a map with distinct keys.
Within-tail :
    (j w : String) (a b : Dict String)
    → lookup j a ≡ none
    → Within ((j, w) ∷ a) b
    → Within a (erase j b)
unfolding lookup
Within-tail j w a b fresh h k v e = ground (arith, eq_iff j k, lookup-erase j b k, h k v)

Within-head : (j w : String) (a b : Dict String) → Within ((j, w) ∷ a) b → lookup j b ≡ some w
unfolding lookup
Within-head j w a b h = h j w (rw (eq_refl j))

covers-erase : (j : String) (a b : Dict String) → covers a (erase j b) ≡ true → covers a b ≡ true
unfolding covers
covers-erase j [] b h = refl
covers-erase j ((k, v) ∷ a) b h = ground (arith, covers-erase j a b, lookup-erase j b k)

covers_complete : (a b : Dict String) → IsDistinct a → Within a b → covers a b ≡ true
unfolding covers
covers_complete [] b d h = refl
covers_complete ((j, w) ∷ a) b d h = ground (
  arith,
  Within-head j w a b h,
  eq_refl w,
  covers-erase j a b (covers_complete a (erase j b) d.1 (Within-tail j w a b d.0 h)),
)

length-erase_fresh :
    (k : String) (b : Dict String) → lookup k b ≡ none → length (erase k b) ≡ length b
unfolding lookup erase
length-erase_fresh k [] e = refl
length-erase_fresh k ((j, w) ∷ b) e = ground (arith, length-erase_fresh k b)

length-erase :
    (k v : String) (b : Dict String)
    → IsDistinct b
    → lookup k b ≡ some v
    → length b ≡ suc (length (erase k b))
unfolding lookup erase
length-erase k v [] d e = cc
length-erase k v ((j, w) ∷ b) d e =
    ground (arith, eq_iff j k, length-erase k v b d.1, length-erase_fresh k b)

-- A map within another is no longer.
Within-length : (a b : Dict String) → IsDistinct a → IsDistinct b → Within a b → length a ≤ length b
Within-length [] b da db h = omega arith
Within-length ((j, w) ∷ a) b da db h = omega (
  arith,
  length-erase j w b db (Within-head j w a b h),
  Within-length a (erase j b) da.1 (erase-IsDistinct j b db) (Within-tail j w a b da.0 h),
)

-- A map within another that is no longer has all of its entries.
Within-sym :
    (a b : Dict String)
    → IsDistinct a
    → IsDistinct b
    → Within a b
    → length b ≤ length a
    → Within b a
unfolding lookup
Within-sym [] [] da db h len k v e = e
Within-sym [] (x ∷ b) da db h len k v e = absurd (omega arith)
Within-sym ((j, w) ∷ a) b da db h len k v e =
    let shrink = length-erase j w b db (Within-head j w a b h) in
    let rest =
      Within-sym a (erase j b) da.1 (erase-IsDistinct j b db) (Within-tail j w a b da.0 h)
        (omega arith) k v in
    ground (arith, eq_iff j k, lookup-erase j b k, Within-head j w a b h, rest)

SameValues-of_Within : (a b : Dict String) → Within a b → Within b a → SameValues a b
SameValues-of_Within a b h g k = elim (Option-cases (lookup k a)) [
  | inl missing ↦ elim (Option-cases (lookup k b)) [
    | inl also ↦ missing ∙ sym also
    | inr (v, found) ↦ g k v found ∙ sym found
  ]
  | inr (v, found) ↦ found ∙ sym (h k v found)
]

SameValues-Within : (a b : Dict String) → SameValues a b → Within a b
SameValues-Within a b h k v e = sym (h k) ∙ e

-- On maps with distinct keys, `reflect.DeepEqual` holds exactly when both hold the same values.
pub deep_equal_iff :
    (a b : Dict String)
    → IsDistinct a
    → IsDistinct b
    → (deep_equal (some a) (some b) ≡ true) ↔ SameValues a b
unfolding deep_equal
deep_equal_iff a b da db = (
  λ e.
      let inside = covers_sound a b (ground arith) in
      SameValues-of_Within a b inside (Within-sym a b da db inside (ground arith)),
  λ same.
      let left = SameValues-Within a b same in
      let right = SameValues-Within b a (λ k. sym (same k)) in
      ground (
        arith,
        Within-length a b da db left,
        Within-length b a db da right,
        covers_complete a b da left,
      ),
)
