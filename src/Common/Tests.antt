-- ===== src/Common/Tests.antt =====
-- The conditional, Boolean tests on native numbers, text concatenation, and case lemmas.
use Prim.Native.Nat.{ℕ, compare, Ordering}
use Prim.Native.String.{String}
use Prim.Native.String
use mathlib.Core.Path.{◌≡◌, refl}
use mathlib.Core.Logic.{◌⊎◌, inl, inr}
use mathlib.Core.Bool.{Bool, true, false}
use mathlib.Core.Option.{Option, none, some}
use text.Mathlib.Text.{◌==◌}
use text.Mathlib.TextEquality.{eq_iff}

infix 1 if◌then◌else◌
abbrev pub if◌then◌else◌ {ℓ} : {A : Type ℓ} → Bool → A → A → A
if true then x else y = x
if false then x else y = y

abbrev pub leb : ℕ → ℕ → Bool
leb a b = elim (compare a b) [ Ordering.gt ↦ false | _ ↦ true ]

abbrev pub ltb : ℕ → ℕ → Bool
ltb a b = elim (compare a b) [ Ordering.lt ↦ true | _ ↦ false ]

abbrev pub nat_eq : ℕ → ℕ → Bool
nat_eq a b = elim (compare a b) [ Ordering.eq ↦ true | _ ↦ false ]

-- `+` on Go strings.
infixr 65 ◌<>◌
abbrev pub ◌<>◌ : String → String → String
s <> t = String.◌++◌ s t

pub Bool-cases : (b : Bool) → (b ≡ true) ⊎ (b ≡ false)
Bool-cases true = inl refl
Bool-cases false = inr refl

pub Option-cases {ℓ} : {A : Type ℓ} (o : Option A) → (o ≡ none) ⊎ ((a : A) × (o ≡ some a))
Option-cases none = inl refl
Option-cases (some a) = inr (a, refl)

-- Two texts are equal or not, as the test says.
pub str-cases : (s t : String) → (s ≡ t) ⊎ ((s == t) ≡ false)
str-cases s t = elim (Bool-cases (s == t)) [ inl e ↦ inl ((eq_iff s t).0 e) | inr e ↦ inr e ]

-- What holds of both branches holds of the conditional.
pub if-both {ℓ κ} :
    {A : Type ℓ} (P : A → Type κ) (b : Bool) {x y : A} → P x → P y → P (if b then x else y)
if-both P true p q = p
if-both P false p q = q
