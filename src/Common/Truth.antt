-- ===== src/Common/Truth.antt =====
-- A Boolean that tells whether a statement holds, and how the connectives keep that.
use mathlib.Core.Path.{◌≡◌, refl}
use mathlib.Core.Logic.{◌↔◌, ◌⊎◌, inl, inr}
use mathlib.Core.Bool.{Bool, true, false, not, ◌&&◌, ◌||◌}

pub data Reflects {ℓ} (P : Type ℓ) : Bool → Type ℓ where
  holds : P → Reflects P true
  fails : (P → ⊥) → Reflects P false

module _ {ℓ} {P : Type ℓ} where
  pub Reflects-iff : {b : Bool} → Reflects P b → (b ≡ true) ↔ P
  Reflects-iff (holds p) = (λ _. p, λ _. refl)
  Reflects-iff (fails n) = (λ e. cc, λ p. absurd (n p))

  pub Reflects-not : {b : Bool} → Reflects P b → Reflects (P → ⊥) (not b)
  Reflects-not (holds p) = fails (λ n. n p)
  Reflects-not (fails n) = holds n

module _ {ℓ} {P Q : Type ℓ} where
  pub Reflects-map : {b : Bool} → (P → Q) → (Q → P) → Reflects P b → Reflects Q b
  Reflects-map f g (holds p) = holds (f p)
  Reflects-map f g (fails n) = fails (λ q. n (g q))

  pub Reflects-and : {a b : Bool} → Reflects P a → Reflects Q b → Reflects (P × Q) (a && b)
  Reflects-and (holds p) (holds q) = holds (p, q)
  Reflects-and (holds p) (fails n) = fails (λ h. n h.1)
  Reflects-and (fails n) r = fails (λ h. n h.0)

  pub Reflects-or : {a b : Bool} → Reflects P a → Reflects Q b → Reflects (P ⊎ Q) (a || b)
  Reflects-or (holds p) r = holds (inl p)
  Reflects-or (fails n) (holds q) = holds (inr q)
  Reflects-or (fails n) (fails m) = fails (elim [ inl p ↦ n p | inr q ↦ m q ])
