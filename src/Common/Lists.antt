-- ===== src/Common/Lists.antt =====
-- Lists measured by native numbers, predicates over their items, and Boolean searches.
use Prim.Native.Nat.{ℕ, suc}
use mathlib.Core.Bool.{Bool, true, false, ◌&&◌, ◌||◌}
use mathlib.Core.List.{List, [], ◌∷◌, ◌++◌}

module _ {ℓ} {A : Type ℓ} where
  abbrev pub length : List A → ℕ
  length [] = 0
  length (x ∷ xs) = suc (length xs)

  abbrev pub is_empty : List A → Bool
  is_empty [] = true
  is_empty (x ∷ xs) = false

  abbrev pub all : (A → Bool) → List A → Bool
  all p [] = true
  all p (x ∷ xs) = p x && all p xs

  abbrev pub any : (A → Bool) → List A → Bool
  any p [] = false
  any p (x ∷ xs) = p x || any p xs

module _ {ℓ κ} {A : Type ℓ} (P : A → Type κ) where
  -- `P` holds of every item.
  abbrev pub All : List A → Type κ
  All [] = Unit
  All (x ∷ xs) = P x × All xs

  -- `P` holds of some item, and which.
  pub data Some : List A → Type (ℓ ⊔ κ) where
    here : {x : A} {xs : List A} → P x → Some (x ∷ xs)
    there : {x : A} {xs : List A} → Some xs → Some (x ∷ xs)

  pub All-append : (xs ys : List A) → All xs → All ys → All (xs ++ ys)
  All-append [] ys _ k = k
  All-append (x ∷ xs) ys (p, h) k = (p, All-append xs ys h k)
