-- ===== src/Dict.antt =====
-- Go's `map[string]V`. A map is the list of its entries in the order in which a `range` visits
-- them; the program relies on no order, and theorems hold for every list with distinct keys.
pub mod Laws
pub mod Equality
use kube_graffiti.Common.{
  String, ◌≡◌, Bool, false, true, ◌&&◌, ◌==◌, Option, none, some, List, [], ◌∷◌, length,
  if◌then◌else◌, nat_eq,
}

abbrev pub Dict {ℓ} : Type ℓ → Type ℓ
Dict V = List (String × V)

-- A map that may be nil; `len` and `range` take nil for the empty map.
abbrev pub GoMap {ℓ} : Type ℓ → Type ℓ
GoMap V = Option (Dict V)

module _ {ℓ} {V : Type ℓ} where
  -- v, ok := m[k]
  unfoldable pub lookup : String → Dict V → Option V
  lookup k [] = none
  lookup k ((j, v) ∷ m) = if j == k then some v else lookup k m

  -- m[k] = v
  unfoldable pub insert : String → V → Dict V → Dict V
  insert k v [] = (k, v) ∷ []
  insert k v ((j, w) ∷ m) = if j == k then (j, v) ∷ m else (j, w) ∷ insert k v m

  -- delete(m, k)
  unfoldable pub erase : String → Dict V → Dict V
  erase k [] = []
  erase k ((j, w) ∷ m) = let rest = erase k m in if j == k then rest else (j, w) ∷ rest

  -- for k, v := range source { result[k] = v }
  unfoldable pub insert_all : Dict V → Dict V → Dict V
  insert_all result [] = result
  insert_all result ((k, v) ∷ source) = insert_all (insert k v result) source

  abbrev pub entries : GoMap V → Dict V
  entries none = []
  entries (some d) = d

  -- No key stands twice, which every Go map keeps.
  abbrev pub IsDistinct : Dict V → Type ℓ
  IsDistinct [] = Unit
  IsDistinct ((k, v) ∷ m) = (lookup k m ≡ none) × IsDistinct m

-- A list that holds each text at most once.
abbrev pub has_value : String → Option String → Bool
has_value v none = false
has_value v (some w) = w == v

-- Every entry of the first map stands in the second.
unfoldable pub covers : Dict String → Dict String → Bool
covers [] b = true
covers ((k, v) ∷ a) b = has_value v (lookup k b) && covers a b

-- reflect.DeepEqual on two values of type map[string]string.
unfoldable pub deep_equal : GoMap String → GoMap String → Bool
unfolding covers
deep_equal none none = true
deep_equal none (some b) = false
deep_equal (some a) none = false
deep_equal (some a) (some b) = nat_eq (length a) (length b) && covers a b
