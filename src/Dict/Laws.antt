-- ===== src/Dict/Laws.antt =====
-- The laws of the map operations, and that each keeps the keys distinct.
use kube_graffiti.Common.{
  String, ◌≡◌, refl, ◌==◌, Option, none, some, [], ◌∷◌, arith, eq_iff, if◌then◌else◌,
}
use kube_graffiti.Dict.{Dict, lookup, insert, erase, insert_all, IsDistinct}

-- The second unless the first has a value.
abbrev pub or_else {ℓ} : {A : Type ℓ} → Option A → Option A → Option A
or_else none o = o
or_else (some a) o = some a

module _ {ℓ} {V : Type ℓ} where
  pub lookup-insert :
      (k : String) (v : V) (m : Dict V) (j : String)
      → lookup j (insert k v m) ≡ (if k == j then some v else lookup j m)
  unfolding lookup insert
  lookup-insert k v [] j = refl
  lookup-insert k v ((i, w) ∷ m) j =
      ground (arith, eq_iff k j, eq_iff i k, eq_iff i j, lookup-insert k v m j)

  pub lookup-erase :
      (k : String) (m : Dict V) (j : String)
      → lookup j (erase k m) ≡ (if k == j then none else lookup j m)
  unfolding lookup erase
  lookup-erase k [] j = ground arith
  lookup-erase k ((i, w) ∷ m) j =
      ground (arith, eq_iff k j, eq_iff i k, eq_iff i j, lookup-erase k m j)

  pub insert-IsDistinct :
      (k : String) (v : V) (m : Dict V) → IsDistinct m → IsDistinct (insert k v m)
  unfolding lookup insert
  insert-IsDistinct k v [] h = (refl, tt)
  insert-IsDistinct k v ((j, w) ∷ m) h =
      ground (arith, eq_iff j k, eq_iff k j, insert-IsDistinct k v m h.1, lookup-insert k v m j)

  pub erase-IsDistinct : (k : String) (m : Dict V) → IsDistinct m → IsDistinct (erase k m)
  unfolding erase
  erase-IsDistinct k [] h = tt
  erase-IsDistinct k ((j, w) ∷ m) h =
      ground (arith, eq_iff j k, eq_iff k j, erase-IsDistinct k m h.1, lookup-erase k m j)

  pub insert_all-IsDistinct :
      (result source : Dict V) → IsDistinct result → IsDistinct (insert_all result source)
  unfolding insert_all
  insert_all-IsDistinct result [] h = h
  insert_all-IsDistinct result ((k, v) ∷ source) h =
      insert_all-IsDistinct (insert k v result) source (insert-IsDistinct k v result h)

  -- The copied entries win over those that stood there.
  pub lookup-insert_all :
      (result source : Dict V) (j : String)
      → IsDistinct source
      → lookup j (insert_all result source) ≡ or_else (lookup j source) (lookup j result)
  unfolding insert_all lookup
  lookup-insert_all result [] j h = refl
  lookup-insert_all result ((k, v) ∷ source) j h = ground (
    arith,
    eq_iff k j,
    lookup-insert_all (insert k v result) source j h.1,
    lookup-insert k v result j,
  )
