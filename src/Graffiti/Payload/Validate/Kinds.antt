-- ===== src/Graffiti/Payload/Validate/Kinds.antt =====
-- A valid payload is of exactly one kind.
use kube_graffiti.Common.{
  ◌+◌, String, ◌≡◌, ◌≢◌, ◌↔◌, inl, inr, refl, Bool, true, false, List, [], ◌∷◌, Result, ok, err,
  abort, arith, eq_iff, Bool-cases, if◌then◌else◌, IsOk, same_iff, ◌>>◌, is_empty, map_err, nat_eq,
  ltb,
}
use kube_graffiti.Dict.{entries}
use kube_graffiti.Graffiti.Libs.{Libs}
use kube_graffiti.Graffiti.Payload.{Payload}
use kube_graffiti.Graffiti.Payload.Validate.{
  has_json_patch, has_additions_deletions, count, validate_json_patch, validate_additions_deletions,
  validate,
}
use kube_graffiti.Graffiti.Payload.Validate.Changes.{AreValid, AreValid-iff}

-- Nothing is to be added or deleted.
abbrev pub IsUnchanged : Payload → Type 0
IsUnchanged p =
    (entries p.additions.labels ≡ [])
    × (entries p.additions.annotations ≡ [])
    × (p.deletions.labels ≡ [])
    × (p.deletions.annotations ≡ [])

-- The one thing that a payload asks for, with what makes it valid.
pub data Kind (L : Libs) (p : Payload) : Type 0 where
  block : p.block ≡ true → p.json_patch ≡ "" → IsUnchanged p → Kind L p
  json_patch :
      p.block ≡ false
      → p.json_patch ≢ ""
      → IsUnchanged p
      → IsOk (L.json_patch_from_string p.json_patch)
      → Kind L p
  changes :
      p.block ≡ false
      → p.json_patch ≡ ""
      → ¬ IsUnchanged p
      → AreValid L p.additions p.deletions
      → Kind L p

-- The branches of validate: `b`, `j` and `a` tell which kinds are given.
abbrev Chosen : (b j a : Bool) (J A : Type 0) → Type 0
Chosen true false false J A = Unit
Chosen false true false J A = J
Chosen false false true J A = A
Chosen _ _ _ J A = ⊥

chosen_iff :
    (b j a : Bool) (nothing many : String) (J A : Result (Unit {0}))
    → IsOk (
        if nat_eq (count b + count j + count a) 0
        then err nothing
        else if ltb 1 (count b + count j + count a)
        then err many
        else if j
        then J
        else if a
        then A
        else ok tt)
      ↔ Chosen b j a (IsOk J) (IsOk A)
chosen_iff true true true nothing many J A = same_iff
chosen_iff true true false nothing many J A = same_iff
chosen_iff true false true nothing many J A = same_iff
chosen_iff true false false nothing many J A = same_iff
chosen_iff false true true nothing many J A = same_iff
chosen_iff false true false nothing many J A = same_iff
chosen_iff false false true nothing many J A = same_iff
chosen_iff false false false nothing many J A = same_iff

is_empty_iff {ℓ} : {A : Type ℓ} (xs : List A) → (is_empty xs ≡ true) ↔ (xs ≡ [])
is_empty_iff [] = (λ _. refl, λ _. refl)
is_empty_iff (x ∷ xs) = (λ e. cc, λ e. cc)

IsUnchanged-iff : (p : Payload) → (has_additions_deletions p ≡ false) ↔ IsUnchanged p
IsUnchanged-iff p = ground arith

wrapped_iff :
    (r : Result (Unit {0})) (wrap : String → String)
    → IsOk (map_err wrap (r >> ok (tt {0}))) ↔ IsOk r
wrapped_iff (ok a) wrap = same_iff
wrapped_iff (err e) wrap = same_iff
wrapped_iff (abort e) wrap = same_iff

json_patch-IsOk_iff :
    (L : Libs) (p : String) → IsOk (validate_json_patch L p) ↔ IsOk (L.json_patch_from_string p)
unfolding validate_json_patch
json_patch-IsOk_iff L p = wrapped_iff (L.json_patch_from_string p) _

module _ (L : Libs) (p : Payload) where
  abbrev ChosenKind : (b j a : Bool) → Type 0
  ChosenKind b j a =
      Chosen b j a (IsOk (validate_json_patch L p.json_patch))
        (IsOk (validate_additions_deletions L p.additions p.deletions))

  no_json_iff : (has_json_patch p ≡ false) ↔ (p.json_patch ≡ "")
  no_json_iff = ground (arith, eq_iff p.json_patch "")

  Kind-of_Chosen :
      (b j a : Bool)
      → p.block ≡ b
      → has_json_patch p ≡ j
      → has_additions_deletions p ≡ a
      → ChosenKind b j a
      → Kind L p
  Kind-of_Chosen true false false e f g h = block e (no_json_iff.0 f) ((IsUnchanged-iff p).0 g)
  Kind-of_Chosen false true false e f g h =
      json_patch e (λ empty. cc (no_json_iff.1 empty)) ((IsUnchanged-iff p).0 g)
        ((json_patch-IsOk_iff L p.json_patch).0 h)
  Kind-of_Chosen false false true e f g h =
      changes e (no_json_iff.0 f) (λ u. cc ((IsUnchanged-iff p).1 u))
        ((AreValid-iff L p.additions p.deletions).0 h)
  Kind-of_Chosen true true true e f g h = absurd h
  Kind-of_Chosen true true false e f g h = absurd h
  Kind-of_Chosen true false true e f g h = absurd h
  Kind-of_Chosen false true true e f g h = absurd h
  Kind-of_Chosen false false false e f g h = absurd h

  has_json_patch_of_ne : p.json_patch ≢ "" → has_json_patch p ≡ true
  has_json_patch_of_ne n = ground (arith, eq_iff p.json_patch "")

  has_changes_of_not : ¬ IsUnchanged p → has_additions_deletions p ≡ true
  has_changes_of_not n = elim (Bool-cases (has_additions_deletions p)) [
    | inl e ↦ e
    | inr e ↦ absurd (n ((IsUnchanged-iff p).0 e))
  ]

  Chosen-of_Kind : Kind L p → ChosenKind p.block (has_json_patch p) (has_additions_deletions p)
  Chosen-of_Kind (block e f u) = rw (e, no_json_iff.1 f, (IsUnchanged-iff p).1 u) tt
  Chosen-of_Kind (json_patch e n u h) =
      rw (e, has_json_patch_of_ne n, (IsUnchanged-iff p).1 u)
        ((json_patch-IsOk_iff L p.json_patch).1 h)
  Chosen-of_Kind (changes e f n h) =
      rw (e, no_json_iff.1 f, has_changes_of_not n) ((AreValid-iff L p.additions p.deletions).1 h)

  -- A payload is accepted exactly when it is one and only one of a block, a JSON patch that parses,
  -- and additions or deletions whose keys are qualified names, whose label values are templates or
  -- valid values and whose annotations are valid.
  pub validate-Kind_iff : IsOk (validate L p) ↔ Kind L p
  unfolding validate
  validate-Kind_iff =
      let (to, from) =
        chosen_iff p.block (has_json_patch p) (has_additions_deletions p) _ _
          (validate_json_patch L p.json_patch)
          (validate_additions_deletions L p.additions p.deletions) in
      (λ h. Kind-of_Chosen _ _ _ refl refl refl (to h), λ k. from (Chosen-of_Kind k))
