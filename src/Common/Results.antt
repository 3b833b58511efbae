-- ===== src/Common/Results.antt =====
-- What a Go function that returns `(T, error)` comes to: a value, an error with its text, or no
-- return at all, after a panic or a log line at level Fatal, which ends the process.
use Prim.Native.String.{String}
use mathlib.Core.Path.{◌≡◌, refl}
use mathlib.Core.Logic.{◌↔◌}

-- A panic runs the deferred calls of the functions that it leaves; os.Exit, which follows a log line at
-- level Fatal, runs none.
pub data Halt : Type 0 where
  panics exits : String → Halt

pub data Result {ℓ} (A : Type ℓ) : Type ℓ where
  ok : A → Result A
  err : String → Result A
  abort : Halt → Result A

-- if err != nil { return err }; go on with the value otherwise.
infixl 5 ◌>>=◌ ◌>>◌
abbrev pub ◌>>=◌ {ℓ κ} :
    {T : Type ℓ} {U : Type κ} (call : Result T) (rest : T → Result U) → Result U
(abort message) >>= rest = abort message
(err message) >>= rest = err message
(ok value) >>= rest = rest value

abbrev pub ◌>>◌ {ℓ κ} : {T : Type ℓ} {U : Type κ} (call : Result T) (rest : Result U) → Result U
call >> rest = call >>= λ _. rest

-- if err != nil { return fmt.Errorf("...%v", err) }
abbrev pub map_err {ℓ} : {A : Type ℓ} → (String → String) → Result A → Result A
map_err f (ok a) = ok a
map_err f (err e) = err (f e)
map_err f (abort e) = abort e

-- The call returns a value and no error.
abbrev pub IsOk {ℓ} : {A : Type ℓ} → Result A → Type 0
IsOk (ok a) = Unit
IsOk (err e) = ⊥
IsOk (abort e) = ⊥

pub IsOk-value {ℓ} : {A : Type ℓ} (r : Result A) → IsOk r → (a : A) × (r ≡ ok a)
IsOk-value (ok a) h = (a, refl)
IsOk-value (err e) h = absurd h
IsOk-value (abort e) h = absurd h

pub IsOk-of_eq {ℓ} : {A : Type ℓ} (r : Result A) {a : A} → r ≡ ok a → IsOk r
IsOk-of_eq (ok a) h = tt
IsOk-of_eq (err e) h = cc
IsOk-of_eq (abort e) h = cc

-- Inversion of a successful bind.
pub >>=-eq-ok {ℓ κ} :
    {T : Type ℓ} {U : Type κ} (call : Result T) (rest : T → Result U) {u : U}
    → (call >>= rest) ≡ ok u
    → (t : T) × (call ≡ ok t) × (rest t ≡ ok u)
>>=-eq-ok (abort message) rest e = cc
>>=-eq-ok (err message) rest e = cc
>>=-eq-ok (ok t) rest e = (t, refl, e)

-- Inversion of a check that wraps its error: `if err := check(); err != nil { return wrap(err) }`.
pub check-eq-ok {ℓ} :
    {A : Type ℓ} (r : Result A) (wrap : String → String) (later : Result (Unit {0}))
    → (map_err wrap (r >> ok (tt {0})) >> later) ≡ ok tt
    → IsOk r × (later ≡ ok tt)
check-eq-ok (ok a) wrap later h = (tt, h)
check-eq-ok (err e) wrap later h = cc
check-eq-ok (abort e) wrap later h = cc

pub map_err-eq-ok {ℓ} :
    {A : Type ℓ} (wrap : String → String) (r : Result A) {a : A} → map_err wrap r ≡ ok a → r ≡ ok a
map_err-eq-ok wrap (ok a) h = h
map_err-eq-ok wrap (err e) h = cc
map_err-eq-ok wrap (abort e) h = cc

pub ok_injective {ℓ} : {A : Type ℓ} {a b : A} → ok a ≡ ok b → a ≡ b
ok_injective e = cc

-- Two checks in a row.
pub then_iff {ℓ} :
    {A : Type ℓ} {P Q : Type 0} (m k : Result A) → IsOk m ↔ P → IsOk k ↔ Q → IsOk (m >> k) ↔ (P × Q)
then_iff (ok a) k p q = (λ h. (p.0 tt, q.0 h), λ h. q.1 h.1)
then_iff (err e) k p q = (λ h. absurd h, λ h. p.1 h.0)
then_iff (abort e) k p q = (λ h. absurd h, λ h. p.1 h.0)

pub same_iff : {P : Type 0} → P ↔ P
same_iff = (λ h. h, λ h. h)

-- The call returns, a value or an error.
pub data Returns {ℓ} {A : Type ℓ} : Result A → Type ℓ where
  with_value : {a : A} → Returns (ok a)
  with_error : {e : String} → Returns (err e)

pub >>=-Returns {ℓ κ} :
    {T : Type ℓ} {U : Type κ} {call : Result T} {rest : T → Result U}
    → Returns call
    → ((t : T) → call ≡ ok t → Returns (rest t))
    → Returns (call >>= rest)
>>=-Returns {call = ok t} h k = k t refl
>>=-Returns {call = err e} h k = with_error
>>=-Returns {call = abort e} h k = absurd (elim h [ ])

pub map_err-Returns {ℓ} :
    {A : Type ℓ} (wrap : String → String) {r : Result A} → Returns r → Returns (map_err wrap r)
map_err-Returns wrap {r = ok a} h = with_value
map_err-Returns wrap {r = err e} h = with_error
map_err-Returns wrap {r = abort e} h = absurd (elim h [ ])
