-- ===== src/Decimal.antt =====
-- Decimal text of numbers, as strconv.Itoa and the verb %d of package fmt write it.
use kube_graffiti.Common.{
  ℕ, zero, suc, ◌/◌, ◌%◌, String, Bool, false, if◌then◌else◌, ltb, nat_eq, ◌<>◌,
}

abbrev pub digit : ℕ → String
digit zero = "0"
digit (suc zero) = "1"
digit (suc (suc zero)) = "2"
digit (suc (suc (suc zero))) = "3"
digit (suc (suc (suc (suc zero)))) = "4"
digit (suc (suc (suc (suc (suc zero))))) = "5"
digit (suc (suc (suc (suc (suc (suc zero)))))) = "6"
digit (suc (suc (suc (suc (suc (suc (suc zero))))))) = "7"
digit (suc (suc (suc (suc (suc (suc (suc (suc zero)))))))) = "8"
digit _ = "9"

-- The number of rounds bounds the number of digits, so a number's own value suffices.
digits_of : ℕ → ℕ → String
digits_of zero n = digit (n % 10)
digits_of (suc fuel) n =
    let more = digits_of fuel (n / 10) <> digit (n % 10) in if ltb n 10 then digit n else more

-- strconv.Itoa on a number that is not negative.
unfoldable pub itoa : ℕ → String
unfolding digits_of
itoa n = digits_of n n

-- Go's `int`, for the values that the program gives meaning to; `negsuc n` is -(n + 1).
pub data ℤ : Type 0 where
  pos : ℕ → ℤ
  negsuc : ℕ → ℤ

abbrev pub int_eq : ℤ → ℤ → Bool
int_eq (pos a) (pos b) = nat_eq a b
int_eq (negsuc a) (negsuc b) = nat_eq a b
int_eq _ _ = false

-- The verb %d.
unfoldable pub format_int : ℤ → String
unfolding itoa
format_int (pos n) = itoa n
format_int (negsuc n) = "-" <> itoa (suc n)
