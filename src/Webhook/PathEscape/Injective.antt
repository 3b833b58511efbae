-- ===== src/Webhook/PathEscape/Injective.antt =====
-- Distinct names have distinct paths.
use Prim.Native.Char.{Char, char, code}
use text.Mathlib.TextLemmas.{append_cancel_left}
use text.Mathlib.TextEquality.{Char-path}
use kube_graffiti.Common.{
  ℕ, zero, suc, ◌+◌, ◌-◌, ◌*◌, ◌/◌, ◌%◌, ◌<◌, String, ◌≡◌, ◌≢◌, refl, sym, ap, ap₂, All, ◌∙◌, Bool,
  true, false, List, [], ◌∷◌, ◌++◌, if◌then◌else◌, ltb, nat_eq, arith, Bool-cases, inl, inr,
}
use kube_graffiti.Webhook.PathEscape.{
  utf8, hex_digit, should_escape, escape_bytes, path_escape, path_from_name, path_prefix,
}

-- The value of a digit.
unhex : ℕ → ℕ
unhex c = if ltb c 58 then c - 48 else c - 55

-- Where a reader of an escaped text stands: between characters, behind a percent sign, or behind
-- the first digit.
data Mode : Type 0 where
  between : Mode
  signed : Mode
  half : ℕ → Mode

-- The bytes that an escaped text stands for.
unescape : Mode → String → List ℕ
unescape m String.[] = []
unescape between (String.◌∷◌ c s) =
    let escaped = unescape signed s in
    let plain = code c ∷ unescape between s in if nat_eq (code c) 37 then escaped else plain
unescape signed (String.◌∷◌ c s) = unescape (half (unhex (code c) * 16)) s
unescape (half n) (String.◌∷◌ c s) = (n + unhex (code c)) ∷ unescape between s

-- A table of `m` entries, checked from the last one down.
passes : (ℕ → Bool) → ℕ → Bool
passes test (suc m) = if passes test m then test m else false
passes test zero = true

passes-below : (test : ℕ → Bool) (m : ℕ) {k : ℕ} → k < m → passes test m ≡ true → test k ≡ true
unfolding passes
passes-below test (suc m) {k} below all_pass = ground (arith, passes-below test m {k = k})
passes-below test zero below all_pass = absurd (omega arith)

same_digit : ℕ → Bool
unfolding unhex
same_digit n = nat_eq (unhex (code (hex_digit n))) n

hex_table : passes same_digit 16 ≡ true
unfolding passes same_digit hex_digit
hex_table = refl

unhex-hex_digit : (n : ℕ) → n < 16 → unhex (code (hex_digit n)) ≡ n
unfolding same_digit
unhex-hex_digit n h = ground (arith, passes-below same_digit 16 h hex_table)

abbrev AreBytes : List ℕ → Type 0
AreBytes = All (λ b. b < 256)

unescape-escape_bytes :
    (bytes : List ℕ) (s : String)
    → AreBytes bytes
    → unescape between (escape_bytes bytes s) ≡ bytes ++ unescape between s
unfolding unescape escape_bytes
unescape-escape_bytes [] s h = refl
unescape-escape_bytes (b ∷ bytes) s (small, h) =
    ap₂ (λ x xs. x ∷ xs)
      (omega
        (arith, unhex-hex_digit (b / 16) (omega arith), unhex-hex_digit (b % 16) (omega arith)))
      (unescape-escape_bytes bytes s h)

utf8-AreBytes : (c : ℕ) → c < 1114112 → AreBytes (utf8 c)
unfolding utf8
utf8-AreBytes c h = ground arith

-- A character that stands for itself is its one byte.
utf8-plain : (c : ℕ) → should_escape c ≡ false → (utf8 c ≡ c ∷ []) × (c ≢ 37)
unfolding utf8 should_escape
utf8-plain c h = ground arith

code-lt : (c : Char) → code c < 1114112
code-lt (char n p) = ground arith

-- The bytes of the first character tell where it ends.
utf8_injective :
    (c d : ℕ) (x y : List ℕ)
    → c < 1114112
    → d < 1114112
    → utf8 c ++ x ≡ utf8 d ++ y
    → (c ≡ d) × (x ≡ y)
unfolding utf8
utf8_injective c d x y hc hd e = ground arith

-- The bytes of a text.
bytes_of : String → List ℕ
bytes_of String.[] = []
bytes_of (String.◌∷◌ c s) = utf8 (code c) ++ bytes_of s

unescape-path_escape : (s : String) → unescape between (path_escape s) ≡ bytes_of s
unfolding path_escape bytes_of unescape
unescape-path_escape String.[] = refl
unescape-path_escape (String.◌∷◌ c s) = elim (Bool-cases (should_escape (code c))) [
  | inl special ↦ rw special (
      unescape-escape_bytes (utf8 (code c)) (path_escape s) (utf8-AreBytes (code c) (code-lt c))
      ∙ ap (λ t. utf8 (code c) ++ t) (unescape-path_escape s))
  | inr plain ↦
      let (one, sign) = utf8-plain (code c) plain in
      rw (plain, one) (ground (arith, sign, unescape-path_escape s))
]

utf8-ne-nil : (c : ℕ) (x : List ℕ) → utf8 c ++ x ≢ []
unfolding utf8
utf8-ne-nil c x e = ground arith

bytes_of_injective : (s t : String) → bytes_of s ≡ bytes_of t → s ≡ t
unfolding bytes_of
bytes_of_injective String.[] String.[] e = refl
bytes_of_injective String.[] (String.◌∷◌ d t) e = absurd (utf8-ne-nil (code d) (bytes_of t) (sym e))
bytes_of_injective (String.◌∷◌ c s) String.[] e = absurd (utf8-ne-nil (code c) (bytes_of s) e)
bytes_of_injective (String.◌∷◌ c s) (String.◌∷◌ d t) e =
    let (same, rest) =
      utf8_injective (code c) (code d) (bytes_of s) (bytes_of t) (code-lt c) (code-lt d) e in
    ap₂ String.◌∷◌ (Char-path c d same) (bytes_of_injective s t rest)

-- Rules with different names have different paths.
pub path_from_name_injective : (s t : String) → path_from_name s ≡ path_from_name t → s ≡ t
unfolding path_from_name
path_from_name_injective s t e =
    let escaped = append_cancel_left path_prefix (path_escape s) (path_escape t) e in
    bytes_of_injective s t
      (sym (unescape-path_escape s) ∙ ap (unescape between) escaped ∙ unescape-path_escape t)
