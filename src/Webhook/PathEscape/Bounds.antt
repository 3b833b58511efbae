-- ===== src/Webhook/PathEscape/Bounds.antt =====
-- The paths of rules: plain ASCII, one segment behind the prefix, of a bounded length.
use Prim.Native.Char.{Char, code}
use kube_graffiti.Common.{
  ℕ, zero, suc, ◌+◌, ◌*◌, ◌≤◌, ◌/◌, ◌%◌, String, ◌≡◌, refl, Bool, true, false, List, [], ◌∷◌, inl,
  inr, Bool-cases, leb, nat_eq, ◌&&◌, ◌||◌, any, arith, ◌<>◌,
}
use kube_graffiti.Webhook.PathEscape.{
  utf8, upper_hex, char_at, hex_digit, should_escape, escape_bytes, path_escape, path_from_name,
  path_prefix,
}

-- A letter, a digit, or one of % $ & + - . : = @ _ ~
abbrev pub is_segment_char : Char → Bool
is_segment_char c =
    ((leb 48 (code c) && leb (code c) 57)
      || ((leb 65 (code c) && leb (code c) 90) || (leb 97 (code c) && leb (code c) 122)))
    || any (nat_eq (code c)) (37 ∷ 45 ∷ 95 ∷ 46 ∷ 126 ∷ 36 ∷ 38 ∷ 43 ∷ 61 ∷ 58 ∷ 64 ∷ [])

abbrev pub AreSegmentChars : String → Type 0
AreSegmentChars String.[] = Unit
AreSegmentChars (String.◌∷◌ c s) = (is_segment_char c ≡ true) × AreSegmentChars s

abbrev pub length : String → ℕ
length String.[] = 0
length (String.◌∷◌ c s) = suc (length s)

abbrev all_segment : List Char → Bool
all_segment [] = true
all_segment (c ∷ cs) = is_segment_char c && all_segment cs

char_at-segment :
    (cs : List Char) (i : ℕ) → all_segment cs ≡ true → is_segment_char (char_at cs i) ≡ true
char_at-segment [] i h = refl
char_at-segment (c ∷ cs) zero h = ground arith
char_at-segment (c ∷ cs) (suc i) h = char_at-segment cs i (ground arith)

hex_digit-segment : (n : ℕ) → is_segment_char (hex_digit n) ≡ true
unfolding hex_digit
hex_digit-segment n = char_at-segment upper_hex n refl

escape_bytes-segment :
    (bytes : List ℕ) (s : String) → AreSegmentChars s → AreSegmentChars (escape_bytes bytes s)
unfolding escape_bytes
escape_bytes-segment [] s h = h
escape_bytes-segment (b ∷ bytes) s h = (
  refl,
  (hex_digit-segment (b / 16), (hex_digit-segment (b % 16), escape_bytes-segment bytes s h)),
)

plain-segment : (c : Char) → should_escape (code c) ≡ false → is_segment_char c ≡ true
unfolding should_escape
plain-segment c e = ground arith

path_escape-segment : (s : String) → AreSegmentChars (path_escape s)
unfolding path_escape
path_escape-segment String.[] = tt
path_escape-segment (String.◌∷◌ c s) =
    let rest = path_escape-segment s in
    elim (Bool-cases (should_escape (code c))) [
      | inl e ↦ rw e (escape_bytes-segment (utf8 (code c)) (path_escape s) rest)
      | inr e ↦ rw e (plain-segment c e, rest)
    ]

count : List ℕ → ℕ
count [] = 0
count (b ∷ bytes) = suc (count bytes)

length-escape_bytes :
    (bytes : List ℕ) (s : String) → length (escape_bytes bytes s) ≡ 3 * count bytes + length s
unfolding escape_bytes count
length-escape_bytes [] s = omega arith
length-escape_bytes (b ∷ bytes) s = let rest = length-escape_bytes bytes s in omega arith

count-utf8 : (c : ℕ) → count (utf8 c) ≤ 4
unfolding utf8 count
count-utf8 c = ground arith

length-path_escape : (s : String) → length (path_escape s) ≤ 12 * length s
unfolding path_escape
length-path_escape String.[] = omega arith
length-path_escape (String.◌∷◌ c s) =
    let rest = length-path_escape s in
    elim (Bool-cases (should_escape (code c))) [
      | inl e ↦
          let bytes = count-utf8 (code c) in
          let whole = length-escape_bytes (utf8 (code c)) (path_escape s) in rw e (omega arith)
      | inr e ↦ rw e (omega arith)
    ]

-- The path of a rule is the prefix followed by one path segment: letters, digits and % $ & + - . : = @
-- _ ~ only, so no slash, space or question mark, at most twelve of them for each character of the name.
pub path_from_name-IsSegment :
    (name : String)
    → (segment : String) × (path_from_name name ≡ path_prefix <> segment)
      × AreSegmentChars segment
      × (length segment ≤ 12 * length name)
unfolding path_from_name
path_from_name-IsSegment name =
    (path_escape name, refl, path_escape-segment name, length-path_escape name)
