-- ===== src/Webhook/PathEscape.antt =====
-- url.PathEscape, with which pkg/webhook/server.go makes a URL path of a rule's name. A Go string is
-- taken as a text of Unicode characters, and its bytes as their UTF-8.
pub mod Injective
pub mod Bounds
use Prim.Native.Char.{Char, code}
use Prim.Native.String
use kube_graffiti.Common.{
  ℕ, zero, suc, ◌+◌, ◌/◌, ◌%◌, String, Bool, true, false, ◌&&◌, ◌||◌, List, [], ◌∷◌, if◌then◌else◌,
  leb, ltb, nat_eq, ◌<>◌, any,
}

-- The bytes of a character, by its code point.
unfoldable pub utf8 : ℕ → List ℕ
utf8 c =
    if ltb c 128
    then c ∷ []
    else if ltb c 2048
    then (192 + c / 64) ∷ (128 + c % 64) ∷ []
    else if ltb c 65536
    then (224 + c / 4096) ∷ (128 + c / 64 % 64) ∷ (128 + c % 64) ∷ []
    else (240 + c / 262144) ∷ (128 + c / 4096 % 64) ∷ (128 + c / 64 % 64) ∷ (128 + c % 64) ∷ []

abbrev upper_hex : List Char
upper_hex =
    "0" ∷ "1" ∷ "2" ∷ "3" ∷ "4" ∷ "5" ∷ "6" ∷ "7" ∷ "8" ∷ "9" ∷ "A" ∷ "B" ∷ "C" ∷ "D" ∷ "E" ∷ "F"
    ∷ []

abbrev char_at : List Char → ℕ → Char
char_at [] i = "0"
char_at (c ∷ cs) zero = c
char_at (c ∷ cs) (suc i) = char_at cs i

unfoldable pub hex_digit : ℕ → Char
hex_digit n = char_at upper_hex n

abbrev pub percent : Char
percent = "%"

-- Letters, digits, and - _ . ~ $ & + = : @ stand for themselves in a path segment.
unfoldable pub should_escape : ℕ → Bool
should_escape c =
    if (leb 48 c && leb c 57) || ((leb 65 c && leb c 90) || (leb 97 c && leb c 122))
    then false
    else if any (nat_eq c) (45 ∷ 95 ∷ 46 ∷ 126 ∷ 36 ∷ 38 ∷ 43 ∷ 61 ∷ 58 ∷ 64 ∷ [])
    then false
    else true

-- The bytes as %XX, in front of a text.
unfoldable pub escape_bytes : List ℕ → String → String
unfolding hex_digit
escape_bytes [] s = s
escape_bytes (b ∷ bytes) s =
    String.◌∷◌ percent
      (String.◌∷◌ (hex_digit (b / 16)) (String.◌∷◌ (hex_digit (b % 16)) (escape_bytes bytes s)))

unfoldable pub path_escape : String → String
unfolding escape_bytes should_escape utf8
path_escape String.[] = ""
path_escape (String.◌∷◌ c s) =
    let rest = path_escape s in
    if should_escape (code c) then escape_bytes (utf8 (code c)) rest else String.◌∷◌ c rest

abbrev pub path_prefix : String
path_prefix = "/graffiti/"

unfoldable pub path_from_name : String → String
path_from_name name = path_prefix <> path_escape name
