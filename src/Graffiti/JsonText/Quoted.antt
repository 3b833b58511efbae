-- ===== src/Graffiti/JsonText/Quoted.antt =====
-- Quoted texts, with and without escapes.
use Prim.Native.Char.{Char, code}
use text.Mathlib.TextLemmas.{append_assoc, cons-append, nil-append}
use text.Mathlib.TextEquality.{Char-path}
use kube_graffiti.Common.{
  ◌≤◌, String, ◌≡◌, ◌≢◌, refl, ap, ap₂, ◌∙◌, Bool, true, false, ◌<>◌, ◌⊎◌, inl, inr, Bool-cases,
  nat_eq, ltb, not, ◌&&◌, if◌then◌else◌, arith,
}
use kube_graffiti.Graffiti.JsonText.{IsPlain, Chars, close, plain, escaped}
use kube_graffiti.Graffiti.Patch.{replace_char, escape_string}

-- A text of characters that stand for themselves.
abbrev pub IsPlainText : String → Type 0
IsPlainText String.[] = Unit
IsPlainText (String.◌∷◌ c s) = IsPlain c × IsPlainText s

abbrev is_plain : Char → Bool
is_plain c = not (nat_eq (code c) 34) && not (nat_eq (code c) 92) && not (ltb (code c) 32)

abbrev pub is_plain_text : String → Bool
is_plain_text String.[] = true
is_plain_text (String.◌∷◌ c s) = is_plain c && is_plain_text s

IsPlain-of_test : (c : Char) → is_plain c ≡ true → IsPlain c
IsPlain-of_test c e = (ground arith, ground arith, ground arith)

pub IsPlainText-of_test : (s : String) → is_plain_text s ≡ true → IsPlainText s
IsPlainText-of_test String.[] e = tt
IsPlainText-of_test (String.◌∷◌ c s) e = elim (Bool-cases (is_plain c)) [
  | inl p ↦ (IsPlain-of_test c p, IsPlainText-of_test s (rw p at e))
  | inr n ↦ absurd (grind arith)
]

-- A text whose characters stand for themselves, or are quotes or newlines.
abbrev pub IsWritable : String → Type 0
IsWritable String.[] = Unit
IsWritable (String.◌∷◌ c s) = ((code c ≢ 92) × ((32 ≤ code c) ⊎ (code c ≡ 10))) × IsWritable s

pub IsWritable-of_plain : (s : String) → IsPlainText s → IsWritable s
IsWritable-of_plain String.[] h = tt
IsWritable-of_plain (String.◌∷◌ c s) ((quote, slash, shown), h) =
    ((slash, inl shown), IsWritable-of_plain s h)

abbrev pub without_newlines : String → String
without_newlines String.[] = ""
without_newlines (String.◌∷◌ c s) =
    if nat_eq (code c) 10 then without_newlines s else String.◌∷◌ c (without_newlines s)

pub plain-Chars : (s rest : String) → IsPlainText s → Chars (s <> ("\"" <> rest)) s rest
plain-Chars String.[] rest h = close (nil-append ("\"" <> rest))
plain-Chars (String.◌∷◌ c s) rest (p, h) =
    plain p (cons-append c s ("\"" <> rest)) (plain-Chars s rest h)

escape_string-nil : (t : String) → escape_string "" <> t ≡ t
unfolding escape_string replace_char
escape_string-nil t = nil-append t

abbrev quote : Char
quote = "\""

-- The two characters of an escaped quote.
quote-append :
    (c : Char) (t : String) → nat_eq (code c) 34 ≡ true → "\\\"" <> t ≡ "\\" <> String.◌∷◌ c t
quote-append c t e =
    let same : quote ≡ c = Char-path quote c (ground arith) in
    append_assoc "\\" "\"" t
    ∙ ap (λ u. "\\" <> u) (cons-append quote "" t ∙ ap₂ String.◌∷◌ same (nil-append t))

module _ (c : Char) (s : String) where
  escape_string-newline :
      nat_eq (code c) 10 ≡ true → escape_string (String.◌∷◌ c s) ≡ escape_string s
  unfolding escape_string replace_char
  escape_string-newline e = rw (e, nil-append) refl

  escape_string-quote :
      nat_eq (code c) 10 ≡ false
      → nat_eq (code c) 34 ≡ true
      → escape_string (String.◌∷◌ c s) ≡ "\\\"" <> escape_string s
  unfolding escape_string replace_char
  escape_string-quote e f = rw (e, f) refl

  escape_string-other :
      nat_eq (code c) 10 ≡ false
      → nat_eq (code c) 34 ≡ false
      → escape_string (String.◌∷◌ c s) ≡ String.◌∷◌ c (escape_string s)
  unfolding escape_string replace_char
  escape_string-other e f = rw (e, f) refl

-- What escapeString makes of a text says the text without its newlines.
pub escape_string-Chars :
    (s rest : String)
    → IsWritable s
    → Chars (escape_string s <> ("\"" <> rest)) (without_newlines s) rest
escape_string-Chars String.[] rest h = close (escape_string-nil ("\"" <> rest))
escape_string-Chars (String.◌∷◌ c s) rest ((slash, shown), h) =
    let later = escape_string-Chars s rest h in
    let behind = "\"" <> rest in
    elim (Bool-cases (nat_eq (code c) 10)) [
      | inl e ↦ rw (escape_string-newline c s e, e) later
      | inr e ↦ elim (Bool-cases (nat_eq (code c) 34)) [
        | inl f ↦
            rw (escape_string-quote c s e f, e)
              (escaped (inl (ground arith))
                (append_assoc "\\\"" (escape_string s) behind
                  ∙ quote-append c (escape_string s <> behind) f)
                later)
        | inr f ↦
            rw (escape_string-other c s e f, e)
              (plain (ground arith, slash, ground arith) (cons-append c (escape_string s) behind)
                later)
      ]
    ]
