-- ===== src/Existing/Targets/RoundTrip.antt =====
-- The texts of groups and versions.
use Prim.Native.Char.{Char, code}
use text.Mathlib.TextLemmas.{nil-append, cons-append}
use text.Mathlib.TextEquality.{Char-path}
use kube_graffiti.Common.{
  String, ◌≡◌, refl, sym, ap, ◌∙◌, false, Option, none, some, ◌==◌, ◌<>◌, if◌then◌else◌, nat_eq,
  Bool-cases, str-cases, eq_iff, inl, inr, arith,
}
use kube_graffiti.Existing.Targets.{split_slash, split_group_version_string}

abbrev pub HasNoSlash : String → Type 0
HasNoSlash String.[] = Unit
HasNoSlash (String.◌∷◌ c s) = (nat_eq (code c) 47 ≡ false) × HasNoSlash s

-- A group and a version in one text: the version alone for the core group, which has no name.
abbrev pub group_version_text : String → String → String
group_version_text g v = if g == "" then v else g <> ("/" <> v)

split_slash-HasNoSlash : (s : String) → HasNoSlash s → split_slash s ≡ (s, none)
unfolding split_slash
split_slash-HasNoSlash String.[] h = refl
split_slash-HasNoSlash (String.◌∷◌ c s) (p, h) = rw (split_slash-HasNoSlash s h, p) refl

abbrev slash : Char
slash = "/"

slash-append : (v : String) → "/" <> v ≡ String.◌∷◌ slash v
slash-append v = cons-append slash "" v ∙ ap (String.◌∷◌ slash) (nil-append v)

split_slash-append : (g v : String) → HasNoSlash g → split_slash (g <> ("/" <> v)) ≡ (g, some v)
unfolding split_slash
split_slash-append String.[] v h = ap split_slash (nil-append ("/" <> v) ∙ slash-append v)
split_slash-append (String.◌∷◌ c g) v (p, h) =
    ap split_slash (cons-append c g ("/" <> v)) ∙ rw (split_slash-append g v h, p) refl

-- What the parts of a split make together.
abbrev joined : String × Option String → String
joined (s, none) = s
joined (s, some t) = s <> ("/" <> t)

joined-cons :
    (c : Char) (p : String × Option String)
    → joined (String.◌∷◌ c p.0, p.1) ≡ String.◌∷◌ c (joined p)
joined-cons c (s, none) = refl
joined-cons c (s, some t) = cons-append c s ("/" <> t)

split_slash-joined : (s : String) → joined (split_slash s) ≡ s
unfolding split_slash
split_slash-joined String.[] = refl
split_slash-joined (String.◌∷◌ c s) = elim (Bool-cases (nat_eq (code c) 47)) [
  | inl e ↦
      let same : slash ≡ c = Char-path slash c (ground arith) in
      rw e (nil-append ("/" <> s) ∙ slash-append s ∙ ap (λ d. String.◌∷◌ d s) same)
  | inr e ↦ rw e (joined-cons c (split_slash s) ∙ ap (String.◌∷◌ c) (split_slash-joined s))
]

-- A text that is no slash followed by a version.
abbrev pub NamesGroup : String → Type 0
NamesGroup s = (split_slash s).0 ≡ "" → (split_slash s).1 ≡ none

abbrev parts_of : String × Option String → String × String
parts_of (s, none) = ("", s)
parts_of (s, some t) = (s, t)

split-parts_of : (s : String) → split_group_version_string s ≡ parts_of (split_slash s)
unfolding split_group_version_string
split-parts_of s = go (split_slash s)
  where
    go :
        (p : String × Option String)
        → (elim p.1 [ some version ↦ (p.0, version) | none ↦ ("", p.0) ]) ≡ parts_of p
    go (s, none) = refl
    go (s, some t) = refl

split-of_text :
    (g v text : String) {p : String × Option String}
    → group_version_text g v ≡ text
    → split_slash text ≡ p
    → split_group_version_string (group_version_text g v) ≡ parts_of p
split-of_text g v text same split =
    ap split_group_version_string same ∙ split-parts_of text ∙ ap parts_of split

text_of_split :
    (p : String × Option String)
    → (p.0 ≡ "" → p.1 ≡ none)
    → group_version_text (parts_of p).0 (parts_of p).1 ≡ joined p
text_of_split (s, none) h = refl
text_of_split (s, some t) h = elim (str-cases s "") [
  | inl empty ↦ let e = h empty in cc
  | inr test ↦ rw test refl
]

-- A group without a slash and a version, which has none either if the group has no name, are split
-- again from their text; and every text but one that starts with a slash is the text of what it splits into.
pub split_group_version_string_round :
    (g v : String)
    → HasNoSlash g
    → (g ≡ "" → HasNoSlash v)
    → (split_group_version_string (group_version_text g v) ≡ (g, v))
      × ((s : String)
          → NamesGroup s
          → group_version_text (split_group_version_string s).0 (split_group_version_string s).1
            ≡ s)
split_group_version_string_round g v hg hv = (
  elim (str-cases g "") [
    | inl empty ↦
        split-of_text g v v (rw ((eq_iff g "").1 empty) refl) (split_slash-HasNoSlash v (hv empty))
        ∙ ap (λ x. (x, v)) (sym empty)
    | inr test ↦ split-of_text g v (g <> ("/" <> v)) (rw test refl) (split_slash-append g v hg)
  ],
  λ s names.
      ap (λ (p : String × String). group_version_text p.0 p.1) (split-parts_of s)
      ∙ text_of_split (split_slash s) names
      ∙ split_slash-joined s,
)
