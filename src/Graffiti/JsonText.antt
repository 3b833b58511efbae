-- ===== src/Graffiti/JsonText.antt =====
-- The texts of JSON values (RFC 8259), for strings, objects and arrays; spaces may stand before a
-- value or a closing bracket.
pub mod Quoted
pub mod Pieces
pub mod Operands
pub mod Painted
use Prim.Native.Char.{Char, code}
use Prim.Native.String
use kube_graffiti.Common.{ℕ, ◌≤◌, String, ◌≡◌, ◌≢◌, ◌<>◌, ◌⊎◌}
use kube_graffiti.Graffiti.Json.{Json, str, arr, obj, Items, nil, cons, Fields, end, field}

-- A character that stands for itself between quotes.
abbrev pub IsPlain : Char → Type 0
IsPlain c = (code c ≢ 34) × (code c ≢ 92) × (32 ≤ code c)

-- The text behind an opening quote: what it says up to the closing quote, and the rest.
pub data Chars : String → String → String → Type 0 where
  close : {t rest : String} → t ≡ "\"" <> rest → Chars t "" rest
  plain :
      {t u s rest : String} {c : Char}
      → IsPlain c
      → t ≡ String.◌∷◌ c u
      → Chars u s rest
      → Chars t (String.◌∷◌ c s) rest
  escaped :
      {t u s rest : String} {c : Char}
      → (code c ≡ 34) ⊎ (code c ≡ 92)
      → t ≡ "\\" <> String.◌∷◌ c u
      → Chars u s rest
      → Chars t (String.◌∷◌ c s) rest

-- A text that starts with a value, and the rest.
mutual
  pub data Value : String → Json → String → Type 0 where
    a_text : {t u s rest : String} → t ≡ "\"" <> u → Chars u s rest → Value t (str s) rest
    an_object :
        {t u rest : String} {fields : Fields}
        → t ≡ "{" <> u
        → Members u fields rest
        → Value t (obj fields) rest
    an_array :
        {t u rest : String} {items : Items}
        → t ≡ "[" <> u
        → Elements u items rest
        → Value t (arr items) rest
    after_space : {t u rest : String} {j : Json} → t ≡ " " <> u → Value u j rest → Value t j rest

  pub data Members : String → Fields → String → Type 0 where
    member :
        {t u v w rest k : String} {j : Json} {fields : Fields}
        → Value t (str k) u
        → u ≡ ":" <> v
        → Value v j w
        → MoreMembers w fields rest
        → Members t (field k j fields) rest

  pub data MoreMembers : String → Fields → String → Type 0 where
    last_member : {t rest : String} → t ≡ "}" <> rest → MoreMembers t end rest
    next_member :
        {t u rest : String} {fields : Fields}
        → t ≡ "," <> u
        → Members u fields rest
        → MoreMembers t fields rest
    space_members :
        {t u rest : String} {fields : Fields}
        → t ≡ " " <> u
        → MoreMembers u fields rest
        → MoreMembers t fields rest

  pub data Elements : String → Items → String → Type 0 where
    element :
        {t u rest : String} {j : Json} {items : Items}
        → Value t j u
        → MoreElements u items rest
        → Elements t (cons j items) rest

  pub data MoreElements : String → Items → String → Type 0 where
    last_element : {t rest : String} → t ≡ "]" <> rest → MoreElements t nil rest
    next_element :
        {t u rest : String} {items : Items}
        → t ≡ "," <> u
        → Elements u items rest
        → MoreElements t items rest
    space_elements :
        {t u rest : String} {items : Items}
        → t ≡ " " <> u
        → MoreElements u items rest
        → MoreElements t items rest

-- The whole text is a value.
abbrev pub Denotes : String → Json → Type 0
Denotes t j = Value t j ""
