-- ===== src/Graffiti/JsonText/Pieces.antt =====
-- Texts cut into pieces, which the writers of JSON put together.
use text.Mathlib.TextLemmas.{append_assoc, nil-append}
use kube_graffiti.Common.{String, ◌≡◌, refl, ap, ◌∙◌, ◌<>◌, List, [], ◌∷◌}

-- Texts one after another, before a last one.
abbrev pub pieces : List String → String → String
pieces [] t = t
pieces (x ∷ xs) t = x <> pieces xs t

pub pieces-append : (xs : List String) (t w : String) → pieces xs t <> w ≡ pieces xs (t <> w)
pieces-append [] t w = refl
pieces-append (x ∷ xs) t w =
    append_assoc x (pieces xs t) w ∙ ap (λ u. x <> u) (pieces-append xs t w)

-- A literal cut into pieces.
pub cut : (xs : List String) (t : String) → pieces xs "" <> t ≡ pieces xs t
cut xs t = pieces-append xs "" t ∙ ap (pieces xs) (nil-append t)
