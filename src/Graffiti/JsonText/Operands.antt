-- ===== src/Graffiti/JsonText/Operands.antt =====
-- The operands of a patch are texts of JSON values.
use text.Mathlib.TextLemmas.{append_assoc}
use kube_graffiti.Common.{
  String, ◌≡◌, refl, sym, ap, ◌∙◌, subst, Bool, true, false, not, ◌&&◌, ◌||◌, ◌<>◌, some, List, [],
  ◌∷◌, ◌++◌, if◌then◌else◌, arith, is_empty,
}
use kube_graffiti.Dict.{Dict, GoMap, entries, deep_equal}
use kube_graffiti.Graffiti.Json.{Json, str, obj, Fields, end, field}
use kube_graffiti.Graffiti.JsonText.{
  Value, a_text, an_object, after_space, Members, member, MoreMembers, last_member, next_member,
  space_members,
}
use kube_graffiti.Graffiti.JsonText.Pieces.{pieces, pieces-append, cut}
use kube_graffiti.Graffiti.JsonText.Quoted.{
  IsPlainText, IsPlainText-of_test, IsWritable, without_newlines, plain-Chars, escape_string-Chars,
}
use kube_graffiti.Graffiti.Patch.{
  escape_string, join, render_values, render_string_map_as_patch, delete_path, patch_text,
}

-- A map whose keys and values can be written.
abbrev pub IsWritableMap : Dict String → Type 0
IsWritableMap [] = Unit
IsWritableMap ((k, v) ∷ m) = (IsPlainText k × IsWritable v) × IsWritableMap m

abbrev pub fields_of : Dict String → Fields
fields_of [] = end
fields_of ((k, v) ∷ m) = field k (str (without_newlines v)) (fields_of m)

-- The operation that takes the labels or annotations `src` at `path` to `m`.
abbrev pub operation : Dict String → Dict String → String → Json
operation src [] path = obj (field "op" (str "delete") (field "path" (str path) end))
operation [] (e ∷ m) path =
    obj (
      field "op" (str "add")
        (field "path" (str path) (field "value" (obj (fields_of (e ∷ m))) end)))
operation (x ∷ src) (e ∷ m) path = obj (
    field "op" (str "replace")
      (field "path" (str path) (field "value" (obj (fields_of (e ∷ m))) end)))

space-Members :
    {t rest : String} {fields : Fields} → Members t fields rest → Members (" " <> t) fields rest
space-Members (member key colon value more) = member (after_space refl key) colon value more

-- A name and its value.
named-Members :
    (k : String) {x w rest : String} {j : Json} {fields : Fields}
    → IsPlainText k
    → Value x j w
    → MoreMembers w fields rest
    → Members ("\"" <> (k <> ("\": " <> x))) (field k j fields) rest
named-Members k {x} h value more =
    member
      (a_text (ap (λ u. "\"" <> (k <> u)) (append_assoc "\"" ": " x)) (plain-Chars k (": " <> x) h))
      (append_assoc ":" " " x) (after_space refl value) more

quoted-Value :
    (s rest : String) → IsPlainText s → Value ("\"" <> (s <> ("\"" <> rest))) (str s) rest
quoted-Value s rest h = a_text refl (plain-Chars s rest h)

entry-Members :
    (k v : String) {w rest : String} {fields : Fields}
    → IsPlainText k
    → IsWritable v
    → MoreMembers w fields rest
    → Members
        (("\"" <> k <> "\": \"" <> escape_string v <> "\"") <> w)
        (field k (str (without_newlines v)) fields)
        rest
entry-Members k v {w} {rest} {fields} hk hv more =
    subst (λ t. Members t (field k (str (without_newlines v)) fields) rest)
      (sym (
        pieces-append ("\"" ∷ k ∷ "\": \"" ∷ escape_string v ∷ []) "\"" w
        ∙ ap (λ u. "\"" <> (k <> u)) (append_assoc "\": " "\"" (escape_string v <> ("\"" <> w)))))
      (named-Members k hk (a_text refl (escape_string-Chars v w hv)) more)

render_values-Members :
    (k v : String) (m : Dict String) {w rest : String}
    → IsWritableMap ((k, v) ∷ m)
    → MoreMembers w end rest
    → Members (join ", " (render_values ((k, v) ∷ m)) <> w) (fields_of ((k, v) ∷ m)) rest
unfolding join render_values
render_values-Members k v [] ((hk, hv), h) more = entry-Members k v hk hv more
render_values-Members k v ((j, x) ∷ m) {w} {rest} ((hk, hv), h) more =
    let later = render_values-Members j x m h more in
    let text = join ", " (render_values ((j, x) ∷ m)) in
    let here = "\"" <> k <> "\": \"" <> escape_string v <> "\"" in
    subst (λ t. Members t (fields_of ((k, v) ∷ (j, x) ∷ m)) rest)
      (sym (pieces-append (here ∷ ", " ∷ []) text w))
      (entry-Members k v hk hv
        (next_member (append_assoc "," " " (text <> w)) (space-Members later)))

-- The texts before the operation, the path, and the entries of an operand.
abbrev before_op : List String
before_op = "{" ∷ " " ∷ "\"" ∷ "op" ∷ "\": " ∷ "\"" ∷ []

abbrev before_path : List String
before_path = "\"" ∷ "," ∷ " " ∷ "\"" ∷ "path" ∷ "\": " ∷ "\"" ∷ []

abbrev before_value : List String
before_value = "\"" ∷ "," ∷ " " ∷ "\"" ∷ "value" ∷ "\": " ∷ "{" ∷ " " ∷ []

-- The members of an operand up to its path.
op-Members :
    (op path : String) {w rest : String} {fields : Fields}
    → IsPlainText op
    → IsPlainText path
    → MoreMembers w fields rest
    → Value
        (pieces before_op (op <> pieces before_path (path <> ("\"" <> w))))
        (obj (field "op" (str op) (field "path" (str path) fields)))
        rest
op-Members op path {w} hop hpath more = an_object refl (
    space-Members (
      named-Members "op" (IsPlainText-of_test "op" refl)
        (quoted-Value op
          ("," <> (" " <> ("\"" <> ("path" <> ("\": " <> ("\"" <> (path <> ("\"" <> w)))))))) hop)
        (next_member refl (
          space-Members (
            named-Members "path" (IsPlainText-of_test "path" refl) (quoted-Value path w hpath)
              more)))))

closing-MoreMembers : (rest : String) → MoreMembers (" }}" <> rest) end ("}" <> rest)
closing-MoreMembers rest =
    subst (λ t. MoreMembers t end ("}" <> rest)) (sym (cut (" " ∷ "}" ∷ "}" ∷ []) rest))
      (space_members refl (last_member refl))

-- The operand with a value, cut into pieces.
operand_pieces :
    (op path text rest : String)
    → ("{ \"op\": \"" <> op <> "\", \"path\": \"" <> path <> "\", \"value\": { " <> text <> " }}")
        <> rest
      ≡ pieces before_op
          (op <> pieces before_path (path <> pieces before_value (text <> (" }}" <> rest))))
operand_pieces op path text rest =
    let behind = text <> (" }}" <> rest) in
    let whole = "{ \"op\": \"" ∷ op ∷ "\", \"path\": \"" ∷ path ∷ "\", \"value\": { " ∷ text ∷ [] in
    pieces-append whole " }}" rest
    ∙ cut before_op _
    ∙ ap (λ t. pieces before_op (op <> t))
        (cut before_path _ ∙ ap (λ t. pieces before_path (path <> t)) (cut before_value behind))

put-Value :
    (op path k v : String) (m : Dict String) (rest : String)
    → IsPlainText op
    → IsPlainText path
    → IsWritableMap ((k, v) ∷ m)
    → Value
        (render_string_map_as_patch op path ((k, v) ∷ m) <> rest)
        (obj (
          field "op"
            (str op)
            (field "path" (str path) (field "value" (obj (fields_of ((k, v) ∷ m))) end))))
        rest
unfolding render_string_map_as_patch
put-Value op path k v m rest hop hpath h =
    let text = join ", " (render_values ((k, v) ∷ m)) in
    subst
      (λ t.
        Value t
          (obj (
            field "op" (str op)
              (field "path" (str path) (field "value" (obj (fields_of ((k, v) ∷ m))) end))))
          rest)
      (sym (operand_pieces op path text rest))
      (op-Members op path hop hpath (
        next_member refl (
          space-Members (
            named-Members "value" (IsPlainText-of_test "value" refl)
              (an_object refl
                (space-Members (render_values-Members k v m h (closing-MoreMembers rest))))
              (last_member refl)))))

delete-Value :
    (path rest : String)
    → IsPlainText path
    → Value
        (delete_path path <> rest)
        (obj (field "op" (str "delete") (field "path" (str path) end)))
        rest
unfolding delete_path
delete-Value path rest hpath =
    let closing : MoreMembers (" }" <> rest) end rest =
      subst (λ t. MoreMembers t end rest) (sym (cut (" " ∷ "}" ∷ []) rest))
        (space_members refl (last_member refl)) in
    let whole = "{ \"op\": \"delete\", \"path\": \"" ∷ path ∷ [] in
    subst (λ t. Value t (obj (field "op" (str "delete") (field "path" (str path) end))) rest)
      (sym (
        pieces-append whole "\" }" rest
        ∙ cut (before_op ++ "delete" ∷ before_path) (path <> ("\" }" <> rest))
        ∙ ap (λ t. pieces (before_op ++ "delete" ∷ before_path) (path <> t))
            (append_assoc "\"" " }" rest)))
      (op-Members "delete" path (IsPlainText-of_test "delete" refl) hpath closing)

-- Labels or annotations that need no operand: they stay what they are, or there are none either way.
abbrev pub is_unchanged : GoMap String → Dict String → Bool
is_unchanged src m = deep_equal src (some m) || is_empty (entries src) && is_empty m

pub patch_text-unchanged :
    (src : GoMap String) (m : Dict String) (path : String)
    → is_unchanged src m ≡ true
    → patch_text src m path ≡ ""
unfolding patch_text render_string_map_as_patch
patch_text-unchanged src m path e = ground arith

-- The text of an operand of labels or annotations with the entries `es`.
entries_text : Dict String → Dict String → String → String
entries_text es m path =
    if not (is_empty es) && is_empty m
    then delete_path path
    else if is_empty es
    then render_string_map_as_patch "add" path m
    else render_string_map_as_patch "replace" path m

entries_text-Value :
    (es m : Dict String) (path rest : String)
    → IsPlainText path
    → IsWritableMap m
    → (is_empty es && is_empty m) ≡ false
    → Value (entries_text es m path <> rest) (operation es m path) rest
unfolding entries_text
entries_text-Value [] [] path rest hpath h e = cc
entries_text-Value [] ((k, v) ∷ m) path rest hpath h e =
    put-Value "add" path k v m rest (IsPlainText-of_test "add" refl) hpath h
entries_text-Value (x ∷ es) [] path rest hpath h e = delete-Value path rest hpath
entries_text-Value (x ∷ es) ((k, v) ∷ m) path rest hpath h e =
    put-Value "replace" path k v m rest (IsPlainText-of_test "replace" refl) hpath h

pub patch_text-Value :
    (src : GoMap String) (m : Dict String) (path rest : String)
    → IsPlainText path
    → IsWritableMap m
    → is_unchanged src m ≡ false
    → Value (patch_text src m path <> rest) (operation (entries src) m path) rest
unfolding patch_text entries_text
patch_text-Value src m path rest hpath h e =
    let differs : deep_equal src (some m) ≡ false = ground arith in
    rw differs (entries_text-Value (entries src) m path rest hpath h (rw differs at e))
