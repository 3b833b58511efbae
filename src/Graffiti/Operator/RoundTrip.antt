-- ===== src/Graffiti/Operator/RoundTrip.antt =====
-- The names of the boolean operators and their values determine one another.
use kube_graffiti.Common.{
  zero, suc, String, Result, ◌≡◌, ◌↔◌, refl, true, ok, arith, str-cases, inl, inr, none,
}
use kube_graffiti.Decimal.{pos, negsuc}
use kube_graffiti.Dict.{lookup}
use kube_graffiti.Graffiti.Operator.{
  BooleanOperator, to_string, boolean_operator_string, is_a_boolean_operator, name_at,
  boolean_operator_name_to_value, marshal_json, unmarshal_json, marshal_yaml, unmarshal_yaml, text,
  operator, decode_hook,
}

string_of_valid :
    (i : BooleanOperator)
    → is_a_boolean_operator i ≡ true
    → boolean_operator_string (to_string i) ≡ ok i
unfolding is_a_boolean_operator to_string boolean_operator_string
string_of_valid (negsuc n) h = cc
string_of_valid (pos zero) h = refl
string_of_valid (pos (suc zero)) h = refl
string_of_valid (pos (suc (suc zero))) h = refl
string_of_valid (pos (suc (suc (suc n)))) h = ground arith

abbrev IsNamed : String → BooleanOperator → Type 0
IsNamed s i = (is_a_boolean_operator i ≡ true) × (to_string i ≡ s)

-- The step for a text that is the name of `j`.
named :
    (j : BooleanOperator) (name s : String) (i : BooleanOperator)
    → name ≡ s
    → boolean_operator_string name ≡ ok j
    → IsNamed name j
    → boolean_operator_string s ≡ ok i
    → IsNamed s i
named j name s i e found valid h = let same : j ≡ i = cc in rw (← same, ← e) valid

valid_of_string :
    (s : String) (i : BooleanOperator) → boolean_operator_string s ≡ ok i → IsNamed s i
unfolding is_a_boolean_operator to_string boolean_operator_string lookup
valid_of_string s i h = elim (str-cases (name_at 0) s) [
  | inl e ↦ named (pos 0) (name_at 0) s i e refl (refl, refl) h
  | inr no_and ↦ elim (str-cases (name_at 1) s) [
    | inl e ↦ named (pos 1) (name_at 1) s i e refl (refl, refl) h
    | inr no_or ↦ elim (str-cases (name_at 2) s) [
      | inl e ↦ named (pos 2) (name_at 2) s i e refl (refl, refl) h
      | inr no_xor ↦
          let missing : lookup s boolean_operator_name_to_value ≡ none =
            rw (no_and, no_or, no_xor) in
          cc (rw (missing, boolean_operator_string) at h)
    ]
  ]
]

-- `BooleanOperatorString` returns an operator exactly for the text that `String` makes of an
-- operator that is listed: each of the two undoes the other.
pub boolean_operator_string_iff :
    (s : String) (i : BooleanOperator)
    → (boolean_operator_string s ≡ ok i) ↔ ((is_a_boolean_operator i ≡ true) × (to_string i ≡ s))
boolean_operator_string_iff s i = (valid_of_string s i, λ h. rw (← h.1) (string_of_valid i h.0))

-- An operator that is listed comes back from each of its texts: from the JSON that MarshalJSON makes, if
-- json.Unmarshal undoes json.Marshal on texts, from what MarshalYAML gives, and, in a configuration,
-- through the decode hook; whatever operator the variable held before.
pub unmarshal_json-marshal_json :
    (json_marshal json_unmarshal : String → Result String)
    → ((s t : String) → json_marshal s ≡ ok t → json_unmarshal t ≡ ok s)
    → (i before : BooleanOperator) → is_a_boolean_operator i ≡ true
    → ((t : String)
        → marshal_json json_marshal i ≡ ok t
        → unmarshal_json before t (json_unmarshal t) ≡ (i, ok tt))
      × (unmarshal_yaml before (marshal_yaml i) ≡ (i, ok tt))
      × (decode_hook true true (text (to_string i)) ≡ ok (operator i))
unfolding marshal_json unmarshal_json marshal_yaml unmarshal_yaml decode_hook
unmarshal_json-marshal_json json_marshal json_unmarshal undoes i before listed =
    let named = string_of_valid i listed in
    (λ t e. rw (undoes (to_string i) t e, named) refl, rw named refl, rw named refl)
