-- ===== src/Graffiti/Operator.antt =====
-- pkg/graffiti/booleanoperator_enumer.go, the names of the boolean operators, and
-- booleanoperator_mapstructure.go, which decodes them from a configuration.
pub mod RoundTrip
use Prim.Native.String.{slice}
use kube_graffiti.Common.{
  panics, ℕ, zero, suc, String, Bool, true, false, none, some, List, [], ◌∷◌, Result, ok, err,
  abort, if◌then◌else◌, leb, length, any, ◌<>◌, ◌-◌, ◌&&◌, map_err, ◌>>=◌, not,
}
use kube_graffiti.Decimal.{ℤ, pos, negsuc, int_eq, format_int}
use kube_graffiti.Dict.{Dict, lookup}

-- An `int`, of which the constants are the first three values.
abbrev pub BooleanOperator : Type 0
BooleanOperator = ℤ

abbrev pub and : BooleanOperator
and = pos 0

abbrev pub or : BooleanOperator
or = pos 1

abbrev pub xor : BooleanOperator
xor = pos 2

abbrev boolean_operator_name : String
boolean_operator_name = "ANDORXOR"

abbrev boolean_operator_index : List ℕ
boolean_operator_index = 0 ∷ 3 ∷ 5 ∷ 8 ∷ []

abbrev index_at : List ℕ → ℕ → ℕ
index_at [] i = 0
index_at (x ∷ xs) zero = x
index_at (x ∷ xs) (suc i) = index_at xs i

-- _BooleanOperatorName[_BooleanOperatorIndex[i]:_BooleanOperatorIndex[i+1]]
abbrev name_at : ℕ → String
name_at i =
    slice boolean_operator_name (index_at boolean_operator_index i)
      (index_at boolean_operator_index (suc i))

abbrev out_of_range : BooleanOperator → String
out_of_range i = "BooleanOperator(" <> format_int i <> ")"

-- The method String.
pub to_string : BooleanOperator → String
to_string (negsuc n) = out_of_range (negsuc n)
to_string (pos n) =
    if leb (length boolean_operator_index - 1) n then out_of_range (pos n) else name_at n

abbrev boolean_operator_values : List BooleanOperator
boolean_operator_values = and ∷ or ∷ xor ∷ []

abbrev boolean_operator_name_to_value : Dict BooleanOperator
boolean_operator_name_to_value = (name_at 0, pos 0) ∷ (name_at 1, pos 1) ∷ (name_at 2, pos 2) ∷ []

pub boolean_operator_string : String → Result BooleanOperator
unfolding lookup
boolean_operator_string s = elim (lookup s boolean_operator_name_to_value) [
  | some val ↦ ok val
  | none ↦ err (s <> " does not belong to BooleanOperator values")
]

unfoldable pub is_a_boolean_operator : BooleanOperator → Bool
is_a_boolean_operator i = any (int_eq i) boolean_operator_values

-- What `*i, err = BooleanOperatorString(s)` leaves in `i`, and the error.
abbrev assign : Result BooleanOperator → BooleanOperator × Result (Unit {0})
assign (ok v) = (v, ok tt)
assign (err e) = (pos 0, err e)
assign (abort e) = (pos 0, abort e)

-- UnmarshalYAML on an operator that holds `i`; the argument is what `unmarshal(&s)` gives.
pub unmarshal_yaml : BooleanOperator → Result String → BooleanOperator × Result (Unit {0})
unfolding boolean_operator_string
unmarshal_yaml i (ok s) = assign (boolean_operator_string s)
unmarshal_yaml i (err e) = (i, err e)
unmarshal_yaml i (abort e) = (i, abort e)

-- UnmarshalJSON, on `text` that encoding/json unmarshals into a string or refuses.
pub unmarshal_json : BooleanOperator → String → Result String → BooleanOperator × Result (Unit {0})
unfolding boolean_operator_string
unmarshal_json i text (ok s) = assign (boolean_operator_string s)
unmarshal_json i text (err e) = (i, err ("BooleanOperator should be a string, got " <> text))
unmarshal_json i text (abort e) = (i, abort e)

-- MarshalJSON, with json.Marshal on texts.
pub marshal_json : (String → Result String) → BooleanOperator → Result String
unfolding to_string
marshal_json json_marshal i = json_marshal (to_string i)

-- MarshalYAML.
pub marshal_yaml : BooleanOperator → Result String
unfolding to_string
marshal_yaml i = ok (to_string i)

-- What mapstructure hands to a decode hook and takes from it.
pub data Datum : Type 0 where
  text : String → Datum
  operator : BooleanOperator → Datum
  other : Datum

-- The hook of StringToBooleanOperatorFunc: whether the source's kind is a string, whether the
-- target's type is BooleanOperator, and the data.
pub decode_hook : Bool → Bool → Datum → Result Datum
unfolding boolean_operator_string
decode_hook from_string to_operator (text s) =
    if not from_string
    then ok (text s)
    else if not to_operator
    then ok (text s)
    else do i ← boolean_operator_string s; ok (operator i)
decode_hook from_string to_operator d =
    if from_string && to_operator then abort (panics "interface conversion") else ok d
