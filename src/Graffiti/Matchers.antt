-- ===== src/Graffiti/Matchers.antt =====
-- pkg/graffiti/matchers.go: the type Matchers, its validation and its decision on an object.
pub mod Decision
use kube_graffiti.Common.{
  exits, String, Bool, true, false, not, ◌&&◌, ◌||◌, Result, ok, err, abort, List, [], ◌∷◌,
  if◌then◌else◌, ◌>>=◌, ◌>>◌, map_err, is_empty, ◌<>◌,
}
use kube_graffiti.Decimal.{int_eq}
use kube_graffiti.Dict.{Dict}
use kube_graffiti.Graffiti.Json.{MetaObject}
use kube_graffiti.Graffiti.Libs.{Libs}
use kube_graffiti.Graffiti.Operator.{BooleanOperator, and, or, xor}
use kube_graffiti.Graffiti.Selectors.{
  validate_label_selector, validate_field_selector, match_labels, match_fields, source_labels,
}

pub record Matchers : Type 0 where
  pub label_selectors : List String
  pub field_selectors : List String
  pub boolean_operator : BooleanOperator

-- The exclusive or of two tests, `a != b`.
abbrev pub differ : Bool → Bool → Bool
differ true b = not b
differ false b = b

-- The switch at the end of the method matches. An operator that is none of the three is logged at
-- level Fatal, which ends the process.
unfoldable pub combine : Matchers → Bool → Bool → Result Bool
combine m label_matches field_matches =
    if int_eq m.boolean_operator and
    then ok (
        (is_empty m.label_selectors || label_matches)
        && (is_empty m.field_selectors || field_matches))
    else if int_eq m.boolean_operator or
    then ok (
        (not (is_empty m.label_selectors) && label_matches)
        || (not (is_empty m.field_selectors) && field_matches))
    else if int_eq m.boolean_operator xor
    then ok (differ label_matches field_matches)
    else abort (exits "Boolean Operator isn't one of AND, OR, XOR")

module _ (L : Libs) where
  -- The two loops of the method validate.
  pub validate_labels : List String → Result (Unit {0})
  validate_labels [] = ok tt
  validate_labels (selector ∷ rest) =
      let later = validate_labels rest in
      do
        map_err (λ e. "matcher contains an invalid label selector '" <> selector <> "': " <> e)
            (validate_label_selector L selector)
        later

  pub validate_fields : List String → Result (Unit {0})
  validate_fields [] = ok tt
  validate_fields (selector ∷ rest) =
      let later = validate_fields rest in
      do
        map_err (λ e. "matcher contains invalid field selector '" <> selector <> "': " <> e)
            (validate_field_selector L selector)
        later

  unfoldable pub validate : Matchers → Result (Unit {0})
  unfolding validate_labels validate_fields
  validate m = do validate_labels m.label_selectors; validate_fields m.field_selectors

  unfoldable pub match_label_selectors : Matchers → MetaObject → Result Bool
  match_label_selectors m object =
      if not (is_empty m.label_selectors)
      then match_labels L m.label_selectors (source_labels object)
      else ok false

  unfoldable pub match_field_selectors : Matchers → Dict String → Result Bool
  match_field_selectors m fm =
      if not (is_empty m.field_selectors) then match_fields L m.field_selectors fm else ok false

  unfoldable pub matches : Matchers → MetaObject → Dict String → Result Bool
  unfolding match_label_selectors match_field_selectors combine
  matches m obj fm =
      if is_empty m.label_selectors && is_empty m.field_selectors then ok true else do
        label_matches ← match_label_selectors m obj
        field_matches ← match_field_selectors m fm
        combine m label_matches field_matches
