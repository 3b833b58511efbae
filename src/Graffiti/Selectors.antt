-- ===== src/Graffiti/Selectors.antt =====
-- pkg/graffiti/matchers.go: validating and matching single selectors.
use kube_graffiti.Common.{
  String, Bool, true, false, not, Result, ok, List, [], ◌∷◌, if◌then◌else◌, ◌>>=◌, ◌>>◌,
}
use kube_graffiti.Dict.{Dict, insert, insert_all, entries}
use kube_graffiti.Graffiti.Json.{MetaObject}
use kube_graffiti.Graffiti.Libs.{Libs}

-- The loop that matchLabelSelectors and matchFieldSelectors share: the first selector that matches
-- or fails to parse decides.
unfoldable pub match_any : (String → Result Bool) → List String → Result Bool
match_any match [] = ok false
match_any match (selector ∷ rest) =
    let later = match_any match rest in
    do selector_match ← match selector; if selector_match then ok true else later

module _ (L : Libs) where
  unfoldable pub validate_label_selector : String → Result (Unit {0})
  validate_label_selector selector = L.parse_label_selector selector >> ok tt

  unfoldable pub validate_field_selector : String → Result (Unit {0})
  validate_field_selector selector = L.parse_field_selector selector >> ok tt

  unfoldable pub match_label_selector : String → Dict String → Result Bool
  match_label_selector selector target = do
    real_selector ← L.parse_label_selector selector
    if not (real_selector target) then ok false else ok true

  unfoldable pub match_field_selector : String → Dict String → Result Bool
  match_field_selector selector target = do
    real_selector ← L.parse_field_selector selector
    if not (real_selector target) then ok false else ok true

  unfoldable pub match_labels : List String → Dict String → Result Bool
  match_labels selectors source_labels =
      match_any (λ selector. match_label_selector selector source_labels) selectors

  unfoldable pub match_fields : List String → Dict String → Result Bool
  match_fields selectors fm = match_any (λ selector. match_field_selector selector fm) selectors

-- The name and the namespace stand among the labels, where no label of that key hides them.
unfoldable pub source_labels : MetaObject → Dict String
source_labels object =
    insert_all (insert "namespace" object.meta.namespace (insert "name" object.meta.name []))
      (entries object.meta.labels)
