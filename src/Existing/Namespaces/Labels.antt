-- ===== src/Existing/Namespaces/Labels.antt =====
-- The labels that a namespace selector is matched to.
use mathlib.Core.List.{append-nil, append_assoc}
use kube_graffiti.Common.{
  String, ◌≡◌, ◌≢◌, ◌↔◌, ◌⊎◌, ◌∙◌, ◌==◌, inl, inr, refl, sym, ap, subst, false, Option, none, some,
  [], ◌∷◌, ◌++◌, All, Result, ok, err, abort, ◌>>=◌, str-cases, eq_iff, Bool-cases,
}
use kube_graffiti.Dict.{Dict, GoMap, lookup, insert, entries, IsDistinct}
use kube_graffiti.Dict.Laws.{lookup-insert}
use kube_graffiti.Graffiti.Json.{Json, null, bool, num, str, arr, obj, Fields, to_dict}
use kube_graffiti.Graffiti.Libs.{Libs}
use kube_graffiti.Existing.Namespaces.{
  NamespaceCache, collect, get_string_value, convert_to_map_string_string, lookup_labels,
  lookup_namespace, selected_labels,
}

-- The entries of a map whose values are texts.
abbrev texts : Dict Json → Dict String
texts [] = []
texts ((k, str v) ∷ m) = (k, v) ∷ texts m
texts ((k, other) ∷ m) = texts m

insert_fresh :
    (k v : String) (labels : Dict String)
    → lookup k labels ≡ none
    → insert k v labels ≡ labels ++ (k, v) ∷ []
unfolding lookup insert
insert_fresh k v [] fresh = refl
insert_fresh k v ((j, w) ∷ labels) fresh = elim (Bool-cases (j == k)) [
  | inl hit ↦ let e = rw hit at fresh in cc
  | inr miss ↦ rw miss (ap (λ m. (j, w) ∷ m) (insert_fresh k v labels (rw miss at fresh)))
]

abbrev AreFresh : Dict String → Dict Json → Type 0
AreFresh labels = All (λ e. lookup e.0 labels ≡ none)

-- A key that stands nowhere else is still fresh to the rest behind its entry.
insert-AreFresh :
    (k v : String) (labels : Dict String) (m : Dict Json)
    → lookup k m ≡ none
    → AreFresh labels m
    → AreFresh (insert k v labels) m
unfolding lookup
insert-AreFresh k v labels [] alone h = tt
insert-AreFresh k v labels ((j, x) ∷ m) alone (fresh, h) = elim (Bool-cases (j == k)) [
  | inl hit ↦ let e = rw hit at alone in cc
  | inr miss ↦
      let apart : (k == j) ≡ false = elim (Bool-cases (k == j)) [
        | inl same ↦ let back = (eq_iff j k).1 (sym ((eq_iff k j).0 same)) in cc
        | inr other ↦ other
      ] in
      (
        lookup-insert k v labels j ∙ rw apart fresh,
        insert-AreFresh k v labels m (rw miss at alone) h,
      )
]

collect-texts :
    (labels : Dict String) (m : Dict Json)
    → IsDistinct m
    → AreFresh labels m
    → collect labels m ≡ labels ++ texts m
unfolding collect get_string_value
collect-texts labels [] distinct fresh = sym (append-nil labels)
collect-texts labels ((k, str v) ∷ m) (alone, distinct) (first, fresh) =
    collect-texts (insert k v labels) m distinct (insert-AreFresh k v labels m alone fresh)
    ∙ ap (λ l. l ++ texts m) (insert_fresh k v labels first)
    ∙ append_assoc labels ((k, v) ∷ []) (texts m)
collect-texts labels ((k, null) ∷ m) (alone, distinct) (first, fresh) =
    collect-texts labels m distinct fresh
collect-texts labels ((k, bool b) ∷ m) (alone, distinct) (first, fresh) =
    collect-texts labels m distinct fresh
collect-texts labels ((k, num n) ∷ m) (alone, distinct) (first, fresh) =
    collect-texts labels m distinct fresh
collect-texts labels ((k, arr xs) ∷ m) (alone, distinct) (first, fresh) =
    collect-texts labels m distinct fresh
collect-texts labels ((k, obj fs) ∷ m) (alone, distinct) (first, fresh) =
    collect-texts labels m distinct fresh

AreFresh-nil : (m : Dict Json) → AreFresh [] m
unfolding lookup
AreFresh-nil [] = tt
AreFresh-nil (e ∷ m) = (refl, AreFresh-nil m)

-- The labels of an object's own metadata: the texts among them, and none where no map stands.
abbrev pub OwnLabels : Dict Json → Dict String → Type 0
OwnLabels meta labels =
    ((fields : Fields) × (lookup "labels" meta ≡ some (obj fields))
      × (labels ≡ texts (to_dict fields)))
    ⊎ (((fields : Fields) → lookup "labels" meta ≢ some (obj fields)) × (labels ≡ []))

-- No two of the object's own labels have one key.
abbrev pub HasDistinctLabels : Dict Json → Type 0
HasDistinctLabels meta =
    (fields : Fields) → lookup "labels" meta ≡ some (obj fields) → IsDistinct (to_dict fields)

lookup_labels-OwnLabels :
    (meta : Dict Json) → HasDistinctLabels meta → OwnLabels meta (lookup_labels meta)
unfolding lookup_labels convert_to_map_string_string
lookup_labels-OwnLabels meta = go (lookup "labels" meta)
  where
    go :
        (found : Option Json)
        → ((fields : Fields) → found ≡ some (obj fields) → IsDistinct (to_dict fields))
        → (((fields : Fields) × (found ≡ some (obj fields))
              × (elim found [ some value ↦ convert_to_map_string_string value | none ↦ [] ]
                  ≡ texts (to_dict fields)))
            ⊎ (((fields : Fields) → found ≢ some (obj fields))
                × (elim found [ some value ↦ convert_to_map_string_string value | none ↦ [] ]
                    ≡ [])))
    go none h = inr (λ fields e. cc, refl)
    go (some null) h = inr (λ fields e. cc, refl)
    go (some (bool b)) h = inr (λ fields e. cc, refl)
    go (some (num n)) h = inr (λ fields e. cc, refl)
    go (some (str t)) h = inr (λ fields e. cc, refl)
    go (some (arr xs)) h = inr (λ fields e. cc, refl)
    go (some (obj fields)) h = inl (
      fields,
      refl,
      collect-texts [] (to_dict fields) (h fields refl) (AreFresh-nil (to_dict fields)),
    )

OwnLabels-unique :
    (meta : Dict Json) (l m : Dict String) → OwnLabels meta l → OwnLabels meta m → l ≡ m
OwnLabels-unique meta l m (inl (fs, at, e)) (inl (gs, there, f)) =
    let same : fs ≡ gs = cc in cc (ap (λ x. texts (to_dict x)) same)
OwnLabels-unique meta l m (inl (fs, at, e)) (inr (n, f)) = absurd (n fs at)
OwnLabels-unique meta l m (inr (n, e)) (inl (gs, there, f)) = absurd (n gs there)
OwnLabels-unique meta l m (inr (n, e)) (inr (k, f)) = cc

module _ (L : Libs) (nsc : NamespaceCache) where
  -- The labels to select by: a namespace's own, and for any other object those that the look-up of
  -- its namespace finds.
  abbrev pub LabelsOf : Dict Json → String → String → Dict String → Type 0
  LabelsOf meta name kind labels =
      ((kind ≡ "Namespace") × OwnLabels meta labels)
      ⊎ ((kind ≢ "Namespace")
          × ((found : GoMap String) × (lookup_namespace nsc name ≡ ok found)
              × (labels ≡ entries found)))

  pub selected_labels_iff :
      (meta : Dict Json) (name kind : String) (labels : Dict String)
      → HasDistinctLabels meta
      → (selected_labels L nsc meta name kind ≡ ok labels) ↔ LabelsOf meta name kind labels
  unfolding selected_labels
  selected_labels_iff meta name kind labels distinct = elim (str-cases kind "Namespace") [
    | inl namespace ↦
        let own = lookup_labels-OwnLabels meta distinct in
        rw ((eq_iff kind "Namespace").1 namespace) (
          λ e. inl (
            namespace,
            subst (OwnLabels meta) (let eq : lookup_labels meta ≡ labels = cc in eq) own,
          ),
          λ h. elim h [
            | inl (_, mine) ↦ ap ok (OwnLabels-unique meta _ labels own mine)
            | inr (other, _) ↦ absurd (other namespace)
          ],
        )
    | inr miss ↦ rw miss (
        found_iff (λ namespace. let hit = (eq_iff kind "Namespace").1 namespace in cc)
          (lookup_namespace nsc name))
  ]
    where
      found_iff :
          (kind ≢ "Namespace")
          → (r : Result (GoMap String))
          → ((r >>= λ found. ok (entries found)) ≡ ok labels) ↔ (
              ((kind ≡ "Namespace") × OwnLabels meta labels)
              ⊎ ((kind ≢ "Namespace")
                  × ((found : GoMap String) × (r ≡ ok found) × (labels ≡ entries found))))
      found_iff apart (ok found) = (
        λ e. inr (apart, (found, refl, cc)),
        λ h. elim h [
          | inl (namespace, _) ↦ absurd (apart namespace)
          | inr (_, (other, same, e)) ↦
              let eq : found ≡ other = cc in cc (ap (λ (x : GoMap String). entries x) eq)
        ],
      )
      found_iff apart (err m) = (
        λ e. cc,
        λ h. elim h [
          | inl (namespace, _) ↦ absurd (apart namespace)
          | inr (_, (other, same, e)) ↦ cc
        ],
      )
      found_iff apart (abort m) = (
        λ e. cc,
        λ h. elim h [
          | inl (namespace, _) ↦ absurd (apart namespace)
          | inr (_, (other, same, e)) ↦ cc
        ],
      )
