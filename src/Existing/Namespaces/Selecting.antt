-- ===== src/Existing/Namespaces/Selecting.antt =====
-- When the namespace of an object matches a selector.
use kube_graffiti.Common.{
  String, ◌≡◌, ◌≢◌, ◌↔◌, ◌⊎◌, inl, inr, refl, ap, subst, Bool, true, false, not, Option, none, some,
  Result, ok, err, abort, if◌then◌else◌, ◌>>=◌, ◌>>◌, map_err, str-cases, eq_iff, Bool-cases,
}
use kube_graffiti.Dict.{Dict, GoMap, lookup, entries}
use kube_graffiti.Graffiti.Json.{Json}
use kube_graffiti.Graffiti.Libs.{Libs}
use kube_graffiti.Graffiti.Selectors.{validate_label_selector, match_label_selector}
use kube_graffiti.Existing.Namespaces.{
  NamespaceCache, as_map, as_string, or_empty, selected_labels, match_namespace,
  objects_namespace_matches_provided_selector,
}
use kube_graffiti.Existing.Namespaces.Labels.{LabelsOf, HasDistinctLabels, selected_labels_iff}

module _ (L : Libs) (nsc : NamespaceCache) (selector : String) where
  -- The selector parses and matches the labels.
  abbrev pub Selects : Dict String → Type 0
  Selects labels =
      (s : Dict String → Bool) × (L.parse_label_selector selector ≡ ok s) × (s labels ≡ true)

  match_label_selector_iff :
      (labels : Dict String)
      → ((map_err (λ e. "invalid label selector") (validate_label_selector L selector)
            >> match_label_selector L selector labels)
          ≡ ok true)
        ↔ Selects labels
  unfolding validate_label_selector match_label_selector
  match_label_selector_iff labels = go (L.parse_label_selector selector)
    where
      go :
          (r : Result (Dict String → Bool))
          → ((map_err (λ e. "invalid label selector") (r >> ok (tt {0}))
                >> (r >>= λ s. if not (s labels) then ok false else ok true))
              ≡ ok true)
            ↔ ((s : Dict String → Bool) × (r ≡ ok s) × (s labels ≡ true))
      go (ok s) = elim (Bool-cases (s labels)) [
        | inl hit ↦ rw hit (λ e. (s, refl, hit), λ h. refl)
        | inr miss ↦ rw miss (
          λ e. cc,
          λ (t, same, hit).
              let eq : s ≡ t = cc in let both = ap (λ (f : Dict String → Bool). f labels) eq in cc,
        )
      ]
      go (err m) = (λ e. cc, λ (t, same, hit). cc)
      go (abort m) = (λ e. cc, λ (t, same, hit). cc)

  -- The labels that are asked for are there, and selected.
  abbrev Passes : Dict Json → String → String → Type 0
  Passes meta name kind =
      (labels : Dict String) × (selected_labels L nsc meta name kind ≡ ok labels) × Selects labels

  labels_iff :
      (r : Result (Dict String))
      → ((do
        labels ← r
        map_err (λ e. "invalid label selector") (validate_label_selector L selector)
        match_label_selector L selector labels)
          ≡ ok true)
        ↔ ((labels : Dict String) × (r ≡ ok labels) × Selects labels)
  labels_iff (ok labels) =
      let (to, from) = match_label_selector_iff labels in
      (
        λ e. (labels, refl, to e),
        λ (other, same, h). from (subst Selects (let eq : other ≡ labels = cc in eq) h),
      )
  labels_iff (err m) = (λ e. cc, λ (labels, same, h). cc)
  labels_iff (abort m) = (λ e. cc, λ (labels, same, h). cc)

  match_namespace_iff :
      (meta : Dict Json) (name kind : String)
      → (match_namespace L nsc meta name kind selector ≡ ok true)
        ↔ (((kind ≡ "Namespace") ⊎ (name ≢ "")) × Passes meta name kind)
  unfolding match_namespace
  match_namespace_iff meta name kind =
      let (to, from) = labels_iff (selected_labels L nsc meta name kind) in
      elim (str-cases name "") [
        | inr named ↦
            rw named
              (λ e. (inr (λ empty. let hit = (eq_iff name "").1 empty in cc), to e), λ h. from h.1)
        | inl empty ↦ elim (str-cases kind "Namespace") [
          | inl namespace ↦
              let test = (eq_iff name "").1 empty in
              let kind_test = (eq_iff kind "Namespace").1 namespace in
              rw (test, kind_test) (λ e. (inl namespace, to e), λ h. from h.1)
          | inr other ↦
              let test = (eq_iff name "").1 empty in
              rw (test, other)
                (
                  λ e. cc,
                  λ h. elim (h.0) [
                    | inl namespace ↦ let hit = (eq_iff kind "Namespace").1 namespace in cc
                    | inr named ↦ absurd (named empty)
                  ],
                )
        ]
      ]

  objects_namespace_matches-Passes :
      (object : GoMap Json)
      → (objects_namespace_matches_provided_selector L nsc object selector ≡ ok true) ↔ (
          (meta : Dict Json) × (kind : String) × (as_map (lookup "metadata" (entries object))
            ≡ some meta)
          × (as_string (lookup "kind" (entries object)) ≡ some kind)
          × ((kind ≡ "Namespace") ⊎ (or_empty (as_string (lookup "namespace" meta)) ≢ ""))
          × Passes meta (or_empty (as_string (lookup "namespace" meta))) kind)
  unfolding objects_namespace_matches_provided_selector
  objects_namespace_matches-Passes object =
      go (as_map (lookup "metadata" (entries object))) (as_string (lookup "kind" (entries object)))
    where
      go :
          (m : Option (Dict Json)) (k : Option String)
          → (elim m [
            | none ↦ err "the object is missing metadata"
            | some meta ↦ elim k [
              | none ↦ err "this object seems to have no kind"
              | some kind ↦
                  match_namespace L nsc meta
                    (or_empty (as_string (lookup "namespace" meta)))
                    kind
                    selector
            ]
          ]
              ≡ ok true)
            ↔ ((meta : Dict Json) × (kind : String) × (m ≡ some meta)
                × (k ≡ some kind)
                × ((kind ≡ "Namespace") ⊎ (or_empty (as_string (lookup "namespace" meta)) ≢ ""))
                × Passes meta (or_empty (as_string (lookup "namespace" meta))) kind)
      go none k = (λ e. cc, λ h. let e = h.2 in cc)
      go (some meta) none = (λ e. cc, λ h. let e = h.3 in cc)
      go (some meta) (some kind) =
          let (to, from) =
            match_namespace_iff meta (or_empty (as_string (lookup "namespace" meta))) kind in
          (
            λ e. let (scoped, labelled) = to e in (meta, kind, refl, refl, scoped, labelled),
            λ (other, sort, same, alike, scoped, labelled).
                let e : other ≡ meta = cc in
                let f : sort ≡ kind = cc in
                let scoped' =
                  subst
                    (λ (x : Dict Json).
                      (sort ≡ "Namespace") ⊎ (or_empty (as_string (lookup "namespace" x)) ≢ ""))
                    e scoped in
                let labelled' =
                  subst
                    (λ (x : Dict Json). Passes x (or_empty (as_string (lookup "namespace" x))) sort)
                    e labelled in
                from (
                  subst
                      (λ (x : String).
                        (x ≡ "Namespace") ⊎ (or_empty (as_string (lookup "namespace" meta)) ≢ ""))
                      f scoped',
                  subst
                      (λ (x : String).
                        Passes meta (or_empty (as_string (lookup "namespace" meta))) x)
                      f labelled',
                ),
          )

  -- The labels to select by are there, and selected.
  abbrev pub HasLabels : Dict Json → String → String → Type 0
  HasLabels meta name kind =
      (labels : Dict String) × LabelsOf L nsc meta name kind labels × Selects labels

  -- An object whose own labels have distinct keys matches a namespace selector exactly when it has
  -- metadata and a kind, it is a namespace or names the namespace it is in, and the selector parses
  -- and matches the labels: for a namespace the texts among its own metadata's labels, none where
  -- its metadata has no map of labels, and for any other object those that the look-up of its
  -- namespace, which must succeed, finds.
  pub objects_namespace_matches_iff :
      (object : GoMap Json)
      → ((meta : Dict Json)
          → as_map (lookup "metadata" (entries object)) ≡ some meta
          → HasDistinctLabels meta)
      → (objects_namespace_matches_provided_selector L nsc object selector ≡ ok true) ↔ (
          (meta : Dict Json) × (kind : String) × (as_map (lookup "metadata" (entries object))
            ≡ some meta)
          × (as_string (lookup "kind" (entries object)) ≡ some kind)
          × ((kind ≡ "Namespace") ⊎ (or_empty (as_string (lookup "namespace" meta)) ≢ ""))
          × HasLabels meta (or_empty (as_string (lookup "namespace" meta))) kind)
  objects_namespace_matches_iff object distinct =
      let (to, from) = objects_namespace_matches-Passes object in
      (
        λ e.
            let (meta, kind, m, k, scoped, (labels, found, hit)) = to e in
            let name = or_empty (as_string (lookup "namespace" meta)) in
            let selected =
              (selected_labels_iff L nsc meta name kind labels (distinct meta m)).0 found in
            (meta, kind, m, k, scoped, (labels, selected, hit)),
        λ (meta, kind, m, k, scoped, (labels, found, hit)).
            let name = or_empty (as_string (lookup "namespace" meta)) in
            let selected =
              (selected_labels_iff L nsc meta name kind labels (distinct meta m)).1 found in
            from (meta, kind, m, k, scoped, (labels, selected, hit)),
      )
