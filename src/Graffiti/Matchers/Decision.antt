-- ===== src/Graffiti/Matchers/Decision.antt =====
-- The decision of Matchers.matches against a description of what the selectors ask for.
use kube_graffiti.Common.{
  zero, suc, String, ◌≡◌, refl, ap, subst, Bool, true, false, not, ◌||◌, ◌⊎◌, inl, inr, ◌↔◌, Result,
  ok, List, [], ◌∷◌, if◌then◌else◌, ◌>>=◌, is_empty, All, Some, here, there, IsOk, IsOk-value,
  check-eq-ok, >>=-eq-ok, Reflects, holds, fails, Reflects-iff, Reflects-not, Reflects-map,
  Reflects-and, Reflects-or, arith, Bool-cases,
}
use kube_graffiti.Decimal.{pos, negsuc}
use kube_graffiti.Dict.{Dict}
use kube_graffiti.Graffiti.Json.{MetaObject}
use kube_graffiti.Graffiti.Libs.{Libs}
use kube_graffiti.Graffiti.Operator.{BooleanOperator, is_a_boolean_operator}
use kube_graffiti.Graffiti.Selectors.{
  validate_label_selector, validate_field_selector, match_labels, match_fields, source_labels,
  match_any, match_label_selector, match_field_selector,
}
use kube_graffiti.Graffiti.Matchers.{
  Matchers, differ, validate, matches, combine, match_label_selectors, match_field_selectors,
  validate_labels, validate_fields,
}

-- Some selector of the list parses and matches the target.
abbrev pub Selected : (String → Result (Dict String → Bool)) → Dict String → List String → Type 0
Selected parse target =
    Some (λ selector. (s : Dict String → Bool) × (parse selector ≡ ok s) × (s target ≡ true))

-- What the operator asks of the two lists of selectors: for AND a hit of each list that is not
-- empty, for OR a hit of one, for XOR a hit of exactly one.
abbrev pub Combined : BooleanOperator → (P Q E F : Type 0) → Type 0
Combined (pos zero) P Q E F = (E ⊎ P) × (F ⊎ Q)
Combined (pos (suc zero)) P Q E F = P ⊎ Q
Combined (pos (suc (suc zero))) P Q E F = (P × (Q → ⊥)) ⊎ ((P → ⊥) × Q)
Combined _ P Q E F = ⊥

module _ (L : Libs) (m : Matchers) (obj : MetaObject) (fm : Dict String) where
  abbrev pub LabelHit : Type 0
  LabelHit = Selected L.parse_label_selector (source_labels obj) m.label_selectors

  abbrev pub FieldHit : Type 0
  FieldHit = Selected L.parse_field_selector fm m.field_selectors

  abbrev pub Accepts : Type 0
  Accepts =
      ((m.label_selectors ≡ []) × (m.field_selectors ≡ []))
      ⊎ Combined m.boolean_operator LabelHit FieldHit (m.label_selectors ≡ [])
          (m.field_selectors ≡ [])

Reflects-differ :
    {P Q : Type 0} {a b : Bool}
    → Reflects P a
    → Reflects Q b
    → Reflects ((P × (Q → ⊥)) ⊎ ((P → ⊥) × Q)) (differ a b)
Reflects-differ (holds p) (holds q) = fails (elim [ inl h ↦ h.1 q | inr h ↦ h.0 p ])
Reflects-differ (holds p) (fails n) = holds (inl (p, n))
Reflects-differ (fails n) (holds q) = holds (inr (n, q))
Reflects-differ (fails n) (fails k) = fails (elim [ inl h ↦ n h.0 | inr h ↦ k h.1 ])

is_empty-Reflects : (xs : List String) → Reflects (xs ≡ []) (is_empty xs)
is_empty-Reflects [] = holds refl
is_empty-Reflects (x ∷ xs) = fails (λ e. cc)

-- The search over selectors that all parse ends with an answer, and the right one.
abbrev Searched :
    (String → Result (Dict String → Bool)) → Dict String → List String → Result Bool → Type 0
Searched parse target sels r = (b : Bool) × (r ≡ ok b) × Reflects (Selected parse target sels) b

module _ (parse : String → Result (Dict String → Bool)) (target : Dict String) where
  abbrev match_one : String → Result Bool
  match_one selector = do s ← parse selector; if not (s target) then ok false else ok true

  -- A selector that does not match leaves the decision to the rest.
  Selected-skip :
      (s : String) (sels : List String) (selector : Dict String → Bool)
      → parse s ≡ ok selector
      → selector target ≡ false
      → Selected parse target (s ∷ sels)
      → Selected parse target sels
  Selected-skip s sels selector e miss (here (other, e', hit)) =
      let same : selector ≡ other = cc in cc (ap (λ (f : Dict String → Bool). f target) same)
  Selected-skip s sels selector e miss (there found) = found

  match_any-Searched :
      (sels : List String)
      → All (λ s. IsOk (parse s)) sels
      → Searched parse target sels (match_any match_one sels)
  unfolding match_any
  match_any-Searched [] h = (false, refl, fails (elim [ ]))
  match_any-Searched (s ∷ sels) (p, h) =
      let (selector, e) = IsOk-value (parse s) p in
      let (b, found, truth) = match_any-Searched sels h in
      elim (Bool-cases (selector target)) [
        | inl hit ↦ (true, rw (e, hit) refl, holds (here (selector, e, hit)))
        | inr miss ↦
            (b, rw (e, miss) found, Reflects-map there (Selected-skip s sels selector e miss) truth)
      ]

  Searched-if :
      (sels : List String) (r : Result Bool)
      → Searched parse target sels r
      → Searched parse target sels (if not (is_empty sels) then r else ok false)
  Searched-if [] r h = (false, refl, fails (elim [ ]))
  Searched-if (s ∷ sels) r h = h

module _ (L : Libs) where
  validate_labels-IsOk :
      (sels : List String)
      → validate_labels L sels ≡ ok tt
      → All (λ s. IsOk (L.parse_label_selector s)) sels
  unfolding validate_labels validate_label_selector
  validate_labels-IsOk [] h = tt
  validate_labels-IsOk (s ∷ sels) h =
      let (parses, later) = check-eq-ok (L.parse_label_selector s) _ (validate_labels L sels) h in
      (parses, validate_labels-IsOk sels later)

  validate_fields-IsOk :
      (sels : List String)
      → validate_fields L sels ≡ ok tt
      → All (λ s. IsOk (L.parse_field_selector s)) sels
  unfolding validate_fields validate_field_selector
  validate_fields-IsOk [] h = tt
  validate_fields-IsOk (s ∷ sels) h =
      let (parses, later) = check-eq-ok (L.parse_field_selector s) _ (validate_fields L sels) h in
      (parses, validate_fields-IsOk sels later)

module _ (L : Libs) (m : Matchers) (valid : validate L m ≡ ok tt) where
  label_selectors-IsOk : All (λ s. IsOk (L.parse_label_selector s)) m.label_selectors
  unfolding validate
  label_selectors-IsOk =
      let (u, first, _) = >>=-eq-ok (validate_labels L m.label_selectors) _ valid in
      validate_labels-IsOk L m.label_selectors first

  field_selectors-IsOk : All (λ s. IsOk (L.parse_field_selector s)) m.field_selectors
  unfolding validate
  field_selectors-IsOk =
      let (u, _, second) = >>=-eq-ok (validate_labels L m.label_selectors) _ valid in
      validate_fields-IsOk L m.field_selectors second

  match_label_selectors-Searched :
      (obj : MetaObject)
      → Searched L.parse_label_selector
          (source_labels obj)
          m.label_selectors
          (match_label_selectors L m obj)
  unfolding match_label_selectors match_labels match_label_selector
  match_label_selectors-Searched obj =
      Searched-if L.parse_label_selector (source_labels obj) m.label_selectors _ (
        match_any-Searched L.parse_label_selector (source_labels obj) m.label_selectors
          label_selectors-IsOk)

  match_field_selectors-Searched :
      (fm : Dict String)
      → Searched L.parse_field_selector fm m.field_selectors (match_field_selectors L m fm)
  unfolding match_field_selectors match_fields match_field_selector
  match_field_selectors-Searched fm =
      Searched-if L.parse_field_selector fm m.field_selectors _
        (match_any-Searched L.parse_field_selector fm m.field_selectors field_selectors-IsOk)

-- The final switch computes what the operator asks for.
module _ (m : Matchers) {P Q : Type 0} (a b : Bool) (p : Reflects P a) (q : Reflects Q b) where
  combine-Combined :
      (op : BooleanOperator)
      → m.boolean_operator ≡ op
      → is_a_boolean_operator op ≡ true
      → (m.label_selectors ≡ [] → P → ⊥)
      → (m.field_selectors ≡ [] → Q → ⊥)
      → (c : Bool) × (combine m a b ≡ ok c)
        × Reflects (Combined op P Q (m.label_selectors ≡ []) (m.field_selectors ≡ [])) c
  unfolding combine is_a_boolean_operator
  combine-Combined (negsuc n) e h np nq = cc
  combine-Combined (pos zero) e h np nq = (
    _,
    rw e refl,
    Reflects-and (Reflects-or (is_empty-Reflects m.label_selectors) p)
        (Reflects-or (is_empty-Reflects m.field_selectors) q),
  )
  combine-Combined (pos (suc zero)) e h np nq = (
    _,
    rw e refl,
    Reflects-map (elim [ inl h ↦ inl h.1 | inr h ↦ inr h.1 ])
        (elim [
          | inl x ↦ inl (λ none_left. np none_left x, x)
          | inr y ↦ inr (λ none_left. nq none_left y, y)
        ])
        (Reflects-or (Reflects-and (Reflects-not (is_empty-Reflects m.label_selectors)) p)
          (Reflects-and (Reflects-not (is_empty-Reflects m.field_selectors)) q)),
  )
  combine-Combined (pos (suc (suc zero))) e h np nq = (_, rw e refl, Reflects-differ p q)
  combine-Combined (pos (suc (suc (suc n)))) e h np nq = ground arith

-- An early return of true is a disjunction.
early : (e c : Bool) (r : Result Bool) → r ≡ ok c → (if e then ok true else r) ≡ ok (e || c)
early true c r h = refl
early false c r h = h

not-Selected-nil :
    (parse : String → Result (Dict String → Bool)) (target : Dict String) (sels : List String)
    → sels ≡ []
    → Selected parse target sels
    → ⊥
not-Selected-nil parse target sels e h = elim (subst (Selected parse target) e h) [ ]

module _ (L : Libs) (m : Matchers) (obj : MetaObject) (fm : Dict String) where
  -- Matchers that pass validate, with one of the three operators, always come to a decision, without
  -- an error, and it is true exactly when the selectors accept the object: when there are none, or
  -- when the operator is AND and each list that is not empty has a selector that matches, OR and
  -- some list has one, XOR and exactly one list has one.
  pub matches_decides :
      validate L m ≡ ok tt
      → is_a_boolean_operator m.boolean_operator ≡ true
      → (b : Bool) × (matches L m obj fm ≡ ok b) × ((b ≡ true) ↔ Accepts L m obj fm)
  unfolding matches
  matches_decides valid known =
      let (lb, le, lt) = match_label_selectors-Searched L m valid obj in
      let (fb, fe, ft) = match_field_selectors-Searched L m valid fm in
      let (c, ce, ct) =
        combine-Combined m lb fb lt ft m.boolean_operator refl known
          (not-Selected-nil L.parse_label_selector (source_labels obj) m.label_selectors)
          (not-Selected-nil L.parse_field_selector fm m.field_selectors) in
      let none_given =
        Reflects-and (is_empty-Reflects m.label_selectors) (is_empty-Reflects m.field_selectors) in
      (_, early _ c _ (rw (le, fe) ce), Reflects-iff (Reflects-or none_given ct))
