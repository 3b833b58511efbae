-- ===== src/Webhook/Handler/Returning.antt =====
-- When the handler answers at all.
use kube_graffiti.Common.{
  String, ◌≡◌, sym, subst, ◌↔◌, ◌==◌, none, some, [], ◌∷◌, Result, ok, err, abort, Returns,
  with_value, >>=-Returns, All, str-cases, eq_iff, inl, inr, Bool-cases, Option-cases,
}
use kube_graffiti.Dict.{Dict, lookup, insert}
use kube_graffiti.Graffiti.Rule.{AdmissionRequest, AdmissionResponse}
use kube_graffiti.Webhook.Handler.{
  Mutator, GraffitiHandler, Request, AdmissionReview, ReviewCodec, add_rule, written, review,
  answer, decode, serve_http,
}

-- Every rule of the handler answers every request.
abbrev pub AllAnswer : Dict Mutator → Type 0
AllAnswer = All (λ e. (request : AdmissionRequest) → Returns (e.1 request))

pub add_rule-AllAnswer :
    (h : GraffitiHandler) (path : String) (mutator : Mutator)
    → ((request : AdmissionRequest) → Returns (mutator request))
    → AllAnswer h.tagmap
    → AllAnswer (add_rule h path mutator).tagmap
unfolding add_rule insert
add_rule-AllAnswer h path mutator answers all = go h.tagmap all
  where
    go : (d : Dict Mutator) → AllAnswer d → AllAnswer (insert path mutator d)
    go [] all = (answers, tt)
    go ((k, m) ∷ d) (first, all) = elim (Bool-cases (k == path)) [
      | inl e ↦ rw e (answers, all)
      | inr e ↦ rw e (first, go d all)
    ]

lookup-AllAnswer :
    (path : String) (d : Dict Mutator) {mutator : Mutator}
    → AllAnswer d
    → lookup path d ≡ some mutator
    → (request : AdmissionRequest) → Returns (mutator request)
unfolding lookup
lookup-AllAnswer path [] all found = cc
lookup-AllAnswer path ((k, m) ∷ d) {mutator = mutator} (first, all) found =
    elim (Bool-cases (k == path)) [
      | inl e ↦
          let same : m ≡ mutator = some_injective (rw e at found) in
          λ request. subst (λ (x : Mutator). Returns (x request)) same (first request)
      | inr e ↦ lookup-AllAnswer path d all (rw e at found)
    ]
  where
    some_injective : {a b : Mutator} → some a ≡ some b → a ≡ b
    some_injective same = cc

-- The codec returns a value or an error.
pub record DoesNotPanic (C : ReviewCodec) : Type 0 where
  pub decodes : (body : String) → Returns (C.decode_review body)
  pub marshals : (resp : AdmissionResponse) → Returns (C.marshal_response resp)

written-Returns : {r : Result String} → Returns r → Returns (written r)
unfolding written
written-Returns {r = ok t} h = with_value
written-Returns {r = err e} h = with_value
written-Returns {r = abort e} h = absurd (elim h [ ])

module _ (C : ReviewCodec) (safe : DoesNotPanic C) (h : GraffitiHandler)
    (all : AllAnswer h.tagmap) where
  review-Returns : (path : String) (request : AdmissionRequest) → Returns (review h path request)
  unfolding review
  review-Returns path request = elim (Option-cases (lookup path h.tagmap)) [
    | inl missing ↦ rw (review, missing) with_value
    | inr (mutator, found) ↦ rw (review, found) (lookup-AllAnswer path h.tagmap all found request)
  ]

  -- A POST of JSON that decodes to a review without a request.
  abbrev pub AsksNothing : Request → Type 0
  AsksNothing r =
      (r.method ≡ "POST")
      × (r.content_type ≡ "application/json")
      × (C.decode_review r.body ≡ ok (record { request = none }))

  answer-Returns :
      (path : String) (request : AdmissionRequest) → Returns (answer C h path (some request))
  unfolding answer
  answer-Returns path request =
      >>=-Returns (review-Returns path request)
        (λ resp e. >>=-Returns (written-Returns (safe.marshals _)) (λ body e'. with_value))

  decode-Returns :
      (r : Request) (d : Result AdmissionReview)
      → Returns d
      → ¬ (d ≡ ok (record { request = none }))
      → Returns (decode C h r d)
  unfolding decode
  decode-Returns r (ok ar) k n = elim (Option-cases ar.request) [
    | inl missing ↦ absurd (n (λ i. ok (record { request = missing i })))
    | inr (q, asked) ↦
        subst (λ o. Returns (answer C h r.path o)) (sym asked) (answer-Returns r.path q)
  ]
  decode-Returns r (err e) k n = with_value
  decode-Returns r (abort e) k n = absurd (elim k [ ])

  -- Where the codec and the rules do not panic, the handler panics on exactly the POSTs of JSON that
  -- decode to a review without a request, and answers everything else.
  pub serve_http-Returns_iff : (r : Request) → Returns (serve_http C h r) ↔ (¬ AsksNothing r)
  unfolding serve_http decode answer
  serve_http-Returns_iff r = (
    λ k (post, json, nothing).
        elim (rw
          (
            (eq_iff r.method "POST").1 post,
            (eq_iff r.content_type "application/json").1 json,
            nothing,
          )
          at k) [ ],
    λ n. elim (str-cases r.method "POST") [
      | inr other ↦ rw other with_value
      | inl post ↦ elim (str-cases r.content_type "application/json") [
        | inr other ↦ rw ((eq_iff r.method "POST").1 post, other) with_value
        | inl json ↦
            rw ((eq_iff r.method "POST").1 post, (eq_iff r.content_type "application/json").1 json)
              (decode-Returns r (C.decode_review r.body) (safe.decodes r.body)
                (λ nothing. n (post, json, nothing)))
      ]
    ],
  )
