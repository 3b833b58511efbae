-- ===== src/Webhook/Handler/Answers.antt =====
-- What the handler answers, by the request.
use kube_graffiti.Common.{
  String, ◌≡◌, ◌≢◌, refl, subst, Option, none, some, Result, ok, err, abort, >>=-eq-ok,
  ok_injective, str-cases, inl, inr, eq_iff, ◌⊎◌,
}
use kube_graffiti.Graffiti.Rule.{AdmissionRequest, AdmissionResponse}
use kube_graffiti.Webhook.Handler.{
  GraffitiHandler, Request, Response, AdmissionReview, ReviewCodec, written, review, answer, decode,
  serve_http,
}

module _ (C : ReviewCodec) (h : GraffitiHandler) (r : Request) where
  -- A POST of a JSON body that decodes into a review with this request.
  pub record Asks (request : AdmissionRequest) : Type 0 where
    pub post : r.method ≡ "POST"
    pub json : r.content_type ≡ "application/json"
    pub decoded : C.decode_review r.body ≡ ok (record { request = some request })

  -- The body is the review's response of this rule, with the request's identifier.
  abbrev pub Echoes : AdmissionRequest → String → Type 0
  Echoes request body =
      (resp : AdmissionResponse) × (review h r.path request ≡ ok resp)
      × (written (C.marshal_response (record resp { uid = request.uid })) ≡ ok body)

  answer-200 :
      (o : Option AdmissionRequest) {resp : Response}
      → answer C h r.path o ≡ ok resp
      → (request : AdmissionRequest) × (o ≡ some request)
        × (resp.status ≡ 200)
        × (resp.content_type ≡ "application/json")
        × Echoes request resp.body
  unfolding answer
  answer-200 none e = cc
  answer-200 (some request) {resp} e =
      let (reply, reviewed, rest) = >>=-eq-ok (review h r.path request) _ e in
      let (body, wrote, final) =
        >>=-eq-ok (written (C.marshal_response (record reply { uid = request.uid }))) _ rest in
      let same : record { status = 200; content_type = "application/json"; body = body } ≡ resp =
        ok_injective final in
      subst
        (λ x.
          (q : AdmissionRequest) × (some request ≡ some q)
          × (x.status ≡ 200)
          × (x.content_type ≡ "application/json")
          × Echoes q x.body)
        same (request, refl, refl, refl, (reply, reviewed, wrote))

  -- What a response of each status says of its request.
  abbrev pub Explains : Response → Type 0
  Explains resp =
      ((resp.status ≡ 405) × (r.method ≢ "POST"))
      ⊎ ((resp.status ≡ 400)
          × (r.method ≡ "POST")
          × ((r.content_type ≢ "application/json")
              ⊎ ((e : String) × (C.decode_review r.body ≡ err e))))
      ⊎ ((resp.status ≡ 200)
          × ((request : AdmissionRequest) × Asks request
              × (resp.content_type ≡ "application/json")
              × Echoes request resp.body))

  decode-Explains :
      (d : Result AdmissionReview) {resp : Response}
      → C.decode_review r.body ≡ d
      → r.method ≡ "POST"
      → r.content_type ≡ "application/json"
      → decode C h r d ≡ ok resp
      → Explains resp
  unfolding decode
  decode-Explains (ok ar) decoded post json e =
      let (request, given, status, typed, echoes) = answer-200 ar.request e in
      inr (
        inr (
          status,
          (
            request,
            record {
              post = post;
              json = json;
              decoded = rw decoded (λ i. ok (record { request = given i }));
            },
            typed,
            echoes,
          ),
        ))
  decode-Explains (err m) decoded post json e =
      subst Explains (ok_injective e) (inr (inl (refl, post, inr (m, decoded))))
  decode-Explains (abort m) decoded post json e = cc

  -- Every response that the handler writes has status 405 for a method other than POST, 400 for a POST
  -- whose content type is not JSON or whose body is no review, and else 200, with the answer for the
  -- rule of the path and the identifier of the request that came in.
  pub serve_http-Explains : (resp : Response) → serve_http C h r ≡ ok resp → Explains resp
  unfolding serve_http
  serve_http-Explains resp e = elim (str-cases r.method "POST") [
    | inr other ↦
        subst Explains (ok_injective (rw other at e))
          (inl (refl, λ post. let hit = (eq_iff r.method "POST").1 post in cc))
    | inl post ↦ elim (str-cases r.content_type "application/json") [
      | inr other ↦
          subst Explains (ok_injective (rw ((eq_iff r.method "POST").1 post, other) at e)) (
            inr (
              inl (
                refl,
                post,
                inl (λ json. let hit = (eq_iff r.content_type "application/json").1 json in cc),
              )))
      | inl json ↦ decode-Explains (C.decode_review r.body) refl post json (
          rw ((eq_iff r.method "POST").1 post, (eq_iff r.content_type "application/json").1 json) at
            e)
    ]
  ]

  -- A review that decodes but holds no request makes the handler dereference a nil pointer, whatever
  -- the rules.
  serve_http-no_request :
      r.method ≡ "POST"
      → r.content_type ≡ "application/json"
      → C.decode_review r.body ≡ ok (record { request = none })
      → (resp : Response) → serve_http C h r ≢ ok resp
  unfolding serve_http answer
  serve_http-no_request post json decoded resp e = cc (
      rw
        (
          decoded,
          (eq_iff r.method "POST").1 post,
          (eq_iff r.content_type "application/json").1 json,
        )
        at e)
