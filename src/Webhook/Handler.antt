-- ===== src/Webhook/Handler.antt =====
-- pkg/webhook/handler.go: the HTTP handler of admission reviews.
pub mod Answers
pub mod Returning
use kube_graffiti.Common.{
  panics, ℕ, String, Bool, true, false, not, ◌==◌, Option, none, some, [], Result, ok, err, abort,
  if◌then◌else◌, ◌>>=◌, map_err, ◌<>◌,
}
use kube_graffiti.Dict.{Dict, lookup, insert}
use kube_graffiti.Graffiti.Rule.{AdmissionRequest, AdmissionResponse, allow}

-- The interface graffitiMutator, as its method MutateAdmission.
abbrev pub Mutator : Type 0
Mutator = AdmissionRequest → Result AdmissionResponse

-- graffitiHandler, which holds the rules by URL path.
pub record GraffitiHandler : Type 0 where
  pub tagmap : Dict Mutator

abbrev pub new_graffiti_handler : GraffitiHandler
new_graffiti_handler = record { tagmap = [] }

unfoldable pub add_rule : GraffitiHandler → String → Mutator → GraffitiHandler
add_rule h path rule = record h { tagmap = insert path rule h.tagmap }

-- What ServeHTTP reads of a request; `body` is the empty text where there is none or reading fails.
pub record Request : Type 0 where
  pub path : String
  pub method : String
  pub content_type : String
  pub body : String

pub record Response : Type 0 where
  pub status : ℕ
  pub content_type : String
  pub body : String

-- An AdmissionReview that came in; its request may be missing.
pub record AdmissionReview : Type 0 where
  pub request : Option AdmissionRequest

-- The JSON codec of reviews: a decoder that refuses unknown fields, and json.Marshal of a review
-- that holds a response.
pub record ReviewCodec : Type 0 where
  pub decode_review : String → Result AdmissionReview
  pub marshal_response : AdmissionResponse → Result String

abbrev pub text_plain : ℕ → String → Response
text_plain status body = record { status = status; content_type = "text/plain"; body = body }

-- json.Marshal returns no bytes with an error, which is only logged.
unfoldable pub written : Result String → Result String
written (ok text) = ok text
written (err e) = ok ""
written (abort e) = abort e

-- The answer of the rule for the path, or an allowed response if there is none.
unfoldable pub review : GraffitiHandler → String → AdmissionRequest → Result AdmissionResponse
review h url request = elim (lookup url h.tagmap) [
  | some mutator ↦ mutator request
  | none ↦ ok (allow "")
]

-- The part behind the decoding. A review without a request is dereferenced all the same.
unfoldable pub answer :
    ReviewCodec → GraffitiHandler → String → Option AdmissionRequest → Result Response
answer C h url none = abort (panics "invalid memory address or nil pointer dereference")
answer C h url (some request) = do
  review_response ← review h url request
  resp ← written (C.marshal_response (record review_response { uid = request.uid }))
  ok (record { status = 200; content_type = "application/json"; body = resp })

unfoldable pub decode :
    ReviewCodec → GraffitiHandler → Request → Result AdmissionReview → Result Response
decode C h r (ok ar) = answer C h r.path ar.request
decode C h r (err e) =
    ok (text_plain 400 "The request does not contain a valid AdmissionReview object")
decode C h r (abort e) = abort e

unfoldable pub serve_http : ReviewCodec → GraffitiHandler → Request → Result Response
unfolding decode
serve_http C h r =
    if not (r.method == "POST")
    then ok (text_plain 405 "invalid http method")
    else if not (r.content_type == "application/json")
    then ok (text_plain 400 "invalid request - payload is not json")
    else decode C h r (C.decode_review r.body)
