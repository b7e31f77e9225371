-- ===== src/Http/Status.antt =====
-- The status codes of the handler, and what its counters count.
use Prim.Native.String.{String, ◌++◌ as ◌<>◌}
use gateway_g_rpc.Prelude.{
  ℕ, suc, ◌+◌, ◌%◌, ◌^◌, ◌≡◌, ◌≢◌, ◌⊎◌, inl, inr, refl, none, some, List, [], ◌∷◌, arith, ◌==◌,
  if◌then◌else◌, length, Option-cases,
}
use gateway_g_rpc.Proto.{EchoRequest, EchoResponse}
use gateway_g_rpc.Http.{
  Libraries, HttpRequest, HttpResponse, Counters, Answer, answered, refused, echo_request, respond,
  handle_request, handle_all, message_of,
}

-- How many responses have the status `n`.
abbrev pub count_status : ℕ → List HttpResponse → ℕ
count_status n [] = 0
count_status n (r ∷ rs) = if r.status == n then suc (count_status n rs) else count_status n rs

module _ {Error : Type 0} (lib : Libraries Error) where
  -- The message of the request that is made of a path and a body: the path if the body is empty, the
  -- body as text if it is not JSON, the string in the field `message` of its JSON, or the empty text
  -- if there is no such field or it holds no string.
  pub data Message (path : String) (bytes : List ℕ) : String → Type 0 where
    from_path : bytes ≡ [] → Message path bytes path
    from_text :
        bytes ≢ [] → lib.from_slice bytes ≡ none → Message path bytes (lib.from_utf8_lossy bytes)
    from_field :
        (json v : lib.Value) (said : String)
        → bytes ≢ []
        → lib.from_slice bytes ≡ some json
        → lib.get_field "message" json ≡ some v
        → lib.as_str v ≡ some said
        → Message path bytes said
    no_field :
        (json : lib.Value)
        → bytes ≢ []
        → lib.from_slice bytes ≡ some json
        → lib.get_field "message" json ≡ none
        → Message path bytes ""
    no_string :
        (json v : lib.Value)
        → bytes ≢ []
        → lib.from_slice bytes ≡ some json
        → lib.get_field "message" json ≡ some v
        → lib.as_str v ≡ none
        → Message path bytes ""

  -- The request that stands for a path, a body and a time: its payload is the body.
  abbrev pub IsRequest : String → List ℕ → ℕ → EchoRequest → Type 0
  IsRequest path bytes elapsed r =
      Message path bytes r.message × (r.payload ≡ bytes) × (r.timestamp_ns ≡ elapsed % 2 ^ 64)

  module _ (transport : EchoRequest → Answer Error) (req : HttpRequest) (elapsed : ℕ)
      (c : Counters) where
    abbrev response : HttpResponse
    response = (handle_request lib transport req elapsed c).1

    -- The body could not be read.
    abbrev pub IsBadRequest : Type 0
    IsBadRequest =
        (req.body ≡ none)
        × (response ≡ record { status = 400; content_type = none; body = "Bad Request" })

    -- The backend got the request that stands for the path and the body, and answered.
    abbrev pub IsAnswered : Type 0
    IsAnswered =
        (bytes : List ℕ) × (r : EchoRequest) × (resp : EchoResponse) × (req.body ≡ some bytes)
        × IsRequest req.path bytes elapsed r
        × (transport r ≡ answered resp)
        × (response ≡ record {
          status = 200;
          content_type = some "application/json";
          body = lib.to_string (
              lib.object (
                ("message", lib.text resp.message)
                ∷ ("processing_time_us", lib.integer resp.processing_time_us)
                ∷ ("timestamp_ns", lib.integer resp.timestamp_ns)
                ∷ []));
        })

    -- The backend got that request, and the call failed.
    abbrev pub IsUnavailable : Type 0
    IsUnavailable =
        (bytes : List ℕ) × (r : EchoRequest) × (e : Error) × (req.body ≡ some bytes)
        × IsRequest req.path bytes elapsed r
        × (transport r ≡ refused e)
        × (response ≡ record {
          status = 503;
          content_type = none;
          body = "Service Unavailable: " <> lib.display e;
        })

  message_of-Message :
      (path : String) (b : ℕ) (bytes : List ℕ)
      → Message path (b ∷ bytes) (message_of lib (b ∷ bytes) (lib.from_slice (b ∷ bytes)))
  message_of-Message path b bytes = elim (Option-cases (lib.from_slice (b ∷ bytes))) [
    | inl absent ↦ rw absent (from_text (λ h. cc) absent)
    | inr (json, parsed) ↦ elim (Option-cases (lib.get_field "message" json)) [
      | inl absent ↦ rw (parsed, absent) (no_field json (λ h. cc) parsed absent)
      | inr (v, got) ↦ elim (Option-cases (lib.as_str v)) [
        | inl absent ↦ rw (parsed, got, absent) (no_string json v (λ h. cc) parsed got absent)
        | inr (said, is) ↦ rw (parsed, got, is) (from_field json v said (λ h. cc) parsed got is)
      ]
    ]
  ]

  pub echo_request-IsRequest :
      (path : String) (bytes : List ℕ) (elapsed : ℕ)
      → IsRequest path bytes elapsed (echo_request lib path bytes elapsed)
  unfolding echo_request
  echo_request-IsRequest path [] elapsed = (from_path refl, refl, refl)
  echo_request-IsRequest path (b ∷ bytes) elapsed = (message_of-Message path b bytes, refl, refl)

  pub respond_answered :
      (resp : EchoResponse)
      → respond lib (answered resp) ≡ record {
        status = 200;
        content_type = some "application/json";
        body = lib.to_string (
            lib.object (
              ("message", lib.text resp.message)
              ∷ ("processing_time_us", lib.integer resp.processing_time_us)
              ∷ ("timestamp_ns", lib.integer resp.timestamp_ns)
              ∷ []));
      }
  unfolding respond
  respond_answered resp = refl

  pub Answer-cases :
      (a : Answer Error)
      → ((resp : EchoResponse) × (a ≡ answered resp)) ⊎ ((e : Error) × (a ≡ refused e))
  Answer-cases (answered resp) = inl (resp, refl)
  Answer-cases (refused e) = inr (e, refl)

  -- The handler always answers, in one of three ways: 400 with the text `Bad Request` if the body
  -- cannot be read; 200 with the message, the processing time and the timestamp of the backend's
  -- response as a JSON object, if the backend answers; 503 with `Service Unavailable: ` and the error,
  -- if that call fails. The backend is asked with the body as the payload, the elapsed time modulo
  -- 2 ^ 64 as the timestamp, and as the message the path if the body is empty, the body as text if it
  -- is not JSON, and otherwise the string in its field `message`, or the empty text without one.
  pub handle_request_lem :
      (transport : EchoRequest → Answer Error) (req : HttpRequest) (elapsed : ℕ) (c : Counters)
      → IsBadRequest transport req elapsed c
        ⊎ (IsAnswered transport req elapsed c ⊎ IsUnavailable transport req elapsed c)
  unfolding handle_request respond
  handle_request_lem transport req elapsed c = elim (Option-cases req.body) [
    | inl gone ↦ inl (gone, rw gone)
    | inr (bytes, here) ↦
        let r = echo_request lib req.path bytes elapsed in
        let asked = echo_request-IsRequest req.path bytes elapsed in
        elim (Answer-cases (transport r)) [
          | inl (resp, h) ↦ inr (inl (bytes, r, resp, here, asked, h, rw (here, h)))
          | inr (e, h) ↦ inr (inr (bytes, r, e, here, asked, h, rw (here, h)))
        ]
  ]

  -- What a run of the handler has added to the counters.
  pub record Counted (c c' : Counters) (rs : List HttpResponse) : Type 0 where
    pub http : c'.http_requests_total ≡ c.http_requests_total + length rs
    pub http_durations :
        c'.http_request_durations + count_status 400 rs ≡ c.http_request_durations + length rs
    pub grpc : c'.grpc_requests_total + count_status 400 rs ≡ c.grpc_requests_total + length rs
    pub grpc_durations : c'.grpc_request_durations ≡ c.grpc_request_durations + count_status 200 rs

  handle_one :
      (transport : EchoRequest → Answer Error) (req : HttpRequest) (elapsed : ℕ) (c : Counters)
      → Counted c
          (handle_request lib transport req elapsed c).0
          ((handle_request lib transport req elapsed c).1 ∷ [])
  unfolding handle_request
  handle_one transport req elapsed c = ground arith

  -- Over any run of requests: all are counted as HTTP requests; those that are not answered by 400
  -- are counted as gRPC requests and have their duration recorded; and the durations of gRPC calls
  -- are recorded for those that are answered by 200, and no others.
  pub handle_all-Counted :
      (reqs : List (HttpRequest × ℕ × (EchoRequest → Answer Error))) (c : Counters)
      → Counted c (handle_all lib reqs c).0 (handle_all lib reqs c).1
  unfolding handle_all
  handle_all-Counted [] c = omega arith
  handle_all-Counted ((req, elapsed, transport) ∷ reqs) c = ground (
    arith,
    handle_one transport req elapsed c,
    handle_all-Counted reqs (handle_request lib transport req elapsed c).0,
  )
