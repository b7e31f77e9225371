-- ===== src/Http.antt =====
-- gateway/src/main.rs: the HTTP handler, which makes a request of the body, forwards it and makes a
-- response of the answer.
pub mod Status
mod Tests
use Prim.Native.String.{String, ◌++◌ as ◌<>◌}
use gateway_g_rpc.Prelude.{ℕ, zero, suc, ◌+◌, Option, none, some, List, [], ◌∷◌, ◌++◌}
use gateway_g_rpc.Proto.{EchoRequest, EchoResponse, as_i64}

-- What the handler takes from its libraries: `serde_json::Value` with `from_slice`, the lookup `get` of a
-- field, `as_str`, the values and the object that `json!` makes, and `to_string`;
-- `String::from_utf8_lossy`; and the `Display` of an error.
pub record Libraries (Error : Type 0) : Type 1 where
  pub Value : Type 0
  pub from_slice : List ℕ → Option Value
  pub get_field : String → Value → Option Value
  pub as_str : Value → Option String
  pub text : String → Value
  pub integer : ℕ → Value  -- the `i64` of a bit pattern
  pub object : List (String × Value) → Value
  pub to_string : Value → String
  pub from_utf8_lossy : List ℕ → String
  pub display : Error → String

pub record HttpRequest : Type 0 where
  pub path : String
  pub body : Option (List ℕ)  -- `none`: `collect_body` fails

pub record HttpResponse : Type 0 where
  pub status : ℕ
  pub content_type : Option String
  pub body : String

-- The Prometheus metrics of the gateway, as counts.
pub record Counters : Type 0 where
  pub http_requests_total : ℕ
  pub http_request_durations : ℕ
  pub grpc_requests_total : ℕ
  pub grpc_request_durations : ℕ

-- The result of `self.transport.call(echo_req).await`.
pub data Answer (Error : Type 0) : Type 0 where
  answered : EchoResponse → Answer Error
  refused : Error → Answer Error

module _ {Error : Type 0} (lib : Libraries Error) where
  abbrev pub unwrap_or_empty : Option String → String
  unwrap_or_empty none = ""
  unwrap_or_empty (some text) = text

  -- `and_then(|v| v.as_str())`
  abbrev pub and_then_str : Option lib.Value → Option String
  and_then_str none = none
  and_then_str (some v) = lib.as_str v

  abbrev pub message_of : List ℕ → Option lib.Value → String
  message_of bytes (some json) = unwrap_or_empty (and_then_str (lib.get_field "message" json))
  message_of bytes none = lib.from_utf8_lossy bytes

  -- The request of a path, a body and `start.elapsed().as_nanos()`.
  unfoldable pub echo_request : String → List ℕ → ℕ → EchoRequest
  echo_request path [] elapsed = record {
    message = path;
    timestamp_ns = as_i64 elapsed;
    payload = [];
  }
  echo_request path (b ∷ bytes) elapsed = record {
    message = message_of (b ∷ bytes) (lib.from_slice (b ∷ bytes));
    timestamp_ns = as_i64 elapsed;
    payload = b ∷ bytes;
  }

  abbrev pub bad_request : HttpResponse
  bad_request = record { status = 400; content_type = none; body = "Bad Request" }

  -- `json!` of the three fields
  abbrev pub json_resp : EchoResponse → lib.Value
  json_resp resp = lib.object (
      ("message", lib.text resp.message)
      ∷ ("processing_time_us", lib.integer resp.processing_time_us)
      ∷ ("timestamp_ns", lib.integer resp.timestamp_ns)
      ∷ [])

  unfoldable pub respond : Answer Error → HttpResponse
  respond (answered resp) = record {
    status = 200;
    content_type = some "application/json";
    body = lib.to_string (json_resp resp);
  }
  respond (refused e) = record {
    status = 503;
    content_type = none;
    body = "Service Unavailable: " <> lib.display e;
  }

  abbrev pub observed_grpc : Answer Error → ℕ → ℕ
  observed_grpc (answered resp) n = n + 1
  observed_grpc (refused e) n = n

  -- The counters behind the answer of the backend.
  abbrev pub count_answer : Answer Error → Counters → Counters
  count_answer answer c = record {
    http_requests_total = c.http_requests_total;
    http_request_durations = c.http_request_durations + 1;
    grpc_requests_total = c.grpc_requests_total + 1;
    grpc_request_durations = observed_grpc answer c.grpc_request_durations;
  }

  abbrev pub count_request : Counters → Counters
  count_request c = record c { http_requests_total = c.http_requests_total + 1 }

  -- The handler behind `collect_body`.
  abbrev pub forward :
      (EchoRequest → Answer Error)
      → Option (List ℕ)
      → String
      → ℕ
      → Counters
      → Counters × HttpResponse
  forward transport none path elapsed c = (c, bad_request)
  forward transport (some bytes) path elapsed c =
      let answer = transport (echo_request path bytes elapsed) in
      (count_answer answer c, respond answer)

  -- `Gateway::handle_request`, over the transport's `call`: it never fails.
  unfoldable pub handle_request :
      (EchoRequest → Answer Error) → HttpRequest → ℕ → Counters → Counters × HttpResponse
  unfolding echo_request respond
  handle_request transport req elapsed c =
      forward transport req.body req.path elapsed (count_request c)

  -- Requests one after the other, each with its own transport's answer and its own clock.
  pub handle_all :
      List (HttpRequest × ℕ × (EchoRequest → Answer Error))
      → Counters
      → Counters × List HttpResponse
  handle_all [] c = (c, [])
  handle_all ((req, elapsed, transport) ∷ reqs) c =
      let (c', response) = handle_request transport req elapsed c in
      let (c'', responses) = handle_all reqs c' in (c'', response ∷ responses)
