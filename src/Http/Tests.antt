-- ===== src/Http/Tests.antt =====
-- The handler on bodies that cannot be read, that are not JSON and that the backend refuses.
use gateway_g_rpc.Prelude.{ℕ, ◌≡◌, ◌⊎◌, refl, none, some, List, [], ◌∷◌}
use gateway_g_rpc.Proto.{EchoRequest}
use gateway_g_rpc.Samples.Json.{json}
use gateway_g_rpc.Http.{
  Libraries, HttpRequest, Counters, Answer, answered, refused, handle_request, handle_all,
  echo_request,
}
use gateway_g_rpc.Http.Status.{
  handle_request_lem, handle_all-Counted, Counted, IsBadRequest, IsAnswered, IsUnavailable,
}

abbrev lib : Libraries ℕ
lib = json none

abbrev echoing : EchoRequest → Answer ℕ
echoing r =
    answered (record {
      message = r.message;
      timestamp_ns = 0;
      processing_time_us = 1;
      payload = r.payload;
    })

abbrev refusing : EchoRequest → Answer ℕ
refusing r = refused 3

abbrev unread : HttpRequest
unread = record { path = "/echo"; body = none }

abbrev hello : HttpRequest
hello = record { path = "/echo"; body = some (104 ∷ 105 ∷ []) }

abbrev zeros : Counters
zeros = record {
  http_requests_total = 0;
  http_request_durations = 0;
  grpc_requests_total = 0;
  grpc_request_durations = 0;
}

abbrev script : List (HttpRequest × ℕ × (EchoRequest → Answer ℕ))
script = (hello, 10, echoing) ∷ (unread, 11, echoing) ∷ (hello, 12, refusing) ∷ []

empty_body : (echo_request lib "/ping" [] 7).message ≡ "/ping"
unfolding echo_request
empty_body = refl

handle_request_lem_example :
    IsBadRequest lib echoing hello 10 zeros
    ⊎ (IsAnswered lib echoing hello 10 zeros ⊎ IsUnavailable lib echoing hello 10 zeros)
handle_request_lem_example = handle_request_lem lib echoing hello 10 zeros

handle_all-Counted_example :
    Counted lib zeros (handle_all lib script zeros).0 (handle_all lib script zeros).1
handle_all-Counted_example = handle_all-Counted lib script zeros

counts : (handle_all lib script zeros).0 ≡ record {
  http_requests_total = 3;
  http_request_durations = 2;
  grpc_requests_total = 2;
  grpc_request_durations = 1;
}
unfolding handle_all handle_request
counts = refl
