-- ===== src/Trip.antt =====
-- A request and its response on their way through two ring buffers, under a request identifier.
use Prim.Native.String.{String}
use gateway_g_rpc.Prelude.{ℕ, ◌+◌, ◌≤◌, ◌<◌, ◌≡◌, some, List, [], length}
use gateway_g_rpc.Proto.{EchoRequest, EchoResponse, Codec}
use gateway_g_rpc.Ring.{SharedMemoryRingBuffer}
use gateway_g_rpc.Ring.Inv.{Holds}
use gateway_g_rpc.Ring.Refine.{PrefixFits}
use gateway_g_rpc.Server.{task_response}

-- A request and its response, as bytes that fit in two empty ring buffers and in the buffers
-- `request_buf` of the server and `response_buf` of the listener.
pub record Exchange (request_codec : Codec (String × EchoRequest))
    (response_codec : Codec (String × EchoResponse)) (id : String) (request : EchoRequest)
    (processing : ℕ) (requests responses : SharedMemoryRingBuffer)
    (request_buf response_buf : List ℕ) : Type 0 where
  pub request_bytes : List ℕ
  pub response_bytes : List ℕ
  pub request_encoded : request_codec.to_vec (id, request) ≡ some request_bytes
  pub response_encoded :
      response_codec.to_vec (id, task_response processing request) ≡ some response_bytes
  pub request_empty : Holds requests []
  pub response_empty : Holds responses []
  pub request_fits : 4 + length request_bytes < requests.header.capacity
  pub response_fits : 4 + length response_bytes < responses.header.capacity
  pub request_some : 0 < length request_bytes
  pub response_some : 0 < length response_bytes
  pub request_short : length request_bytes ≤ length request_buf
  pub response_short : length response_bytes ≤ length response_buf
  pub request_prefix : PrefixFits requests
  pub response_prefix : PrefixFits responses
