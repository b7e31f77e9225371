-- ===== src/Samples.antt =====
-- Test data: serialisers that write the payload alone, and an empty ring of 16 bytes whose positions
-- stand at 9.
pub mod Json
pub mod Kernel
pub mod Ids
pub mod Objects
pub mod Net
pub mod Fds
pub mod Servers
use Prim.Native.String.{String}
use text.Mathlib.Text.{◌==◌ as str_eq}
use text.Mathlib.TextEquality.{eq_iff}
use gateway_g_rpc.Prelude.{
  ℕ, ◌≡◌, ◌&&◌, refl, Option, some, none, List, [], ◌∷◌, ◌++◌, arith, ltb, ◌==◌, if◌then◌else◌,
  length, replicate, length-replicate,
}
use gateway_g_rpc.Shm.{ok}
use gateway_g_rpc.Proto.{EchoRequest, EchoResponse, Codec}
use gateway_g_rpc.Ring.{SharedMemoryRingBuffer, header_magic}
use gateway_g_rpc.Ring.Inv.{Holds, IsSlice}
use gateway_g_rpc.Ring.Write.{written}
use gateway_g_rpc.Backend.{Reading, echo_response, ShmServer, serve_round}
use gateway_g_rpc.Transport.{Tick}

-- Only requests with no text and no time are serialised.
abbrev pub to_vec_request : EchoRequest → Option (List ℕ)
to_vec_request r =
    if str_eq r.message "" && (r.timestamp_ns == 0 && ltb (length r.payload) 256)
    then some r.payload
    else none

abbrev pub from_slice_request : List ℕ → Option EchoRequest
from_slice_request bs = some (record { message = ""; timestamp_ns = 0; payload = bs })

abbrev pub to_vec_response : ℕ → EchoResponse → Option (List ℕ)
to_vec_response us r =
    if str_eq r.message ""
      && (r.timestamp_ns == 0 && (r.processing_time_us == us && ltb (length r.payload) 256))
    then some r.payload
    else none

abbrev pub from_slice_response : ℕ → List ℕ → Option EchoResponse
from_slice_response us bs =
    some (record { message = ""; timestamp_ns = 0; processing_time_us = us; payload = bs })

pub request_back :
    (a : EchoRequest) (bs : List ℕ) → to_vec_request a ≡ some bs → from_slice_request bs ≡ some a
request_back a bs h = ground (arith, eq_iff a.message "")

pub response_back :
    (us : ℕ) (a : EchoResponse) (bs : List ℕ)
    → to_vec_response us a ≡ some bs
    → from_slice_response us bs ≡ some a
response_back us a bs h = ground (arith, eq_iff a.message "")

pub request-IsSlice : (a : EchoRequest) (bs : List ℕ) → to_vec_request a ≡ some bs → IsSlice bs
request-IsSlice a bs h = ground arith

pub response-IsSlice :
    (us : ℕ) (a : EchoResponse) (bs : List ℕ) → to_vec_response us a ≡ some bs → IsSlice bs
response-IsSlice us a bs h = ground arith

abbrev pub request_codec : Codec EchoRequest
request_codec = record {
  to_vec = to_vec_request;
  from_slice = from_slice_request;
  round_trip = request_back;
  slice = request-IsSlice;
}

-- Responses with the processing time `us`.
abbrev pub response_codec_of : ℕ → Codec EchoResponse
response_codec_of us = record {
  to_vec = to_vec_response us;
  from_slice = from_slice_response us;
  round_trip = response_back us;
  slice = response-IsSlice us;
}

abbrev pub response_codec : Codec EchoResponse
response_codec = response_codec_of 1

abbrev pub ring : SharedMemoryRingBuffer
ring = record {
  mmap = record {
    header = record { write_pos = 9; read_pos = 9; capacity = 16; magic = header_magic };
    cells = λ _. 0;
    len = 48;
  };
  data_offset = 32;
  data_size = 16;
}

pub Holds-ring : Holds ring []
Holds-ring = record { valid = omega arith; bytes = refl }

abbrev pub ping : EchoRequest
ping = record { message = ""; timestamp_ns = 0; payload = 1 ∷ 2 ∷ 3 ∷ [] }

abbrev pub reading : Reading
reading = record { recv_elapsed = 0; processing = 1500 }
