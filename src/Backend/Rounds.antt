-- ===== src/Backend/Rounds.antt =====
-- The loop of the polling server, over many requests.
use gateway_g_rpc.Prelude.{
  ℕ, ◌≡◌, refl, ap, subst, sym, ◌∙◌, some, List, [], ◌∷◌, ◌++◌, arith, length, append-nil,
  append_assoc,
}
use gateway_g_rpc.Shm.{ok, ◌>>=◌}
use gateway_g_rpc.Proto.{EchoRequest, EchoResponse, Codec}
use gateway_g_rpc.Queue.{Queue, AllFit}
use gateway_g_rpc.Bytes.{length-splice}
use gateway_g_rpc.Ring.Inv.{Holds}
use gateway_g_rpc.Ring.Write.{written}
use gateway_g_rpc.Ring.Read.{read-empty}
use gateway_g_rpc.Ring.Refine.{Holds-written, used-eq-size}
use gateway_g_rpc.Ring.Several.{written_all, AllRoom}
use gateway_g_rpc.Backend.{Reading, echo_response, ShmServer, serve_round, run_shm_server}
use gateway_g_rpc.Backend.Echo.{serve-written, taken}
use gateway_g_rpc.Ring.Several.{Holds-after}

-- A request, what the clock shows while it is served, and the bytes of its two messages.
pub record Asked : Type 0 where
  pub request : EchoRequest
  pub reading : Reading
  pub request_bytes : List ℕ
  pub response_bytes : List ℕ

abbrev pub asked_bytes : List Asked → Queue
asked_bytes [] = []
asked_bytes (a ∷ xs) = a.request_bytes ∷ asked_bytes xs

abbrev pub answer_bytes : List Asked → Queue
answer_bytes [] = []
answer_bytes (a ∷ xs) = a.response_bytes ∷ answer_bytes xs

abbrev pub readings : List Asked → List Reading
readings [] = []
readings (a ∷ xs) = a.reading ∷ readings xs

module _ (request_codec : Codec EchoRequest) (response_codec : Codec EchoResponse) where
  abbrev pub AllCoded : List Asked → Type 0
  AllCoded [] = Unit
  AllCoded (a ∷ xs) =
      (request_codec.to_vec a.request ≡ some a.request_bytes)
      × (response_codec.to_vec (echo_response a.reading a.request) ≡ some a.response_bytes)
      × AllCoded xs

  -- A round that finds no request changes nothing.
  pub serve-idle :
      (t : Reading) (s : ShmServer)
      → Holds s.request_buffer []
      → serve_round request_codec response_codec t s ≡ ok s
  unfolding serve_round
  serve-idle t s h = ground (arith, read-empty h.valid s.request_buf (used-eq-size h))

  run-nil : (s : ShmServer) → run_shm_server request_codec response_codec [] s ≡ ok s
  unfolding run_shm_server
  run-nil s = refl

  run-step :
      (t : Reading) (ts : List Reading) (s s' : ShmServer)
      → serve_round request_codec response_codec t s ≡ ok s'
      → run_shm_server request_codec response_codec (t ∷ ts) s
        ≡ run_shm_server request_codec response_codec ts s'
  unfolding run_shm_server
  run-step t ts s s' e =
      ap (λ o. o >>= (λ s''. run_shm_server request_codec response_codec ts s'')) e

  -- A round for each of the first requests of the request buffer takes exactly these out, and leaves
  -- their responses, in order and once, behind the messages of the response buffer. The requests fit
  -- in the server's buffer, the responses in the response buffer, and no length prefix crosses its
  -- end.
  pub run_shm_server-answers :
      (xs : List Asked) (s : ShmServer) (q p : Queue)
      → Holds s.request_buffer (asked_bytes xs ++ q)
      → Holds s.response_buffer p
      → AllRoom s.response_buffer p (answer_bytes xs)
      → AllFit (length s.request_buf) (asked_bytes xs)
      → AllCoded xs
      → (s' : ShmServer) × (run_shm_server request_codec response_codec (readings xs) s ≡ ok s')
        × Holds s'.request_buffer q
        × (s'.response_buffer ≡ written_all s.response_buffer (answer_bytes xs))
        × Holds s'.response_buffer (p ++ answer_bytes xs)
  run_shm_server-answers [] s q p h h' room fit enc =
      (s, run-nil s, h, refl, subst (Holds s.response_buffer) (sym (append-nil p)) h')
  run_shm_server-answers (a ∷ xs) s q p h h' (fits, prefix, room) (short, fit) (e, e', enc) =
      let s₁ : ShmServer =
        record (taken request_codec response_codec a.reading s a.request_bytes (asked_bytes xs ++ q)
          p h h' short) { response_buffer = written s.response_buffer a.response_bytes } in
      let (s', run, no_request, same, holds) =
        run_shm_server-answers xs s₁ q (p ++ (a.response_bytes ∷ []))
          (Holds-after a.request_bytes (asked_bytes xs ++ q) s.request_buf h)
          (Holds-written a.response_bytes h' fits prefix) room
          (rw (length-splice s.request_buf a.request_bytes short) fit) enc in
      (
        s',
        run-step a.reading (readings xs) s s₁ (
              serve-written request_codec response_codec a.reading s a.request_bytes
                (asked_bytes xs ++ q) p h h' short a.request
                (request_codec.round_trip a.request a.request_bytes e) a.response_bytes e' fits
                prefix)
            ∙ run,
        no_request,
        same,
        subst (Holds s'.response_buffer) (append_assoc p (a.response_bytes ∷ []) (answer_bytes xs))
            holds,
      )
