-- ===== src/Transport/Poll.antt =====
-- What the polling loop of `ShmTransport` returns.
use gateway_g_rpc.Prelude.{
  ℕ, ◌+◌, ◌≤◌, ◌<◌, ◌≡◌, ◌≢◌, ◌⊎◌, inl, inr, none, some, List, [], ◌∷◌, ◌++◌, arith, length,
  replicate, lt→ltb,
}
use gateway_g_rpc.Proto.{EchoRequest, EchoResponse, Codec}
use gateway_g_rpc.Ring.{SharedMemoryRingBuffer, read}
use gateway_g_rpc.Ring.Inv.{Holds, encode}
use gateway_g_rpc.Ring.Refine.{used-eq-size, PrefixFits, write-ok}
use gateway_g_rpc.Ring.Write.{written}
use gateway_g_rpc.Queue.{Queue, size}
use gateway_g_rpc.Ring.Read.{read-empty, read-too_small, read-ok, after}
use gateway_g_rpc.Bytes.{take-splice}
use gateway_g_rpc.Transport.{
  failed, waiting, request_timeout, done, Tick, poll, call, send_request, parse_response,
  timeout_ns,
}

-- Some turn finds that more than thirty seconds have gone by.
abbrev pub SomeExpired : List Tick → Type 0
SomeExpired [] = ⊥
SomeExpired (t ∷ ts) = (timeout_ns < t.elapsed) ⊎ SomeExpired ts

-- In each turn there is time left, and the response buffer is empty.
abbrev pub AllEmpty : List Tick → Type 0
AllEmpty [] = Unit
AllEmpty (t ∷ ts) = (t.elapsed ≤ timeout_ns) × Holds t.found [] × AllEmpty ts

-- In each turn the oldest response is longer than `n` bytes.
abbrev pub AllOversized : ℕ → List Tick → Type 1
AllOversized n [] = Unit
AllOversized n (t ∷ ts) =
    ((m : List ℕ) × (q : List (List ℕ)) × Holds t.found (m ∷ q) × (n < length m))
    × AllOversized n ts

module _ (response_codec : Codec EchoResponse) where
  -- The polling loop ends no later than the first turn that finds thirty seconds gone by.
  pub poll-ends :
      (buf : List ℕ) (ticks : List Tick)
      → SomeExpired ticks
      → (poll response_codec buf ticks).1 ≢ waiting
  unfolding poll
  poll-ends buf [] h = absurd h
  poll-ends buf (t ∷ ts) (inl late) = rw (lt→ltb timeout_ns t.elapsed late) (λ e. cc)
  poll-ends buf (t ∷ ts) (inr h) = ground (arith, poll-ends (read t.found buf).1 ts h)

  -- Turns that find the response buffer empty are passed over; the first turn in time that finds a
  -- response which fits in the loop's buffer ends the loop with that response, decoded, and takes it
  -- out of the response buffer.
  pub poll-first :
      (buf : List ℕ) (before ticks : List Tick) (t : Tick) (m : List ℕ) (q : List (List ℕ))
      → AllEmpty before
      → t.elapsed ≤ timeout_ns
      → (h : Holds t.found (m ∷ q)) → length m ≤ length buf
      → poll response_codec buf (before ++ (t ∷ ticks)) ≡ (
        some (after h.valid m (encode q) buf h.bytes),
        parse_response (response_codec.from_slice m),
      )
  unfolding poll
  poll-first buf [] ticks t m q all time h fits =
      ground (arith, read-ok h.valid m (encode q) buf h.bytes fits, take-splice buf m)
  poll-first buf (b ∷ before) ticks t m q (time', hb, all) time h fits = ground (
    arith,
    read-empty hb.valid buf (used-eq-size hb),
    poll-first buf before ticks t m q all time h fits,
  )

  -- A response that is longer than the loop's buffer is never read: the call fails with the timeout.
  pub poll-oversized :
      (buf : List ℕ) (ticks : List Tick)
      → AllOversized (length buf) ticks
      → SomeExpired ticks
      → poll response_codec buf ticks ≡ (none, failed request_timeout)
  unfolding poll
  poll-oversized buf [] all h = absurd h
  poll-oversized buf (t ∷ ts) ((m, q, h, long), all) (inl gone) =
      rw (lt→ltb timeout_ns t.elapsed gone)
  poll-oversized buf (t ∷ ts) ((m, q, h, long), all) (inr late) =
      ground (
        arith,
        read-too_small h.valid m (encode q) buf h.bytes long,
        poll-oversized buf ts all late,
      )

pub send_request-ok :
    (request_codec : Codec EchoRequest) (request : EchoRequest) {s : SharedMemoryRingBuffer}
    {q : Queue} (bs : List ℕ)
    → request_codec.to_vec request ≡ some bs
    → Holds s q
    → size q + (4 + length bs) < s.header.capacity
    → PrefixFits s
    → send_request request_codec s request ≡ (written s bs, done tt)
unfolding send_request
send_request-ok request_codec request {s} bs e h room fits = ground (arith, write-ok bs h room fits)

pub call-sent :
    (request_codec : Codec EchoRequest) (response_codec : Codec EchoResponse)
    (s s' : SharedMemoryRingBuffer) (request : EchoRequest) (ticks : List Tick)
    → send_request request_codec s request ≡ (s', done tt)
    → call request_codec response_codec s request ticks ≡ (
      s',
      (poll response_codec (replicate 65536 0) ticks).0,
      (poll response_codec (replicate 65536 0) ticks).1,
    )
unfolding call
call-sent request_codec response_codec s s' request ticks e = ground arith
