-- ===== src/Mux/Await.antt =====
-- gateway/src/shm_transport_eventfd.rs and gateway/src/shm_transport_uds.rs: the end of `call`, which
-- waits for the receiver of its channel.
use Prim.Native.String.{String}
use gateway_g_rpc.Prelude.{
  ℕ, ◌≡◌, ap, ◌∙◌, Bool, true, false, Option, none, some, List, [], ◌∷◌, ◌++◌, arith, ◌==◌, ◌||◌,
  if◌then◌else◌, ==_iff,
}
use gateway_g_rpc.Proto.{EchoResponse}
use gateway_g_rpc.Transport.{Call, done, failed, waiting, channel_closed}
use gateway_g_rpc.Mux.{PendingRequests, Calls, insert}

-- What has been sent on the channel `tx`.
unfoldable pub find_sent : ℕ → List (ℕ × EchoResponse) → Option EchoResponse
find_sent tx [] = none
find_sent tx ((t, response) ∷ sent) = if t == tx then some response else find_sent tx sent

-- Whether the map still holds the channel's sender.
unfoldable pub has_sender : ℕ → PendingRequests → Bool
has_sender tx [] = false
has_sender tx ((id, t) ∷ m) = t == tx || has_sender tx m

abbrev pub received_or : Option EchoResponse → Bool → Call EchoResponse
received_or (some response) alive = done response
received_or none true = waiting
received_or none false = failed channel_closed

-- `rx.await`, on the channels as they are: a receiver with no value waits as long as its sender is
-- there.
unfoldable pub await_call : ℕ → Calls → Call EchoResponse
await_call tx s = received_or (find_sent tx s.sent) (has_sender tx s.pending_requests)

-- A call that has put its sender into the map waits.
pub await-entered :
    (id : String) (tx : ℕ) (s : Calls)
    → find_sent tx s.sent ≡ none
    → await_call tx (record s { pending_requests = insert id tx s.pending_requests }) ≡ waiting
unfolding await_call has_sender insert
await-entered id tx s fresh =
    rw fresh (ap (λ b. received_or none b) (entered id tx s.pending_requests))
  where
    entered : (id : String) (tx : ℕ) (m : PendingRequests) → has_sender tx (insert id tx m) ≡ true
    entered id tx m = ground (arith, ==_iff tx tx)

find_sent-append :
    (tx : ℕ) (response : EchoResponse) (sent : List (ℕ × EchoResponse))
    → find_sent tx sent ≡ none
    → find_sent tx (sent ++ ((tx, response) ∷ [])) ≡ some response
unfolding find_sent
find_sent-append tx response [] h = ground (arith, ==_iff tx tx)
find_sent-append tx response ((t, r) ∷ sent) h = ground (arith, find_sent-append tx response sent)

-- A call whose response has been sent returns it.
pub await-sent :
    (tx : ℕ) (response : EchoResponse) (sent : List (ℕ × EchoResponse)) (s : Calls)
    → find_sent tx sent ≡ none
    → s.sent ≡ sent ++ ((tx, response) ∷ [])
    → await_call tx s ≡ done response
unfolding await_call
await-sent tx response sent s fresh e =
    ap (λ o. received_or o (has_sender tx s.pending_requests))
      (ap (find_sent tx) e ∙ find_sent-append tx response sent fresh)
