-- ===== src/Stream.antt =====
-- backend/src/main.rs: `stream_echo`, a task that answers the requests of a stream into a channel of
-- 128 places, beside the receiver of the channel.
pub mod Order
pub mod Ends
mod Tests
use gateway_g_rpc.Prelude.{
  ℕ, suc, ◌/◌, ◌≡◌, Bool, true, false, Option, none, some, List, [], ◌∷◌, ◌++◌, ltb, if◌then◌else◌,
  length,
}
use gateway_g_rpc.Proto.{EchoRequest, EchoResponse, as_i64}

-- What `stream.message()` finds: a request or an error. The end of the stream is the end of the list.
pub data Event : Type 0 where
  message : EchoRequest → Event
  broken : Event

-- The response of the task, for the delay of the service in nanoseconds.
abbrev pub stream_response : ℕ → EchoRequest → EchoResponse
stream_response delay req = record {
  message = req.message;
  timestamp_ns = 0;
  processing_time_us = as_i64 (delay / 1000);
  payload = req.payload;
}

abbrev pub channel_len : ℕ
channel_len = 128

-- What is still to come of the stream, what stands in the channel, what the receiver has got, whether
-- the receiver is still there, and whether the task runs.
pub record Exchange : Type 0 where
  pub input : List Event
  pub queue : List EchoResponse
  pub got : List EchoResponse
  pub is_open : Bool
  pub is_running : Bool

abbrev pub begin : List Event → Exchange
begin events = record { input = events; queue = []; got = []; is_open = true; is_running = true }

module _ (delay : ℕ) where
  -- `tx.send(Ok(response)).await`, which waits for a place (`none`) and fails without a receiver.
  abbrev pub send : EchoRequest → List Event → Exchange → Option Exchange
  send req rest s =
      if s.is_open
      then (if ltb (length s.queue) channel_len
          then some (record s { input = rest; queue = s.queue ++ (stream_response delay req ∷ []) })
          else none)
      else some (record s { input = rest; is_running = false })

  abbrev pub react : List Event → Exchange → Option Exchange
  react [] s = some (record s { is_running = false })
  react (broken ∷ rest) s = some (record s { input = rest; is_running = false })
  react (message req ∷ rest) s = send req rest s

  -- One turn of the task's loop; `none` if it cannot take one now.
  pub turn : Exchange → Option Exchange
  turn s = if s.is_running then react s.input s else none

  -- The task and the receiver side by side.
  pub data Step (s : Exchange) : Exchange → Type 0 where
    task : (s' : Exchange) → turn s ≡ some s' → Step s s'
    receive :
        (x : EchoResponse) (q : List EchoResponse)
        → s.is_open ≡ true
        → s.queue ≡ x ∷ q
        → Step s (record s { queue = q; got = s.got ++ (x ∷ []) })
    hang_up : s.is_open ≡ true → Step s (record s { is_open = false })

  -- `n` steps.
  pub data Run (s : Exchange) : ℕ → Exchange → Type 0 where
    here : Run s 0 s
    next : (n : ℕ) (t u : Exchange) → Run s n t → Step t u → Run s (suc n) u
