-- ===== src/Stream/Tests.antt =====
-- Two requests and an error behind them.
use gateway_g_rpc.Prelude.{ℕ, ◌≡◌, refl, false, List, [], ◌∷◌}
use gateway_g_rpc.Proto.{EchoRequest}
use gateway_g_rpc.Stream.{
  Event, message, broken, stream_response, Exchange, begin, turn, task, receive, Run, here, next,
}
use gateway_g_rpc.Stream.Order.{InOrder, Run-InOrder, Run-complete}

abbrev ping : ℕ → EchoRequest
ping n = record { message = ""; timestamp_ns = n; payload = n ∷ [] }

abbrev events : List Event
events = message (ping 1) ∷ broken ∷ message (ping 2) ∷ []

abbrev first : Exchange
first = record (begin events) {
  input = broken ∷ message (ping 2) ∷ [];
  queue = stream_response 5000 (ping 1) ∷ [];
}

abbrev second : Exchange
second = record first { input = message (ping 2) ∷ []; is_running = false }

abbrev third : Exchange
third = record second { queue = []; got = stream_response 5000 (ping 1) ∷ [] }

run_first : Run 5000 (begin events) 1 first
unfolding turn
run_first = next 0 (begin events) first here (task first refl)

run_third : Run 5000 (begin events) 3 third
unfolding turn
run_third =
    next 2 second third (next 1 first second run_first (task second refl))
      (receive (stream_response 5000 (ping 1)) [] refl refl)

Run-InOrder_example : InOrder 5000 events first
Run-InOrder_example = Run-InOrder 5000 events 1 first run_first

Run-complete_example : third.got ≡ stream_response 5000 (ping 1) ∷ []
Run-complete_example = Run-complete 5000 events 3 third run_third refl refl refl
