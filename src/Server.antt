-- ===== src/Server.antt =====
-- backend/src/shm_server_eventfd.rs and backend/src/shm_server_uds.rs: the loops that take requests
-- out of shared memory, and the task that each request becomes.
pub mod Batch
pub mod Task
mod Tests
use Prim.Native.String.{String}
use gateway_g_rpc.Prelude.{
  ℕ, zero, suc, ◌/◌, Option, none, some, List, [], ◌∷◌, ◌++◌, ◌==◌, if◌then◌else◌, take,
}
use gateway_g_rpc.Shm.{Outcome, ok, err, fault}
use gateway_g_rpc.Proto.{EchoRequest, EchoResponse, Codec, as_i64}
use gateway_g_rpc.Ring.{SharedMemoryRingBuffer, write, read}
use gateway_g_rpc.EventFd.{EventKernel, EventFd, signal_eventfd}

-- What the request loop owns, and the tasks that it has spawned and that have not run yet.
pub record RequestLoop : Type 0 where
  pub request_buffer : SharedMemoryRingBuffer
  pub request_buf : List ℕ
  pub tasks : List (String × EchoRequest)

module _ (codec : Codec (String × EchoRequest)) where
  -- A message that cannot be read back is dropped.
  abbrev pub spawn :
      Option (String × EchoRequest) → List (String × EchoRequest) → List (String × EchoRequest)
  spawn none tasks = tasks
  spawn (some task) tasks = tasks ++ (task ∷ [])

  -- The loop behind a read that has returned `n`.
  abbrev pub taken : SharedMemoryRingBuffer → List ℕ → ℕ → RequestLoop → RequestLoop
  taken buffer buf n s = record {
    request_buffer = buffer;
    request_buf = buf;
    tasks = spawn (codec.from_slice (take n buf)) s.tasks;
  }

  -- `for _ in 0..count` of the eventfd server: every failure goes on with the next round.
  pub serve_batch : ℕ → RequestLoop → Outcome RequestLoop
  serve_batch zero s = ok s
  serve_batch (suc count) s =
      let (buffer, buf, result) = read s.request_buffer s.request_buf in
      elim result [
        | err _ ↦ serve_batch count (record s { request_buffer = buffer; request_buf = buf })
        | fault f ↦ fault f
        | ok n ↦
            if n == 0
            then serve_batch count (record s { request_buffer = buffer; request_buf = buf })
            else serve_batch count (taken buffer buf n s)
      ]

  -- What the Unix-socket server does for each byte of notification: one read.
  pub serve_notified : RequestLoop → Outcome RequestLoop
  serve_notified s =
      let (buffer, buf, result) = read s.request_buffer s.request_buf in
      elim result [
        | err _ ↦ ok (record s { request_buffer = buffer; request_buf = buf })
        | fault f ↦ fault f
        | ok n ↦ ok (taken buffer buf n s)
      ]

-- The response of a task that has taken `processing` nanoseconds.
abbrev pub task_response : ℕ → EchoRequest → EchoResponse
task_response processing request = record {
  message = request.message;
  timestamp_ns = as_i64 processing;
  processing_time_us = as_i64 (processing / 1000);
  payload = request.payload;
}

-- A task, over the notification of the gateway, whose error is only logged: the response buffer and
-- the notified side that it leaves.
module _ {ℓ} {K : Type ℓ} (notify : K → K) (codec : Codec (String × EchoResponse)) where
  unfoldable pub run_task :
      ℕ
      → String × EchoRequest
      → SharedMemoryRingBuffer
      → K
      → SharedMemoryRingBuffer × K × Outcome (Unit {0})
  run_task processing (id, request) response_buffer k =
      elim (codec.to_vec (id, task_response processing request)) [
        | none ↦ (response_buffer, k, ok tt)
        | some payload ↦
            let (buffer, result) = write response_buffer payload in
            elim result [
              | ok _ ↦ (buffer, notify k, ok tt)
              | err _ ↦ (buffer, k, ok tt)
              | fault f ↦ (buffer, k, fault f)
            ]
      ]

-- The eventfd server's notification.
abbrev pub signal_gateway :
    (os : EventKernel) → EventFd → EventKernel.Kernel os → EventKernel.Kernel os
signal_gateway os e k = (signal_eventfd os e k).0
