-- ===== src/Server/Batch.antt =====
-- The request loops take out the messages that they are notified of, and spawn their tasks in order.
use Prim.Native.String.{String}
use gateway_g_rpc.Prelude.{
  ℕ, zero, suc, ◌≤◌, ◌<◌, ◌≡◌, refl, ◌∙◌, List, [], ◌∷◌, ◌++◌, arith, length,
}
use gateway_g_rpc.Shm.{ok}
use gateway_g_rpc.Proto.{EchoRequest, Codec}
use gateway_g_rpc.Queue.{Queue, AllFit, NoneEmpty}
use gateway_g_rpc.Ring.{splice}
use gateway_g_rpc.Ring.Inv.{Holds, encode}
use gateway_g_rpc.Ring.Read.{read-empty, read-ok, read-too_small, after}
use gateway_g_rpc.Ring.Refine.{used-eq-size}
use gateway_g_rpc.Ring.Several.{Holds-after}
use gateway_g_rpc.Bytes.{take-splice, length-splice}
use gateway_g_rpc.Server.{RequestLoop, spawn, serve_batch, serve_notified}

module _ (codec : Codec (String × EchoRequest)) where
  -- The tasks after every message of a queue.
  abbrev pub spawn_all : Queue → List (String × EchoRequest) → List (String × EchoRequest)
  spawn_all [] tasks = tasks
  spawn_all (m ∷ q) tasks = spawn_all q (spawn codec (codec.from_slice m) tasks)

  -- The loop behind the read of the message `m`.
  abbrev pub next :
      (s : RequestLoop) (m : List ℕ) (q : Queue) → Holds s.request_buffer (m ∷ q) → RequestLoop
  next s m q h = record {
    request_buffer = after h.valid m (encode q) s.request_buf h.bytes;
    request_buf = splice s.request_buf 0 m;
    tasks = spawn codec (codec.from_slice m) s.tasks;
  }

  -- What the loop is after it has taken the messages `q` out, and left the messages `p`.
  pub record Served (s : RequestLoop) (q p : Queue) (s' : RequestLoop) : Type 0 where
    pub left : Holds s'.request_buffer p
    pub spawned : s'.tasks ≡ spawn_all q s.tasks
    pub same_len : length s'.request_buf ≡ length s.request_buf

  pub batch-zero : (s : RequestLoop) → serve_batch codec 0 s ≡ ok s
  unfolding serve_batch
  batch-zero s = refl

  pub batch-step :
      (s : RequestLoop) (m : List ℕ) (q : Queue) (h : Holds s.request_buffer (m ∷ q)) (count : ℕ)
      → length m ≤ length s.request_buf
      → 0 < length m
      → serve_batch codec (suc count) s ≡ serve_batch codec count (next s m q h)
  unfolding serve_batch
  batch-step s m q h count fits ne =
      ground (
        arith,
        read-ok h.valid m (encode q) s.request_buf h.bytes fits,
        take-splice s.request_buf m,
      )

  pub batch-empty :
      (s : RequestLoop) (count : ℕ)
      → Holds s.request_buffer []
      → serve_batch codec (suc count) s ≡ serve_batch codec count s
  unfolding serve_batch
  batch-empty s count h = ground (arith, read-empty h.valid s.request_buf (used-eq-size h))

  -- Notified of the first messages `q` of the request buffer, the eventfd server takes exactly these
  -- out and spawns a task for each that it can parse, in order, if they are not empty and fit in its
  -- buffer.
  pub serve_batch-takes :
      (q p : Queue) (s : RequestLoop)
      → Holds s.request_buffer (q ++ p)
      → AllFit (length s.request_buf) q
      → NoneEmpty q
      → (s' : RequestLoop) × (serve_batch codec (length q) s ≡ ok s') × Served s q p s'
  serve_batch-takes [] p s h fit ne =
      (s, batch-zero s, record { left = h; spawned = refl; same_len = refl })
  serve_batch-takes (m ∷ q) p s h (fits, fit) (pos, ne) =
      let (s', run, served) =
        serve_batch-takes q p (next s m (q ++ p) h) (Holds-after m (q ++ p) s.request_buf h)
          (rw (length-splice s.request_buf m fits) fit) ne in
      (
        s',
        batch-step s m (q ++ p) h (length q) fits pos ∙ run,
        record {
          left = served.left;
          spawned = served.spawned;
          same_len = served.same_len ∙ length-splice s.request_buf m fits;
        },
      )

  -- On an empty buffer a byte of notification changes nothing.
  pub serve_notified-empty :
      (s : RequestLoop) → Holds s.request_buffer [] → serve_notified codec s ≡ ok s
  unfolding serve_notified
  serve_notified-empty s h = ground (arith, read-empty h.valid s.request_buf (used-eq-size h))

  pub notified-step :
      (s : RequestLoop) (m : List ℕ) (q : Queue) (h : Holds s.request_buffer (m ∷ q))
      → length m ≤ length s.request_buf
      → serve_notified codec s ≡ ok (next s m q h)
  unfolding serve_notified
  notified-step s m q h fits =
      ground (
        arith,
        read-ok h.valid m (encode q) s.request_buf h.bytes fits,
        take-splice s.request_buf m,
      )

  -- One byte of notification makes the Unix-socket server take the oldest request out and spawn its
  -- task, if the request fits in the server's buffer.
  pub serve_notified-takes :
      (m : List ℕ) (q : Queue) (s : RequestLoop)
      → Holds s.request_buffer (m ∷ q)
      → length m ≤ length s.request_buf
      → (s' : RequestLoop) × (serve_notified codec s ≡ ok s') × Served s (m ∷ []) q s'
  serve_notified-takes m q s h fits = (
    next s m q h,
    notified-step s m q h fits,
    record {
      left = Holds-after m q s.request_buf h;
      spawned = refl;
      same_len = length-splice s.request_buf m fits;
    },
  )

  -- A request that is longer than the server's buffer stays at the front of the request buffer: every
  -- batch, and every byte of notification, leaves everything as it was.
  pub servers-blocked :
      (m : List ℕ) (q : Queue) (s : RequestLoop) (count : ℕ)
      → Holds s.request_buffer (m ∷ q)
      → length s.request_buf < length m
      → (serve_batch codec count s ≡ ok s) × (serve_notified codec s ≡ ok s)
  unfolding serve_batch serve_notified
  servers-blocked m q s zero h long =
      (refl, ground (arith, read-too_small h.valid m (encode q) s.request_buf h.bytes long))
  servers-blocked m q s (suc count) h long =
      let (batch, notified) = servers-blocked m q s count h long in
      (
        ground (arith, read-too_small h.valid m (encode q) s.request_buf h.bytes long, batch),
        notified,
      )
