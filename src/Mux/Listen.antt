-- ===== src/Mux/Listen.antt =====
-- What the listeners take out of the response buffer, and when they stop.
use Prim.Native.String.{String}
use gateway_g_rpc.Prelude.{
  ℕ, zero, suc, ◌≤◌, ◌<◌, ◌≡◌, refl, ◌∙◌, none, some, List, [], ◌∷◌, ◌++◌, arith, length,
}
use gateway_g_rpc.Shm.{ok}
use gateway_g_rpc.Proto.{EchoResponse, Codec}
use gateway_g_rpc.Queue.{Queue, AllFit, NoneEmpty}
use gateway_g_rpc.Ring.{splice}
use gateway_g_rpc.Ring.Inv.{Holds, encode}
use gateway_g_rpc.Ring.Read.{read-empty, read-ok, read-too_small, after}
use gateway_g_rpc.Ring.Refine.{used-eq-size}
use gateway_g_rpc.Ring.Several.{Holds-after}
use gateway_g_rpc.Bytes.{take-splice, length-splice}
use gateway_g_rpc.Mux.{Calls, Listener, hand_out, accept, listen, drain}

module _ (codec : Codec (String × EchoResponse)) where
  pub accept_lem :
      (bs : List ℕ) (id : String) (response : EchoResponse) (s : Calls)
      → codec.from_slice bs ≡ some (id, response)
      → accept codec bs s ≡ hand_out id response s
  unfolding accept
  accept_lem bs id response s h = rw h

  -- Every message of a queue, handed out in order.
  abbrev pub accept_all : Queue → Calls → Calls
  accept_all [] s = s
  accept_all (m ∷ q) s = accept_all q (accept codec m s)

  -- What the listener is after it has taken the messages `q` out, and left the messages `p`.
  pub record Took (l : Listener) (q p : Queue) (l' : Listener) : Type 0 where
    pub left : Holds l'.response_buffer p
    pub handed : l'.calls ≡ accept_all q l.calls
    pub same_len : length l'.response_buf ≡ length l.response_buf

  -- The listener behind the read of the message `m`.
  abbrev pub next :
      (l : Listener) (m : List ℕ) (q : Queue) → Holds l.response_buffer (m ∷ q) → Listener
  next l m q h = record {
    response_buffer = after h.valid m (encode q) l.response_buf h.bytes;
    response_buf = splice l.response_buf 0 m;
    calls = accept codec m l.calls;
  }

  pub listen-zero : (l : Listener) → listen codec 0 l ≡ ok l
  unfolding listen
  listen-zero l = refl

  pub listen-step :
      (l : Listener) (m : List ℕ) (q : Queue) (h : Holds l.response_buffer (m ∷ q)) (count : ℕ)
      → length m ≤ length l.response_buf
      → 0 < length m
      → listen codec (suc count) l ≡ listen codec count (next l m q h)
  unfolding listen
  listen-step l m q h count fits ne = ground (
    arith,
    read-ok h.valid m (encode q) l.response_buf h.bytes fits,
    take-splice l.response_buf m,
  )

  pub listen-empty :
      (l : Listener) (count : ℕ) → Holds l.response_buffer [] → listen codec (suc count) l ≡ ok l
  unfolding listen
  listen-empty l count h = ground (arith, read-empty h.valid l.response_buf (used-eq-size h))

  pub drain-zero : (l : Listener) → drain codec 0 l ≡ none
  unfolding drain
  drain-zero l = refl

  pub drain-step :
      (l : Listener) (m : List ℕ) (q : Queue) (h : Holds l.response_buffer (m ∷ q)) (fuel : ℕ)
      → length m ≤ length l.response_buf
      → drain codec (suc fuel) l ≡ drain codec fuel (next l m q h)
  unfolding drain
  drain-step l m q h fuel fits = ground (
    arith,
    read-ok h.valid m (encode q) l.response_buf h.bytes fits,
    take-splice l.response_buf m,
  )

  -- The eventfd listener, woken with the count of the first messages `q` of the response buffer,
  -- takes exactly these out and hands them out in order, and leaves the others, if they are not
  -- empty and fit in its buffer.
  pub listen-takes :
      (q p : Queue) (l : Listener)
      → Holds l.response_buffer (q ++ p)
      → AllFit (length l.response_buf) q
      → NoneEmpty q
      → (l' : Listener) × (listen codec (length q) l ≡ ok l') × Took l q p l'
  listen-takes [] p l h fit ne =
      (l, listen-zero l, record { left = h; handed = refl; same_len = refl })
  listen-takes (m ∷ q) p l h (fits, fit) (pos, ne) =
      let (l', run, took) =
        listen-takes q p (next l m (q ++ p) h) (Holds-after m (q ++ p) l.response_buf h)
          (rw (length-splice l.response_buf m fits) fit) ne in
      (
        l',
        listen-step l m (q ++ p) h (length q) fits pos ∙ run,
        record {
          left = took.left;
          handed = took.handed;
          same_len = took.same_len ∙ length-splice l.response_buf m fits;
        },
      )

  pub drain-empty :
      (l : Listener) (fuel : ℕ)
      → Holds l.response_buffer []
      → drain codec (suc fuel) l ≡ some (ok l)
  unfolding drain
  drain-empty l fuel h = ground (arith, read-empty h.valid l.response_buf (used-eq-size h))

  -- The loop of the Unix-socket listener ends after at most one round more than there are messages,
  -- and takes out and hands out all of them, in order, if they fit in its buffer.
  pub drain-takes :
      (q : Queue) (l : Listener) (fuel : ℕ)
      → Holds l.response_buffer q
      → AllFit (length l.response_buf) q
      → length q < fuel
      → (l' : Listener) × (drain codec fuel l ≡ some (ok l')) × Took l q [] l'
  drain-takes q l zero h fit enough = absurd (omega arith)
  drain-takes [] l (suc fuel) h fit enough =
      (l, drain-empty l fuel h, record { left = h; handed = refl; same_len = refl })
  drain-takes (m ∷ q) l (suc fuel) h (fits, fit) enough =
      let (l', run, took) =
        drain-takes q (next l m q h) fuel (Holds-after m q l.response_buf h)
          (rw (length-splice l.response_buf m fits) fit) (omega arith) in
      (
        l',
        drain-step l m q h fuel fits ∙ run,
        record {
          left = took.left;
          handed = took.handed;
          same_len = took.same_len ∙ length-splice l.response_buf m fits;
        },
      )

  -- A response that is longer than the listener's buffer stops both listeners for good: each round
  -- ends at once and leaves everything as it was, so this call and all later ones are never answered.
  pub listeners-blocked :
      (m : List ℕ) (q : Queue) (l : Listener) (n : ℕ)
      → Holds l.response_buffer (m ∷ q)
      → length l.response_buf < length m
      → (listen codec (suc n) l ≡ ok l) × (drain codec (suc n) l ≡ some (ok l))
  unfolding listen drain
  listeners-blocked m q l n h long = (
    ground (arith, read-too_small h.valid m (encode q) l.response_buf h.bytes long),
    ground (arith, read-too_small h.valid m (encode q) l.response_buf h.bytes long),
  )
