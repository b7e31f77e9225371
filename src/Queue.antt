-- ===== src/Queue.antt =====
-- What the ring buffer promises: a queue of messages of bounded size, each counted with the four
-- bytes of its length.
use gateway_g_rpc.Prelude.{ℕ, ◌+◌, ◌≤◌, ◌<◌, List, [], ◌∷◌, ◌++◌, ltb, if◌then◌else◌, length, drop}
use gateway_g_rpc.Shm.{buffer_full, buffer_empty, invalid_state, Outcome, ok, err}

abbrev pub Queue : Type 0
Queue = List (List ℕ)

abbrev pub size : Queue → ℕ
size [] = 0
size (m ∷ q) = 4 + (length m + size q)

-- A caller's buffer with a message at its front.
abbrev pub fill : List ℕ → List ℕ → List ℕ
fill m buf = m ++ drop (length m) buf

-- At most `cap - 1` bytes are in the queue at a time.
unfoldable pub push : ℕ → Queue → List ℕ → Queue × Outcome ℕ
push cap q m =
    if ltb (size q + (4 + length m)) cap
    then (q ++ (m ∷ []), ok (length m))
    else (q, err buffer_full)

-- A message that is longer than the caller's buffer is not taken.
unfoldable pub pop : Queue → List ℕ → Queue × List ℕ × Outcome ℕ
pop [] buf = ([], buf, err buffer_empty)
pop (m ∷ q) buf =
    if ltb (length buf) (length m)
    then (m ∷ q, buf, err invalid_state)
    else (q, fill m buf, ok (length m))

-- The calls of the two sides in the order in which they happen, and what each call returns.
pub data Op : Type 0 where
  send : List ℕ → Op
  receive : List ℕ → Op

abbrev pub Reply : Type 0
Reply = List ℕ × Outcome ℕ

unfoldable pub run : ℕ → Queue → List Op → List Reply
run cap q [] = []
run cap q (send m ∷ ops) = let (q', o) = push cap q m in (m, o) ∷ run cap q' ops
run cap q (receive buf ∷ ops) = let (q', buf', o) = pop q buf in (buf', o) ∷ run cap q' ops

-- Every message fits in a buffer of `n` bytes.
abbrev pub AllFit : ℕ → Queue → Type 0
AllFit n [] = Unit
AllFit n (m ∷ q) = (length m ≤ n) × AllFit n q

abbrev pub NoneEmpty : Queue → Type 0
NoneEmpty [] = Unit
NoneEmpty (m ∷ q) = (0 < length m) × NoneEmpty q
