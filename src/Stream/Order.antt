-- ===== src/Stream/Order.antt =====
-- What the receiver of `stream_echo` gets, in every order of the steps.
use gateway_g_rpc.Prelude.{
  ℕ, ◌≤◌, ◌≡◌, ◌⊎◌, inl, inr, refl, sym, ap, subst, ◌∙◌, true, false, Option, none, some, List, [],
  ◌∷◌, ◌++◌, arith, ltb, if◌then◌else◌, length, length-append, append_assoc, append-nil, Bool-cases,
}
use gateway_g_rpc.Proto.{EchoRequest, EchoResponse}
use gateway_g_rpc.Stream.{
  Event, message, broken, stream_response, channel_len, Exchange, begin, send, react, turn, Step,
  task, receive, hang_up, Run, here, next,
}

pub some-injective {ℓ} : {A : Type ℓ} {a b : A} → some a ≡ some b → a ≡ b
some-injective p = cc

-- What holds of the value that a computation has been shown to return holds of the one it returned.
pub determined {ℓ κ} :
    {A : Type ℓ} (P : A → Type κ) (o : Option A) (a b : A) → o ≡ some a → o ≡ some b → P a → P b
determined P o a b p q x = subst P (some-injective (sym p ∙ q)) x

module _ (delay : ℕ) where
  -- The responses that a stream asks for: one for each request in front of the first error.
  abbrev pub answers : List Event → List EchoResponse
  answers [] = []
  answers (broken ∷ rest) = []
  answers (message req ∷ rest) = stream_response delay req ∷ answers rest

  -- The responses that the task has still to send.
  abbrev pub pending : Exchange → List EchoResponse
  pending s = if s.is_running then answers s.input else []

  -- What was got and what stands in the channel are the first of the responses; behind them are those
  -- that the task has still to send, unless the receiver is gone. The channel is not overfull.
  pub record InOrder (events : List Event) (s : Exchange) : Type 0 where
    pub rest : List EchoResponse
    pub order : s.got ++ (s.queue ++ rest) ≡ answers events
    pub left : (s.is_open ≡ false) ⊎ (rest ≡ pending s)
    pub bounded : length s.queue ≤ channel_len

  stopped :
      (events : List Event) (s : Exchange) (i : InOrder events s) (input : List Event)
      → (s.is_open ≡ false) ⊎ (i.rest ≡ [])
      → InOrder events (record s { input = input; is_running = false })
  stopped events s i input left = record {
    rest = i.rest;
    order = i.order;
    left = left;
    bounded = i.bounded;
  }

  send-InOrder :
      (events : List Event) (req : EchoRequest) (input : List Event) (s s' : Exchange)
      → (i : InOrder events s)
      → (s.is_open ≡ false) ⊎ (i.rest ≡ stream_response delay req ∷ answers input)
      → s.is_running ≡ true
      → send delay req input s ≡ some s'
      → InOrder events s'
  send-InOrder events req input s s' i (inl closed) running sent =
      determined (InOrder events) (send delay req input s)
        (record s { input = input; is_running = false }) s' (rw closed) sent
        (stopped events s i input (inl closed))
  send-InOrder events req input s s' i (inr left) running sent = elim (Bool-cases s.is_open) [
    | inl opened ↦ elim (Bool-cases (ltb (length s.queue) channel_len)) [
      | inl room ↦
          determined (InOrder events) (send delay req input s)
            (record s { input = input; queue = s.queue ++ (stream_response delay req ∷ []) }) s'
            (rw (opened, room)) sent
            (record {
              rest = answers input;
              order =
                  ap (λ q. s.got ++ q)
                    (append_assoc s.queue (stream_response delay req ∷ []) (answers input)
                      ∙ ap (λ r. s.queue ++ r) (sym left))
                  ∙ i.order;
              left = inr (rw running);
              bounded = ground (arith, length-append s.queue (stream_response delay req ∷ []));
            })
      | inr full ↦ absurd (none-ne (sym (rw (opened, full)) ∙ sent))
    ]
    | inr closed ↦
        determined (InOrder events) (send delay req input s)
          (record s { input = input; is_running = false }) s' (rw closed) sent
          (stopped events s i input (inl closed))
  ]
    where
      none-ne : none ≡ some s' → ⊥
      none-ne p = cc

  react-InOrder :
      (events input : List Event) (s s' : Exchange)
      → (i : InOrder events s) → (s.is_open ≡ false) ⊎ (i.rest ≡ answers input)
      → s.is_running ≡ true
      → react delay input s ≡ some s'
      → InOrder events s'
  react-InOrder events [] s s' i left running p =
      determined (InOrder events) (react delay [] s) (record s { is_running = false }) s' refl p
        (stopped events s i s.input left)
  react-InOrder events (broken ∷ input) s s' i left running p =
      determined (InOrder events) (react delay (broken ∷ input) s)
        (record s { input = input; is_running = false }) s' refl p (stopped events s i input left)
  react-InOrder events (message req ∷ input) s s' i left running p =
      send-InOrder events req input s s' i left running p

  step-InOrder :
      (events : List Event) (s s' : Exchange)
      → InOrder events s
      → Step delay s s'
      → InOrder events s'
  unfolding turn
  step-InOrder events s s' i (task _ p) = elim (Bool-cases s.is_running) [
    | inl running ↦
        react-InOrder events s.input s s' i (left_of running i.left) running (sym (rw running) ∙ p)
    | inr idle ↦ absurd (none-ne (sym (rw idle) ∙ p))
  ]
    where
      none-ne : none ≡ some s' → ⊥
      none-ne q = cc

      left_of :
          s.is_running ≡ true
          → (s.is_open ≡ false) ⊎ (i.rest ≡ pending s)
          → (s.is_open ≡ false) ⊎ (i.rest ≡ answers s.input)
      left_of running (inl closed) = inl closed
      left_of running (inr e) = inr (e ∙ rw running)
  step-InOrder events s _ i (receive x q opened full) = record {
    rest = i.rest;
    order =
        append_assoc s.got (x ∷ []) (q ++ i.rest)
        ∙ ap (λ r. s.got ++ (r ++ i.rest)) (sym full)
        ∙ i.order;
    left = i.left;
    bounded = omega (arith, i.bounded, ap length full);
  }
  step-InOrder events s _ i (hang_up opened) = record {
    rest = i.rest;
    order = i.order;
    left = inl refl;
    bounded = i.bounded;
  }

  -- In every order of the steps of the task and the receiver, the receiver has got the first of the
  -- responses to the requests in front of the first error, in order and once; the channel holds the
  -- next ones, never more than 128.
  pub Run-InOrder :
      (events : List Event) (n : ℕ) (s : Exchange) → Run delay (begin events) n s → InOrder events s
  Run-InOrder events _ _ here = record {
    rest = answers events;
    order = refl;
    left = inr refl;
    bounded = omega arith;
  }
  Run-InOrder events _ s (next n t _ r st) = step-InOrder events t s (Run-InOrder events n t r) st

  -- A receiver that has stayed until the task has stopped and the channel is empty has got every
  -- response to the requests in front of the first error.
  pub Run-complete :
      (events : List Event) (n : ℕ) (s : Exchange)
      → Run delay (begin events) n s
      → s.is_open ≡ true
      → s.is_running ≡ false
      → s.queue ≡ []
      → s.got ≡ answers events
  Run-complete events n s r opened stopped_ drained =
      let i = Run-InOrder events n s r in
      sym (append-nil s.got)
      ∙ ap (λ q. s.got ++ q) (sym (nothing i.rest i.left) ∙ ap (λ q. q ++ i.rest) (sym drained))
      ∙ i.order
    where
      nothing : (rest : List EchoResponse) → (s.is_open ≡ false) ⊎ (rest ≡ pending s) → rest ≡ []
      nothing rest (inl closed) = absurd (differ (sym opened ∙ closed))
        where
          differ : true ≡ false → ⊥
          differ p = cc
      nothing rest (inr e) = e ∙ rw stopped_
