-- ===== src/System/Errors.antt =====
-- The errors that calls return from their starts (gateway/src/shm_transport_eventfd.rs and
-- gateway/src/shm_transport_uds.rs, the `?` before `rx.await`).
use Prim.Native.String.{String}
use text.Mathlib.Text.{◌==◌ as str_eq}
use text.Mathlib.TextEquality.{eq_iff}
use mathlib.Core.List.{Memᴰ}
use gateway_g_rpc.Prelude.{
  ℕ, ◌≡◌, ◌≢◌, refl, sym, ap, subst, Bool, true, false, Option, none, some, List, [], ◌∷◌, ◌⊎◌, inl,
  inr, Bool-cases, Option-cases, if◌then◌else◌,
}
use gateway_g_rpc.Proto.{EchoResponse}
use gateway_g_rpc.Transport.{Call, CallError, done, failed, signal_failed}
use gateway_g_rpc.Mux.{Gateway, Calls}
use gateway_g_rpc.Mux.Await.{await_call, find_sent, has_sender, received_or}
use gateway_g_rpc.Server.{task_response}
use gateway_g_rpc.System.{System, note, error_of, call_result, after_call}
use gateway_g_rpc.System.Count.{Started}

-- How the start of a call ends, by whether its request has been written: it is done, or it fails at
-- the signal, or it has failed before.
pub data Ends : Bool → Call (Unit {0}) → Type 0 where
  sent : Ends true (done tt)
  unsignalled : Ends true (failed signal_failed)
  unsent : (e : CallError) → Ends false (failed e)

error_of-member :
    (id : String) (e : CallError) (errors : List (String × CallError))
    → error_of id errors ≡ some e
    → Memᴰ (id, e) errors
unfolding error_of
error_of-member id e [] h = cc
error_of-member id e ((i, x) ∷ errors) h = elim (Bool-cases (str_eq i id)) [
  | inl same ↦
      let here : x ≡ e = first (by_test true same) in
      let own : i ≡ id = (eq_iff i id).0 same in Memᴰ.head (rw (own, here) refl)
  | inr other ↦ Memᴰ.tail (error_of-member id e errors (by_test false other))
]
  where
    by_test : (t : Bool) → str_eq i id ≡ t → (if t then some x else error_of id errors) ≡ some e
    by_test t q = subst (λ b. (if b then some x else error_of id errors) ≡ some e) q h

    first : some x ≡ some e → x ≡ e
    first q = cc

-- The channel of a call does not give the error of a signal.
pub await-unsignalled : (tx : ℕ) (s : Calls) → await_call tx s ≢ failed signal_failed
unfolding await_call
await-unsignalled tx s = go (find_sent tx s.sent) (has_sender tx s.pending_requests)
  where
    go : (o : Option EchoResponse) (alive : Bool) → received_or o alive ≢ failed signal_failed
    go (some r) alive e = cc
    go none true e = cc
    go none false e = cc

module _ (K : Type 0) where
  -- A call that has failed at its start has failed at the signal, or its request was not written.
  abbrev pub Erred : System K → Type 0
  Erred s =
      (id : String) (e : CallError) → Memᴰ (id, e) s.errors → Memᴰ id s.lost ⊎ (e ≡ signal_failed)

  note-keeps :
      (b : Bool) (id i : String) (lost : List String) → Memᴰ i lost → Memᴰ i (note b id lost)
  note-keeps true id i lost m = m
  note-keeps false id i lost m = Memᴰ.tail m

  still :
      (b : Bool) (id i : String) (lost : List String) (e : CallError)
      → Memᴰ i lost ⊎ (e ≡ signal_failed)
      → Memᴰ i (note b id lost) ⊎ (e ≡ signal_failed)
  still b id i lost e (inl m) = inl (note-keeps b id i lost m)
  still b id i lost e (inr h) = inr h

  pub lost-Erred :
      (s s' : System K) (b : Bool) (id : String)
      → Erred s
      → s'.errors ≡ s.errors
      → s'.lost ≡ note b id s.lost
      → Erred s'
  lost-Erred s s' b id h same more i e m =
      subst (λ lost. Memᴰ i lost ⊎ (e ≡ signal_failed)) (sym more)
        (still b id i s.lost e (h i e (subst (λ errors. Memᴰ (i, e) errors) same m)))

  pub called-Erred :
      (s : System K) (g : Gateway) (k : K) (c : Started) (b : Bool) (result : Call (Unit {0}))
      → Erred s
      → Ends b result
      → Erred (after_call K g k result b c s)
  called-Erred s g k c _ _ h sent i e m = h i e m
  called-Erred s g k c _ _ h unsignalled i e (Memᴰ.head q) =
      inr (ap (λ (x : String × CallError). x.1) q)
  called-Erred s g k c _ _ h unsignalled i e (Memᴰ.tail m) = h i e m
  called-Erred s g k c _ _ h (unsent x) i e (Memᴰ.head q) =
      inl (Memᴰ.head (ap (λ (x : String × CallError). x.0) q))
  called-Erred s g k c _ _ h (unsent x) i e (Memᴰ.tail m) = still false c.id i s.lost e (h i e m)

  -- How a call has ended: it is lost, or it has returned the error of its signal, or the response to
  -- its own request.
  abbrev pub Settled : Started → System K → Type 0
  Settled c s =
      Memᴰ c.id s.lost
      ⊎ ((call_result K c s ≡ failed signal_failed)
          ⊎ ((processing : ℕ) × (call_result K c s ≡ done (task_response processing c.request))))

  -- A call whose channel has been settled has returned.
  pub call_result-Settled :
      (s : System K) (c : Started)
      → Erred s
      → Memᴰ c.id s.lost
        ⊎ ((processing : ℕ) × (await_call c.tx s.gateway.calls
              ≡ done (task_response processing c.request)))
      → Settled c s
  call_result-Settled s c h awaited = elim (Option-cases (error_of c.id s.errors)) [
    | inl good ↦ elim awaited [
      | inl m ↦ inl m
      | inr (processing, a) ↦ inr (inr (processing, rw good a))
    ]
    | inr (e, bad) ↦ elim (h c.id e (error_of-member c.id e s.errors bad)) [
      | inl m ↦ inl m
      | inr own ↦ inr (inl (rw bad (ap failed own)))
    ]
  ]
