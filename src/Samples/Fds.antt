-- ===== src/Samples/Fds.antt =====
-- Test data: two processes with tables of objects, and a queue of messages between them.
use gateway_g_rpc.Prelude.{
  ℕ, zero, suc, ◌≡◌, refl, sym, ap, ◌∙◌, Option, none, some, List, [], ◌∷◌, ◌++◌, length, get_elem?,
}
use gateway_g_rpc.Shm.{ok}
use gateway_g_rpc.EventFd.{Sys, returned, errno, eagain, ebadf}
use gateway_g_rpc.Handshake.{FdSocket, Events, send_eventfd, offer}

pub record Ends : Type 0 where
  pub server : List ℕ
  pub gateway : List ℕ
  pub queue : List (List ℕ)

abbrev pub send_at : Ends → Option ℕ → Ends × Sys (Unit {0})
send_at k none = (k, errno ebadf)
send_at k (some o) = (record k { queue = k.queue ++ ((o ∷ []) ∷ []) }, returned tt)

abbrev pub recv_at : Ends → List (List ℕ) → Ends × Sys (List ℕ)
recv_at k [] = (k, errno eagain)
recv_at k ([] ∷ ms) = (record k { queue = ms }, returned [])
recv_at k ((o ∷ os) ∷ ms) =
    (record k { queue = ms; gateway = k.gateway ++ (o ∷ []) }, returned (length k.gateway ∷ []))

pub got : (xs : List ℕ) (o : ℕ) → get_elem? (xs ++ (o ∷ [])) (length xs) ≡ some o
got [] o = refl
got (x ∷ xs) o = got xs o

pub kept : (xs ys : List ℕ) (i o : ℕ) → get_elem? xs i ≡ some o → get_elem? (xs ++ ys) i ≡ some o
kept [] ys i o h = absurd (nothing h)
  where
    nothing : none ≡ some o → ⊥
    nothing p = cc
kept (x ∷ xs) ys zero o h = h
kept (x ∷ xs) ys (suc i) o h = kept xs ys i o h

pub sends :
    (k k' : Ends) (r : Option ℕ) (o : ℕ)
    → r ≡ some o
    → send_at k r ≡ (k', returned tt)
    → k'.queue ≡ k.queue ++ ((o ∷ []) ∷ [])
sends k k' r o e h =
    sym (ap (λ (q : Ends × Sys (Unit {0})). q.0.queue) (sym (ap (send_at k) e) ∙ h))

pub keeps : (k k' : Ends) (r : Option ℕ) → send_at k r ≡ (k', returned tt) → k'.server ≡ k.server
keeps k k' none h = sym (ap (λ (q : Ends × Sys (Unit {0})). q.0.server) h)
keeps k k' (some o) h = sym (ap (λ (q : Ends × Sys (Unit {0})). q.0.server) h)

pub ready :
    (k : Ends) (m : List ℕ) (ms q : List (List ℕ)) → q ≡ m ∷ ms → (recv_at k q).1 ≡ errno eagain → ⊥
ready k m ms [] e h = absurd (differ e)
  where
    differ : ◌≡◌ {A = List (List ℕ)} [] (m ∷ ms) → ⊥
    differ p = cc
ready k m ms ([] ∷ q) e h = absurd (differ h)
  where
    differ : ◌≡◌ {A = Sys (List ℕ)} (returned []) (errno eagain) → ⊥
    differ p = cc
ready k m ms ((o ∷ os) ∷ q) e h = absurd (differ h)
  where
    differ : ◌≡◌ {A = Sys (List ℕ)} (returned (length k.gateway ∷ [])) (errno eagain) → ⊥
    differ p = cc

pub takes :
    (k k' : Ends) (o : ℕ) (ms : List (List ℕ)) (fds : List ℕ)
    → recv_at k ((o ∷ []) ∷ ms) ≡ (k', returned fds)
    → (fd : ℕ) × (fds ≡ fd ∷ []) × (get_elem? k'.gateway fd ≡ some o) × (k'.queue ≡ ms)
takes k k' o ms fds h = (
  length k.gateway,
  sym (same (ap (λ (q : Ends × Sys (List ℕ)). q.1) h)),
  ap (λ (xs : List ℕ). get_elem? xs (length k.gateway))
        (sym (ap (λ (q : Ends × Sys (List ℕ)). q.0.gateway) h))
      ∙ got k.gateway o,
  sym (ap (λ (q : Ends × Sys (List ℕ)). q.0.queue) h),
)
  where
    same :
        ◌≡◌ {A = Sys (List ℕ)} (returned (length k.gateway ∷ [])) (returned fds)
        → length k.gateway ∷ [] ≡ fds
    same p = cc

pub stays :
    (k k' : Ends) (q : List (List ℕ)) (fds : List ℕ) (fd o : ℕ)
    → recv_at k q ≡ (k', returned fds)
    → get_elem? k.gateway fd ≡ some o
    → get_elem? k'.gateway fd ≡ some o
stays k k' [] fds fd o h e = ap (λ (r : Ends × Sys (List ℕ)). get_elem? r.0.gateway fd) (sym h) ∙ e
stays k k' ([] ∷ q) fds fd o h e =
    ap (λ (r : Ends × Sys (List ℕ)). get_elem? r.0.gateway fd) (sym h) ∙ e
stays k k' ((p ∷ ps) ∷ q) fds fd o h e =
    ap (λ (r : Ends × Sys (List ℕ)). get_elem? r.0.gateway fd) (sym h)
    ∙ kept k.gateway (p ∷ []) fd o e

abbrev pub socket : FdSocket
socket = record {
  Kernel = Ends;
  server_object = λ k fd. get_elem? k.server fd;
  gateway_object = λ k fd. get_elem? k.gateway fd;
  in_flight = λ k. k.queue;
  sendmsg = λ fd k. send_at k (get_elem? k.server fd);
  recvmsg = λ k. recv_at k k.queue;
  send-queues = λ k k' fd o e h. sends k k' (get_elem? k.server fd) o e h;
  send-keeps = λ k k' fd other h.
      ap (λ (xs : List ℕ). get_elem? xs other) (keeps k k' (get_elem? k.server fd) h);
  recv-ready = λ k m ms e h. ready k m ms k.queue e h;
  recv-takes = λ k k' o ms fds e h. takes k k' o ms fds (sym (ap (recv_at k) e) ∙ h);
  recv-keeps = λ k k' fds fd o h e. stays k k' k.queue fds fd o h e;
}

-- The server's descriptors 5 and 6 are the objects 70 and 80; the gateway has one object already.
abbrev pub unsent : Ends
unsent = record { server = 0 ∷ 0 ∷ 0 ∷ 0 ∷ 60 ∷ 70 ∷ 80 ∷ []; gateway = 90 ∷ []; queue = [] }

abbrev pub after_offer : Ends
after_offer = record unsent { queue = (70 ∷ []) ∷ (80 ∷ []) ∷ [] }

abbrev pub server_events : Events
server_events = record { request_event = 5; response_event = 6 }

pub offers : offer socket server_events unsent ≡ (after_offer, ok tt)
unfolding offer send_eventfd
offers = refl
