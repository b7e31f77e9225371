-- ===== src/Samples/Kernel.antt =====
-- Test data: a kernel with a table of counters, which meets what `EventKernel` asks.
use gateway_g_rpc.Prelude.{
  ℕ, zero, suc, ◌+◌, ◌≤◌, ◌<◌, ◌≡◌, ◌≢◌, refl, ap, Bool, true, false, Option, none, some, arith,
  leb, ◌==◌, if◌then◌else◌, ==_iff,
}
use gateway_g_rpc.EventFd.{EventKernel, Sys, returned, errno, eagain, ebadf, counter_max}

pub record Table : Type 0 where
  pub next : ℕ
  pub counters : ℕ → Option (Bool × ℕ)

abbrev pub put : Table → ℕ → Option (Bool × ℕ) → Table
put t fd c = record t { counters = λ j. if j == fd then c else t.counters j }

abbrev pub table_eventfd : Bool → Table → Table × Sys ℕ
table_eventfd semaphore t = (
  record { next = t.next + 1; counters = (put t t.next (some (semaphore, 0))).counters },
  returned t.next,
)

abbrev pub read_at : ℕ → Table → Option (Bool × ℕ) → Table × Sys (ℕ × ℕ)
read_at fd t none = (t, errno ebadf)
read_at fd t (some (b, zero)) = (t, errno eagain)
read_at fd t (some (false, suc n)) = (put t fd (some (false, 0)), returned (8, suc n))
read_at fd t (some (true, suc n)) = (put t fd (some (true, n)), returned (8, 1))

abbrev pub write_at : ℕ → ℕ → Table → Option (Bool × ℕ) → Table × Sys ℕ
write_at fd v t none = (t, errno ebadf)
write_at fd v t (some (b, n)) =
    if leb (n + v) counter_max then (put t fd (some (b, n + v)), returned 8) else (t, errno eagain)

pub le→leb : (a b : ℕ) → a ≤ b → leb a b ≡ true
le→leb a b h = ground arith

pub lt→leb-false : (a b : ℕ) → b < a → leb a b ≡ false
lt→leb-false a b h = ground arith

pub put_self : (t : Table) (fd : ℕ) (c : Option (Bool × ℕ)) → (put t fd c).counters fd ≡ c
put_self t fd c = rw ((==_iff fd fd).1 refl)

pub write_at-keeps :
    (fd other v : ℕ) (t : Table) (c : Option (Bool × ℕ))
    → other ≢ fd
    → (write_at fd v t c).0.counters other ≡ t.counters other
write_at-keeps fd other v t none h = refl
write_at-keeps fd other v t (some (b, n)) h = ground (arith, ==_iff other fd)

abbrev pub value : Sys ℕ → ℕ
value (returned n) = n
value (errno n) = 0

pub eventfd_zero_lem :
    (semaphore : Bool) (k k' : Table) (fd : ℕ)
    → table_eventfd semaphore k ≡ (k', returned fd)
    → k'.counters fd ≡ some (semaphore, 0)
eventfd_zero_lem semaphore k k' fd h =
    rw (← (ap (λ (q : Table × Sys ℕ). q.0.counters) h), ← (ap (λ (q : Table × Sys ℕ). value q.1) h))
      (put_self k k.next (some (semaphore, 0)))

abbrev pub table_kernel : EventKernel
table_kernel = record {
  Kernel = Table;
  counter = λ t fd. t.counters fd;
  eventfd = table_eventfd;
  read8 = λ fd t. read_at fd t (t.counters fd);
  write8 = λ fd v t. write_at fd v t (t.counters fd);
  close = λ fd t. put t fd none;
  eventfd_zero = eventfd_zero_lem;
  read-empty = λ k fd b h. rw h;
  read-counter = λ k fd n h. rw h (refl, put_self k fd (some (false, 0)));
  read-semaphore = λ k fd n h. rw h (refl, put_self k fd (some (true, n)));
  write-fits = λ k fd n v b h room.
      rw (h, le→leb (n + v) counter_max room) (refl, put_self k fd (some (b, n + v)));
  write-overflows = λ k fd n v b h full. rw (h, lt→leb-false (n + v) counter_max full);
  write-keeps = λ k fd other v h. write_at-keeps fd other v k (k.counters fd) h;
  read-closed = λ k fd h. rw h;
  write-closed = λ k fd v h. rw h;
  close-closed = λ k fd. put_self k fd none;
}

-- Descriptor 3 is a counter at zero, descriptor 4 a semaphore at zero.
abbrev pub table : Table
table = record {
  next = 5;
  counters = λ j. if j == 3 then some (false, 0) else if j == 4 then some (true, 0) else none;
}
