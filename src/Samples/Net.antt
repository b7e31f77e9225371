-- ===== src/Samples/Net.antt =====
-- Test data: sockets in a table of paths, which meet what `Sockets` asks.
use Prim.Native.String.{String}
use text.Mathlib.Text.{◌==◌ as str_eq}
use text.Mathlib.TextEquality.{eq_iff}
use gateway_g_rpc.Prelude.{
  ℕ, ◌+◌, ◌≡◌, refl, sym, ap, ◌∙◌, Option, none, some, ◌==◌, if◌then◌else◌, ==_iff,
}
use gateway_g_rpc.EventFd.{Sys, returned, errno}
use gateway_g_rpc.Startup.Sockets.{Sockets}

pub record Table : Type 0 where
  pub next : ℕ
  pub bound : String → Option ℕ
  pub peers : ℕ → Option ℕ

abbrev pub bind_at : String → Table → Option ℕ → Table × Sys ℕ
bind_at path t (some l) = (t, errno 98)
bind_at path t none = (
  record t { next = t.next + 1; bound = λ p. if str_eq p path then some t.next else t.bound p },
  returned t.next,
)

abbrev pub connect_at : Table → Option ℕ → Table × Sys ℕ
connect_at t none = (t, errno 2)
connect_at t (some l) = (
  record t { next = t.next + 1; peers = λ c. if c == t.next then some l else t.peers c },
  returned t.next,
)

abbrev pub value : Sys ℕ → ℕ
value (returned n) = n
value (errno n) = 0

pub bind_at-listens :
    (n n' : Table) (path : String) (o : Option ℕ) (l : ℕ)
    → bind_at path n o ≡ (n', returned l)
    → n'.bound path ≡ some l
bind_at-listens n n' path (some k) l h = absurd (refused (ap (λ (q : Table × Sys ℕ). q.1) h))
  where
    refused : errno 98 ≡ returned l → ⊥
    refused q = cc
bind_at-listens n n' path none l h =
    rw
      (
        ← (ap (λ (q : Table × Sys ℕ). q.0.bound) h),
        ← (ap (λ (q : Table × Sys ℕ). value q.1) h),
        (eq_iff path path).1 refl,
      )
      refl

pub connect_at-reaches :
    (n n' : Table) (l c : ℕ) → connect_at n (some l) ≡ (n', returned c) → n'.peers c ≡ some l
connect_at-reaches n n' l c h =
    rw
      (
        ← (ap (λ (q : Table × Sys ℕ). q.0.peers) h),
        ← (ap (λ (q : Table × Sys ℕ). value q.1) h),
        (==_iff n.next n.next).1 refl,
      )
      refl

abbrev pub net : Sockets
net = record {
  Net = Table;
  listener = λ t path. t.bound path;
  peer = λ t c. t.peers c;
  remove_file = λ path t. record t { bound = λ p. if str_eq p path then none else t.bound p };
  bind = λ path t. bind_at path t (t.bound path);
  connect_to = λ path t. connect_at t (t.bound path);
  bind-listens = λ n n' path l h. bind_at-listens n n' path (n.bound path) l h;
  connect-reaches =
      λ n n' path l c e h. connect_at-reaches n n' l c (ap (connect_at n) (sym e) ∙ h);
  connect-missing = λ n path e. (2, ap (connect_at n) e);
}
