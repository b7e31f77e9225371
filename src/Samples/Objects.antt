-- ===== src/Samples/Objects.antt =====
-- Test data: a system with named objects and descriptors, which meets what `ShmOs` asks.
use Prim.Native.String.{String}
use text.Mathlib.Text.{◌==◌ as str_eq}
use text.Mathlib.TextEquality.{eq_iff}
use gateway_g_rpc.Prelude.{
  ℕ, ◌+◌, ◌≡◌, ◌≢◌, refl, sym, ap, ◌∙◌, Option, none, some, arith, ◌==◌, if◌then◌else◌, ==_iff,
}
use gateway_g_rpc.Ring.{Mapping}
use gateway_g_rpc.EventFd.{Sys, returned, errno, ebadf}
use gateway_g_rpc.Setup.{ShmOs, zeros, eexist, enoent}

pub record Files : Type 0 where
  pub next : ℕ
  pub files : String → Option Mapping
  pub fds : ℕ → Option String

abbrev pub put_file : Files → String → Mapping → Files
put_file os name m = record os { files = λ n. if str_eq n name then some m else os.files n }

abbrev pub put_fd : Files → String → Files
put_fd os name = record os {
  next = os.next + 1;
  fds = λ n. if n == os.next then some name else os.fds n;
}

abbrev pub new_at : String → Files → Option Mapping → Files × Sys ℕ
new_at name os none = (put_fd (put_file os name (zeros 0)) name, returned os.next)
new_at name os (some m) = (os, errno eexist)

abbrev pub rw_at : String → Files → Option Mapping → Files × Sys ℕ
rw_at name os none = (os, errno enoent)
rw_at name os (some m) = (put_fd os name, returned os.next)

abbrev pub truncate_at : ℕ → Files → Option String → Files × Sys (Unit {0})
truncate_at n os none = (os, errno ebadf)
truncate_at n os (some name) = (put_file os name (zeros n), returned tt)

abbrev pub content_at : Option Mapping → Sys Mapping
content_at none = errno ebadf
content_at (some m) = returned m

abbrev pub map_at : Files → Option String → Sys Mapping
map_at os none = errno ebadf
map_at os (some name) = content_at (os.files name)

abbrev pub store_at : Mapping → Files → Option String → Files
store_at m os none = os
store_at m os (some name) = put_file os name m

pub put_file_self :
    (os : Files) (name : String) (m : Mapping) → (put_file os name m).files name ≡ some m
put_file_self os name m = rw ((eq_iff name name).1 refl)

pub put_fd_self : (os : Files) (name : String) → (put_fd os name).fds os.next ≡ some name
put_fd_self os name = rw ((==_iff os.next os.next).1 refl)

pub put_file_other :
    (os : Files) (name other : String) (m : Mapping)
    → other ≢ name
    → (put_file os name m).files other ≡ os.files other
put_file_other os name other m h = ground (arith, eq_iff other name)

abbrev pub number : Sys ℕ → ℕ
number (returned n) = n
number (errno n) = 0

pub new_exists_at :
    (os : Files) (name : String) (r : Option Mapping)
    → r ≢ none
    → new_at name os r ≡ (os, errno eexist)
new_exists_at os name none h = absurd (h refl)
new_exists_at os name (some m) h = refl

pub new_names_at :
    (os os' : Files) (name : String) (fd : ℕ) (r : Option Mapping)
    → new_at name os r ≡ (os', returned fd)
    → (os'.fds fd ≡ some name) × (os'.files name ≡ some (zeros 0))
new_names_at os os' name fd none h =
    rw (← (ap (λ (q : Files × Sys ℕ). q.0) h), ← (ap (λ (q : Files × Sys ℕ). number q.1) h))
      (put_fd_self (put_file os name (zeros 0)) name, put_file_self os name (zeros 0))
new_names_at os os' name fd (some m) h = absurd (failed (ap (λ (q : Files × Sys ℕ). q.1) h))
  where
    failed : errno eexist ≡ returned fd → ⊥
    failed q = cc

pub rw_names_at :
    (os os' : Files) (name : String) (fd : ℕ) (r : Option Mapping)
    → rw_at name os r ≡ (os', returned fd)
    → (os'.fds fd ≡ some name) × (os'.files name ≡ os.files name)
rw_names_at os os' name fd none h = absurd (failed (ap (λ (q : Files × Sys ℕ). q.1) h))
  where
    failed : errno enoent ≡ returned fd → ⊥
    failed q = cc
rw_names_at os os' name fd (some m) h =
    rw (← (ap (λ (q : Files × Sys ℕ). q.0) h), ← (ap (λ (q : Files × Sys ℕ). number q.1) h))
      (put_fd_self os name, refl)

pub new_keeps_at :
    (os os' : Files) (name other : String) (fd : ℕ) (r : Option Mapping)
    → other ≢ name
    → new_at name os r ≡ (os', returned fd)
    → os'.files other ≡ os.files other
new_keeps_at os os' name other fd none ne h =
    rw (← (ap (λ (q : Files × Sys ℕ). q.0) h)) (put_file_other os name other (zeros 0) ne)
new_keeps_at os os' name other fd (some m) ne h =
    absurd (failed (ap (λ (q : Files × Sys ℕ). q.1) h))
  where
    failed : errno eexist ≡ returned fd → ⊥
    failed q = cc

pub truncate_keeps_at :
    (os os' : Files) (name other : String) (n : ℕ)
    → other ≢ name
    → truncate_at n os (some name) ≡ (os', returned tt)
    → (os'.fds ≡ os.fds) × (os'.files other ≡ os.files other)
truncate_keeps_at os os' name other n ne h =
    rw (← (ap (λ (q : Files × Sys (Unit {0})). q.0) h))
      (refl, put_file_other os name other (zeros n) ne)

pub truncated_at :
    (os os' : Files) (name : String) (n : ℕ)
    → truncate_at n os (some name) ≡ (os', returned tt)
    → (os'.fds ≡ os.fds) × (os'.files name ≡ some (zeros n))
truncated_at os os' name n h =
    rw (← (ap (λ (q : Files × Sys (Unit {0})). q.0) h)) (refl, put_file_self os name (zeros n))

pub mapped_at : (r : Option Mapping) (m : Mapping) → content_at r ≡ returned m → r ≡ some m
mapped_at none m h = absurd (failed h)
  where
    failed : errno ebadf ≡ returned m → ⊥
    failed q = cc
mapped_at (some m') m h = ap some (same h)
  where
    same : returned m' ≡ returned m → m' ≡ m
    same q = cc

abbrev pub sys : ShmOs
sys = record {
  Os = Files;
  object = λ os name. os.files name;
  names = λ os fd. os.fds fd;
  shm_open_new = λ name os. new_at name os (os.files name);
  shm_open_rw = λ name os. rw_at name os (os.files name);
  ftruncate = λ fd n os. truncate_at n os (os.fds fd);
  map_mut = λ fd os. map_at os (os.fds fd);
  store = λ fd m os. store_at m os (os.fds fd);
  new-exists = λ os name h. new_exists_at os name (os.files name) h;
  new-names = λ os os' name fd h. new_names_at os os' name fd (os.files name) h;
  rw-missing = λ os name h. rw h;
  rw-names = λ os os' name fd h. rw_names_at os os' name fd (os.files name) h;
  ftruncate-zeros = λ os os' name fd n named fresh h.
      let (same, zeroed) = truncated_at os os' name n (sym (ap (truncate_at n os) named) ∙ h) in
      (ap (λ (f : ℕ → Option String). f fd) same ∙ named, zeroed);
  map-object = λ os name fd m named h. mapped_at (os.files name) m (sym (ap (map_at os) named) ∙ h);
  store-object = λ os name fd m named. rw named (put_file_self os name m);
  new-keeps = λ os os' name other fd ne h. new_keeps_at os os' name other fd (os.files name) ne h;
  ftruncate-keeps = λ os os' name other fd n named ne h.
      let (same, kept) =
        truncate_keeps_at os os' name other n ne (sym (ap (truncate_at n os) named) ∙ h) in
      (ap (λ (f : ℕ → Option String). f fd) same ∙ named, kept);
  store-keeps = λ os name other fd m named ne. rw named (put_file_other os name other m ne);
  munmap = λ _ os. os;
  munmap-keeps = λ os name m. refl;
}

-- No object, and descriptor 3 is the next.
abbrev pub no_files : Files
no_files = record { next = 3; files = λ _. none; fds = λ _. none }
