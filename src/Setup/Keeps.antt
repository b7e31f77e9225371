-- ===== src/Setup/Keeps.antt =====
-- `create` leaves the objects of other names alone.
use Prim.Native.String.{String}
use gateway_g_rpc.Prelude.{ℕ, some, ◌≡◌, ◌≢◌, refl, sym, ap, ◌∙◌, add_usize}
use gateway_g_rpc.Shm.{ShmError, io, nix, Outcome, ok, err, ShmConfig}
use gateway_g_rpc.EventFd.{Sys, returned, errno}
use gateway_g_rpc.Ring.{Mapping, SharedMemoryRingBuffer, header_size}
use gateway_g_rpc.Setup.{ShmOs, initialised, create_mapped, create_sized, create_opened, create}

module _ (sys : ShmOs) (name other : String) (config : ShmConfig) (differ : other ≢ name)
    (s : SharedMemoryRingBuffer) where
  open sys use {
    Os, object, names, shm_open_new, ftruncate, map_mut, store, new-names, new-keeps,
    ftruncate-keeps, store-keeps,
  }

  err-ne-ok :
      (os os' : Os) (e : ShmError)
      → ◌≡◌ {A = Os × Outcome SharedMemoryRingBuffer} (os, err e) (os', ok s)
      → ⊥
  err-ne-ok os os' e h = (go (ap (λ (q : Os × Outcome SharedMemoryRingBuffer). q.1) h))
    where
      go : err e ≡ ok s → ⊥
      go q = cc

  mapped-keeps :
      (fd : ℕ) (os os' : Os) (r : Sys Mapping)
      → names os fd ≡ some name
      → create_mapped sys config fd os r ≡ (os', ok s)
      → object os' other ≡ object os other
  mapped-keeps fd os os' (errno e) named h = absurd (err-ne-ok os os' (io e) h)
  mapped-keeps fd os os' (returned mmap) named h =
      ap (λ k. object k other) (sym (ap (λ (q : Os × Outcome SharedMemoryRingBuffer). q.0) h))
      ∙ store-keeps os name other fd (initialised sys mmap config) named differ

  sized-keeps :
      (fd : ℕ) (os os' : Os) (r : Os × Sys (Unit {0}))
      → ftruncate fd (add_usize header_size config.buffer_size) os ≡ r
      → names os fd ≡ some name
      → create_sized sys config fd r ≡ (os', ok s)
      → object os' other ≡ object os other
  sized-keeps fd os os' (os₁, errno e) p named h = absurd (err-ne-ok os₁ os' (nix e) h)
  sized-keeps fd os os' (os₁, returned tt) p named h =
      let (named', kept) =
        ftruncate-keeps os os₁ name other fd (add_usize header_size config.buffer_size) named differ
          p in
      mapped-keeps fd os₁ os' (map_mut fd os₁) named' h ∙ kept

  opened-keeps :
      (os os' : Os) (r : Os × Sys ℕ)
      → shm_open_new name os ≡ r
      → create_opened sys config r ≡ (os', ok s)
      → object os' other ≡ object os other
  opened-keeps os os' (os₁, errno e) p h = absurd (err-ne-ok os₁ os' (nix e) h)
  opened-keeps os os' (os₁, returned fd) p h =
      sized-keeps fd os₁ os' (ftruncate fd (add_usize header_size config.buffer_size) os₁) refl
        (new-names os os₁ name fd p).0 h
      ∙ new-keeps os os₁ name other fd differ p

  pub create-keeps :
      (os os' : Os) → create sys name config os ≡ (os', ok s) → object os' other ≡ object os other
  unfolding create
  create-keeps os os' h = opened-keeps os os' (shm_open_new name os) refl h
