-- ===== src/Setup/Objects.antt =====
-- What `create` leaves, and what `open` finds of it.
use Prim.Native.String.{String}
use gateway_g_rpc.Prelude.{
  ℕ, ◌^◌, ◌≤◌, ◌<◌, ◌≡◌, ◌⊎◌, inl, inr, refl, sym, ap, subst, ◌∙◌, false, none, some, [], arith,
  add_usize,
}
use gateway_g_rpc.Shm.{io, nix, invalid_state, Outcome, ok, err, ShmConfig}
use gateway_g_rpc.EventFd.{Sys, returned, errno}
use gateway_g_rpc.Ring.{Mapping, SharedMemoryRingBuffer, header_size, new_header, is_valid}
use gateway_g_rpc.Ring.Inv.{Holds}
use gateway_g_rpc.Setup.{
  ShmOs, zeros, eexist, enoent, with_mapping, initialised, create_mapped, create_sized,
  create_opened, create, checked, open_mapped, open_opened, open_existing, drop_ring,
}

module _ (sys : ShmOs) where
  open sys use {
    Os, object, names, shm_open_new, shm_open_rw, ftruncate, map_mut, store, new-exists, new-names,
    rw-missing, rw-names, ftruncate-zeros, map-object, store-object, munmap, munmap-keeps,
  }

  -- The ring that `create` makes.
  abbrev pub made : ShmConfig → SharedMemoryRingBuffer
  made config =
      with_mapping sys (initialised sys (zeros (add_usize header_size config.buffer_size)) config)
        config

  -- What a `create` that succeeds returns, and leaves under the name.
  pub record IsMade (name : String) (config : ShmConfig) (os' : Os) (s : SharedMemoryRingBuffer)
      : Type 0 where
    pub ring : s ≡ made config
    pub shared : object os' name ≡ some s.mmap

  module _ (name : String) (config : ShmConfig) where
    mapped-IsMade :
        (fd : ℕ) (os os' : Os) (r : Sys Mapping) (s : SharedMemoryRingBuffer)
        → map_mut fd os ≡ r
        → names os fd ≡ some name
        → object os name ≡ some (zeros (add_usize header_size config.buffer_size))
        → create_mapped sys config fd os r ≡ (os', ok s)
        → IsMade name config os' s
    mapped-IsMade fd os os' (errno e) s p named zeroed h =
        absurd (not_ok (ap (λ (q : Os × Outcome SharedMemoryRingBuffer). q.1) h))
      where
        not_ok : err (io e) ≡ ok s → ⊥
        not_ok q = cc
    mapped-IsMade fd os os' (returned mmap) s p named zeroed h = record {
      ring = ring_eq;
      shared =
          ap (λ k. object k name) (sym (ap (λ (q : Os × Outcome SharedMemoryRingBuffer). q.0) h))
          ∙ store-object os name fd (initialised sys mmap config) named
          ∙ ap some (ap SharedMemoryRingBuffer.mmap same_ring);
    }
      where
        same_mapping : mmap ≡ zeros (add_usize header_size config.buffer_size)
        same_mapping = injective (sym (map-object os name fd mmap named p) ∙ zeroed)
          where
            injective :
                some mmap ≡ some (zeros (add_usize header_size config.buffer_size))
                → mmap ≡ zeros (add_usize header_size config.buffer_size)
            injective q = cc

        same_ring : with_mapping sys (initialised sys mmap config) config ≡ s
        same_ring = injective (ap (λ (q : Os × Outcome SharedMemoryRingBuffer). q.1) h)
          where
            injective :
                ok (with_mapping sys (initialised sys mmap config) config) ≡ ok s
                → with_mapping sys (initialised sys mmap config) config ≡ s
            injective q = cc

        ring_eq : s ≡ made config
        ring_eq =
            sym same_ring
            ∙ ap (λ m. with_mapping sys (initialised sys m config) config) same_mapping

    sized-IsMade :
        (fd : ℕ) (os os' : Os) (r : Os × Sys (Unit {0})) (s : SharedMemoryRingBuffer)
        → ftruncate fd (add_usize header_size config.buffer_size) os ≡ r
        → names os fd ≡ some name
        → object os name ≡ some (zeros 0)
        → create_sized sys config fd r ≡ (os', ok s)
        → IsMade name config os' s
    sized-IsMade fd os os' (os₁, errno e) s p named fresh h =
        absurd (not_ok (ap (λ (q : Os × Outcome SharedMemoryRingBuffer). q.1) h))
      where
        not_ok : err (nix e) ≡ ok s → ⊥
        not_ok q = cc
    sized-IsMade fd os os' (os₁, returned tt) s p named fresh h =
        let (named', zeroed) =
          ftruncate-zeros os os₁ name fd (add_usize header_size config.buffer_size) named fresh p in
        mapped-IsMade fd os₁ os' (map_mut fd os₁) s refl named' zeroed h

    opened-IsMade :
        (os os' : Os) (r : Os × Sys ℕ) (s : SharedMemoryRingBuffer)
        → shm_open_new name os ≡ r
        → create_opened sys config r ≡ (os', ok s)
        → IsMade name config os' s
    opened-IsMade os os' (os₁, errno e) s p h =
        absurd (not_ok (ap (λ (q : Os × Outcome SharedMemoryRingBuffer). q.1) h))
      where
        not_ok : err (nix e) ≡ ok s → ⊥
        not_ok q = cc
    opened-IsMade os os' (os₁, returned fd) s p h =
        let (named, fresh) = new-names os os₁ name fd p in
        sized-IsMade fd os₁ os' (ftruncate fd (add_usize header_size config.buffer_size) os₁) s refl
          named fresh h

    pub create-IsMade :
        (os os' : Os) (s : SharedMemoryRingBuffer)
        → create sys name config os ≡ (os', ok s)
        → IsMade name config os' s
    unfolding create
    create-IsMade os os' s h = opened-IsMade os os' (shm_open_new name os) s refl h

    pub made-Holds : 0 < config.buffer_size → config.buffer_size ≤ 2 ^ 32 → Holds (made config) []
    unfolding new_header
    made-Holds pos small = record { valid = omega arith; bytes = refl }

    -- A call failed for a reason of the system.
    abbrev pub SystemError : Outcome SharedMemoryRingBuffer → Type 0
    SystemError r = (e : ℕ) × ((r ≡ err (nix e)) ⊎ (r ≡ err (io e)))

    mapped_lem :
        (fd : ℕ) (os : Os) (r : Sys Mapping) (m : Mapping)
        → map_mut fd os ≡ r
        → names os fd ≡ some name
        → object os name ≡ some m
        → SystemError (open_mapped sys config r) ⊎ (open_mapped sys config r ≡ checked sys config m)
    mapped_lem fd os (errno e) m p named shared = inl (e, inr refl)
    mapped_lem fd os (returned mmap) m p named shared =
        inr (ap (checked sys config) (same (sym (map-object os name fd mmap named p) ∙ shared)))
      where
        same : some mmap ≡ some m → mmap ≡ m
        same q = cc

    opened_lem :
        (os : Os) (r : Os × Sys ℕ) (m : Mapping)
        → shm_open_rw name os ≡ r
        → object os name ≡ some m
        → SystemError (open_opened sys config r).1
          ⊎ ((open_opened sys config r).1 ≡ checked sys config m)
    opened_lem os (os₁, errno e) m p shared = inl (e, inl refl)
    opened_lem os (os₁, returned fd) m p shared =
        let (named, kept) = rw-names os os₁ name fd p in
        mapped_lem fd os₁ (map_mut fd os₁) m refl named (kept ∙ shared)

    open_lem :
        (os : Os) (m : Mapping)
        → object os name ≡ some m
        → SystemError (open_existing sys name config os).1
          ⊎ ((open_existing sys name config os).1 ≡ checked sys config m)
    unfolding open_existing
    open_lem os m shared = opened_lem os (shm_open_rw name os) m refl shared

    checked-made :
        (config' : ShmConfig)
        → config'.buffer_size ≤ 2 ^ 32
        → checked sys config (made config').mmap ≡ ok (with_mapping sys (made config').mmap config)
    unfolding new_header is_valid
    checked-made config' small = ground arith

    -- An object whose header does not carry the magic number, such as one whose creator has not
    -- written it yet, is never opened.
    pub open-refuses :
        (os : Os) (m : Mapping)
        → object os name ≡ some m
        → header_size ≤ m.len
        → is_valid m.header ≡ false
        → SystemError (open_existing sys name config os).1
          ⊎ ((open_existing sys name config os).1 ≡ err invalid_state)
    open-refuses os m shared long invalid = elim (open_lem os m shared) [
      | inl e ↦ inl e
      | inr p ↦ inr (p ∙ ground arith)
    ]

  pub made_again :
      (config config' : ShmConfig)
      → 0 < config.buffer_size
      → config.buffer_size ≤ 2 ^ 32
      → Holds (with_mapping sys (made config).mmap config') []
  unfolding new_header
  made_again config config' pos small = record { valid = omega arith; bytes = refl }

  refused :
      (name : String) (config : ShmConfig) (os : Os)
      → shm_open_new name os ≡ (os, errno eexist)
      → create sys name config os ≡ (os, err (nix eexist))
  unfolding create
  refused name config os q = ap (create_opened sys config) q

  -- After a `create`, `open` of the same name shares the new ring's mapping, whatever its
  -- configuration says, unless the system fails; both see a valid ring that holds no message. The
  -- size is positive and at most 2 ^ 32 bytes.
  pub open_created :
      (name : String) (config config' : ShmConfig) (os os' : Os) (s : SharedMemoryRingBuffer)
      → 0 < config.buffer_size
      → config.buffer_size ≤ 2 ^ 32
      → create sys name config os ≡ (os', ok s)
      → Holds s []
        × (SystemError name config' (open_existing sys name config' os').1
            ⊎ ((s' : SharedMemoryRingBuffer) × ((open_existing sys name config' os').1 ≡ ok s')
                × (s'.mmap ≡ s.mmap)
                × Holds s' []))
  open_created name config config' os os' s pos small h =
      let i = create-IsMade name config os os' s h in
      let holds : Holds s [] =
        subst (λ r. Holds r []) (sym i.ring) (made-Holds name config pos small) in
      (
        holds,
        elim (open_lem name config' os' s.mmap i.shared) [
          | inl e ↦ inl e
          | inr p ↦ inr (
            with_mapping sys s.mmap config',
            p
                ∙ subst
                    (λ (r : SharedMemoryRingBuffer).
                      checked sys config' r.mmap ≡ ok (with_mapping sys r.mmap config'))
                    (sym i.ring) (checked-made name config' config small),
            refl,
            subst (λ (r : SharedMemoryRingBuffer). Holds (with_mapping sys r.mmap config') [])
                (sym i.ring) (made_again config config' pos small),
          )
        ],
      )

  -- A ring buffer that is dropped leaves its object: after a `create` and a `drop` of what it has
  -- made, another `create` of the same name fails with `EEXIST` and changes nothing, and the object is
  -- as the first has left it, whatever the configurations.
  pub create-again :
      (name : String) (config config' : ShmConfig) (os os' : Os) (s : SharedMemoryRingBuffer)
      → create sys name config os ≡ (os', ok s)
      → let dropped = drop_ring sys s os' in
        (create sys name config' dropped ≡ (dropped, err (nix eexist)))
        × (object dropped name ≡ some (made config).mmap)
  unfolding drop_ring
  create-again name config config' os os' s h =
      let i = create-IsMade name config os os' s h in
      let left : object (munmap s.mmap os') name ≡ some s.mmap =
        munmap-keeps os' name s.mmap ∙ i.shared in
      (
        refused name config' (munmap s.mmap os')
            (new-exists (munmap s.mmap os') name (λ e. taken (sym left ∙ e))),
        left ∙ ap (λ (r : SharedMemoryRingBuffer). some r.mmap) i.ring,
      )
    where
      taken : some s.mmap ≡ none → ⊥
      taken q = cc

  -- There is nothing to open before the `create`.
  pub open-missing :
      (name : String) (config : ShmConfig) (os : Os)
      → object os name ≡ none
      → open_existing sys name config os ≡ (os, err (nix enoent))
  unfolding open_existing
  open-missing name config os h = ap (open_opened sys config) (rw-missing os name h)

  -- The system's calls succeed on the object of a name.
  pub record Works (os : Os) (name : String) : Type 0 where
    pub os' : Os
    pub fd : ℕ
    pub mapping : Mapping
    pub opens : shm_open_rw name os ≡ (os', returned fd)
    pub maps : map_mut fd os' ≡ returned mapping

  -- Where the system's calls succeed, `open` shares the mapping of the ring that `create` has made.
  pub open-Works :
      (name : String) (config config' : ShmConfig) (os : Os)
      → config.buffer_size ≤ 2 ^ 32
      → object os name ≡ some (made config).mmap
      → Works os name
      → (open_existing sys name config' os).1 ≡ ok (with_mapping sys (made config).mmap config')
  unfolding open_existing
  open-Works name config config' os small shared w =
      let (named, kept) = rw-names os w.os' name w.fd w.opens in
      ap (λ (r : Os × Sys ℕ). (open_opened sys config' r).1) w.opens
      ∙ ap (open_mapped sys config') w.maps
      ∙ ap (checked sys config')
          (same (sym (map-object w.os' name w.fd w.mapping named w.maps) ∙ kept ∙ shared))
      ∙ checked-made name config' config small
    where
      same : some w.mapping ≡ some (made config).mmap → w.mapping ≡ (made config).mmap
      same q = cc
