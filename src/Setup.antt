-- ===== src/Setup.antt =====
-- shared-memory/src/shm.rs: `SharedMemoryRingBuffer::create` and `open`, over the operating system's
-- shared-memory objects.
pub mod Objects
pub mod Keeps
mod Tests
use Prim.Native.String.{String}
use gateway_g_rpc.Prelude.{
  ℕ, ◌+◌, ◌≤◌, ◌<◌, ◌≡◌, ◌≢◌, Option, none, some, ltb, if◌then◌else◌, add_usize,
}
use gateway_g_rpc.Shm.{io, nix, invalid_state, out_of_bounds, Outcome, ok, err, fault, ShmConfig}
use gateway_g_rpc.EventFd.{Sys, returned, errno}
use gateway_g_rpc.Ring.{
  RingBufferHeader, Mapping, SharedMemoryRingBuffer, header_size, new_header, is_valid,
}

abbrev pub eexist : ℕ
eexist = 17

abbrev pub enoent : ℕ
enoent = 2

-- A new object of `n` bytes, all zero.
abbrev pub zeros : ℕ → Mapping
zeros n = record {
  header = record { write_pos = 0; read_pos = 0; capacity = 0; magic = 0 };
  cells = λ _. 0;
  len = n;
}

-- shm_open(3), ftruncate(2), mmap(2), munmap(2) and the stores through a shared mapping. `object os name` is the
-- content of the named object, and `names os fd` the name behind a descriptor. Apart from the errors
-- below, a call may fail for reasons of the system.
pub record ShmOs : Type 1 where
  pub Os : Type 0
  pub object : Os → String → Option Mapping
  pub names : Os → ℕ → Option String
  pub shm_open_new : String → Os → Os × Sys ℕ  -- O_CREAT | O_RDWR | O_EXCL
  pub shm_open_rw : String → Os → Os × Sys ℕ
  pub ftruncate : ℕ → ℕ → Os → Os × Sys (Unit {0})
  pub map_mut : ℕ → Os → Sys Mapping
  pub store : ℕ → Mapping → Os → Os
  pub munmap : Mapping → Os → Os
  pub new-exists :
      (os : Os) (name : String) → object os name ≢ none → shm_open_new name os ≡ (os, errno eexist)
  pub new-names :
      (os os' : Os) (name : String) (fd : ℕ)
      → shm_open_new name os ≡ (os', returned fd)
      → (names os' fd ≡ some name) × (object os' name ≡ some (zeros 0))
  pub rw-missing :
      (os : Os) (name : String) → object os name ≡ none → shm_open_rw name os ≡ (os, errno enoent)
  pub rw-names :
      (os os' : Os) (name : String) (fd : ℕ)
      → shm_open_rw name os ≡ (os', returned fd)
      → (names os' fd ≡ some name) × (object os' name ≡ object os name)
  pub ftruncate-zeros :
      (os os' : Os) (name : String) (fd n : ℕ)
      → names os fd ≡ some name
      → object os name ≡ some (zeros 0)
      → ftruncate fd n os ≡ (os', returned tt)
      → (names os' fd ≡ some name) × (object os' name ≡ some (zeros n))
  pub map-object :
      (os : Os) (name : String) (fd : ℕ) (m : Mapping)
      → names os fd ≡ some name
      → map_mut fd os ≡ returned m
      → object os name ≡ some m
  pub store-object :
      (os : Os) (name : String) (fd : ℕ) (m : Mapping)
      → names os fd ≡ some name
      → object (store fd m os) name ≡ some m
  pub new-keeps :
      (os os' : Os) (name other : String) (fd : ℕ)
      → other ≢ name
      → shm_open_new name os ≡ (os', returned fd)
      → object os' other ≡ object os other
  pub ftruncate-keeps :
      (os os' : Os) (name other : String) (fd n : ℕ)
      → names os fd ≡ some name
      → other ≢ name
      → ftruncate fd n os ≡ (os', returned tt)
      → (names os' fd ≡ some name) × (object os' other ≡ object os other)
  pub store-keeps :
      (os : Os) (name other : String) (fd : ℕ) (m : Mapping)
      → names os fd ≡ some name
      → other ≢ name
      → object (store fd m os) other ≡ object os other
  pub munmap-keeps :
      (os : Os) (name : String) (m : Mapping) → object (munmap m os) name ≡ object os name

module _ (sys : ShmOs) where
  open sys use {Os, shm_open_new, shm_open_rw, ftruncate, map_mut, store, munmap}

  abbrev pub with_mapping : Mapping → ShmConfig → SharedMemoryRingBuffer
  with_mapping mmap config = record {
    mmap = mmap;
    data_offset = header_size;
    data_size = config.buffer_size;
  }

  -- The header of a new ring over the first bytes of the mapping.
  abbrev pub initialised : Mapping → ShmConfig → Mapping
  initialised mmap config = record mmap { header = new_header config.buffer_size }

  -- `create` behind `ftruncate`.
  abbrev pub create_mapped : ShmConfig → ℕ → Os → Sys Mapping → Os × Outcome SharedMemoryRingBuffer
  create_mapped config fd os (errno e) = (os, err (io e))
  create_mapped config fd os (returned mmap) =
      (store fd (initialised mmap config) os, ok (with_mapping (initialised mmap config) config))

  -- `create` behind `shm_open`.
  abbrev pub create_sized :
      ShmConfig → ℕ → Os × Sys (Unit {0}) → Os × Outcome SharedMemoryRingBuffer
  create_sized config fd (os, errno e) = (os, err (nix e))
  create_sized config fd (os, returned _) = create_mapped config fd os (map_mut fd os)

  abbrev pub create_opened : ShmConfig → Os × Sys ℕ → Os × Outcome SharedMemoryRingBuffer
  create_opened config (os, errno e) = (os, err (nix e))
  create_opened config (os, returned fd) =
      create_sized config fd (ftruncate fd (add_usize header_size config.buffer_size) os)

  unfoldable pub create : String → ShmConfig → Os → Os × Outcome SharedMemoryRingBuffer
  create name config os = create_opened config (shm_open_new name os)

  -- `open` behind the mapping: the header is read before anything is known of the length.
  abbrev pub checked : ShmConfig → Mapping → Outcome SharedMemoryRingBuffer
  checked config mmap =
      if ltb mmap.len header_size
      then fault out_of_bounds
      else if is_valid mmap.header
      then ok (with_mapping mmap config)
      else err invalid_state

  abbrev pub open_mapped : ShmConfig → Sys Mapping → Outcome SharedMemoryRingBuffer
  open_mapped config (errno e) = err (io e)
  open_mapped config (returned mmap) = checked config mmap

  abbrev pub open_opened : ShmConfig → Os × Sys ℕ → Os × Outcome SharedMemoryRingBuffer
  open_opened config (os, errno e) = (os, err (nix e))
  open_opened config (os, returned fd) = (os, open_mapped config (map_mut fd os))

  -- `SharedMemoryRingBuffer::open`
  pub open_existing : String → ShmConfig → Os → Os × Outcome SharedMemoryRingBuffer
  open_existing name config os = open_opened config (shm_open_rw name os)

  -- `drop` with the drop of the field `mmap` behind its empty body.
  pub drop_ring : SharedMemoryRingBuffer → Os → Os
  drop_ring self os = munmap self.mmap os
