-- ===== src/Setup/Tests.antt =====
-- The backend creates a ring of 16 bytes, and the gateway opens it.
use gateway_g_rpc.Prelude.{◌≡◌, ◌⊎◌, refl, some, [], arith}
use gateway_g_rpc.Shm.{ShmConfig, default_config, nix, ok, err}
use gateway_g_rpc.Ring.{SharedMemoryRingBuffer, new_header}
use gateway_g_rpc.Ring.Inv.{Holds}
use gateway_g_rpc.Setup.{eexist, create, open_existing, drop_ring}
use gateway_g_rpc.Setup.Objects.{made, SystemError, open_created, create-again}
use gateway_g_rpc.Samples.Objects.{Files, sys, no_files}

abbrev small : ShmConfig
small = record default_config { buffer_size = 16 }

-- The system behind the `create`.
abbrev created : Files
created = (create sys "req" small no_files).0

create_runs : create sys "req" small no_files ≡ (created, ok (made sys small))
unfolding create new_header
create_runs = refl

open_created_example :
    Holds (made sys small) []
    × (SystemError sys "req" default_config (open_existing sys "req" default_config created).1
        ⊎ ((s' : SharedMemoryRingBuffer) × ((open_existing sys "req" default_config created).1
              ≡ ok s')
            × (s'.mmap ≡ (made sys small).mmap)
            × Holds s' []))
open_created_example =
    open_created sys "req" small default_config no_files created (made sys small) (omega arith)
      (omega arith) create_runs

create-again_example :
    (create sys "req" small created ≡ (created, err (nix eexist)))
    × (created.files "req" ≡ some (made sys small).mmap)
unfolding drop_ring
create-again_example =
    create-again sys "req" small small no_files created (made sys small) create_runs
