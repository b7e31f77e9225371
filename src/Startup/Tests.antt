-- ===== src/Startup/Tests.antt =====
-- The gateway asks for the request buffer twice before the backend has made it.
use gateway_g_rpc.Prelude.{ℕ, ◌≡◌, refl, ◌≢◌, inr, none, some, arith}
use gateway_g_rpc.Shm.{default_config, ok}
use gateway_g_rpc.Ring.{new_header}
use gateway_g_rpc.Setup.{create}
use gateway_g_rpc.Startup.{Buffers, create_buffers, connect}
use gateway_g_rpc.Startup.Shared.{IsShared, connect-shares}
use gateway_g_rpc.Startup.Sockets.{connect_failed, control_path, open_stream}
use gateway_g_rpc.Startup.Sockets.Meets.{Meets, open_stream-Meets, open_stream-too_early}
use gateway_g_rpc.Startup.{req_name, resp_name}
use gateway_g_rpc.Startup.Strangers.{default_gateway_args, default_backend_args, connect-strangers}
use text.Mathlib.TextEquality.{eq_iff}
use gateway_g_rpc.Samples.Kernel.{table_kernel}
use gateway_g_rpc.Samples.Net.{net}
use gateway_g_rpc.Samples.Objects.{Files, sys, no_files}
use gateway_g_rpc.Samples.Servers.{
  small, created, buffers, create_runs, works, works', at, missing, unbound, before, after, server,
  server_runs, in_time,
}

buffers_found :
    (g : Buffers) × (connect sys "r" default_config at (λ _. created) ≡ some (some g))
    × IsShared sys "r" small default_config g.requests buffers.requests
    × IsShared sys "r" small default_config g.responses buffers.responses
buffers_found =
    connect-shares sys "r" small default_config no_files created buffers at (λ _. created) 2 0
      (omega arith) (omega arith) create_runs works works' (omega arith) (omega arith) missing
      (λ i p. absurd (omega arith)) refl refl

joined : Meets sys table_kernel net "r" small default_config buffers 1 (
    open_stream sys table_kernel net
      (control_path "r")
      "r"
      default_config
      at
      (λ _. created)
      after.sockets)
joined =
    open_stream-Meets sys table_kernel net "r" small default_config before after server at
      (λ _. created) (omega arith) (omega arith) server_runs in_time

open_stream-too_early_example :
    (e : ℕ) × (open_stream sys table_kernel net
        (control_path "r")
        "r"
        default_config
        at
        (λ _. created)
        unbound
      ≡ (unbound, some (connect_failed e)))
open_stream-too_early_example =
    open_stream-too_early sys table_kernel net "r" small default_config (control_path "r") no_files
      created buffers at (λ _. created) unbound (omega arith) (omega arith) create_runs in_time refl

-- The backend creates its buffers under its default name.
abbrev backend_made : Files
backend_made = (create_buffers sys default_backend_args.shm_name small no_files).0

backend_runs :
    create_buffers sys default_backend_args.shm_name small no_files ≡ (backend_made, ok buffers)
unfolding create_buffers create new_header
backend_runs = refl

other_requests : req_name default_gateway_args.shm_name ≢ req_name default_backend_args.shm_name
other_requests e = ground (arith, eq_iff "gateway_shm_req_buf" "backend_req_buf")

other_responses : req_name default_gateway_args.shm_name ≢ resp_name default_backend_args.shm_name
other_responses e = ground (arith, eq_iff "gateway_shm_req_buf" "backend_resp_buf")

-- With their default options the two programs never find each other.
connect-strangers_example :
    connect sys default_gateway_args.shm_name default_config (λ _. backend_made) (λ _. backend_made)
    ≡ some none
connect-strangers_example =
    connect-strangers sys default_backend_args.shm_name small default_gateway_args.shm_name
      default_config no_files backend_made buffers (λ _. backend_made) (λ _. backend_made)
      other_requests other_responses backend_runs refl (λ i p. inr refl)
