-- ===== src/Samples/Servers.antt =====
-- Test data: a backend whose buffers the gateway asks for twice before they are made.
use gateway_g_rpc.Prelude.{ℕ, zero, suc, ◌<◌, ◌≡◌, refl, false, none, some, arith}
use gateway_g_rpc.Shm.{ShmConfig, default_config, ok}
use gateway_g_rpc.Ring.{new_header}
use gateway_g_rpc.Setup.{create}
use gateway_g_rpc.Setup.Objects.{made, Works}
use gateway_g_rpc.Startup.{Buffers, create_buffers}
use gateway_g_rpc.Startup.Sockets.{Sockets, Host, ShmServerEventfd, control_path, new_event_server}
use gateway_g_rpc.Startup.Sockets.Meets.{InTime}
use gateway_g_rpc.Samples.Kernel.{table_eventfd, table_kernel, table}
use gateway_g_rpc.Samples.Net
use gateway_g_rpc.Samples.Net.{net}
use gateway_g_rpc.Samples.Objects.{Files, sys, no_files, put_fd}

abbrev pub small : ShmConfig
small = record default_config { buffer_size = 16 }

abbrev pub created : Files
created = (create_buffers sys "r" small no_files).0

abbrev pub buffers : Buffers
buffers = record { requests = made sys small; responses = made sys small }

pub create_runs : create_buffers sys "r" small no_files ≡ (created, ok buffers)
unfolding create_buffers create new_header
create_runs = refl

pub works : Works sys created "r_req_buf"
unfolding create_buffers create new_header
works = record {
  os' = put_fd created "r_req_buf";
  fd = 5;
  mapping = buffers.requests.mmap;
  opens = refl;
  maps = refl;
}

pub works' : Works sys created "r_resp_buf"
unfolding create_buffers create new_header
works' = record {
  os' = put_fd created "r_resp_buf";
  fd = 5;
  mapping = buffers.responses.mmap;
  opens = refl;
  maps = refl;
}

abbrev pub at : ℕ → Files
at zero = no_files
at (suc zero) = no_files
at (suc (suc k)) = created

pub missing : (i : ℕ) → i < 2 → (at i).files "r_req_buf" ≡ none
missing zero p = refl
missing (suc zero) p = refl
missing (suc (suc i)) p = absurd (omega arith)

-- A socket file that an earlier server has left.
abbrev pub stale : Net.Table
stale = record { next = 1; bound = λ _. some 0; peers = λ _. none }

abbrev pub unbound : Net.Table
unbound = record { next = 1; bound = λ _. none; peers = λ _. none }

abbrev pub before : Host sys table_kernel net
before = record { shm = no_files; kernel = table; sockets = stale }

abbrev pub after : Host sys table_kernel net
after = record {
  shm = created;
  kernel = (table_eventfd false (table_eventfd false table).0).0;
  sockets =
      (Sockets.bind net (control_path "r") (Sockets.remove_file net (control_path "r") stale)).0;
}

abbrev pub server : ShmServerEventfd
server = record { buffers = buffers; request_event = 5; response_event = 6; control_listener = 1 }

pub server_runs : new_event_server sys table_kernel net "r" small before ≡ (after, ok server)
unfolding new_event_server create_buffers create new_header
server_runs = refl

abbrev pub in_time : InTime sys "r" created at (λ _. created)
in_time = record {
  j = 2;
  k = 0;
  opens_requests = works;
  opens_responses = works';
  j_in_time = omega arith;
  k_in_time = omega arith;
  no_requests = missing;
  no_responses = λ i p. absurd (omega arith);
  at_j = refl;
  at_k = refl;
}
