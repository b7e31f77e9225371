-- ===== src/Launch/Tests.antt =====
-- A backend and a gateway for the eventfd transport under the name "backend".
use Prim.Native.String.{String}
use gateway_g_rpc.Prelude.{◌≡◌, refl, false, none, inr, arith}
use gateway_g_rpc.Shm.{default_config, ok}
use gateway_g_rpc.Ring.{new_header}
use gateway_g_rpc.Setup.{create}
use gateway_g_rpc.Setup.Objects.{made}
use gateway_g_rpc.Transport.{CallError, failed, waiting}
use gateway_g_rpc.Startup.{Buffers, create_buffers}
use gateway_g_rpc.Startup.Sockets.{
  Sockets, Host, ShmServerEventfd, control_path, new_event_server, open_stream,
}
use gateway_g_rpc.Startup.Sockets.Meets.{InTime, Meets}
use gateway_g_rpc.Startup.Strangers.{
  shm, shm_eventfd, GatewayArgs, BackendArgs, default_gateway_args, default_backend_args,
}
use gateway_g_rpc.Dispatch.{TransportEnum, Calls, call}
use gateway_g_rpc.Launch.{News, new_transport, shm_eventfd_service, start_backend}
use gateway_g_rpc.Launch.Chosen.{new_transport-Chosen, start_backend-Meets}
use gateway_g_rpc.Samples.Kernel.{table_eventfd, table_kernel, table}
use gateway_g_rpc.Samples.Net
use gateway_g_rpc.Samples.Net.{net}
use gateway_g_rpc.Samples.Objects.{Files, sys, no_files, put_fd}
use gateway_g_rpc.Samples.{ping}

-- Each constructor returns the address that it has got.
abbrev news : News (Unit {0}) String String String String String
news = record {
  new_tcp = λ a. inr a;
  new_uds = λ a. inr a;
  new_shm = λ a. inr a;
  new_shm_uds = λ a. inr a;
  new_shm_eventfd = λ a. inr a;
}

abbrev calls : Calls String String String String String
calls = record {
  call_tcp = λ _ _. waiting;
  call_uds = λ _ _. waiting;
  call_shm = λ _ _. failed CallError.request_timeout;
  call_shm_uds = λ _ _. waiting;
  call_shm_eventfd = λ _ _. waiting;
}

abbrev shm_args : GatewayArgs
shm_args = record default_gateway_args { transport = shm }

shm_transport :
    (x : String) × (news.new_shm "gateway_shm" ≡ inr x)
    × (call calls (TransportEnum.shm "gateway_shm") ping ≡ calls.call_shm x ping)
unfolding new_transport
shm_transport = new_transport-Chosen news calls shm_args (TransportEnum.shm "gateway_shm") ping refl

abbrev backend_args : BackendArgs
backend_args = record default_backend_args { transport = shm_eventfd }

abbrev gateway_args : GatewayArgs
gateway_args = record default_gateway_args { transport = shm_eventfd; shm_name = "backend" }

abbrev created : Files
created = (create_buffers sys "backend" default_config no_files).0

abbrev buffers : Buffers
buffers = record { requests = made sys default_config; responses = made sys default_config }

abbrev fresh : Net.Table
fresh = record { next = 1; bound = λ _. none; peers = λ _. none }

abbrev before : Host sys table_kernel net
before = record { shm = no_files; kernel = table; sockets = fresh }

abbrev after : Host sys table_kernel net
after = record {
  shm = created;
  kernel = (table_eventfd false (table_eventfd false table).0).0;
  sockets =
      (Sockets.bind net (control_path "backend")
        (Sockets.remove_file net (control_path "backend") fresh)).0;
}

abbrev server : ShmServerEventfd
server = record { buffers = buffers; request_event = 5; response_event = 6; control_listener = 1 }

backend_starts :
    start_backend sys table_kernel net backend_args before
    ≡ (after, ok (shm_eventfd_service server))
unfolding start_backend new_event_server create_buffers create new_header
backend_starts = refl

abbrev in_time : InTime sys "backend" created (λ _. created) (λ _. created)
unfolding create_buffers create new_header
in_time = record {
  j = 0;
  k = 0;
  opens_requests = record {
    os' = put_fd created "backend_req_buf";
    fd = 5;
    mapping = buffers.requests.mmap;
    opens = refl;
    maps = refl;
  };
  opens_responses = record {
    os' = put_fd created "backend_resp_buf";
    fd = 5;
    mapping = buffers.responses.mmap;
    opens = refl;
    maps = refl;
  };
  j_in_time = omega arith;
  k_in_time = omega arith;
  no_requests = λ i p. absurd (omega arith);
  no_responses = λ i p. absurd (omega arith);
  at_j = refl;
  at_k = refl;
}

start_backend-Meets_example :
    (srv : ShmServerEventfd) × (shm_eventfd_service server ≡ shm_eventfd_service srv)
    × Meets sys table_kernel net "backend" default_config default_config srv.buffers
        srv.control_listener
        (open_stream sys table_kernel net
          (control_path "backend")
          "backend"
          default_config
          (λ _. created)
          (λ _. created)
          after.sockets)
start_backend-Meets_example =
    start_backend-Meets sys table_kernel net backend_args gateway_args before after
      (shm_eventfd_service server) (λ _. created) (λ _. created) refl refl backend_starts in_time
