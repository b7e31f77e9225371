-- ===== src/Boot/Tests.antt =====
-- A server of the eventfd transport, and a transport that comes before its buffers are made.
use gateway_g_rpc.Prelude.{◌⊎◌, refl, arith}
use gateway_g_rpc.Boot.{new_eventfd}
use gateway_g_rpc.Boot.Joined.{IsRefused, Joined, new_eventfd-Joined}
use gateway_g_rpc.Samples.Kernel.{table_kernel}
use gateway_g_rpc.Samples.Net.{net}
use gateway_g_rpc.Samples.Objects.{sys}
use gateway_g_rpc.Samples.Fds.{socket, unsent, after_offer, offers}
use gateway_g_rpc.Samples.Servers.{small, created, at, before, after, server, server_runs, in_time}

new_eventfd-Joined_example :
    let r =
      new_eventfd sys table_kernel net socket 1 "r" at (λ _. created) after.sockets after_offer in
    IsRefused sys table_kernel net socket "r" small r.2
    ⊎ Joined sys table_kernel net socket "r" small server 70 80 r
new_eventfd-Joined_example =
    new_eventfd-Joined sys table_kernel net socket "r" small before after server at (λ _. created)
      unsent after_offer 70 80 0 (omega arith) (omega arith) server_runs in_time refl refl refl
      offers
