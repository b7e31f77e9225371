-- ===== src/Startup/Strangers.antt =====
-- A backend and a gateway with different names for the shared memory, and the options that name it
-- (backend/src/main.rs, gateway/src/main.rs).
use Prim.Native.String.{String}
use gateway_g_rpc.Prelude.{ℕ, ◌≤◌, ◌≡◌, ◌≢◌, ◌⊎◌, inl, inr, refl, sym, ap, ◌∙◌, none, some}
use gateway_g_rpc.Shm.{ShmError, Fault, Outcome, ok, err, fault, ShmConfig}
use gateway_g_rpc.Ring.{SharedMemoryRingBuffer}
use gateway_g_rpc.Setup.{ShmOs, create}
use gateway_g_rpc.Setup.Objects.{open-missing}
use gateway_g_rpc.Setup.Keeps.{create-keeps}
use gateway_g_rpc.Transport.{wait_for_shm}
use gateway_g_rpc.Transport.Wait.{wait_for_shm-timeout}
use gateway_g_rpc.Startup.{
  req_name, resp_name, Buffers, second_made, first_made, create_buffers, opened, attempts,
  first_found, connect,
}

pub data TransportType : Type 0 where
  tcp : TransportType
  uds : TransportType
  shm : TransportType
  shm_uds : TransportType
  shm_eventfd : TransportType

-- `Args` of the gateway.
pub record GatewayArgs : Type 0 where
  pub listen_addr : String
  pub backend_addr : String
  pub transport : TransportType
  pub uds_path : String
  pub shm_name : String
  pub max_concurrent : ℕ

abbrev pub default_gateway_args : GatewayArgs
default_gateway_args = record {
  listen_addr = "127.0.0.1:8080";
  backend_addr = "127.0.0.1:50051";
  transport = tcp;
  uds_path = "/tmp/gateway.sock";
  shm_name = "gateway_shm";
  max_concurrent = 10000;
}

-- `Args` of the backend; `compute_iterations` is an `i32` that is not negative here.
pub record BackendArgs : Type 0 where
  pub addr : String
  pub transport : TransportType
  pub uds_path : String
  pub shm_name : String
  pub delay_us : ℕ
  pub compute_iterations : ℕ

abbrev pub default_backend_args : BackendArgs
default_backend_args = record {
  addr = "127.0.0.1:50051";
  transport = tcp;
  uds_path = "/tmp/backend.sock";
  shm_name = "backend";
  delay_us = 1000;
  compute_iterations = 100;
}

module _ (sys : ShmOs) (name : String) (config : ShmConfig) where
  open sys use {Os, object}

  ok-from-err :
      (os os' : Os) (e : ShmError) (b : Buffers)
      → ◌≡◌ {A = Os × Outcome Buffers} (os, err e) (os', ok b)
      → ⊥
  ok-from-err os os' e b p = cc

  ok-from-fault :
      (os os' : Os) (f : Fault) (b : Buffers)
      → ◌≡◌ {A = Os × Outcome Buffers} (os, fault f) (os', ok b)
      → ⊥
  ok-from-fault os os' f b p = cc

  second-keeps :
      (other : String) (requests : SharedMemoryRingBuffer) (os os' : Os)
      (r : Os × Outcome SharedMemoryRingBuffer) (b : Buffers)
      → other ≢ resp_name name
      → create sys (resp_name name) config os ≡ r
      → second_made sys requests r ≡ (os', ok b)
      → object os' other ≡ object os other
  second-keeps other requests os os' (os₁, ok responses) b ne p h =
      ap (λ (q : Os × Outcome Buffers). object q.0 other) (sym h)
      ∙ create-keeps sys (resp_name name) other config ne responses os os₁ p
  second-keeps other requests os os' (os₁, err e) b ne p h = absurd (ok-from-err os₁ os' e b h)
  second-keeps other requests os os' (os₁, fault f) b ne p h = absurd (ok-from-fault os₁ os' f b h)

  first-keeps :
      (other : String) (os os' : Os) (r : Os × Outcome SharedMemoryRingBuffer) (b : Buffers)
      → other ≢ req_name name
      → other ≢ resp_name name
      → create sys (req_name name) config os ≡ r
      → first_made sys name config r ≡ (os', ok b)
      → object os' other ≡ object os other
  first-keeps other os os' (os₁, ok requests) b ne ne' p h =
      second-keeps other requests os₁ os' (create sys (resp_name name) config os₁) b ne' refl h
      ∙ create-keeps sys (req_name name) other config ne requests os os₁ p
  first-keeps other os os' (os₁, err e) b ne ne' p h = absurd (ok-from-err os₁ os' e b h)
  first-keeps other os os' (os₁, fault f) b ne ne' p h = absurd (ok-from-fault os₁ os' f b h)

  create_buffers-keeps :
      (other : String) (os os' : Os) (b : Buffers)
      → other ≢ req_name name
      → other ≢ resp_name name
      → create_buffers sys name config os ≡ (os', ok b)
      → object os' other ≡ object os other
  unfolding create_buffers
  create_buffers-keeps other os os' b ne ne' h =
      first-keeps other os os' (create sys (req_name name) config os) b ne ne' refl h

  -- A gateway whose name for the request buffer is none of the backend's two names never finds it: if
  -- there was no object of its name before, then, whether its attempts come before the backend has
  -- created its buffers or after, the 51st of them ends in the timeout.
  pub connect-strangers :
      (name' : String) (config' : ShmConfig) (os os' : Os) (b : Buffers) (at then_at : ℕ → Os)
      → req_name name' ≢ req_name name
      → req_name name' ≢ resp_name name
      → create_buffers sys name config os ≡ (os', ok b)
      → object os (req_name name') ≡ none
      → ((i : ℕ) → i ≤ 50 → (at i ≡ os) ⊎ (at i ≡ os'))
      → connect sys name' config' at then_at ≡ some none
  unfolding connect
  connect-strangers name' config' os os' b at then_at ne ne' made gone either =
      ap (λ o. first_found sys o (wait_for_shm (attempts sys (resp_name name') config' then_at)))
        (wait_for_shm-timeout (attempts sys (req_name name') config' at)
          (λ i bound. fails i (either i bound)))
    where
      missing : (i : ℕ) → (at i ≡ os) ⊎ (at i ≡ os') → object (at i) (req_name name') ≡ none
      missing i (inl e) = ap (λ o. object o (req_name name')) e ∙ gone
      missing i (inr e) =
          ap (λ o. object o (req_name name')) e
          ∙ create_buffers-keeps (req_name name') os os' b ne ne' made
          ∙ gone

      fails :
          (i : ℕ) → (at i ≡ os) ⊎ (at i ≡ os') → attempts sys (req_name name') config' at i ≡ none
      fails i either =
          ap (λ (q : Os × Outcome SharedMemoryRingBuffer). opened sys q.1)
            (open-missing sys (req_name name') config' (at i) (missing i either))
