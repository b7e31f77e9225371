-- ===== src/Startup/Shared.antt =====
-- The gateway gets the buffers that the backend has made.
use Prim.Native.String.{String}
use text.Mathlib.TextEquality.{eq_iff}
use text.Mathlib.TextLemmas.{append_cancel_left}
use gateway_g_rpc.Prelude.{
  ℕ, ◌^◌, ◌≤◌, ◌<◌, ◌≡◌, ◌≢◌, refl, sym, ap, subst, ◌∙◌, none, some, [], arith,
}
use gateway_g_rpc.Shm.{Outcome, ok, err, fault, ShmConfig}
use gateway_g_rpc.Ring.{SharedMemoryRingBuffer}
use gateway_g_rpc.Ring.Inv.{Holds}
use gateway_g_rpc.Setup.{ShmOs, with_mapping, create, open_existing}
use gateway_g_rpc.Setup.Objects.{
  IsMade, create-IsMade, made-Holds, made_again, open-missing, open-Works, Works,
}
use gateway_g_rpc.Setup.Keeps.{create-keeps}
use gateway_g_rpc.Transport.{wait_for_shm}
use gateway_g_rpc.Transport.Wait.{wait_for_shm-found}
use gateway_g_rpc.Startup.{
  req_name, resp_name, Buffers, second_made, first_made, create_buffers, opened, attempts, connect,
}

names_differ : (name : String) → req_name name ≢ resp_name name
names_differ name e = literals (append_cancel_left name "_req_buf" "_resp_buf" e)
  where
    literals : ◌≡◌ {A = String} "_req_buf" "_resp_buf" → ⊥
    literals p = ground (arith, eq_iff "_req_buf" "_resp_buf")

module _ (sys : ShmOs) (name : String) (config : ShmConfig) where
  open sys use {Os, object}

  -- What the backend leaves: two new rings, under the two names.
  pub record AreMade (os' : Os) (b : Buffers) : Type 0 where
    pub requests : IsMade sys (req_name name) config os' b.requests
    pub responses : IsMade sys (resp_name name) config os' b.responses

  second_lem :
      (requests : SharedMemoryRingBuffer) (os os' : Os) (r : Os × Outcome SharedMemoryRingBuffer)
      (b : Buffers)
      → create sys (resp_name name) config os ≡ r
      → IsMade sys (req_name name) config os requests
      → second_made sys requests r ≡ (os', ok b)
      → AreMade os' b
  second_lem requests os os' (os₁, ok responses) b p i h =
      subst (λ (q : Os × Buffers). AreMade q.0 q.1) (both h)
        (record {
          requests = record {
            ring = i.ring;
            shared =
                create-keeps sys (resp_name name) (req_name name) config (names_differ name)
                  responses os os₁ p
                ∙ i.shared;
          };
          responses = create-IsMade sys (resp_name name) config os os₁ responses p;
        })
    where
      made_of : Buffers
      made_of = record { requests = requests; responses = responses }

      both :
          ◌≡◌ {A = Os × Outcome Buffers} (os₁, ok made_of) (os', ok b)
          → ◌≡◌ {A = Os × Buffers} (os₁, made_of) (os', b)
      both q = cc
  second_lem requests os os' (os₁, err e) b p i h =
      absurd (failed (ap (λ (q : Os × Outcome Buffers). q.1) h))
    where
      failed : err e ≡ ok b → ⊥
      failed q = cc
  second_lem requests os os' (os₁, fault f) b p i h =
      absurd (failed (ap (λ (q : Os × Outcome Buffers). q.1) h))
    where
      failed : fault f ≡ ok b → ⊥
      failed q = cc

  first_lem :
      (os os' : Os) (r : Os × Outcome SharedMemoryRingBuffer) (b : Buffers)
      → create sys (req_name name) config os ≡ r
      → first_made sys name config r ≡ (os', ok b)
      → AreMade os' b
  first_lem os os' (os₁, ok requests) b p h =
      second_lem requests os₁ os' (create sys (resp_name name) config os₁) b refl
        (create-IsMade sys (req_name name) config os os₁ requests p) h
  first_lem os os' (os₁, err e) b p h = absurd (failed (ap (λ (q : Os × Outcome Buffers). q.1) h))
    where
      failed : err e ≡ ok b → ⊥
      failed q = cc
  first_lem os os' (os₁, fault f) b p h = absurd (failed (ap (λ (q : Os × Outcome Buffers). q.1) h))
    where
      failed : fault f ≡ ok b → ⊥
      failed q = cc

  pub create_buffers-AreMade :
      (os os' : Os) (b : Buffers) → create_buffers sys name config os ≡ (os', ok b) → AreMade os' b
  unfolding create_buffers
  create_buffers-AreMade os os' b h =
      first_lem os os' (create sys (req_name name) config os) b refl h

-- What `wait_for_shm` finds under the name of a new ring.
module _ (sys : ShmOs) (name : String) (config config' : ShmConfig) where
  open sys use {Os, object}

  pub attempts-found :
      (os' : Os) (s : SharedMemoryRingBuffer) (at : ℕ → Os) (k : ℕ)
      → config.buffer_size ≤ 2 ^ 32
      → IsMade sys name config os' s
      → Works sys os' name
      → k ≤ 50
      → ((i : ℕ) → i < k → object (at i) name ≡ none)
      → at k ≡ os'
      → wait_for_shm (attempts sys name config' at) ≡ some (some (with_mapping sys s.mmap config'))
  attempts-found os' s at k small i works bound before here =
      wait_for_shm-found (attempts sys name config' at) k (with_mapping sys s.mmap config') bound
        (λ j p.
          ap (λ (r : Os × Outcome SharedMemoryRingBuffer). opened sys r.1)
            (open-missing sys name config' (at j) (before j p)))
        (ap (λ o. opened sys (open_existing sys name config' o).1) here
          ∙ ap (opened sys) (
              open-Works sys name config config' os' small
                (i.shared ∙ ap (λ (r : SharedMemoryRingBuffer). some r.mmap) i.ring) works)
          ∙ ap (λ (r : SharedMemoryRingBuffer). some (with_mapping sys r.mmap config'))
              (sym i.ring))

module _ (sys : ShmOs) (name : String) (config config' : ShmConfig) where
  open sys use {Os, object}

  -- A ring over the mapping of one that the backend has made, with no message in it.
  abbrev pub IsShared : SharedMemoryRingBuffer → SharedMemoryRingBuffer → Type 0
  IsShared s' s = (s'.mmap ≡ s.mmap) × Holds s' [] × Holds s []

  shared_lem :
      (other : String) (os' : Os) (s : SharedMemoryRingBuffer)
      → 0 < config.buffer_size
      → config.buffer_size ≤ 2 ^ 32
      → IsMade sys other config os' s
      → IsShared (with_mapping sys s.mmap config') s
  shared_lem other os' s pos small i =
      subst (λ (r : SharedMemoryRingBuffer). IsShared (with_mapping sys r.mmap config') r)
        (sym i.ring)
        (refl, made_again sys config config' pos small, made-Holds sys other config pos small)

  -- If the backend has created its two buffers by the time of one of the first 51 attempts of the
  -- gateway for each, the gateway gets both, each over the backend's mapping of the same name, valid
  -- and empty, whatever its own configuration says: until then there is no object of the name, then
  -- the system's calls succeed. The size is positive and at most 2 ^ 32 bytes.
  pub connect-shares :
      (os os' : Os) (b : Buffers) (at then_at : ℕ → Os) (j k : ℕ)
      → 0 < config.buffer_size
      → config.buffer_size ≤ 2 ^ 32
      → create_buffers sys name config os ≡ (os', ok b)
      → Works sys os' (req_name name)
      → Works sys os' (resp_name name)
      → j ≤ 50
      → k ≤ 50
      → ((i : ℕ) → i < j → object (at i) (req_name name) ≡ none)
      → ((i : ℕ) → i < k → object (then_at i) (resp_name name) ≡ none)
      → at j ≡ os'
      → then_at k ≡ os'
      → (g : Buffers) × (connect sys name config' at then_at ≡ some (some g))
        × IsShared g.requests b.requests
        × IsShared g.responses b.responses
  unfolding connect
  connect-shares os os' b at then_at j k pos small h works works' hj hk before before' here here' =
      let made = create_buffers-AreMade sys name config os os' b h in
      let found =
        attempts-found sys (req_name name) config config' os' b.requests at j small made.requests
          works hj before here in
      let found' =
        attempts-found sys (resp_name name) config config' os' b.responses then_at k small
          made.responses works' hk before' here' in
      (
        record {
          requests = with_mapping sys b.requests.mmap config';
          responses = with_mapping sys b.responses.mmap config';
        },
        rw (found, found'),
        shared_lem (req_name name) os' b.requests pos small made.requests,
        shared_lem (resp_name name) os' b.responses pos small made.responses,
      )
