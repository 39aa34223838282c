-- ===== src/Session.antt =====
-- The identities of crates/requests/src/session_runtime.rs. They come from one counter of the process,
-- so an operation that allocates one takes the process and returns it.
mod Identities
mod Examples
use requests_native.Prelude.{ℕ, ◌+◌, ◌*◌, ◌%◌, ◌^◌}

-- `NEXT_RUNTIME_IDENTITY`, a `u64`, and `std::process::id()`, a `u32`.
pub record Process : Type 0 where
  pub pid : ℕ
  pub next_identity : ℕ

-- The low half of the counter below the process number; `|` joins two numbers with no common bit.
pub next_process_identity : Process → ℕ × Process
next_process_identity p = (
  p.pid * 2 ^ 32 + p.next_identity % 2 ^ 32,
  record p { next_identity = (p.next_identity + 1) % 2 ^ 64 },
)

pub record SessionRuntimeHarness : Type 0 where
  pub runtime : ℕ
  pub pool : ℕ
  pub generation : ℕ

-- `SessionRuntimeHarness::new`, without the hooks and the observation queue.
pub new_harness : Process → SessionRuntimeHarness × Process
unfolding next_process_identity
new_harness p =
    let (runtime, p₁) = next_process_identity p in
    let (pool, p₂) = next_process_identity p₁ in
    let (generation, p₃) = next_process_identity p₂ in
    (record { runtime = runtime; pool = pool; generation = generation }, p₃)

pub allocate_connection_identity : Process → ℕ × Process
unfolding next_process_identity
allocate_connection_identity = next_process_identity

unfoldable pub allocate_lease_identity : Process → ℕ × Process
unfolding next_process_identity
allocate_lease_identity = next_process_identity

pub next_correlation : Process → ℕ × Process
unfolding next_process_identity
next_correlation = next_process_identity

pub record SessionExchangeIdentity : Type 0 where
  pub connection : ℕ
  pub lease : ℕ
  pub correlation : ℕ

-- The identity of `reserve_exchange`.
pub reserve_exchange : Process → SessionExchangeIdentity × Process
unfolding next_process_identity
reserve_exchange p =
    let (connection, p₁) = allocate_connection_identity p in
    let (lease, p₂) = allocate_lease_identity p₁ in
    let (correlation, p₃) = next_correlation p₂ in
    (record { connection = connection; lease = lease; correlation = correlation }, p₃)
