-- ===== src/Pool/Leases.antt =====
-- Idle connections and leases of crates/requests/src/transport/pool.rs.
use requests_native.Prelude.{ℕ, Bool, false, not, ◌&&◌, Option, none, some}
use requests_native.Session.{
  Process, SessionRuntimeHarness, SessionExchangeIdentity, allocate_lease_identity,
}
use requests_native.Pool.Keys.{PoolKey}

-- A network connection, named by `id`. What its sender and its driver answer when they are asked
-- (`is_closed`, `is_reusable`, `peer_is_open`) are fields that the environment may change.
pub record IdleConnection : Type 0 where
  pub id : ℕ
  pub sender_closed : Bool
  pub driver_reusable : Bool
  pub driver_peer_open : Bool
  pub session_identity : Option ℕ

-- `IdleConnection::is_live`.
unfoldable pub connection_is_live : IdleConnection → Bool
connection_is_live c = not c.sender_closed && c.driver_reusable

pub connection_peer_is_open : IdleConnection → Bool
connection_peer_is_open c = c.driver_peer_open

pub data LeaseTerminal : Type 0 where
  active clean_eof dirty : LeaseTerminal

pub data DirtyLeaseCause : Type 0 where
  cancellation incomplete_body upload : DirtyLeaseCause

pub record DirtyLeaseIdentity : Type 0 where
  pub generation : ℕ
  pub cause : DirtyLeaseCause

pub record ConnectionLease : Type 0 where
  pub key : PoolKey
  pub generation : ℕ
  pub terminal : LeaseTerminal
  pub dirty_identity : Option DirtyLeaseIdentity
  pub connection : Option IdleConnection
  pub session_lease_identity : Option ℕ

pub with_session_lease_identity : PoolKey → ℕ → IdleConnection → Option ℕ → ConnectionLease
with_session_lease_identity key generation connection session_lease_identity = record {
  key = key;
  generation = generation;
  terminal = active;
  dirty_identity = none;
  connection = some connection;
  session_lease_identity = session_lease_identity;
}

-- `session_runtime.map(SessionRuntimeHarness::allocate_lease_identity)`.
pub allocate_for : Option SessionRuntimeHarness → Process → Option ℕ × Process
allocate_for none p = (none, p)
allocate_for (some harness) p =
    let (identity, p') = allocate_lease_identity p in (some identity, p')

unfoldable pub new_with_session_runtime :
    PoolKey
    → ℕ
    → IdleConnection
    → Option SessionRuntimeHarness
    → Process
    → ConnectionLease × Process
unfolding with_session_lease_identity allocate_for
new_with_session_runtime key generation connection runtime p =
    let (identity, p') = allocate_for runtime p in
    (with_session_lease_identity key generation connection identity, p')

-- `ConnectionLease::new`.
pub new : PoolKey → ℕ → IdleConnection → Process → ConnectionLease × Process
unfolding new_with_session_runtime
new key generation connection p = new_with_session_runtime key generation connection none p

pub new_with_exchange_identity :
    PoolKey → ℕ → IdleConnection → SessionExchangeIdentity → ConnectionLease
unfolding with_session_lease_identity
new_with_exchange_identity key generation connection identity =
    with_session_lease_identity key generation connection (some identity.lease)

-- `ConnectionLease::is_live` and `peer_is_open`.
unfoldable pub is_live : ConnectionLease → Bool
unfolding connection_is_live
is_live lease = elim lease.connection [ none ↦ false | some c ↦ connection_is_live c ]

unfoldable pub peer_is_open : ConnectionLease → Bool
unfolding connection_peer_is_open
peer_is_open lease = elim lease.connection [ none ↦ false | some c ↦ connection_peer_is_open c ]

pub session_connection_identity : ConnectionLease → Option ℕ
session_connection_identity lease = elim lease.connection [
  | none ↦ none
  | some c ↦ c.session_identity
]

pub session_exchange_identity : ConnectionLease → ℕ → Option SessionExchangeIdentity
unfolding session_connection_identity
session_exchange_identity lease correlation = elim (session_connection_identity lease) [
  | none ↦ none
  | some connection ↦ elim lease.session_lease_identity [
    | none ↦ none
    | some identity ↦
        some (record { connection = connection; lease = identity; correlation = correlation })
  ]
]

pub mark_dirty : ConnectionLease → DirtyLeaseCause → ConnectionLease
mark_dirty lease cause = record lease {
  terminal = dirty;
  dirty_identity = some (record { generation = lease.generation; cause = cause });
}

-- The first completion decides; `complete(Dirty)` is charged to a cancellation.
unfoldable pub complete_from : LeaseTerminal → ConnectionLease → LeaseTerminal → ConnectionLease
unfolding mark_dirty
complete_from active lease active = lease
complete_from active lease clean_eof = record lease { terminal = clean_eof }
complete_from active lease dirty = mark_dirty lease cancellation
complete_from terminal lease next = lease

-- `ConnectionLease::complete`.
unfoldable pub complete : ConnectionLease → LeaseTerminal → ConnectionLease
unfolding complete_from
complete lease terminal = complete_from lease.terminal lease terminal

unfoldable pub complete_dirty_from :
    LeaseTerminal → ConnectionLease → DirtyLeaseCause → ConnectionLease
unfolding mark_dirty
complete_dirty_from active lease cause = mark_dirty lease cause
complete_dirty_from terminal lease cause = lease

-- `ConnectionLease::complete_dirty`.
unfoldable pub complete_dirty : ConnectionLease → DirtyLeaseCause → ConnectionLease
unfolding complete_dirty_from
complete_dirty lease cause = complete_dirty_from lease.terminal lease cause
