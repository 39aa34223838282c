-- ===== src/Pool.antt =====
-- The connection pool of crates/requests/src/transport/pool.rs.
pub mod Keys
pub mod Leases
mod Map
pub mod Invariant
pub mod Reuse
pub mod Count
pub mod Completion
pub mod Examples
use Keys.{PoolKey, PoolKey-discrete}
use Leases.{
  IdleConnection, ConnectionLease, LeaseTerminal, clean_eof, is_live, new_with_session_runtime,
}
use requests_native.Prelude.{
  ℕ, zero, suc, ◌+◌, ◌-◌, ◌*◌, ◌/◌, ◌%◌, ◌^◌, ◌≤◌, ◌<◌, min, ◌≡◌, refl, sym, ap, ap₂, ◌∙◌, ◌≢◌, ◌↔◌,
  ◌⊎◌, inl, inr, Bool, true, false, not, ◌&&◌, ◌||◌, Option, none, some, List, [], ◌∷◌, ◌++◌, map,
  append_assoc, append-nil, arith, ltb, leb, ◌==◌, if◌then◌else◌, ltb→lt, lt→ltb, leb→le, le→leb,
  ==_iff, Bool-cases, Option-cases, length, take, drop, length-append, take-append-drop, any, all,
  All, All-append, Bytes, IsByte, codes, bytes_eq, bytes_eq_iff, contains_byte, is_ascii_digit,
  is_ascii_uppercase, is_ascii_lowercase, is_ascii_alphanumeric, is_ascii_hexdigit,
  to_ascii_uppercase, to_ascii_lowercase, Result, ok, err, ◌>>=◌, ok_or,
}
use mathlib.Core.Logic.{ite}
use mathlib.Core.List.{reverse}
use requests_native.Session.{Process, SessionRuntimeHarness}

-- The head of `idle` is the end of the vector: `push` and `pop` work there.
pub record PoolGeneration : Type 0 where
  pub number : ℕ
  pub idle : List IdleConnection

-- The hash map holds each key once, in an order that the program does not rely on.
abbrev pub Generations : Type 0
Generations = List (PoolKey × PoolGeneration)

pub lookup : PoolKey → Generations → Option PoolGeneration
lookup k [] = none
lookup k ((j, g) ∷ gs) = ite (PoolKey-discrete j k) (some g) (lookup k gs)

pub insert : PoolKey → PoolGeneration → Generations → Generations
insert k g [] = (k, g) ∷ []
insert k g ((j, h) ∷ gs) = ite (PoolKey-discrete j k) ((k, g) ∷ gs) ((j, h) ∷ insert k g gs)

pub record Pool : Type 0 where
  pub max_idle_per_key : ℕ
  pub generation_number : ℕ
  pub generations : Generations
  pub session_runtime : Option SessionRuntimeHarness

unfoldable pub new : ℕ → Option SessionRuntimeHarness → Pool
new max_idle_per_key session_runtime = record {
  max_idle_per_key = max_idle_per_key;
  generation_number = 0;
  generations = [];
  session_runtime = session_runtime;
}

-- `acquire` once the key's idle connections are known.
pub acquire_from :
    Pool → PoolKey → PoolGeneration → Process → Option ConnectionLease × Pool × Process
unfolding insert new_with_session_runtime
acquire_from pool key generation p = elim generation.idle [
  | [] ↦ (none, pool, p)
  | connection ∷ rest ↦
      let (lease, p') =
        new_with_session_runtime key pool.generation_number connection pool.session_runtime p in
      (
        some lease,
        record pool {
          generations = insert key (record generation { idle = rest }) pool.generations;
        },
        p',
      )
]

unfoldable pub acquire : Pool → PoolKey → Process → Option ConnectionLease × Pool × Process
unfolding lookup acquire_from
acquire pool key p = elim (lookup key pool.generations) [
  | none ↦ (none, pool, p)
  | some generation ↦ acquire_from pool key generation p
]

pub is_clean_eof : LeaseTerminal → Bool
is_clean_eof clean_eof = true
is_clean_eof _ = false

pub is_none {ℓ} : {A : Type ℓ} → Option A → Bool
is_none none = true
is_none (some a) = false

unfoldable pub reusable : Pool → ConnectionLease → Bool
unfolding is_clean_eof is_none is_live
reusable pool lease =
    is_clean_eof lease.terminal
    && is_none lease.dirty_identity
    && lease.generation == pool.generation_number
    && is_live lease

-- `entry(key).or_insert_with(..)`: the key's generation, which is in the map from then on.
pub entry_or_new : Pool → PoolKey → PoolGeneration
unfolding lookup
entry_or_new pool key = elim (lookup key pool.generations) [
  | none ↦ record { number = pool.generation_number; idle = [] }
  | some generation ↦ generation
]

pub store :
    Pool → ConnectionLease → PoolGeneration → Option IdleConnection → Option ConnectionLease × Pool
unfolding insert
store pool lease generation none = (some lease, pool)
store pool lease generation (some connection) = (
  none,
  record pool {
    generations =
        insert lease.key (record generation { idle = connection ∷ generation.idle })
          pool.generations;
  },
)

-- `some lease` is a lease that is handed back to its caller, `none` one whose connection is stored. A
-- live lease has a connection, so the `expect` of the source does not fail; `store` would hand back.
unfoldable pub release : Pool → ConnectionLease → Option ConnectionLease × Pool
unfolding reusable entry_or_new store
release pool lease =
    if not (reusable pool lease)
    then (some lease, pool)
    else let generation = entry_or_new pool lease.key in
      let entered = record pool { generations = insert lease.key generation pool.generations } in
      if not (generation.number == pool.generation_number)
        || leb pool.max_idle_per_key (length generation.idle)
      then (some lease, entered)
      else store entered lease generation lease.connection

abbrev pub u64_max : ℕ
u64_max = 2 ^ 64 - 1

-- The idle connections of every key, each key's from its oldest.
pub all_idle : Generations → List IdleConnection
all_idle [] = []
all_idle ((k, g) ∷ gs) = reverse g.idle ++ all_idle gs

pub evict : ℕ → Generations → Generations
evict number [] = []
evict number ((k, g) ∷ gs) = (k, record { number = number; idle = [] }) ∷ evict number gs

-- `none` is the panic "pool generation overflow".
unfoldable pub clear : Pool → Option (List IdleConnection × Pool)
unfolding all_idle evict
clear pool =
    if pool.generation_number == u64_max
    then none
    else some (
      all_idle pool.generations,
      record pool {
        generation_number = pool.generation_number + 1;
        generations = evict (pool.generation_number + 1) pool.generations;
      },
    )
