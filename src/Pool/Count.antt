-- ===== src/Pool/Count.antt =====
-- How often a connection is idle in the pool of crates/requests/src/transport/pool.rs.
use requests_native.Prelude.{
  ℕ, suc, ◌+◌, ◌≡◌, refl, ap, ◌⊎◌, inl, inr, true, Option, none, some, List, [], ◌∷◌, ◌++◌, arith,
  ◌==◌, if◌then◌else◌, Option-cases,
}
use mathlib.Core.List.{reverse, reverse-cons}
use requests_native.Session.{Process}
use requests_native.Pool.Keys.{PoolKey}
use requests_native.Pool.Leases.{IdleConnection, ConnectionLease, new_with_session_runtime}
use requests_native.Pool.Map.{idle_at, idle_at-insert_self}
use requests_native.Pool.Invariant.{Inv, entered, filled, refused, full, stored, released}
use requests_native.Pool.{
  PoolGeneration, Generations, lookup, insert, Pool, acquire, acquire_from, entry_or_new, release,
  evict, clear, reusable, all_idle,
}

abbrev pub count : ℕ → List IdleConnection → ℕ
count i [] = 0
count i (c ∷ cs) = if c.id == i then suc (count i cs) else count i cs

abbrev pub count_option : ℕ → Option IdleConnection → ℕ
count_option i none = 0
count_option i (some c) = if c.id == i then 1 else 0

-- At all keys together.
abbrev pub idle_count : ℕ → Generations → ℕ
idle_count i [] = 0
idle_count i ((k, g) ∷ gs) = count i g.idle + idle_count i gs

pub idle_count-insert :
    (i : ℕ) (k : PoolKey) (g : PoolGeneration) (gs : Generations)
    → idle_count i (insert k g gs) + count i (idle_at k gs) ≡ idle_count i gs + count i g.idle
unfolding insert idle_at lookup
idle_count-insert i k g [] = omega arith
idle_count-insert i k g ((j, h) ∷ gs) = ground (arith, idle_count-insert i k g gs)

entry-count :
    (i : ℕ) (pool : Pool) (key : PoolKey)
    → count i (entry_or_new pool key).idle ≡ count i (idle_at key pool.generations)
unfolding entry_or_new idle_at
entry-count i pool key = elim (Option-cases (lookup key pool.generations)) [
  | inl e ↦ rw (e, entry_or_new, idle_at)
  | inr (g, e) ↦ rw (e, entry_or_new, idle_at)
]

-- An entry that is only looked up changes no count.
entered-count :
    (i : ℕ) (pool : Pool) (key : PoolKey)
    → idle_count i (entered pool key).generations ≡ idle_count i pool.generations
entered-count i pool key = omega (
  arith,
  idle_count-insert i key (entry_or_new pool key) pool.generations,
  entry-count i pool key,
)

filled-count :
    (i : ℕ) (pool : Pool) (key : PoolKey) (c : IdleConnection)
    → idle_count i (filled pool key c).generations
      ≡ idle_count i pool.generations + count_option i (some c)
filled-count i pool key c =
    let g = entry_or_new pool key in
    let more =
      idle_count-insert i key (record g { idle = c ∷ g.idle }) (entered pool key).generations in
    let self = ap (count i) (idle_at-insert_self key g pool.generations) in
    ground (arith, more, self, entered-count i pool key)

-- Releasing a lease adds at most the lease's connection, and that only where it is reusable.
pub release-count :
    (i : ℕ) (pool : Pool) (lease : ConnectionLease)
    → Inv pool
    → (idle_count i (release pool lease).1.generations ≡ idle_count i pool.generations)
      ⊎ ((reusable pool lease ≡ true)
          × (idle_count i (release pool lease).1.generations
              ≡ idle_count i pool.generations + count_option i lease.connection))
release-count i pool lease v = elim (released pool lease v) [
  | refused e q ↦ inl (rw q)
  | full e k q ↦ inl (rw q (entered-count i pool lease.key))
  | stored c e k l q ↦ inr (e, rw (q, k) (filled-count i pool lease.key c))
]

taken-count :
    (i : ℕ) (pool : Pool) (key : PoolKey) (g : PoolGeneration) (c : IdleConnection)
    (rest : List IdleConnection)
    → lookup key pool.generations ≡ some g
    → g.idle ≡ c ∷ rest
    → idle_count i (insert key (record g { idle = rest }) pool.generations)
        + count_option i (some c)
      ≡ idle_count i pool.generations
unfolding idle_at
taken-count i pool key g c rest e q =
    let at_key : idle_at key pool.generations ≡ c ∷ rest = rw (e, idle_at) q in
    ground (
      arith,
      idle_count-insert i key (record g { idle = rest }) pool.generations,
      ap (count i) at_key,
    )

acquire_from-count :
    (i : ℕ) (pool : Pool) (key : PoolKey) (p : Process) (lease : ConnectionLease)
    (g : PoolGeneration) (idle : List IdleConnection)
    → lookup key pool.generations ≡ some g
    → g.idle ≡ idle
    → (acquire_from pool key g p).0 ≡ some lease
    → idle_count i (acquire_from pool key g p).1.generations + count_option i lease.connection
      ≡ idle_count i pool.generations
unfolding acquire_from new_with_session_runtime
acquire_from-count i pool key p lease g [] e q h = cc
acquire_from-count i pool key p lease g (c ∷ rest) e q h =
    ground (arith, taken-count i pool key g c rest e q)

-- Acquiring takes the connection of the lease out of the pool, and nothing else.
pub acquire-count :
    (i : ℕ) (pool : Pool) (key : PoolKey) (p : Process) (lease : ConnectionLease)
    → (acquire pool key p).0 ≡ some lease
    → idle_count i (acquire pool key p).1.generations + count_option i lease.connection
      ≡ idle_count i pool.generations
unfolding acquire
acquire-count i pool key p lease h = elim (Option-cases (lookup key pool.generations)) [
  | inl e ↦ cc
  | inr (g, e) ↦
      rw (e, acquire) (acquire_from-count i pool key p lease g g.idle e refl (rw (e, acquire) at h))
]

-- Acquiring in vain leaves the pool as it was.
pub acquire-none :
    (pool : Pool) (key : PoolKey) (p : Process)
    → (acquire pool key p).0 ≡ none
    → (acquire pool key p).1 ≡ pool
unfolding acquire acquire_from
acquire-none pool key p h = ground arith

evict-count : (i n : ℕ) (gs : Generations) → idle_count i (evict n gs) ≡ 0
unfolding evict
evict-count i n [] = refl
evict-count i n ((k, g) ∷ gs) = omega (arith, evict-count i n gs)

pub clear-count :
    (i : ℕ) (pool pool' : Pool) (evicted : List IdleConnection)
    → clear pool ≡ some (evicted, pool')
    → idle_count i pool'.generations ≡ 0
unfolding clear
clear-count i pool pool' evicted e =
    ground (arith, evict-count i (pool.generation_number + 1) pool.generations)

count-append : (i : ℕ) (cs ds : List IdleConnection) → count i (cs ++ ds) ≡ count i cs + count i ds
count-append i [] ds = omega arith
count-append i (c ∷ cs) ds = ground (arith, count-append i cs ds)

count-reverse : (i : ℕ) (cs : List IdleConnection) → count i (reverse cs) ≡ count i cs
count-reverse i [] = refl
count-reverse i (c ∷ cs) =
    rw (reverse-cons c cs, count-append i (reverse cs) (c ∷ []))
      (ground (arith, count-reverse i cs))

-- What `clear` evicts is what was idle, each connection as often.
pub all_idle-count : (i : ℕ) (gs : Generations) → count i (all_idle gs) ≡ idle_count i gs
unfolding all_idle
all_idle-count i [] = refl
all_idle-count i ((k, g) ∷ gs) =
    rw (count-append i (reverse g.idle) (all_idle gs), count-reverse i g.idle)
      (omega (arith, all_idle-count i gs))
