-- ===== src/Pool/Invariant.antt =====
-- What the pool of crates/requests/src/transport/pool.rs keeps: every entry of the map is of the
-- current generation and within the limit.
use requests_native.Prelude.{
  ℕ, ◌+◌, ◌≤◌, ◌<◌, ◌≡◌, refl, ap, inl, inr, true, false, Option, none, some, List, [], ◌∷◌, arith,
  leb, ◌==◌, leb→le, Bool-cases, Option-cases, length,
}
use requests_native.Session.{Process, SessionRuntimeHarness}
use requests_native.Pool.Keys.{PoolKey}
use requests_native.Pool.Leases.{IdleConnection, ConnectionLease}
use requests_native.Pool.Map.{AllGenerations, insert-All, lookup-All}
use requests_native.Pool.{
  PoolGeneration, Generations, lookup, insert, Pool, new, acquire, acquire_from, reusable,
  entry_or_new, release, evict, clear, u64_max,
}

abbrev pub IsCurrent : ℕ → ℕ → PoolGeneration → Type 0
IsCurrent number limit g = (g.number ≡ number) × (length g.idle ≤ limit)

pub record Inv (pool : Pool) : Type 0 where
  pub current :
      AllGenerations (IsCurrent pool.generation_number pool.max_idle_per_key) pool.generations

pub new-Inv : (limit : ℕ) (runtime : Option SessionRuntimeHarness) → Inv (new limit runtime)
unfolding new
new-Inv limit runtime = record { current = tt }

pub acquire-Inv :
    (pool : Pool) (key : PoolKey) (p : Process) → Inv pool → Inv (acquire pool key p).1
unfolding acquire
acquire-Inv pool key p v = elim (Option-cases (lookup key pool.generations)) [
  | inl e ↦ rw (e, acquire) v
  | inr (g, e) ↦
      rw (e, acquire) (taken g g.idle refl (lookup-All _ key pool.generations g v.current e))
]
  where
    taken :
        (g : PoolGeneration) (idle : List IdleConnection)
        → g.idle ≡ idle
        → IsCurrent pool.generation_number pool.max_idle_per_key g
        → Inv (acquire_from pool key g p).1
    taken g [] q h = rw (q, acquire_from) v
    taken g (c ∷ rest) q h =
        rw (q, acquire_from)
          (record {
            current =
                insert-All _ key _ pool.generations (h.0, omega (arith, h.1, ap length q))
                  v.current;
          })

entry-IsCurrent :
    (pool : Pool) (key : PoolKey)
    → Inv pool
    → IsCurrent pool.generation_number pool.max_idle_per_key (entry_or_new pool key)
unfolding entry_or_new
entry-IsCurrent pool key v = elim (Option-cases (lookup key pool.generations)) [
  | inl e ↦ rw (e, entry_or_new) (refl, omega arith)
  | inr (g, e) ↦ rw (e, entry_or_new) (lookup-All _ key pool.generations g v.current e)
]

-- The pool with an entry for the key.
abbrev pub entered : Pool → PoolKey → Pool
entered pool key = record pool { generations = insert key (entry_or_new pool key) pool.generations }

-- The pool with one more idle connection at the key.
abbrev pub filled : Pool → PoolKey → IdleConnection → Pool
filled pool key c = record pool {
  generations = insert key (record g { idle = c ∷ g.idle }) (insert key g pool.generations);
}
  where
    g : PoolGeneration
    g = entry_or_new pool key

-- What `release` does: it refuses the lease, finds no room for it, or stores its connection.
pub data Released (pool : Pool) (lease : ConnectionLease) : Type 0 where
  refused :
      reusable pool lease ≡ false → release pool lease ≡ (some lease, pool) → Released pool lease
  full :
      reusable pool lease ≡ true
      → pool.max_idle_per_key ≤ length (entry_or_new pool lease.key).idle
      → release pool lease ≡ (some lease, entered pool lease.key)
      → Released pool lease
  stored :
      (c : IdleConnection)
      → reusable pool lease ≡ true
      → lease.connection ≡ some c
      → length (entry_or_new pool lease.key).idle < pool.max_idle_per_key
      → release pool lease ≡ (none, filled pool lease.key c)
      → Released pool lease

reusable-connection :
    (pool : Pool) (lease : ConnectionLease)
    → reusable pool lease ≡ true
    → (c : IdleConnection) × (lease.connection ≡ some c)
unfolding reusable
reusable-connection pool lease e = ground arith

pub released : (pool : Pool) (lease : ConnectionLease) → Inv pool → Released pool lease
unfolding release
released pool lease v =
    let h = entry-IsCurrent pool lease.key v in
    elim (Bool-cases (reusable pool lease)) [
      | inr e ↦ refused e (rw (e, release))
      | inl e ↦
          elim (Bool-cases
            (leb pool.max_idle_per_key (length (entry_or_new pool lease.key).idle))) [
              | inl q ↦ full e (leb→le _ _ q) (rw (e, h.0, q, release) (ground arith))
              | inr q ↦
                  let (c, k) = reusable-connection pool lease e in
                  stored c e k (ground arith) (rw (e, h.0, q, k, release) (ground arith))
            ]
    ]

pub release-Inv : (pool : Pool) (lease : ConnectionLease) → Inv pool → Inv (release pool lease).1
release-Inv pool lease v = elim (released pool lease v) [
  | refused e q ↦ rw q v
  | full e k q ↦
      rw q (record { current = insert-All _ _ _ _ (entry-IsCurrent pool lease.key v) v.current })
  | stored c e k l q ↦
      let h = entry-IsCurrent pool lease.key v in
      rw q (record {
        current = insert-All _ _ _ _ (h.0, omega arith) (insert-All _ _ _ _ h v.current);
      })
]

pub evict-IsCurrent :
    (number limit : ℕ) (gs : Generations)
    → AllGenerations (IsCurrent number limit) (evict number gs)
unfolding evict
evict-IsCurrent number limit [] = tt
evict-IsCurrent number limit ((k, g) ∷ gs) = ((refl, omega arith), evict-IsCurrent number limit gs)

pub clear-Inv :
    (pool pool' : Pool) (evicted : List IdleConnection)
    → clear pool ≡ some (evicted, pool')
    → Inv pool'
unfolding clear
clear-Inv pool pool' evicted e = elim (Bool-cases (pool.generation_number == u64_max)) [
  | inl q ↦ ground arith
  | inr q ↦
      let r : record pool {
        generation_number = pool.generation_number + 1;
        generations = evict (pool.generation_number + 1) pool.generations;
      }
          ≡ pool' =
        ground arith in
      rw (← r) (record { current = evict-IsCurrent _ pool.max_idle_per_key pool.generations })
]
