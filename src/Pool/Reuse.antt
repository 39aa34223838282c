-- ===== src/Pool/Reuse.antt =====
-- When the pool of crates/requests/src/transport/pool.rs gives a connection out again.
use requests_native.Prelude.{
  ℕ, ◌+◌, ◌≤◌, ◌<◌, ◌≡◌, refl, sym, ap, ap₂, ◌∙◌, ◌↔◌, ◌⊎◌, inl, inr, true, none, some, List, [],
  ◌∷◌, arith, Bool-cases, Option-cases, length,
}
use mathlib.Core.Logic.{ite}
use requests_native.Session.{Process}
use requests_native.Pool.Keys.{PoolKey, PoolKey-discrete}
use requests_native.Pool.Leases.{
  IdleConnection, ConnectionLease, active, clean_eof, is_live, new_with_session_runtime,
}
use requests_native.Pool.Map.{idle_at, lookup-insert, lookup-insert_self}
use requests_native.Pool.Invariant.{Inv, filled, refused, full, stored, released}
use requests_native.Pool.{
  PoolGeneration, Generations, lookup, insert, Pool, acquire, acquire_from, reusable, entry_or_new,
  release, evict, clear,
}

entry-idle :
    (pool : Pool) (key : PoolKey) → (entry_or_new pool key).idle ≡ idle_at key pool.generations
unfolding entry_or_new idle_at
entry-idle pool key = elim (Option-cases (lookup key pool.generations)) [
  | inl e ↦ rw (e, entry_or_new, idle_at)
  | inr (g, e) ↦ rw (e, entry_or_new, idle_at)
]

-- A lease that may go back to the pool.
abbrev pub IsReusable : Pool → ConnectionLease → Type 0
IsReusable pool lease =
    (lease.terminal ≡ clean_eof)
    × (lease.dirty_identity ≡ none)
    × (lease.generation ≡ pool.generation_number)
    × (is_live lease ≡ true)

reusable_iff :
    (pool : Pool) (lease : ConnectionLease) → (reusable pool lease ≡ true) ↔ IsReusable pool lease
unfolding reusable
reusable_iff pool lease = ground arith

idle_at-insert :
    (k j : PoolKey) (g : PoolGeneration) (gs : Generations)
    → idle_at j (insert k g gs) ≡ ite (PoolKey-discrete k j) g.idle (idle_at j gs)
unfolding idle_at
idle_at-insert k j g gs = ground (arith, lookup-insert k j g gs)

-- An entry made for a key changes nothing that is idle.
idle_at-entered :
    (pool : Pool) (k key : PoolKey)
    → idle_at key (insert k (entry_or_new pool k) pool.generations) ≡ idle_at key pool.generations
idle_at-entered pool k key =
    ground (arith, idle_at-insert k key (entry_or_new pool k) pool.generations, entry-idle pool k)

idle_at-filled :
    (pool : Pool) (k : PoolKey) (c : IdleConnection) (key : PoolKey)
    → idle_at key (filled pool k c).generations
      ≡ ite (PoolKey-discrete k key) (c ∷ idle_at k pool.generations) (idle_at key pool.generations)
idle_at-filled pool k c key =
    let g = entry_or_new pool k in
    idle_at-insert k key (record g { idle = c ∷ g.idle }) (insert k g pool.generations)
    ∙ ap₂ (λ x y. ite (PoolKey-discrete k key) (c ∷ x) y) (entry-idle pool k)
        (idle_at-entered pool k key)

-- The pool stores the connection of a lease exactly when the lease ended at a clean end of its body,
-- was never marked dirty, is of the current generation and is alive, and there is room at its key.
-- The connection is then the first idle one at the key, in front of those that were, and nothing
-- changes at the other keys. Otherwise the caller gets the lease back as it was, and what is idle
-- stays so at every key.
pub release_iff :
    (pool : Pool) (lease : ConnectionLease)
    → Inv pool
    → (((release pool lease).0 ≡ none) ↔ (
        IsReusable pool lease
        × (length (idle_at lease.key pool.generations) < pool.max_idle_per_key)))
      × (((c : IdleConnection) × (lease.connection ≡ some c)
            × ((release pool lease).0 ≡ none)
            × ((key : PoolKey)
                → idle_at key (release pool lease).1.generations
                  ≡ ite
                      (PoolKey-discrete lease.key key)
                      (c ∷ idle_at lease.key pool.generations)
                      (idle_at key pool.generations)))
          ⊎ (((release pool lease).0 ≡ some lease)
              × ((key : PoolKey)
                  → idle_at key (release pool lease).1.generations ≡ idle_at key pool.generations)))
release_iff pool lease v = elim (released pool lease v) [
  | refused e q ↦
      rw q
        (((λ h. cc), (λ h. let k = (reusable_iff pool lease).1 h.0 in cc)), inr (refl, λ key. refl))
  | full e k q ↦
      let k' = rw (entry-idle pool lease.key) at k in
      rw q (((λ h. cc), (λ h. absurd (omega arith))), inr (refl, idle_at-entered pool lease.key))
  | stored c e k l q ↦
      let l' = rw (entry-idle pool lease.key) at l in
      rw q (
        ((λ h. ((reusable_iff pool lease).0 e, l')), (λ h. refl)),
        inl (c, k, refl, idle_at-filled pool lease.key c),
      )
]

-- The last of three entries at a key that holds what the first found there.
idle_at-insert_thrice :
    (k j : PoolKey) (g₁ g₂ g₃ : PoolGeneration) (gs : Generations)
    → g₃.idle ≡ idle_at k gs
    → idle_at j (insert k g₃ (insert k g₂ (insert k g₁ gs))) ≡ idle_at j gs
idle_at-insert_thrice k j g₁ g₂ g₃ gs h = ground (
  arith,
  idle_at-insert k j g₃ (insert k g₂ (insert k g₁ gs)),
  idle_at-insert k j g₂ (insert k g₁ gs),
  idle_at-insert k j g₁ gs,
)

-- What a lease is that `acquire` hands out.
abbrev pub IsFresh : Pool → PoolKey → IdleConnection → ConnectionLease → Type 0
IsFresh pool key c lease =
    (lease.key ≡ key)
    × (lease.generation ≡ pool.generation_number)
    × (lease.terminal ≡ active)
    × (lease.dirty_identity ≡ none)
    × (lease.connection ≡ some c)

acquire_cons :
    (pool : Pool) (key : PoolKey) (p : Process) (g : PoolGeneration) (c : IdleConnection)
    (rest : List IdleConnection)
    → lookup key pool.generations ≡ some g
    → g.idle ≡ c ∷ rest
    → (lease : ConnectionLease) × (p' : Process) × IsFresh pool key c lease
      × (acquire pool key p ≡ (
        some lease,
        record pool { generations = insert key (record g { idle = rest }) pool.generations },
        p',
      ))
unfolding acquire acquire_from new_with_session_runtime
acquire_cons pool key p g c rest e q =
    let r = new_with_session_runtime key pool.generation_number c pool.session_runtime p in
    (r.0, r.1, (refl, refl, refl, refl, refl), rw (e, q, acquire, acquire_from))

-- A connection that the pool stored is the next that it gives out at its key, in a fresh lease, and
-- what is idle is then what was idle before, at every key.
pub acquire-release :
    (pool pool' : Pool) (lease : ConnectionLease) (p : Process)
    → Inv pool
    → release pool lease ≡ (none, pool')
    → (c : IdleConnection) × (lease' : ConnectionLease) × (lease.connection ≡ some c)
      × ((acquire pool' lease.key p).0 ≡ some lease')
      × IsFresh pool lease.key c lease'
      × ((key : PoolKey)
          → idle_at key (acquire pool' lease.key p).1.generations ≡ idle_at key pool.generations)
acquire-release pool pool' lease p v h = elim (released pool lease v) [
  | refused e q ↦ cc
  | full e k q ↦ cc
  | stored c e k l q ↦
      let s : filled pool lease.key c ≡ pool' = ap (λ r. r.1) (sym q ∙ h) in
      let g = entry_or_new pool lease.key in
      let (lease', p', fresh, a) =
        acquire_cons (filled pool lease.key c) lease.key p (record g { idle = c ∷ g.idle }) c g.idle
          (lookup-insert_self lease.key _ _) refl in
      rw (← s) (
        c,
        lease',
        k,
        ap (λ r. r.0) a,
        fresh,
        λ key. rw a (
            idle_at-insert_thrice lease.key key _ _ _ pool.generations (entry-idle pool lease.key)),
      )
]

lookup-evict-idle :
    (k : PoolKey) (number : ℕ) (gs : Generations) (g : PoolGeneration)
    → lookup k (evict number gs) ≡ some g
    → g.idle ≡ []
unfolding lookup evict
lookup-evict-idle k number [] g e = cc
lookup-evict-idle k number ((j, x) ∷ gs) g e = ground (arith, lookup-evict-idle k number gs g)

cleared :
    (pool pool' : Pool) (evicted : List IdleConnection)
    → clear pool ≡ some (evicted, pool')
    → (pool'.generation_number ≡ pool.generation_number + 1)
      × (pool'.generations ≡ evict (pool.generation_number + 1) pool.generations)
unfolding clear
cleared pool pool' evicted e = ground arith

-- After `clear` no key has a connection to give out, and a lease from before is handed back, however
-- it ended: the pool stays as it is.
pub clear-release :
    (pool pool' : Pool) (evicted : List IdleConnection) (lease : ConnectionLease) (key : PoolKey)
    (p : Process)
    → clear pool ≡ some (evicted, pool')
    → lease.generation ≤ pool.generation_number
    → ((acquire pool' key p).0 ≡ none) × (release pool' lease ≡ (some lease, pool'))
clear-release pool pool' evicted lease key p e h =
    let n : pool'.generation_number ≡ pool.generation_number + 1 =
      (cleared pool pool' evicted e).0 in
    let gs : pool'.generations ≡ evict (pool.generation_number + 1) pool.generations =
      (cleared pool pool' evicted e).1 in
    (nothing (Option-cases (lookup key pool'.generations)) gs, stale n)
  where
    stale :
        pool'.generation_number ≡ pool.generation_number + 1
        → release pool' lease ≡ (some lease, pool')
    stale n = elim (Bool-cases (reusable pool' lease)) [
      | inl q ↦ absurd (omega (arith, ((reusable_iff pool' lease).0 q).2))
      | inr q ↦ unfold release in rw (q, release)
    ]

    nothing :
        (lookup key pool'.generations ≡ none)
          ⊎ ((g : PoolGeneration) × (lookup key pool'.generations ≡ some g))
        → pool'.generations ≡ evict (pool.generation_number + 1) pool.generations
        → (acquire pool' key p).0 ≡ none
    nothing (inl q) gs = unfold acquire in rw (q, acquire)
    nothing (inr (g, q)) gs =
        unfold acquire acquire_from in
        rw (q, acquire, lookup-evict-idle key _ pool.generations g (rw gs at q), acquire_from)
