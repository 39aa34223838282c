-- ===== src/Transport/Ownership.antt =====
-- Who owns a connection, over all interleavings of the operations that lock the pool of
-- crates/requests/src/transport/mod.rs: a step is one such operation, or a change that the peer makes.
use requests_native.Prelude.{
  ℕ, ◌+◌, ◌≤◌, ◌≡◌, refl, Option, some, List, [], ◌∷◌, ◌++◌, arith, ◌==◌, if◌then◌else◌,
}
use requests_native.Session.{Process, SessionRuntimeHarness}
use requests_native.Pool.Keys.{PoolKey}
use requests_native.Pool.Leases.{IdleConnection, ConnectionLease}
use requests_native.Pool.{Pool, new, acquire, clear}
use requests_native.Pool.Invariant.{Inv, new-Inv, acquire-Inv, clear-Inv}
use requests_native.Pool.Count.{count_option, idle_count, acquire-count, clear-count}
use requests_native.Transport.Endings.{Ending, end_lease, end_lease-Inv, end_lease-count}

-- The pool, the leases that are held, and the number of the next connection.
pub record World : Type 0 where
  pub pool : Pool
  pub leases : List ConnectionLease
  pub process : Process
  pub next_connection : ℕ

pub data Step (w w' : World) : Type 0 where
  -- A new connection, whose lease may be of a generation that was read earlier.
  connects :
      (lease : ConnectionLease) (c : IdleConnection)
      → c.id ≡ w.next_connection
      → lease.connection ≡ some c
      → w' ≡ record w { leases = lease ∷ w.leases; next_connection = w.next_connection + 1 }
      → Step w w'
  acquires :
      (key : PoolKey) (lease : ConnectionLease)
      → (acquire w.pool key w.process).0 ≡ some lease
      → w' ≡ record w {
        pool = (acquire w.pool key w.process).1;
        leases = lease ∷ w.leases;
        process = (acquire w.pool key w.process).2;
      }
      → Step w w'
  -- The peer or the driver changes what a held connection answers.
  changes :
      (before after : List ConnectionLease) (lease lease' : ConnectionLease) (c c' : IdleConnection)
      → lease.connection ≡ some c
      → lease'.connection ≡ some c'
      → c'.id ≡ c.id
      → w.leases ≡ before ++ lease ∷ after
      → w' ≡ record w { leases = before ++ lease' ∷ after }
      → Step w w'
  ends_lease :
      (how : Ending) (before after : List ConnectionLease) (lease : ConnectionLease)
      → w.leases ≡ before ++ lease ∷ after
      → w' ≡ record w { pool = end_lease how w.pool lease; leases = before ++ after }
      → Step w w'
  clears :
      (evicted : List IdleConnection) (pool : Pool)
      → clear w.pool ≡ some (evicted, pool)
      → w' ≡ record w { pool = pool }
      → Step w w'

pub data Reach (w : World) : World → Type 0 where
  here : Reach w w
  next : {u v : World} → Reach w u → Step u v → Reach w v

abbrev pub held_count : ℕ → List ConnectionLease → ℕ
held_count i [] = 0
held_count i (l ∷ ls) = count_option i l.connection + held_count i ls

-- How often the connection of a number is owned: by the pool or by a lease.
abbrev pub owned : ℕ → World → ℕ
owned i w = idle_count i w.pool.generations + held_count i w.leases

pub record IsExclusive (w : World) : Type 0 where
  pub inv : Inv w.pool
  pub once : (i : ℕ) → owned i w ≤ 1
  pub fresh : (i : ℕ) → w.next_connection ≤ i → owned i w ≡ 0

held_count-append :
    (i : ℕ) (ls ms : List ConnectionLease)
    → held_count i (ls ++ ms) ≡ held_count i ls + held_count i ms
held_count-append i [] ms = omega arith
held_count-append i (l ∷ ls) ms = omega (arith, held_count-append i ls ms)

held_count-split :
    (i : ℕ) (ls before after : List ConnectionLease) (lease : ConnectionLease)
    → ls ≡ before ++ lease ∷ after
    → held_count i ls ≡ held_count i (before ++ after) + count_option i lease.connection
held_count-split i ls before after lease e =
    rw e
      (omega (arith, held_count-append i before (lease ∷ after), held_count-append i before after))

-- A step that owns no connection more often, and keeps the rest.
fewer-IsExclusive :
    (w w' : World)
    → IsExclusive w
    → Inv w'.pool
    → w'.next_connection ≡ w.next_connection
    → ((i : ℕ) → owned i w' ≤ owned i w)
    → IsExclusive w'
fewer-IsExclusive w w' x v n h = record {
  inv = v;
  once = λ i. omega (arith, h i, x.once i);
  fresh = λ i k. omega (arith, h i, x.fresh i (omega arith));
}

Step-IsExclusive : {w w' : World} → IsExclusive w → Step w w' → IsExclusive w'
Step-IsExclusive {w} {w'} x (connects lease c n k e) = rw e (record {
  inv = x.inv;
  once = λ i. ground (arith, new_count i, x.once i, x.fresh i);
  fresh = λ i h. ground (arith, new_count i, x.fresh i);
})
  where
    new_count :
        (i : ℕ) → count_option i lease.connection ≡ (if w.next_connection == i then 1 else 0)
    new_count i = ground arith
Step-IsExclusive {w} {w'} x (acquires key lease e q) = rw q (
    fewer-IsExclusive w _ x (acquire-Inv w.pool key w.process x.inv) refl
      (λ i. omega (arith, acquire-count i w.pool key w.process lease e)))
Step-IsExclusive {w} {w'} x (changes before after lease lease' c c' k k' same e q) = rw q (
    fewer-IsExclusive w _ x x.inv refl (λ i. omega (
      arith,
      held_count-split i w.leases before after lease e,
      held_count-split i (before ++ lease' ∷ after) before after lease' refl,
      one i,
    )))
  where
    one : (i : ℕ) → count_option i lease'.connection ≡ count_option i lease.connection
    one i = ground arith
Step-IsExclusive {w} {w'} x (ends_lease how before after lease e q) = rw q (
    fewer-IsExclusive w _ x (end_lease-Inv how w.pool lease x.inv) refl (λ i. omega (
      arith,
      held_count-split i w.leases before after lease e,
      end_lease-count i how w.pool lease x.inv,
    )))
Step-IsExclusive {w} {w'} x (clears evicted pool e q) = rw q (
    fewer-IsExclusive w _ x (clear-Inv w.pool pool evicted e) refl
      (λ i. omega (arith, clear-count i w.pool pool evicted e)))

Reach-IsExclusive : {w w' : World} → IsExclusive w → Reach w w' → IsExclusive w'
Reach-IsExclusive x here = x
Reach-IsExclusive x (next r s) = Step-IsExclusive (Reach-IsExclusive x r) s

-- No connection, with an empty pool.
unfoldable pub start : ℕ → Option SessionRuntimeHarness → Process → World
unfolding new
start limit runtime p = record {
  pool = new limit runtime;
  leases = [];
  process = p;
  next_connection = 0;
}

-- Whatever the order in which leases are made, acquired, ended and the pool cleared, a connection is
-- owned at most once, by the pool or by one lease, and the pool keeps its bound and its generation.
pub Reach-owned :
    (limit : ℕ) (runtime : Option SessionRuntimeHarness) (p : Process) (w : World) (i : ℕ)
    → Reach (start limit runtime p) w
    → (owned i w ≤ 1) × Inv w.pool
unfolding start
Reach-owned limit runtime p w i r =
    let x =
      Reach-IsExclusive
        (record {
          inv = new-Inv limit runtime;
          once = λ i. unfold new in omega arith;
          fresh = λ i h. unfold new in omega arith;
        })
        r in
    (x.once i, x.inv)
