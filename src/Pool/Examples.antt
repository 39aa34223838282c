-- ===== src/Pool/Examples.antt =====
-- The pool's theorems at concrete pools.
use requests_native.Prelude.{
  ◌<◌, ◌≡◌, refl, ◌↔◌, ◌⊎◌, true, false, none, some, [], ◌∷◌, arith, length, codes,
}
use mathlib.Core.Logic.{ite}
use requests_native.Session.{Process}
use requests_native.Pool.Keys.{PoolKey, PoolKey-discrete, plain}
use requests_native.Pool.Leases.{
  IdleConnection, ConnectionLease, LeaseTerminal, active, clean_eof, upload, is_live,
  connection_is_live, complete_dirty,
}
use requests_native.Pool.Map.{idle_at}
use requests_native.Pool.Invariant.{Inv}
use requests_native.Pool.Count.{idle_count}
use requests_native.Pool.Reuse.{IsReusable, IsFresh, release_iff, acquire-release, clear-release}
use requests_native.Pool.Completion.{completes, apply_all, release-dirty}
use requests_native.Pool.{
  Pool, is_clean_eof, is_none, acquire, release, reusable, entry_or_new, store, insert, lookup,
  clear,
}

abbrev pub example_key : PoolKey
example_key = record {
  scheme = codes "http";
  authority = codes "example.org:80";
  proxy = none;
  tls = plain;
  identity = none;
}

abbrev pub example_process : Process
example_process = record { pid = 7; next_identity = 0 }

abbrev pub live_connection : IdleConnection
live_connection = record {
  id = 0;
  sender_closed = false;
  driver_reusable = true;
  driver_peer_open = true;
  session_identity = none;
}

abbrev pub example_pool : Pool
example_pool = record {
  max_idle_per_key = 2;
  generation_number = 0;
  generations = [];
  session_runtime = none;
}

abbrev pub example_pool-Inv : Inv example_pool
example_pool-Inv = record { current = tt }

abbrev pub example_lease : LeaseTerminal → ConnectionLease
example_lease terminal = record {
  key = example_key;
  generation = 0;
  terminal = terminal;
  dirty_identity = none;
  connection = some live_connection;
  session_lease_identity = none;
}

abbrev filled_pool : Pool
filled_pool = (release example_pool (example_lease clean_eof)).1

stored_lease : release example_pool (example_lease clean_eof) ≡ (none, filled_pool)
unfolding release
stored_lease = refl

pub released_count : idle_count 0 (release example_pool (example_lease clean_eof)).1.generations ≡ 1
unfolding release reusable is_clean_eof is_none is_live connection_is_live entry_or_new store insert
    lookup PoolKey-discrete native.Mathlib.Decide.ℕ_discrete
released_count = refl

release_iff_example :
    (((release example_pool (example_lease clean_eof)).0 ≡ none) ↔ (
      IsReusable example_pool (example_lease clean_eof)
      × (length (idle_at example_key example_pool.generations) < 2)))
    × (((c : IdleConnection) × (some live_connection ≡ some c)
          × ((release example_pool (example_lease clean_eof)).0 ≡ none)
          × ((key : PoolKey)
              → idle_at key filled_pool.generations
                ≡ ite
                    (PoolKey-discrete example_key key)
                    (c ∷ idle_at example_key example_pool.generations)
                    (idle_at key example_pool.generations)))
        ⊎ (((release example_pool (example_lease clean_eof)).0 ≡ some (example_lease clean_eof))
            × ((key : PoolKey)
                → idle_at key filled_pool.generations ≡ idle_at key example_pool.generations)))
release_iff_example = release_iff example_pool (example_lease clean_eof) example_pool-Inv

acquire-release_example :
    (c : IdleConnection) × (lease' : ConnectionLease) × (some live_connection ≡ some c)
    × ((acquire filled_pool example_key example_process).0 ≡ some lease')
    × IsFresh example_pool example_key c lease'
    × ((key : PoolKey)
        → idle_at key (acquire filled_pool example_key example_process).1.generations
          ≡ idle_at key [])
acquire-release_example =
    acquire-release example_pool filled_pool (example_lease clean_eof) example_process
      example_pool-Inv stored_lease

abbrev cleared_pool : Pool
cleared_pool = record example_pool { generation_number = 1 }

example_cleared : clear example_pool ≡ some ([], cleared_pool)
unfolding clear
example_cleared = refl

clear-release_example :
    ((acquire cleared_pool example_key example_process).0 ≡ none)
    × (release cleared_pool (example_lease clean_eof)
        ≡ (some (example_lease clean_eof), cleared_pool))
clear-release_example =
    clear-release example_pool cleared_pool [] (example_lease clean_eof) example_key example_process
      example_cleared (omega arith)

release-dirty_test :
    release example_pool
      (apply_all (complete_dirty (example_lease active) upload) (completes clean_eof ∷ []))
    ≡ (some (complete_dirty (example_lease active) upload), example_pool)
release-dirty_test =
    release-dirty example_pool (example_lease active) upload (completes clean_eof ∷ []) refl
