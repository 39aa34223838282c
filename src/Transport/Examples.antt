-- ===== src/Transport/Examples.antt =====
-- The theorems on leases and deadlines at concrete leases.
use requests_native.Prelude.{
  ℕ, ◌≤◌, ◌<◌, ◌≡◌, refl, ◌↔◌, ◌⊎◌, true, Option, none, some, [], ◌∷◌, arith,
}
use requests_native.Pool.Leases.{active, is_live, peer_is_open, complete, complete_from}
use requests_native.Pool.Invariant.{Inv}
use requests_native.Pool.Count.{idle_count}
use requests_native.Pool.Examples.{
  example_process, live_connection, example_pool, example_pool-Inv, example_lease, released_count,
}
use requests_native.Transport.{select_deadline_source, deadline_for, finish_now, release_lease}
use requests_native.Transport.Deadlines.{NotAfter, deadline_for-select_deadline_source}
use requests_native.Transport.Endings.{finishes, end_lease, end_lease-stores}
use requests_native.Transport.Ownership.{
  World, connects, ends_lease, Reach, here, next, owned, start, Reach-owned,
}

deadline_for-select_deadline_source_test :
    (deadline_for (select_deadline_source (some 5) (some 9)) (some 5) (some 9) ≡ some 5) ↔ (
      NotAfter 5 (some 5)
      × NotAfter 5 (some 9)
      × ((Path (Option ℕ) (some 5) (some 5)) ⊎ (Path (Option ℕ) (some 9) (some 5))))
deadline_for-select_deadline_source_test = deadline_for-select_deadline_source (some 5) (some 9) 5

stores_more :
    idle_count 0 example_pool.generations
    < idle_count 0 (end_lease (finishes true) example_pool (example_lease active)).generations
unfolding end_lease finish_now release_lease complete complete_from is_live peer_is_open
stores_more = omega (arith, released_count)

end_lease-stores_example :
    (finishes true ≡ finishes true)
    × (0 ≡ example_pool.generation_number)
    × (is_live (example_lease active) ≡ true)
    × (peer_is_open (example_lease active) ≡ true)
end_lease-stores_example =
    end_lease-stores (finishes true) example_pool (example_lease active) 0 example_pool-Inv refl
      stores_more

-- One exchange on a new connection, which goes back to the pool.
abbrev connected : World
connected = record {
  pool = (start 2 none example_process).pool;
  leases = example_lease active ∷ [];
  process = example_process;
  next_connection = 1;
}

abbrev exchanged : World
exchanged = record connected {
  pool = end_lease (finishes true) connected.pool (example_lease active);
  leases = [];
}

exchange : Reach (start 2 none example_process) exchanged
unfolding start
exchange =
    next (next here (connects (example_lease active) live_connection refl refl refl))
      (ends_lease (finishes true) [] [] (example_lease active) refl refl)

Reach-owned_example : (owned 0 exchanged ≤ 1) × Inv exchanged.pool
Reach-owned_example = Reach-owned 2 none example_process exchanged 0 exchange
