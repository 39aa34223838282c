-- ===== src/Response/Examples.antt =====
-- The theorems on bodies at concrete bodies.
use requests_native.Prelude.{
  ◌<◌, ◌≡◌, refl, inr, true, false, Option, none, some, List, [], ◌∷◌, arith, Bytes,
}
use requests_native.Pool.Leases.{active}
use requests_native.Pool.Count.{idle_count}
use requests_native.Pool.Examples.{example_pool, example_pool-Inv, example_lease, released_count}
use requests_native.Response.{reusable_state, initial}
use requests_native.Response.{partial_read, clean_eof, close}
use requests_native.Response.Disposition.{
  apply_all, outcome, decision_of, decisions_of, apply_all-outcome,
}
use requests_native.Response.Body.{ResponseBody, incoming, data_frame, frame_end}
use requests_native.Response.Poll.{pending, Moment, poll_next}
use requests_native.Response.Safety.{IsSound}
use requests_native.Response.Operations.{Closes, poll_next-Closes}
use requests_native.Response.Run.{
  Operation, polls, closes, drops, operate, run, run-terminal, run-IsSound, run-stores,
}
use requests_native.Response.Reading.{
  sourced, stream, answers, reads, IsRunning, IsReadOut, reads-stream,
}

-- A body of two bytes on a lease.
abbrev example_body : ResponseBody
example_body = record {
  source = some (incoming (data_frame (104 ∷ 105 ∷ []) ∷ frame_end ∷ []));
  driver = some (example_lease active);
  read_timeout = none;
  read_deadline = none;
  total_timeout = none;
  total_deadline = none;
  chunked = false;
  expected_content_length = some 2;
  declared_completion_length = some 2;
  encoded_completion = false;
  received_body_bytes = 0;
  remainder_wait = none;
  terminal = false;
  disposition = initial;
}

example_body-IsSound : IsSound (example_body, example_pool)
example_body-IsSound = record {
  final = refl;
  live = refl;
  decided = refl;
  given_up = inr refl;
  held = refl;
  inv = example_pool-Inv;
}

abbrev example_moment : Moment
example_moment = record {
  now = 0;
  later = 0;
  latest = 0;
  gate_pending = false;
  driver_result = pending;
}

abbrev read_out : List Operation
read_out = polls example_moment ∷ polls example_moment ∷ []

poll_next-Closes_example :
    IsSound (poll_next (example_body, example_pool) example_moment).1
    × Closes
        (poll_next (example_body, example_pool) example_moment).0
        (poll_next (example_body, example_pool) example_moment).1.0
poll_next-Closes_example =
    poll_next-Closes example_body example_pool example_moment example_body-IsSound

run-IsSound_example : IsSound (run (example_body, example_pool) read_out)
run-IsSound_example = run-IsSound example_body example_pool read_out example_body-IsSound

read_out_stores :
    idle_count 0 example_pool.generations
    < idle_count 0 (run (example_body, example_pool) read_out).1.generations
unfolding run operate
read_out_stores = omega (arith, released_count)

run-stores_example :
    (run (example_body, example_pool) read_out).0.disposition.state ≡ reusable_state
run-stores_example =
    run-stores 0 example_body example_pool read_out example_body-IsSound read_out_stores

run-terminal_test :
    run (record example_body { terminal = true }, example_pool) (closes ∷ drops ∷ read_out)
    ≡ (record example_body { terminal = true }, example_pool)
run-terminal_test =
    run-terminal (record example_body { terminal = true }) example_pool (closes ∷ drops ∷ read_out)
      refl

abbrev example_parts : List (Option Bytes)
example_parts = none ∷ some (104 ∷ 105 ∷ []) ∷ none ∷ []

example_body-IsRunning : IsRunning example_body
example_body-IsRunning = record {
  terminal = refl;
  live = refl;
  read_deadline = refl;
  total_deadline = refl;
}

reads-stream_example :
    ((reads
        (sourced example_body (stream example_parts), example_pool)
        (example_moment ∷ example_moment ∷ [])).0
      ≡ answers ((104 ∷ 105 ∷ []) ∷ []))
    × IsReadOut
        (reads
          (sourced example_body (stream example_parts), example_pool)
          (example_moment ∷ example_moment ∷ [])).1
        2
reads-stream_example =
    reads-stream example_body example_pool example_parts (example_moment ∷ example_moment ∷ [])
      example_body-IsRunning refl

apply_all-outcome_example :
    ((apply_all initial (partial_read ∷ clean_eof ∷ close ∷ [])).state
      ≡ outcome false (partial_read ∷ clean_eof ∷ close ∷ []))
    × ((apply_all initial (partial_read ∷ clean_eof ∷ close ∷ [])).decision
        ≡ decision_of (outcome false (partial_read ∷ clean_eof ∷ close ∷ [])))
    × ((apply_all initial (partial_read ∷ clean_eof ∷ close ∷ [])).decision_count
        ≡ decisions_of (outcome false (partial_read ∷ clean_eof ∷ close ∷ [])))
apply_all-outcome_example = apply_all-outcome (partial_read ∷ clean_eof ∷ close ∷ [])
