-- ===== src/Hooks/Examples.antt =====
-- A run of three hooks.
use requests_native.Prelude.{◌≡◌, none, some, [], ◌∷◌, arith}
use requests_native.Hooks.{new}
use requests_native.Hooks.Order.{run, calls_from, run-new}

run-new_test :
    run (new 2) (none ∷ some 7 ∷ none ∷ [])
    ≡ some (calls_from 0 2 (none ∷ some 7 ∷ none ∷ []), record { next_hook = 3; current_value = 7 })
run-new_test = run-new 2 (none ∷ some 7 ∷ none ∷ []) (omega arith)
