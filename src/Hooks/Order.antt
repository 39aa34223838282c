-- ===== src/Hooks/Order.antt =====
-- Runs of hooks against the registry of crates/requests/src/hooks.rs.
use requests_native.Prelude.{
  ℕ, ◌+◌, ◌^◌, ◌<◌, ◌≡◌, ap, ◌∙◌, Option, none, some, List, [], ◌∷◌, arith, lt→ltb, length,
}
use requests_native.Hooks.{HookCall, HookRegistry, new, next_call, replace}

-- What each hook leaves as the value: a hook that returns nothing does not replace it.
abbrev left : Option ℕ → HookRegistry → HookRegistry
unfolding replace
left none r = r
left (some v) r = replace r v

abbrev consed :
    HookCall → Option (List HookCall × HookRegistry) → Option (List HookCall × HookRegistry)
consed call none = none
consed call (some (calls, r)) = some (call ∷ calls, r)

pub run : HookRegistry → List (Option ℕ) → Option (List HookCall × HookRegistry)
unfolding next_call replace left
run r [] = some ([], r)
run r (result ∷ results) = elim (next_call r) [
  | none ↦ none
  | some (call, r') ↦ consed call (run (left result r') results)
]

-- The calls that hooks should get: numbered from the first, each with the value that the last hook
-- before it left.
abbrev pub calls_from : ℕ → ℕ → List (Option ℕ) → List HookCall
calls_from n v [] = []
calls_from n v (none ∷ results) = record { hook = n; value = v } ∷ calls_from (n + 1) v results
calls_from n v (some v' ∷ results) = record { hook = n; value = v } ∷ calls_from (n + 1) v' results

abbrev pub last_value : ℕ → List (Option ℕ) → ℕ
last_value v [] = v
last_value v (none ∷ results) = last_value v results
last_value v (some v' ∷ results) = last_value v' results

abbrev registry : ℕ → ℕ → HookRegistry
registry n v = record { next_hook = n; current_value = v }

next_call-registry :
    (n v : ℕ)
    → n + 1 < 2 ^ 64
    → next_call (registry n v) ≡ some (record { hook = n; value = v }, registry (n + 1) v)
unfolding next_call
next_call-registry n v h = ground (arith, lt→ltb (n + 1) (2 ^ 64) h)

run-next_call :
    (n v : ℕ) (result : Option ℕ) (results : List (Option ℕ))
    → n + 1 < 2 ^ 64
    → run (registry n v) (result ∷ results)
      ≡ consed (record { hook = n; value = v }) (run (left result (registry (n + 1) v)) results)
unfolding run
run-next_call n v result results h = rw (next_call-registry n v h, run)

run_from :
    (n v : ℕ) (results : List (Option ℕ))
    → n + length results < 2 ^ 64
    → run (registry n v) results
      ≡ some (calls_from n v results, registry (n + length results) (last_value v results))
unfolding left replace
run_from n v [] h = unfold run in ground arith
run_from n v (none ∷ results) h =
    run-next_call n v none results (omega arith)
    ∙ ap (consed _) (run_from (n + 1) v results (omega arith))
    ∙ ap (λ k. some (calls_from n v (none ∷ results), registry k (last_value v results)))
        (omega arith)
run_from n v (some v' ∷ results) h =
    run-next_call n v (some v') results (omega arith)
    ∙ ap (consed _) (run_from (n + 1) v' results (omega arith))
    ∙ ap (λ k. some (calls_from n v (some v' ∷ results), registry k (last_value v' results)))
        (omega arith)

-- A new registry numbers the calls of fewer than 2 ^ 64 hooks from zero in their order, gives each the
-- value that the last replacement before it left, and ends with the last one.
pub run-new :
    (v : ℕ) (results : List (Option ℕ))
    → length results < 2 ^ 64
    → run (new v) results
      ≡ some (
        calls_from 0 v results,
        record { next_hook = length results; current_value = last_value v results },
      )
unfolding new
run-new v results h =
    run_from 0 v results (omega arith)
    ∙ ap (λ k. some (calls_from 0 v results, registry k (last_value v results))) (omega arith)
