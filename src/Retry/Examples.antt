-- ===== src/Retry/Examples.antt =====
-- The retry theorems at a concrete policy.
use requests_native.Prelude.{
  ◌≡◌, refl, ◌↔◌, true, false, none, some, List, [], ◌∷◌, ◌++◌, map, arith, codes, ok, err,
}
use requests_native.Retry.{
  unlimited, boolean, limited, RetryPolicy, connect, status, exhausted, RetryState, counter,
  increment, consumed_reason,
}
use requests_native.Retry.Budget.{Attempt, entry, attempts, Allows}
use requests_native.Retry.Attempts.{attempts_iff, attempts_exhausted, history-attempts}

-- Three attempts in all, of which one may be redirected and the connection may fail once.
abbrev example_policy : RetryPolicy (Unit {0})
example_policy = record {
  total = limited 3;
  connect = boolean true;
  read = unlimited;
  status = limited 2;
  redirect = limited 1;
  other = unlimited;
  allowed_methods = none;
  status_forcelist = record { statuses = [] };
  backoff = record { factor = tt; maximum = none; jitter = tt };
  respect_retry_after = false;
  raise_on_status = true;
  raise_on_redirect = true;
}

abbrev example_state : RetryState (Unit {0})
example_state = record { remaining = example_policy; history = [] }

abbrev failed_connection : Attempt
failed_connection = record {
  reason = connect;
  method = codes "GET";
  url = codes "/";
  location = none;
}

abbrev redirected : Attempt
redirected = record {
  reason = status 301;
  method = codes "GET";
  url = codes "/";
  location = some (codes "/a");
}

abbrev example_attempts : List Attempt
example_attempts = failed_connection ∷ redirected ∷ []

example_allowed : Allows example_policy example_attempts
unfolding counter consumed_reason
example_allowed = (omega arith, λ r. ground arith)

attempts_iff_example :
    ((s' : RetryState (Unit {0})) × (attempts example_state example_attempts ≡ ok s'))
    ↔ Allows example_policy example_attempts
attempts_iff_example = attempts_iff example_state example_attempts

second_connection : ¬ Allows example_policy (example_attempts ++ failed_connection ∷ [])
unfolding counter consumed_reason
second_connection h = ground (arith, h.1 connect)

attempts_exhausted_test :
    attempts example_state (example_attempts ++ failed_connection ∷ redirected ∷ [])
    ≡ err (exhausted connect)
unfolding consumed_reason
attempts_exhausted_test =
    attempts_exhausted example_state example_attempts failed_connection (redirected ∷ [])
      example_allowed second_connection

abbrev left_state : RetryState (Unit {0})
left_state = record {
  remaining = record example_policy {
    total = limited 1;
    connect = limited 0;
    redirect = limited 0;
  };
  history = map entry example_attempts;
}

example_run : attempts example_state example_attempts ≡ ok left_state
unfolding attempts increment consumed_reason
example_run = refl

history-attempts_test : map entry example_attempts ≡ [] ++ map entry example_attempts
history-attempts_test = history-attempts example_state left_state example_attempts example_run
