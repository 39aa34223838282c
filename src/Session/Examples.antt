-- ===== src/Session/Examples.antt =====
-- Two identities of a process.
use requests_native.Prelude.{◌+◌, ◌≢◌, arith}
use requests_native.Session.{Process, next_process_identity}
use requests_native.Session.Identities.{taken, next_process_identity-taken}

abbrev example_process : Process
example_process = record { pid = 7; next_identity = 1 }

next_process_identity-taken_test :
    (next_process_identity (taken 2 example_process)).0
    ≢ (next_process_identity (taken (2 + 3) example_process)).0
next_process_identity-taken_test =
    next_process_identity-taken example_process 2 3 (omega arith) (omega arith)
