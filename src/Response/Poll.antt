-- ===== src/Response/Poll.antt =====
-- `poll_next` of crates/requests/src/response.rs.
use requests_native.Prelude.{
  ℕ, ◌+◌, ◌-◌, ◌^◌, min, Bool, true, false, ◌&&◌, Option, none, some, leb, if◌then◌else◌, length,
  Bytes, Result, ok, err,
}
use requests_native.Errors.{
  ErrorKind, Error, plain, chunked_encoding, content_decoding, read_timeout,
}
use requests_native.Transport.{read, total, select_deadline_source}
use requests_native.Response.{
  ResponseEvent, partial_read, clean_eof, read_error, decode_error, protocol_error, apply,
}
use requests_native.Response.Body.{
  RemainderWait, checked, ResponseBody, State, finish, SourcePoll, item, failed, ended, waiting,
  poll_source,
}

pub data Poll {ℓ} (A : Type ℓ) : Type ℓ where
  pending : Poll A
  ready : A → Poll A

-- What `poll_next` answers.
abbrev pub Answer : Type 0
Answer = Poll (Option (Result Error Bytes))

-- What a poll meets: the time at its start and at its second look at the deadlines, the latest time
-- that `checked_add` can form, whether the gate before the rest of the response still waits, and what
-- the connection's driver answers.
pub record Moment : Type 0 where
  pub now : ℕ
  pub later : ℕ
  pub latest : ℕ
  pub gate_pending : Bool
  pub driver_result : Poll (Result Error (Unit {0}))

unfoldable pub elapsed : Option ℕ → ℕ → Bool
elapsed none now = false
elapsed (some at) now = leb at now

-- `poll_timeout`: both kinds of timeout are reported as `ReadTimeout`.
unfoldable pub poll_timeout : ResponseBody → ℕ → Option Error
unfolding select_deadline_source elapsed
poll_timeout b now = elim (select_deadline_source b.read_deadline b.total_deadline) [
  | none ↦ none
  | some read ↦ if elapsed b.read_deadline now then some (plain read_timeout) else none
  | some total ↦ if elapsed b.total_deadline now then some (plain read_timeout) else none
]

-- `finish_error`.
unfoldable pub finish_error : State → ResponseEvent → Error → Answer × State
unfolding finish
finish_error s event e = (ready (some (err e)), finish s event)

abbrev pub u64_max : ℕ
u64_max = 2 ^ 64 - 1

abbrev pub wait_for : Option ℕ → ℕ → Option RemainderWait
wait_for none received = none
wait_for (some declared) received = checked declared received

unfoldable pub receive : ResponseBody → Bytes → ResponseBody
unfolding checked apply
receive b bytes =
    let received = min (b.received_body_bytes + min (length bytes) u64_max) u64_max in
    record b {
      received_body_bytes = received;
      remainder_wait = wait_for b.expected_content_length received;
      read_deadline = none;
      disposition = apply b.disposition partial_read;
    }

-- The event for an error of the source, by its kind.
unfoldable pub event_of : ErrorKind → ResponseEvent
event_of chunked_encoding = protocol_error
event_of content_decoding = decode_error
event_of kind = read_error

unfoldable pub await_more : ResponseBody → Bool → ResponseBody
unfolding checked
await_more b progress = record b {
  remainder_wait = wait_for b.expected_content_length b.received_body_bytes;
  read_deadline = if progress then none else b.read_deadline;
}

-- A read deadline is set where there is a timeout, none is running, and the time can be formed.
unfoldable pub set_read_deadline : ResponseBody → Moment → ResponseBody
set_read_deadline b m = elim b.read_deadline [
  | some at ↦ b
  | none ↦ elim b.read_timeout [
    | none ↦ b
    | some timeout ↦
        if leb (m.later + timeout) m.latest
        then record b { read_deadline = some (m.later + timeout) }
        else b
  ]
]

-- The driver's word, when the source has nothing yet.
unfoldable pub poll_driver : State → Poll (Result Error (Unit {0})) → Answer × State
unfolding finish_error
poll_driver (b, pool) result = elim b.driver [
  | none ↦ (pending, (b, pool))
  | some lease ↦ elim result [
    | ready r ↦ elim r [ err e ↦ finish_error (b, pool) read_error e | ok u ↦ (pending, (b, pool)) ]
    | pending ↦ (pending, (b, pool))
  ]
]

-- The second look at the deadlines, and then at the driver.
unfoldable pub poll_waiting : State → Moment → Answer × State
unfolding set_read_deadline poll_timeout finish_error poll_driver
poll_waiting (b, pool) m =
    let b' = set_read_deadline b m in
    elim (poll_timeout b' m.later) [
      | some e ↦ finish_error (b', pool) read_error e
      | none ↦ poll_driver (b', pool) m.driver_result
    ]

unfoldable pub has_driver : ResponseBody → Bool
has_driver b = elim b.driver [ none ↦ false | some lease ↦ true ]

-- What `poll_next` does with what the source gave.
unfoldable pub poll_with : SourcePoll → State → Moment → Answer × State
unfolding receive event_of finish_error finish await_more has_driver poll_waiting
poll_with (item bytes) (b, pool) m = (ready (some (ok bytes)), (receive b bytes, pool))
poll_with (failed e) s m = finish_error s (event_of e.kind) e
poll_with ended (b, pool) m =
    (ready none, finish (record b { remainder_wait = none }, pool) clean_eof)
poll_with (waiting progress) (b, pool) m =
    let b' = await_more b progress in
    if has_driver b' && m.gate_pending then (pending, (b', pool)) else poll_waiting (b', pool) m

unfoldable pub poll_next : State → Moment → Answer × State
unfolding poll_timeout finish_error poll_source poll_with
poll_next (b, pool) m =
    if b.terminal then (ready none, (b, pool)) else elim (poll_timeout b m.now) [
      | some e ↦ finish_error (b, pool) read_error e
      | none ↦ let (result, b') = poll_source b in poll_with result (b', pool) m
    ]
