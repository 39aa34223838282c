-- ===== src/Response/Body.antt =====
-- The body of a response in crates/requests/src/response.rs. The network answers from outside: a
-- source carries the answers that it will give, and a poll takes what the clock and the connection's
-- driver say at that moment. The pool is passed along.
use requests_native.Prelude.{
  ℕ, ◌-◌, Bool, true, false, not, ◌&&◌, ◌||◌, Option, none, some, List, [], ◌∷◌, ltb, ◌==◌,
  if◌then◌else◌, Bytes,
}
use requests_native.Errors.{Error, plain, response_body_hyper, response_body, chunked_encoding}
use requests_native.Pool.Leases.{ConnectionLease}
use requests_native.Pool.{Pool}
use requests_native.Transport.{finish_now, finish_incomplete_body_now, abort_and_wait}
use requests_native.Response.{
  ResponseEvent, clean_eof, close, drop_event, ResponseDecision, reusable, ResponseDispositionState,
  apply,
}

-- `ResponseRemainderWaitEntered`.
pub record RemainderWait : Type 0 where
  pub declared : ℕ
  pub received : ℕ

unfoldable pub checked : ℕ → ℕ → Option RemainderWait
checked declared received =
    if ltb received declared
    then some (record { declared = declared; received = received })
    else none

-- `remaining`; the constructor keeps `received` below `declared`.
pub remaining : RemainderWait → ℕ
remaining w = w.declared - w.received

-- What `poll_frame` of the transport's body answers; other frames than data are `other_frame`.
pub data FramePoll : Type 0 where
  data_frame : Bytes → FramePoll
  other_frame frame_error frame_end frame_pending : FramePoll

-- What `poll_next` of a decoded body answers, with `take_wire_progress`.
pub data DecodedPoll : Type 0 where
  decoded_bytes : Bytes → DecodedPoll
  decoded_error : Error → DecodedPoll
  decoded_end : DecodedPoll
  decoded_pending : Bool → DecodedPoll

pub data ResponseBodySource : Type 0 where
  incoming : List FramePoll → ResponseBodySource
  decoded : List DecodedPoll → ResponseBodySource

pub record ResponseBody : Type 0 where
  pub source : Option ResponseBodySource
  pub driver : Option ConnectionLease
  pub read_timeout : Option ℕ
  pub read_deadline : Option ℕ
  pub total_timeout : Option ℕ
  pub total_deadline : Option ℕ
  pub chunked : Bool
  pub expected_content_length : Option ℕ
  pub declared_completion_length : Option ℕ
  pub encoded_completion : Bool
  pub received_body_bytes : ℕ
  pub remainder_wait : Option RemainderWait
  pub terminal : Bool
  pub disposition : ResponseDispositionState

-- The body and the pool that its connection goes back to.
abbrev pub State : Type 0
State = ResponseBody × Pool

unfoldable pub begin_terminal : ResponseBody → ResponseEvent → Option ConnectionLease × ResponseBody
unfolding apply
begin_terminal b event = if b.terminal then (none, b) else (
  b.driver,
  record b {
    terminal = true;
    source = none;
    read_deadline = none;
    total_deadline = none;
    disposition = apply b.disposition event;
    driver = none;
  },
)

abbrev pub is_clean : ResponseEvent → Bool
is_clean clean_eof = true
is_clean _ = false

abbrev pub is_reusable : Option ResponseDecision → Bool
is_reusable (some reusable) = true
is_reusable _ = false

-- `checked(declared, received).is_some()` for a declared length.
abbrev pub is_short : Option ℕ → ℕ → Bool
is_short none received = false
is_short (some declared) received = ltb received declared

-- `ResponseBodyDriver::finish_now`.
unfoldable pub finish_driver : Pool → Option ConnectionLease → Bool → Bool → Pool
unfolding finish_now finish_incomplete_body_now
finish_driver pool none clean incomplete = pool
finish_driver pool (some lease) clean incomplete =
    if incomplete then finish_incomplete_body_now pool lease else finish_now pool lease clean

-- `ResponseBody::finish_now`.
unfoldable pub finish : State → ResponseEvent → State
unfolding begin_terminal finish_driver
finish (b, pool) event =
    let incomplete =
      not (is_clean event) && is_short b.expected_content_length b.received_body_bytes in
    let (driver, b') = begin_terminal b event in
    (b', finish_driver pool driver (is_reusable b'.disposition.decision) incomplete)

-- `close`; the driver's result is left out.
unfoldable pub close_body : State → State
unfolding begin_terminal abort_and_wait
close_body (b, pool) =
    let (driver, b') = begin_terminal b close in
    (b', elim driver [ none ↦ pool | some lease ↦ abort_and_wait pool lease ])

-- `Drop for ResponseBody`.
unfoldable pub drop_body : State → State
unfolding finish
drop_body s = finish s drop_event

abbrev pub is_declared : Option ℕ → ℕ → Bool
is_declared none received = false
is_declared (some declared) received = received == declared

unfoldable pub finish_declared_length : State → Bool → State
unfolding finish
finish_declared_length (b, pool) allow_encoded_completion =
    if not b.terminal
      && (not b.encoded_completion || allow_encoded_completion)
      && is_declared b.declared_completion_length b.received_body_bytes
    then finish (record b { remainder_wait = none }, pool) clean_eof
    else (b, pool)

-- What a poll of the source gives: an item, the end, or nothing yet with or without progress on the
-- wire.
pub data SourcePoll : Type 0 where
  item : Bytes → SourcePoll
  failed : Error → SourcePoll
  ended : SourcePoll
  waiting : Bool → SourcePoll

-- The bytes received and those missing, where the body is shorter than it was declared.
unfoldable pub incomplete_body : Option ℕ → ℕ → Option (ℕ × ℕ)
incomplete_body none received = none
incomplete_body (some expected) received =
    if expected - received == 0 then none else some (received, expected - received)

unfoldable pub frame_failure : ResponseBody → Error
unfolding incomplete_body
frame_failure b =
    if b.chunked
    then plain chunked_encoding
    else response_body_hyper (incomplete_body b.expected_content_length b.received_body_bytes)

-- The loop of `poll_source` over the transport's frames, which skips all but data; the frames that are
-- left come back.
unfoldable pub poll_frames : ResponseBody → List FramePoll → SourcePoll × List FramePoll
unfolding frame_failure
poll_frames b [] = (waiting false, [])
poll_frames b (data_frame bytes ∷ rest) = (item bytes, rest)
poll_frames b (other_frame ∷ rest) = poll_frames b rest
poll_frames b (frame_error ∷ rest) = (failed (frame_failure b), rest)
poll_frames b (frame_end ∷ rest) = (ended, rest)
poll_frames b (frame_pending ∷ rest) = (waiting false, rest)

unfoldable pub poll_decoded : List DecodedPoll → SourcePoll × List DecodedPoll
poll_decoded [] = (waiting false, [])
poll_decoded (decoded_bytes bytes ∷ rest) = (item bytes, rest)
poll_decoded (decoded_error e ∷ rest) = (failed e, rest)
poll_decoded (decoded_end ∷ rest) = (ended, rest)
poll_decoded (decoded_pending progress ∷ rest) = (waiting progress, rest)

unfoldable pub poll_source : ResponseBody → SourcePoll × ResponseBody
unfolding poll_frames poll_decoded
poll_source b = elim b.source [
  | none ↦ (failed (plain response_body), b)
  | some (incoming frames) ↦
      let (result, rest) = poll_frames b frames in
      (result, record b { source = some (incoming rest) })
  | some (decoded polls) ↦
      let (result, rest) = poll_decoded polls in (result, record b { source = some (decoded rest) })
]
