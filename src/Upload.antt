-- ===== src/Upload.antt =====
-- The body that is sent out and its progress, of crates/requests/src/transport/mod.rs. The session runtime,
-- which only tests give, and the counts that only debug assertions read are left out. A stream is the answers
-- it gives to polls, and what it says of its size; an instant is a number.
mod Examples
pub mod Progress
use requests_native.Prelude.{
  ℕ, zero, suc, ◌+◌, ◌-◌, ◌*◌, ◌/◌, ◌%◌, ◌^◌, ◌≤◌, ◌<◌, min, ◌≡◌, refl, sym, ap, ap₂, ◌∙◌, ◌≢◌, ◌↔◌,
  ◌⊎◌, inl, inr, Bool, true, false, not, ◌&&◌, ◌||◌, Option, none, some, List, [], ◌∷◌, ◌++◌, map,
  append_assoc, append-nil, arith, ltb, leb, ◌==◌, if◌then◌else◌, ltb→lt, lt→ltb, leb→le, le→leb,
  ==_iff, Bool-cases, Option-cases, length, take, drop, length-append, take-append-drop, any, all,
  All, All-append, Bytes, IsByte, codes, bytes_eq, bytes_eq_iff, contains_byte, is_ascii_digit,
  is_ascii_uppercase, is_ascii_lowercase, is_ascii_alphanumeric, is_ascii_hexdigit,
  to_ascii_uppercase, to_ascii_lowercase, Result, ok, err, ◌>>=◌, ok_or,
}

-- What a poll of a stream of chunks gives; behind the last answer it has ended.
pub data StreamAnswer : Type 0 where
  gives : Bytes → StreamAnswer
  fails : ℕ → StreamAnswer
  pends : StreamAnswer

pub data BodySource : Type 0 where
  empty : BodySource
  bytes : Bytes → BodySource
  stream : Option ℕ → List StreamAnswer → BodySource

-- `BodyProgressState`: when the body was complete, and whether a task waits for that.
pub record BodyProgress : Type 0 where
  pub completed_at : Option ℕ
  pub waker : Bool

pub record OutgoingBody : Type 0 where
  pub source : BodySource
  pub progress : Option BodyProgress

-- `Poll`.
pub data Poll (A : Type 0) : Type 0 where
  ready : A → Poll A
  pending : Poll A

abbrev pub is_empty : Bytes → Bool
is_empty [] = true
is_empty (b ∷ bs) = false

abbrev initially_complete : BodySource → Bool
initially_complete empty = true
initially_complete (bytes chunk) = is_empty chunk
initially_complete (stream size answers) = false

-- `OutgoingBody::new` at an instant.
unfoldable pub new : BodySource → Bool → ℕ → OutgoingBody
new source track_completion now = record {
  source = source;
  progress =
      if track_completion
      then some record {
        completed_at = if initially_complete source then some now else none;
        waker = false;
      }
      else none;
}

-- `BodyProgress::mark_complete` at an instant; a task that waits is woken.
unfoldable pub mark_progress : ℕ → BodyProgress → BodyProgress
mark_progress now progress = elim progress.completed_at [
  | some at ↦ progress
  | none ↦ record { completed_at = some now; waker = false }
]

unfoldable pub mark_complete : ℕ → OutgoingBody → OutgoingBody
unfolding mark_progress
mark_complete now body = record body {
  progress = elim body.progress [ none ↦ none | some progress ↦ some (mark_progress now progress) ];
}

-- `BodyProgress::poll_complete`.
unfoldable pub poll_complete : BodyProgress → BodyProgress × Poll ℕ
poll_complete progress = elim progress.completed_at [
  | some at ↦ (record progress { waker = false }, ready at)
  | none ↦ (record progress { waker = true }, pending)
]

-- A frame of the body, or its error; none behind its end.
abbrev pub Frame : Type 0
Frame = Option (Result ℕ Bytes)

-- What a poll makes of the source, whether it completes the body, and what it gives.
unfoldable pub frame_of : BodySource → BodySource × (Bool × Poll Frame)
frame_of empty = (empty, (true, ready none))
frame_of (bytes []) = (empty, (true, ready none))
frame_of (bytes (b ∷ bs)) = (empty, (true, ready (some (ok (b ∷ bs)))))
frame_of (stream size []) = (empty, (true, ready none))
frame_of (stream size (pends ∷ answers)) = (stream size answers, (false, pending))
frame_of (stream size (gives chunk ∷ answers)) =
    (stream size answers, (false, ready (some (ok chunk))))
frame_of (stream size (fails error ∷ answers)) =
    (stream size answers, (false, ready (some (err error))))

-- `poll_frame` at an instant.
unfoldable pub poll_frame : ℕ → OutgoingBody → OutgoingBody × Poll Frame
unfolding frame_of mark_complete
poll_frame now body =
    let (source, (completes, polled)) = frame_of body.source in
    let left = record body { source = source } in
    (if completes then mark_complete now left else left, polled)

unfoldable pub is_end_stream : OutgoingBody → Bool
is_end_stream body = elim body.source [
  | empty ↦ true
  | bytes chunk ↦ false
  | stream size answers ↦ false
]

-- The exact size, where one is known.
unfoldable pub size_hint : OutgoingBody → Option ℕ
size_hint body = elim body.source [
  | empty ↦ some 0
  | bytes chunk ↦ some (length chunk)
  | stream size answers ↦ size
]
