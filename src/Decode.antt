-- ===== src/Decode.antt =====
-- `IncomingReader` of crates/requests/src/transport/decode.rs, which feeds the bytes of a body to a decoder
-- and can give them a second time. The body carries the frames that it will give, and its end.
pub mod Source
pub mod Consume
pub mod Replay
pub mod Drain
pub mod Rounds
mod Examples
use requests_native.Prelude.{
  ℕ, zero, suc, ◌+◌, ◌-◌, ◌*◌, ◌/◌, ◌%◌, ◌^◌, ◌≤◌, ◌<◌, min, ◌≡◌, refl, sym, ap, ap₂, ◌∙◌, ◌≢◌, ◌↔◌,
  ◌⊎◌, inl, inr, Bool, true, false, not, ◌&&◌, ◌||◌, Option, none, some, List, [], ◌∷◌, ◌++◌, map,
  append_assoc, append-nil, arith, ltb, leb, ◌==◌, if◌then◌else◌, ltb→lt, lt→ltb, leb→le, le→leb,
  ==_iff, Bool-cases, Option-cases, length, take, drop, length-append, take-append-drop, any, all,
  All, All-append, Bytes, IsByte, codes, bytes_eq, bytes_eq_iff, contains_byte, is_ascii_digit,
  is_ascii_uppercase, is_ascii_lowercase, is_ascii_alphanumeric, is_ascii_hexdigit,
  to_ascii_uppercase, to_ascii_lowercase, Result, ok, err, ◌>>=◌, ok_or,
}
use requests_native.Response.Poll.{Poll, pending, ready}

-- What `poll_frame` gives in turn; a frame of another kind is one without data.
pub data Frame : Type 0 where
  waiting : Frame
  data_frame : Bytes → Frame
  other_frame : Frame
  failed_frame : Frame

pub data TransportError : Type 0 where
  chunked_encoding response_body : TransportError

pub record IncomingReader : Type 0 where
  pub body : List Frame
  pub buffered : Bytes
  pub buffered_offset : ℕ
  pub replay : Bytes
  pub replay_offset : ℕ
  pub tentative : Bytes
  pub record_tentative : Bool
  pub transport_error : Option TransportError
  pub clean_eof : Bool
  pub chunked : Bool
  pub input_limit : Option ℕ
  pub wire_progress : Bool

unfoldable pub new : List Frame → Bool → IncomingReader
new body chunked = record {
  body = body;
  buffered = [];
  buffered_offset = 0;
  replay = [];
  replay_offset = 0;
  tentative = [];
  record_tentative = false;
  transport_error = none;
  clean_eof = false;
  chunked = chunked;
  input_limit = none;
  wire_progress = false;
}

unfoldable pub take_wire_progress : IncomingReader → Bool × IncomingReader
take_wire_progress this = (this.wire_progress, record this { wire_progress = false })

unfoldable pub limit_input_until_output : ℕ → IncomingReader → IncomingReader
limit_input_until_output limit this = record this { input_limit = some limit }

unfoldable pub remove_input_limit : IncomingReader → IncomingReader
remove_input_limit this = record this { input_limit = none }

unfoldable pub start_tentative_recording : IncomingReader → IncomingReader
start_tentative_recording this = record this { record_tentative = true }

unfoldable pub stop_tentative_recording : IncomingReader → IncomingReader
stop_tentative_recording this = record this { record_tentative = false; tentative = [] }

unfoldable pub install_tentative_replay : IncomingReader → IncomingReader
install_tentative_replay this = record this {
  record_tentative = false;
  replay = this.tentative;
  replay_offset = 0;
  tentative = [];
}

unfoldable pub take_transport_error : IncomingReader → Option TransportError × IncomingReader
take_transport_error this = (this.transport_error, record this { transport_error = none })

-- The part of a chunk from an offset on that is available at once.
unfoldable pub window : Option ℕ → ℕ → Bytes → Bytes
window none offset bytes = drop offset bytes
window (some limit) offset bytes = take limit (drop offset bytes)

abbrev pub is_replaying : IncomingReader → Bool
is_replaying this = ltb this.replay_offset (length this.replay)

-- The loop of `poll_fill_buf` over the frames, where nothing is left to give.
unfoldable pub poll_body : IncomingReader → List Frame → Poll Bytes × IncomingReader
unfolding window
poll_body this [] = (ready [], record this { body = []; clean_eof = true })
poll_body this (waiting ∷ fs) = (pending, record this { body = fs })
poll_body this (data_frame [] ∷ fs) = poll_body this fs
poll_body this (data_frame (b ∷ bs) ∷ fs) = (
  ready (window this.input_limit 0 (b ∷ bs)),
  record this { body = fs; buffered = b ∷ bs; buffered_offset = 0; wire_progress = true },
)
poll_body this (other_frame ∷ fs) = poll_body this fs
poll_body this (failed_frame ∷ fs) = (
  ready [],
  record this {
    body = fs;
    transport_error = some (if this.chunked then chunked_encoding else response_body);
  },
)

abbrev pub has_error : IncomingReader → Bool
has_error this = elim this.transport_error [ none ↦ false | some e ↦ true ]

unfoldable pub poll_fill_buf : IncomingReader → Poll Bytes × IncomingReader
unfolding window poll_body
poll_fill_buf this =
    if is_replaying this
    then (ready (window this.input_limit this.replay_offset this.replay), this)
    else if ltb this.buffered_offset (length this.buffered)
    then (ready (window this.input_limit this.buffered_offset this.buffered), this)
    else if has_error this || this.clean_eof
    then (ready [], this)
    else poll_body this this.body

abbrev pub record_bytes : IncomingReader → Bytes → Bytes
record_bytes this bytes = if this.record_tentative then this.tentative ++ bytes else this.tentative

unfoldable pub consume_replay : IncomingReader → ℕ → IncomingReader
consume_replay this amount = record this {
  tentative = record_bytes this (take amount (drop this.replay_offset this.replay));
  replay_offset = this.replay_offset + amount;
}

unfoldable pub consume_buffered : IncomingReader → ℕ → IncomingReader
consume_buffered this amount = record this {
  tentative = record_bytes this (take amount (drop this.buffered_offset this.buffered));
  buffered_offset = this.buffered_offset + amount;
}

-- `consume`: nothing stands for the failed assertion.
unfoldable pub consume : IncomingReader → ℕ → Option IncomingReader
unfolding consume_replay consume_buffered
consume this amount =
    if is_replaying this
    then if leb amount (length this.replay - this.replay_offset)
      then some (consume_replay this amount)
      else none
    else if leb amount (length this.buffered - this.buffered_offset)
    then some (consume_buffered this amount)
    else none

-- `poll_read` behind `poll_fill_buf`, into a buffer with so much room.
unfoldable pub deliver : IncomingReader → ℕ → Poll Bytes → Option (Poll Bytes × IncomingReader)
unfolding consume
deliver this room pending = some (pending, this)
deliver this room (ready available) =
    let amount = min (length available) room in
    elim (consume this amount) [
      | none ↦ none
      | some this' ↦ some (ready (take amount available), this')
    ]

unfoldable pub poll_read : IncomingReader → ℕ → Option (Poll Bytes × IncomingReader)
unfolding poll_fill_buf deliver
poll_read this room = let (available, this') = poll_fill_buf this in deliver this' room available
