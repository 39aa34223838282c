-- ===== src/Heads/Io.antt =====
-- `ResponseHeadIo` of crates/requests/src/transport/mod.rs, the stream that stands between hyper and a
-- connection. The connection is the answers it gives to the polls of it, in order, and what it was sent. The
-- check of a generation in debug builds is left out.
use requests_native.Prelude.{
  ℕ, ◌+◌, min, Bool, true, false, not, Option, none, some, List, [], ◌∷◌, ◌++◌, ltb, ◌==◌,
  if◌then◌else◌, length, take, drop, Bytes,
}
use requests_native.Heads.{Head, is_empty}
use requests_native.Heads.Observation.{
  ResponseHeadState, observe, buffer_python_response_bytes, complete_python_response_on_eof,
  complete_on_eof, buffers_python_response_head,
}
use requests_native.Heads.Request.{has_head_end, rewrite_python_request_head}

-- What a poll of the connection gives to read; no bytes are its end.
pub data InnerRead : Type 0 where
  bytes_read : Bytes → InnerRead
  read_fails : ℕ → InnerRead
  read_pends : InnerRead

-- How many bytes a poll of the connection takes.
pub data InnerWrite : Type 0 where
  takes : ℕ → InnerWrite
  write_fails : ℕ → InnerWrite
  write_pends : InnerWrite

pub record Inner : Type 0 where
  pub reads : List InnerRead
  pub writes : List InnerWrite
  pub sent : Bytes

pub record ResponseHeadIo : Type 0 where
  pub inner : Inner
  pub observation : ResponseHeadState
  pub injected : Bytes
  pub outgoing : Bytes
  pub outgoing_offset : ℕ
  pub outgoing_head_complete : Bool
  pub generation : ℕ

abbrev pub new : Inner → ResponseHeadState → ResponseHeadIo
new inner observation = record {
  inner = inner;
  observation = observation;
  injected = [];
  outgoing = [];
  outgoing_offset = 0;
  outgoing_head_complete = false;
  generation = 0;
}

-- `Poll` of a result; a pending poll may have woken its task at once.
pub data Polled (A : Type 0) : Type 0 where
  ready : A → Polled A
  failed : ℕ → Polled A
  write_zero : Polled A
  pending : Bool → Polled A

-- The bytes that go into the buffer, for which it has room.
unfoldable pub fill_injected : ResponseHeadIo → ℕ → ResponseHeadIo × Bytes
fill_injected io room =
    let amount = min room (length io.injected) in
    (record io { injected = drop amount io.injected }, take amount io.injected)

abbrev pub renewed : ResponseHeadIo → ResponseHeadIo
renewed io = record io {
  outgoing = [];
  outgoing_offset = 0;
  outgoing_head_complete = false;
  generation = io.observation.generation;
}

-- What a poll does first where another response is begun.
unfoldable pub follow_generation : ResponseHeadIo → ResponseHeadIo
follow_generation io = if io.observation.generation == io.generation then io else renewed io

-- The connection with what further polls of it give.
abbrev pub with_reads : ResponseHeadIo → List InnerRead → ResponseHeadIo
with_reads io reads = record io { inner = record io.inner { reads = reads } }

-- What goes to the reader of bytes that are injected, and what the poll gives where none are.
unfoldable pub deliver :
    ResponseHeadIo → ℕ → Polled Unit → Option Bytes → ResponseHeadIo × (Polled Unit × Bytes)
unfolding fill_injected
deliver io room polled none = (io, (polled, []))
deliver io room polled (some bytes) =
    let (io1, filled) = fill_injected (record io { injected = io.injected ++ bytes }) room in
    (io1, (ready tt, filled))

module _ (parse : Bytes → Option Head) (lossy : Bytes → Bytes) where
  unfoldable pub read_buffered :
      ResponseHeadIo → ℕ → List InnerRead → ResponseHeadIo × (Polled Unit × Bytes)
  unfolding buffer_python_response_bytes complete_python_response_on_eof deliver
  read_buffered io room [] = (io, (pending false, []))
  read_buffered io room (read_pends ∷ reads) = (with_reads io reads, (pending false, []))
  read_buffered io room (read_fails error ∷ reads) = (with_reads io reads, (failed error, []))
  read_buffered io room (bytes_read [] ∷ reads) =
      let (observation, injected) = complete_python_response_on_eof parse lossy io.observation in
      let io1 = record (with_reads io reads) { observation = observation } in
      deliver io1 room (ready tt) injected
  read_buffered io room (bytes_read (b ∷ bs) ∷ reads) =
      let (observation, injected) =
        buffer_python_response_bytes parse lossy io.observation (b ∷ bs) in
      let io1 = record (with_reads io reads) { observation = observation } in
      deliver io1 room (pending true) injected

  unfoldable pub read_through :
      ResponseHeadIo → ℕ → List InnerRead → ResponseHeadIo × (Polled Unit × Bytes)
  unfolding observe complete_on_eof deliver
  read_through io room [] = (io, (pending false, []))
  read_through io room (read_pends ∷ reads) = (with_reads io reads, (pending false, []))
  read_through io room (read_fails error ∷ reads) = (with_reads io reads, (failed error, []))
  read_through io room (bytes_read [] ∷ reads) =
      let (observation, injected) = complete_on_eof parse lossy io.observation in
      let io1 = record (with_reads io reads) { observation = observation } in
      deliver io1 room (ready tt) injected
  read_through io room (bytes_read (b ∷ bs) ∷ reads) =
      let observation = observe parse lossy io.observation (b ∷ bs) in
      (record (with_reads io reads) { observation = observation }, (ready tt, b ∷ bs))

  -- `poll_read` but for its first step.
  unfoldable pub poll_followed : ResponseHeadIo → ℕ → ResponseHeadIo × (Polled Unit × Bytes)
  unfolding fill_injected buffers_python_response_head read_buffered read_through
  poll_followed io room =
      if not (is_empty io.injected)
      then (let (io1, filled) = fill_injected io room in (io1, (ready tt, filled)))
      else if buffers_python_response_head io.observation
      then read_buffered io room io.inner.reads
      else read_through io room io.inner.reads

  -- `poll_read` into a buffer with this room: the stream, what the poll gives, and what is in the buffer.
  unfoldable pub poll_read : ResponseHeadIo → ℕ → ResponseHeadIo × (Polled Unit × Bytes)
  unfolding follow_generation poll_followed
  poll_read io room = poll_followed (follow_generation io) room

-- The connection with what it gives to further polls of it, and what it has been sent.
abbrev pub with_writes : ResponseHeadIo → List InnerWrite → Bytes → ResponseHeadIo
with_writes io writes sent = record io { inner = record io.inner { writes = writes; sent = sent } }

-- What is left of `outgoing`.
abbrev pub unsent : ResponseHeadIo → Bytes
unsent io = drop io.outgoing_offset io.outgoing

-- All of `outgoing` is sent.
abbrev pub cleared : ResponseHeadIo → List InnerWrite → ResponseHeadIo
cleared io writes = record (with_writes io writes io.inner.sent) {
  outgoing = [];
  outgoing_offset = 0;
}

-- More of `outgoing` is sent.
abbrev pub advanced : ResponseHeadIo → List InnerWrite → ℕ → ResponseHeadIo
advanced io writes written =
    record (with_writes io writes (io.inner.sent ++ take written (unsent io))) {
      outgoing_offset = io.outgoing_offset + written;
    }

-- The loop of `poll_drain_outgoing` over what the connection gives.
unfoldable pub drain : ResponseHeadIo → List InnerWrite → ResponseHeadIo × Polled Unit
drain io [] =
    if ltb io.outgoing_offset (length io.outgoing)
    then (with_writes io [] io.inner.sent, pending false)
    else (cleared io [], ready tt)
drain io (write ∷ writes) = elim (ltb io.outgoing_offset (length io.outgoing)) [
  | false ↦ (cleared io (write ∷ writes), ready tt)
  | true ↦ elim write [
    | write_pends ↦ (with_writes io writes io.inner.sent, pending false)
    | write_fails error ↦ (with_writes io writes io.inner.sent, failed error)
    | takes written ↦ elim (written == 0) [
      | true ↦ (with_writes io writes io.inner.sent, write_zero)
      | false ↦ drain (advanced io writes written) writes
    ]
  ]
]

unfoldable pub poll_drain_outgoing : ResponseHeadIo → ResponseHeadIo × Polled Unit
unfolding drain
poll_drain_outgoing io = drain io io.inner.writes

-- `poll_write` of the connection.
unfoldable pub write_through : ResponseHeadIo → Bytes → List InnerWrite → ResponseHeadIo × Polled ℕ
write_through io buffer [] = (io, pending false)
write_through io buffer (write_pends ∷ writes) =
    (with_writes io writes io.inner.sent, pending false)
write_through io buffer (write_fails error ∷ writes) =
    (with_writes io writes io.inner.sent, failed error)
write_through io buffer (takes written ∷ writes) =
    (with_writes io writes (io.inner.sent ++ take written buffer), ready written)

module _ (lossy : Bytes → Bytes) where
  -- `poll_write` with nothing left to drain.
  unfoldable pub write_drained : ResponseHeadIo → Bytes → ResponseHeadIo × Polled ℕ
  unfolding write_through has_head_end rewrite_python_request_head
  write_drained io buffer =
      let outgoing = io.outgoing ++ buffer in
      if io.outgoing_head_complete
      then write_through io buffer io.inner.writes
      else if has_head_end outgoing
      then (
        record io {
          outgoing = rewrite_python_request_head lossy io.observation outgoing;
          outgoing_head_complete = true;
        },
        ready (length buffer),
      )
      else (record io { outgoing = outgoing }, ready (length buffer))

  -- `poll_write` behind draining.
  unfoldable pub write_after : Bytes → ResponseHeadIo → Polled Unit → ResponseHeadIo × Polled ℕ
  unfolding write_drained
  write_after buffer io (ready done) = write_drained io buffer
  write_after buffer io (failed error) = (io, failed error)
  write_after buffer io write_zero = (io, write_zero)
  write_after buffer io (pending woken) = (io, pending woken)

  -- `poll_write` but for its first step.
  unfoldable pub write_followed : ResponseHeadIo → Bytes → ResponseHeadIo × Polled ℕ
  unfolding poll_drain_outgoing write_after write_drained
  write_followed io buffer =
      let (io1, polled) = poll_drain_outgoing io in
      if ltb io.outgoing_offset (length io.outgoing)
      then write_after buffer io1 polled
      else write_drained io buffer

  unfoldable pub poll_write : ResponseHeadIo → Bytes → ResponseHeadIo × Polled ℕ
  unfolding follow_generation write_followed
  poll_write io buffer = write_followed (follow_generation io) buffer

abbrev answered : Polled Unit → Polled Unit → Polled Unit
answered (ready done) answer = answer
answered (failed error) answer = failed error
answered write_zero answer = write_zero
answered (pending woken) answer = pending woken

-- `poll_flush` and `poll_shutdown`; the answer is what the connection gives to its own.
unfoldable pub poll_drained : ResponseHeadIo → Polled Unit → ResponseHeadIo × Polled Unit
unfolding poll_drain_outgoing
poll_drained io answer = let (io1, polled) = poll_drain_outgoing io in (io1, answered polled answer)
