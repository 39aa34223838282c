-- ===== src/Decode/Examples.antt =====
-- A body of two chunks, read in pieces.
use requests_native.Prelude.{
  ℕ, ◌≡◌, refl, true, false, none, some, List, [], ◌∷◌, arith, Bytes, codes, Result, ok,
}
use requests_native.Decode.{
  Frame, waiting, data_frame, other_frame, IncomingReader, new, start_tentative_recording,
  install_tentative_replay,
}
use requests_native.Response.Poll.{Poll, ready}
use requests_native.Decode.Rounds.{poll_drain-ends}
use requests_native.Decode.Drain.{DrainError, poll_drain, IsDone, poll_drain-IsDone}
use requests_native.Decode.Source.{remaining}
use requests_native.Decode.Replay.{
  Reads, poll_reads, poll_reads-Reads, install_tentative_replay-start,
}

abbrev body : List Frame
body = data_frame (codes "abc") ∷ waiting ∷ other_frame ∷ data_frame (codes "de") ∷ []

abbrev reader : IncomingReader
reader = new body false

poll_reads-Reads_example :
    (bytes : Bytes) × (t : IncomingReader) × (poll_reads (2 ∷ 4 ∷ 4 ∷ 1 ∷ []) reader
      ≡ some (bytes, t))
    × Reads reader bytes t
poll_reads-Reads_example = poll_reads-Reads (2 ∷ 4 ∷ 4 ∷ 1 ∷ []) reader

-- The reader behind four reads, the third of which has to wait.
abbrev behind : IncomingReader
behind = record {
  body = [];
  buffered = codes "de";
  buffered_offset = 1;
  replay = [];
  replay_offset = 0;
  tentative = codes "abcd";
  record_tentative = true;
  transport_error = none;
  clean_eof = false;
  chunked = false;
  input_limit = none;
  wire_progress = true;
}

four_reads :
    poll_reads (2 ∷ 4 ∷ 4 ∷ 1 ∷ []) (start_tentative_recording reader) ≡ some (codes "abcd", behind)
unfolding poll_reads new start_tentative_recording
four_reads = refl

install_tentative_replay-start_example :
    remaining (install_tentative_replay behind) ≡ remaining reader
unfolding new
install_tentative_replay-start_example =
    install_tentative_replay-start (2 ∷ 4 ∷ 4 ∷ 1 ∷ []) reader behind (codes "abcd") refl refl
      four_reads

abbrev fresh : IncomingReader
fresh = record behind {
  body = other_frame ∷ data_frame (codes "de") ∷ [];
  buffered = [];
  buffered_offset = 0;
  record_tentative = false;
}

abbrev drained : IncomingReader
drained = record fresh { body = []; buffered = codes "de"; buffered_offset = 2; clean_eof = true }

drained_twice : poll_drain 2 fresh ≡ some (ready (ok 0), drained)
unfolding poll_drain
drained_twice = refl

-- Draining finds the clean end of the body.
drained_end : IsDone drained
drained_end = poll_drain-IsDone 2 fresh drained refl drained_twice

poll_drain-ends_example :
    (p : Poll (Result DrainError ℕ)) × (t : IncomingReader) × (poll_drain 3 fresh ≡ some (p, t))
    × (p ≡ ready (ok 0) → IsDone t)
poll_drain-ends_example = poll_drain-ends 3 fresh (omega arith) refl
