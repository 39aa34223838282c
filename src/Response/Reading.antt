-- ===== src/Response/Reading.antt =====
-- Reading a body of crates/requests/src/response.rs to its end.
use requests_native.Prelude.{
  ℕ, ◌+◌, min, ◌≡◌, refl, sym, ap, ◌∙◌, true, false, Option, none, some, List, [], ◌∷◌, arith,
  length, Bytes, ok,
}
use requests_native.Pool.{Pool}
use requests_native.Response.{clean_eof, reusable_state, apply}
use requests_native.Response.Body.{
  ResponseBody, State, FramePoll, data_frame, other_frame, frame_end, incoming, finish, poll_frames,
  poll_source,
}
use requests_native.Response.Poll.{
  ready, Answer, Moment, u64_max, poll_timeout, receive, poll_with, poll_next,
}
use requests_native.Response.Safety.{is_live, finish-live}
use requests_native.Response.Operations.{poll_next-live}

-- A body with these frames to come.
abbrev pub sourced : ResponseBody → List FramePoll → ResponseBody
sourced b frames = record b { source = some (incoming frames) }

-- Chunks of data, other frames where there is none, and the end.
abbrev pub stream : List (Option Bytes) → List FramePoll
stream [] = frame_end ∷ []
stream (none ∷ parts) = other_frame ∷ stream parts
stream (some bytes ∷ parts) = data_frame bytes ∷ stream parts

abbrev pub chunks : List (Option Bytes) → List Bytes
chunks [] = []
chunks (none ∷ parts) = chunks parts
chunks (some bytes ∷ parts) = bytes ∷ chunks parts

abbrev pub answers : List Bytes → List Answer
answers [] = ready none ∷ []
answers (bytes ∷ rest) = ready (some (ok bytes)) ∷ answers rest

-- The bytes of the chunks behind a count that stops at the bound of 64 bits.
abbrev pub counted : ℕ → List Bytes → ℕ
counted n [] = n
counted n (bytes ∷ rest) = counted (min (n + min (length bytes) u64_max) u64_max) rest

-- One poll at each moment.
unfoldable pub reads : State → List Moment → List Answer × State
reads s [] = ([], s)
reads s (m ∷ ms) = let (a, s') = poll_next s m in let (rest, s'') = reads s' ms in (a ∷ rest, s'')

-- A body that has not ended and waits for no deadline.
pub record IsRunning (b : ResponseBody) : Type 0 where
  pub terminal : b.terminal ≡ false
  pub live : is_live b.disposition.state ≡ true
  pub read_deadline : b.read_deadline ≡ none
  pub total_deadline : b.total_deadline ≡ none

IsRunning-poll_timeout : (b : ResponseBody) (now : ℕ) → IsRunning b → poll_timeout b now ≡ none
unfolding poll_timeout
IsRunning-poll_timeout b now x = rw (x.read_deadline, x.total_deadline)

module _ (b : ResponseBody) (pool : Pool) (m : Moment) (x : IsRunning b) where
  poll_sourced :
      (frames : List FramePoll)
      → poll_next (sourced b frames, pool) m
        ≡ poll_with
            (poll_frames (sourced b frames) frames).0
            (sourced b (poll_frames (sourced b frames) frames).1, pool)
            m
  unfolding poll_source
  poll_sourced frames = poll_next-live (sourced b frames) pool m x.terminal (
      IsRunning-poll_timeout (sourced b frames) m.now (record {
        terminal = x.terminal;
        live = x.live;
        read_deadline = x.read_deadline;
        total_deadline = x.total_deadline;
      }))

  poll_chunk :
      (bytes : Bytes) (frames : List FramePoll)
      → poll_next (sourced b (data_frame bytes ∷ frames), pool) m
        ≡ (ready (some (ok bytes)), (sourced (receive b bytes) frames, pool))
  unfolding poll_frames poll_with receive
  poll_chunk bytes frames = poll_sourced (data_frame bytes ∷ frames)

  poll_other :
      (frames : List FramePoll)
      → poll_next (sourced b (other_frame ∷ frames), pool) m ≡ poll_next (sourced b frames, pool) m
  unfolding poll_frames
  poll_other frames = poll_sourced (other_frame ∷ frames) ∙ sym (poll_sourced frames)

  poll_end :
      poll_next (sourced b (frame_end ∷ []), pool) m
      ≡ (ready none, finish (record (sourced b []) { remainder_wait = none }, pool) clean_eof)
  unfolding poll_frames poll_with
  poll_end = poll_sourced (frame_end ∷ [])

  receive-IsRunning : (bytes : Bytes) → IsRunning (receive b bytes)
  unfolding receive apply
  receive-IsRunning bytes = record {
    terminal = x.terminal;
    live = ground (arith, x.live);
    read_deadline = refl;
    total_deadline = x.total_deadline;
  }

-- What is left when a body was read to its end.
abbrev pub IsReadOut : State → ℕ → Type 0
IsReadOut s received =
    (s.0.terminal ≡ true)
    × (s.0.disposition.state ≡ reusable_state)
    × (s.0.received_body_bytes ≡ received)

finish-IsReadOut :
    (b : ResponseBody) (pool : Pool)
    → b.terminal ≡ false
    → is_live b.disposition.state ≡ true
    → IsReadOut (finish (b, pool) clean_eof) b.received_body_bytes
unfolding apply
finish-IsReadOut b pool t l = rw (finish-live b pool clean_eof t) (refl, ground arith, refl)

-- A body that has not ended and waits for no deadline, whose transport gives chunks of data and other
-- frames and then the end, answers the chunks in order and then the end, one at each poll. It counts
-- their bytes, up to the bound of 64 bits, and ends as reusable.
pub reads-stream :
    (b : ResponseBody) (pool : Pool) (parts : List (Option Bytes)) (ms : List Moment)
    → IsRunning b
    → length ms ≡ length (chunks parts) + 1
    → ((reads (sourced b (stream parts), pool) ms).0 ≡ answers (chunks parts))
      × IsReadOut
          (reads (sourced b (stream parts), pool) ms).1
          (counted b.received_body_bytes (chunks parts))
unfolding reads receive
reads-stream b pool parts [] x h = absurd (omega arith)
reads-stream b pool [] (m ∷ n ∷ ms) x h = absurd (omega arith)
reads-stream b pool [] (m ∷ []) x h = rw (poll_end b pool m x) (
  refl,
  finish-IsReadOut (record (sourced b []) { remainder_wait = none }) pool x.terminal x.live,
)
reads-stream b pool (none ∷ parts) (m ∷ ms) x h =
    rw (poll_other b pool m x (stream parts)) (reads-stream b pool parts (m ∷ ms) x h)
reads-stream b pool (some bytes ∷ parts) (m ∷ ms) x h =
    let (a, z) =
      reads-stream (receive b bytes) pool parts ms (receive-IsRunning b pool m x bytes)
        (omega arith) in
    rw (poll_chunk b pool m x bytes (stream parts)) (ap (◌∷◌ (ready (some (ok bytes)))) a, z)
