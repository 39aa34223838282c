-- ===== src/Decode/Replay.antt =====
-- Reading through `IncomingReader` of crates/requests/src/transport/decode.rs: every byte in order, and once
-- more behind a tentative decoder.
use requests_native.Prelude.{
  ℕ, ◌≤◌, min, ◌≡◌, refl, sym, ap, ap₂, ◌∙◌, ◌⊎◌, inl, inr, true, false, Option, none, some, List,
  [], ◌∷◌, ◌++◌, append_assoc, append-nil, arith, ltb, if◌then◌else◌, Bool-cases, length, take,
  drop, Bytes,
}
use requests_native.Response.Poll.{Poll, pending, ready}
use requests_native.Decode.{
  IncomingReader, is_replaying, poll_fill_buf, consume, deliver, poll_read, record_bytes,
  start_tentative_recording, install_tentative_replay,
}
use requests_native.Decode.Source.{
  remaining, available, poll_fill_buf-Filled, length-take_le, drop-all, arriving,
}
use requests_native.Decode.Consume.{consume-Consumed}

-- The bytes of an answer.
abbrev pub given : Poll Bytes → Bytes
given pending = []
given (ready bytes) = bytes

-- What a read that answers does to a reader.
pub record Read (this : IncomingReader) (room : ℕ) (p : Poll Bytes) (t : IncomingReader)
    : Type 0 where
  pub remains : remaining this ≡ given p ++ remaining t
  pub tentative : t.tentative ≡ record_bytes this (given p)
  pub recording : t.record_tentative ≡ this.record_tentative
  pub replaying : is_replaying this ≡ false → is_replaying t ≡ false
  pub fits : length (given p) ≤ room

deliver-consume :
    (this t : IncomingReader) (room : ℕ) (bytes : Bytes)
    → consume this (min (length bytes) room) ≡ some t
    → deliver this room (ready bytes) ≡ some (ready (take (min (length bytes) room) bytes), t)
unfolding deliver
deliver-consume this t room bytes c = rw (c, deliver) refl

record_bytes-nil : (this : IncomingReader) → this.tentative ≡ record_bytes this []
record_bytes-nil this = elim (Bool-cases this.record_tentative) [
  | inl e ↦ simp e (sym (append-nil this.tentative))
  | inr e ↦ simp e refl
]

deliver-Read :
    (this : IncomingReader) (room : ℕ) (p : Poll Bytes)
    → (p ≡ pending) ⊎ (p ≡ ready (available this))
    → (q : Poll Bytes) × (t : IncomingReader) × (deliver this room p ≡ some (q, t))
      × Read this room q t
unfolding deliver
deliver-Read this room p (inl e) = (
  pending,
  this,
  rw e refl,
  record {
    remains = refl;
    tentative = record_bytes-nil this;
    recording = refl;
    replaying = λ x. x;
    fits = omega arith;
  },
)
deliver-Read this room p (inr e) =
    let amount = min (length (available this)) room in
    let (t, c, k) = consume-Consumed this amount (omega arith) in
    (
      ready (take amount (available this)),
      t,
      ap (deliver this room) e ∙ deliver-consume this t room (available this) c,
      record {
        remains = k.remains;
        tentative = k.tentative;
        recording = k.recording;
        replaying = k.replaying;
        fits = omega (arith, (length-take_le amount (available this)).0);
      },
    )

-- A read never fails its assertion; it gives the next bytes, as many as there is room for at most, and
-- leaves the others.
pub poll_read-Read :
    (this : IncomingReader) (room : ℕ)
    → (q : Poll Bytes) × (t : IncomingReader) × (poll_read this room ≡ some (q, t))
      × Read this room q t
unfolding poll_read
poll_read-Read this room =
    let f = poll_fill_buf-Filled this in
    let (q, t, d, r) = deliver-Read (poll_fill_buf this).1 room (poll_fill_buf this).0 f.answer in
    (
      q,
      t,
      d,
      record {
        remains = sym f.remains ∙ r.remains;
        tentative =
            r.tentative ∙ ap₂ (λ a b. if a then b ++ given q else b) f.recording f.tentative;
        recording = r.recording ∙ f.recording;
        replaying = λ x. r.replaying (ap₂ (λ o l. ltb o (length l)) f.replay_offset f.replay ∙ x);
        fits = r.fits;
      },
    )

-- Reads in turn, with all that they gave.
abbrev pub prepend : Bytes → Option (Bytes × IncomingReader) → Option (Bytes × IncomingReader)
prepend bytes none = none
prepend bytes (some (more, t)) = some (bytes ++ more, t)

unfoldable pub poll_reads : List ℕ → IncomingReader → Option (Bytes × IncomingReader)
unfolding poll_read
poll_reads [] this = some ([], this)
poll_reads (room ∷ rooms) this = elim (poll_read this room) [
  | none ↦ none
  | some (p, t) ↦ prepend (given p) (poll_reads rooms t)
]

poll_reads-step :
    (this u t : IncomingReader) (room : ℕ) (rooms : List ℕ) (p : Poll Bytes) (more : Bytes)
    → poll_read this room ≡ some (p, u)
    → poll_reads rooms u ≡ some (more, t)
    → poll_reads (room ∷ rooms) this ≡ some (given p ++ more, t)
unfolding poll_reads
poll_reads-step this u t room rooms p more e f = rw (e, poll_reads, f) refl

-- Reads as many as there are, none of which fails.
pub record Reads (this : IncomingReader) (bytes : Bytes) (t : IncomingReader) : Type 0 where
  pub remains : remaining this ≡ bytes ++ remaining t
  pub tentative : this.record_tentative ≡ true → t.tentative ≡ this.tentative ++ bytes
  pub recording : t.record_tentative ≡ this.record_tentative
  pub replaying : is_replaying this ≡ false → is_replaying t ≡ false

-- Whatever room there is for each, reads in turn do not fail an assertion; together they give the next
-- bytes in order, with none lost or given twice, and where recording is on, the recording holds them.
pub poll_reads-Reads :
    (rooms : List ℕ) (this : IncomingReader)
    → (bytes : Bytes) × (t : IncomingReader) × (poll_reads rooms this ≡ some (bytes, t))
      × Reads this bytes t
unfolding poll_reads
poll_reads-Reads [] this = (
  [],
  this,
  refl,
  record {
    remains = refl;
    tentative = λ e. sym (append-nil this.tentative);
    recording = refl;
    replaying = λ x. x;
  },
)
poll_reads-Reads (room ∷ rooms) this =
    let (p, u, e, r) = poll_read-Read this room in
    let (more, t, f, s) = poll_reads-Reads rooms u in
    (
      given p ++ more,
      t,
      poll_reads-step this u t room rooms p more e f,
      record {
        remains =
            r.remains
            ∙ ap (λ x. given p ++ x) s.remains
            ∙ sym (append_assoc (given p) more (remaining t));
        tentative = λ e.
            s.tentative (r.recording ∙ e)
            ∙ ap (λ x. x ++ more)
                (r.tentative ∙ ap (λ b. if b then this.tentative ++ given p else this.tentative) e)
            ∙ append_assoc this.tentative (given p) more;
        recording = s.recording ∙ r.recording;
        replaying = λ x. s.replaying (r.replaying x);
      },
    )

abbrev reader_of : IncomingReader → Option (Bytes × IncomingReader) → IncomingReader
reader_of t none = t
reader_of t (some (bytes, u)) = u

installed :
    (t : IncomingReader)
    → is_replaying t ≡ false
    → remaining (install_tentative_replay t) ≡ t.tentative ++ remaining t
unfolding install_tentative_replay
installed t n =
    ap (λ x. t.tentative ++ (x ++ (drop t.buffered_offset t.buffered ++ arriving t)))
      (sym (drop-all t.replay_offset t.replay n))

-- What a tentative decoder was given is given again: where a reader that has nothing to replay and nothing
-- recorded starts to record, is read from in any way, and installs the replay, it has to give exactly the
-- bytes that it had to give at the start.
pub install_tentative_replay-start :
    (rooms : List ℕ) (this t : IncomingReader) (bytes : Bytes)
    → is_replaying this ≡ false
    → this.tentative ≡ []
    → poll_reads rooms (start_tentative_recording this) ≡ some (bytes, t)
    → remaining (install_tentative_replay t) ≡ remaining this
unfolding start_tentative_recording
install_tentative_replay-start rooms this t bytes n e h =
    let (more, u, f, s) = poll_reads-Reads rooms (start_tentative_recording this) in
    let q = sym f ∙ h in
    let w = s.tentative refl in
    let v = ap (λ x. reader_of t x) q in
    ap (λ x. remaining (install_tentative_replay x)) (sym v)
    ∙ installed u (s.replaying n)
    ∙ ap (λ x. x ++ remaining u) (w ∙ ap (λ x. x ++ more) e)
    ∙ sym s.remains
