-- ===== src/Heads/Writing.antt =====
-- Writes to `ResponseHeadIo` of crates/requests/src/transport/mod.rs, and what becomes of their bytes.
use requests_native.Prelude.{
  ℕ, ◌≡◌, refl, sym, ap, ap₂, ◌∙◌, inl, inr, Bool, true, false, List, [], ◌∷◌, ◌++◌, append_assoc,
  append-nil, arith, ltb, ◌==◌, if◌then◌else◌, length, take, Bytes,
}
use requests_native.Heads.Observation.{ResponseHeadState}
use requests_native.Heads.Invariant.{if-lem}
use requests_native.Heads.Request.{has_head_end, rewrite_python_request_head}
use requests_native.Heads.Io.{
  InnerWrite, takes, write_fails, write_pends, ResponseHeadIo, Polled, ready, failed, write_zero,
  pending, follow_generation, drain, poll_drain_outgoing, write_through, write_drained,
  write_followed, write_after, poll_write,
}
use requests_native.Heads.Io.{poll_drained}
use requests_native.Heads.Sending.{sequence, IsIdle, Drained, drain-Drained}

-- What goes on of a buffer that a poll has taken: the bytes it says, and before the head is complete all of
-- them, spelled where they end it.
unfoldable pub passed : (Bytes → Bytes) → ResponseHeadState → Bool → Bytes → Polled ℕ → Bytes
unfolding has_head_end rewrite_python_request_head
passed lossy state complete buffer (ready written) =
    if complete
    then take written buffer
    else if has_head_end buffer
    then rewrite_python_request_head lossy state buffer
    else buffer
passed lossy state complete buffer (failed error) = []
passed lossy state complete buffer write_zero = []
passed lossy state complete buffer (pending woken) = []

follow_current :
    (io : ResponseHeadIo) → io.observation.generation ≡ io.generation → follow_generation io ≡ io
unfolding follow_generation
follow_current io g =
    if-lem (λ x. x ≡ io) (io.observation.generation == io.generation) (λ h. refl)
      (λ h. absurd (ground (arith, g, h)))

nil_of-length : {A : Type 0} (xs : List A) → length xs ≡ 0 → xs ≡ []
nil_of-length [] e = refl
nil_of-length (x ∷ xs) e = absurd (omega (arith, e))

-- Where nothing is left to send, nothing was to be sent.
idle_empty :
    (io : ResponseHeadIo)
    → IsIdle io
    → ltb io.outgoing_offset (length io.outgoing) ≡ false
    → (io.outgoing ≡ []) × (io.outgoing_offset ≡ 0)
idle_empty io (inl e) h = (nil_of-length io.outgoing (ground (arith, e, h)), e)
idle_empty io (inr l) h = absurd (ground (arith, l, h))

module _ (lossy : Bytes → Bytes) where
  -- What a poll leaves of a stream that follows its generation.
  pub record Wrote (io : ResponseHeadIo) (buffer : Bytes) (r : ResponseHeadIo × Polled ℕ)
      : Type 0 where
    sequence_is :
        sequence r.0
        ≡ sequence io ++ passed lossy io.observation io.outgoing_head_complete buffer r.1
    still_idle : IsIdle r.0
    follows : r.0.observation.generation ≡ r.0.generation

  write_through-Wrote :
      (io : ResponseHeadIo) (buffer : Bytes) (writes : List InnerWrite)
      → io.outgoing ≡ []
      → io.outgoing_offset ≡ 0
      → io.outgoing_head_complete ≡ true
      → io.observation.generation ≡ io.generation
      → Wrote io buffer (write_through io buffer writes)
  unfolding write_through sequence passed
  write_through-Wrote io buffer [] e o c g = record {
    sequence_is = sym (append-nil (sequence io));
    still_idle = inl o;
    follows = g;
  }
  write_through-Wrote io buffer (write_pends ∷ writes) e o c g = record {
    sequence_is = sym (append-nil (sequence io));
    still_idle = inl o;
    follows = g;
  }
  write_through-Wrote io buffer (write_fails error ∷ writes) e o c g = record {
    sequence_is = sym (append-nil (sequence io));
    still_idle = inl o;
    follows = g;
  }
  write_through-Wrote io buffer (takes n ∷ writes) e o c g = record {
    sequence_is =
        rw (e, o, c)
          (append-nil (io.inner.sent ++ take n buffer)
            ∙ ap (λ x. x ++ take n buffer) (sym (append-nil io.inner.sent)));
    still_idle = inl o;
    follows = g;
  }

  write_drained-Wrote :
      (io : ResponseHeadIo) (buffer : Bytes)
      → io.outgoing ≡ []
      → io.outgoing_offset ≡ 0
      → io.observation.generation ≡ io.generation
      → Wrote io buffer (write_drained lossy io buffer)
  unfolding write_drained sequence passed
  write_drained-Wrote io buffer e o g =
      if-lem (Wrote io buffer) io.outgoing_head_complete
        (λ c. write_through-Wrote io buffer io.inner.writes e o c g)
        (λ c.
          if-lem (Wrote io buffer) (has_head_end (io.outgoing ++ buffer))
            (λ h. record {
              sequence_is =
                  rw (e, o, c, rw e at h)
                    (ap (λ x. x ++ rewrite_python_request_head lossy io.observation buffer)
                      (sym (append-nil io.inner.sent)));
              still_idle = inl o;
              follows = g;
            })
            (λ h. record {
              sequence_is =
                  rw (e, o, c, rw e at h) (ap (λ x. x ++ buffer) (sym (append-nil io.inner.sent)));
              still_idle = inl o;
              follows = g;
            }))

  failed-Wrote :
      (io : ResponseHeadIo) (buffer : Bytes) (polled : Polled ℕ)
      → IsIdle io
      → io.observation.generation ≡ io.generation
      → passed lossy io.observation io.outgoing_head_complete buffer polled ≡ []
      → Wrote io buffer (io, polled)
  failed-Wrote io buffer polled i g e = record {
    sequence_is = rw e (sym (append-nil (sequence io)));
    still_idle = i;
    follows = g;
  }

  write_after-Wrote :
      (io : ResponseHeadIo) (buffer : Bytes) (polled : Polled Unit)
      → IsIdle io
      → (polled ≡ ready tt → (io.outgoing ≡ []) × (io.outgoing_offset ≡ 0))
      → io.observation.generation ≡ io.generation
      → Wrote io buffer (write_after lossy buffer io polled)
  unfolding write_after passed
  write_after-Wrote io buffer (ready tt) i e g =
      write_drained-Wrote io buffer (e refl).0 (e refl).1 g
  write_after-Wrote io buffer (failed error) i e g = failed-Wrote io buffer (failed error) i g refl
  write_after-Wrote io buffer write_zero i e g = failed-Wrote io buffer write_zero i g refl
  write_after-Wrote io buffer (pending woken) i e g =
      failed-Wrote io buffer (pending woken) i g refl

  drained-Wrote :
      (io : ResponseHeadIo) (buffer : Bytes) (d : ResponseHeadIo × Polled Unit)
      (r : ResponseHeadIo × Polled ℕ)
      → Drained io d
      → Wrote d.0 buffer r
      → Wrote io buffer r
  drained-Wrote io buffer d r dr w = record {
    sequence_is =
        w.sequence_is
        ∙ ap₂ (λ x y. x ++ y) dr.in_order
            (ap₂ (λ x y. passed lossy x y buffer r.1) dr.same.0 dr.complete);
    still_idle = w.still_idle;
    follows = w.follows;
  }

  pub poll_write-Wrote :
      (io : ResponseHeadIo) (buffer : Bytes)
      → IsIdle io
      → io.observation.generation ≡ io.generation
      → Wrote io buffer (poll_write lossy io buffer)
  unfolding poll_write write_followed poll_drain_outgoing
  poll_write-Wrote io buffer i g =
      let d = drain-Drained io.inner.writes io in
      let dg = ap (λ (x : ResponseHeadState). x.generation) d.same.0 ∙ g ∙ sym d.same.1 in
      rw (follow_current io g) (
        if-lem (Wrote io buffer) (ltb io.outgoing_offset (length io.outgoing))
          (λ h. drained-Wrote io buffer _ _ d (write_after-Wrote _ buffer _ d.idle d.empty dg))
          (λ h. write_drained-Wrote io buffer (idle_empty io i h).0 (idle_empty io i h).1 g))

-- What a client does with the stream: it writes a buffer, or flushes it or shuts it down, with what the
-- connection gives to that.
pub data Action : Type 0 where
  write_buffer : Bytes → Action
  drain_with : Polled Unit → Action

-- Actions one after another, and what goes on of their buffers.
unfoldable pub acts : (Bytes → Bytes) → List Action → ResponseHeadIo → ResponseHeadIo × Bytes
unfolding poll_write poll_drained passed
acts lossy [] io = (io, [])
acts lossy (write_buffer buffer ∷ actions) io =
    let (io1, polled) = poll_write lossy io buffer in
    let (io2, more) = acts lossy actions io1 in
    (io2, passed lossy io.observation io.outgoing_head_complete buffer polled ++ more)
acts lossy (drain_with answer ∷ actions) io = acts lossy actions (poll_drained io answer).0

poll_drained-state :
    (io : ResponseHeadIo) (answer : Polled Unit)
    → (poll_drained io answer).0 ≡ (drain io io.inner.writes).0
unfolding poll_drained poll_drain_outgoing
poll_drained-state io answer = refl

-- While no other response is begun, what was sent and is left to send is, after any writes, flushes and
-- shutdowns, what it was before followed by what the writes passed on, in order and once each, however many
-- bytes the connection takes at a time and wherever it fails or pends.
pub acts-sequence :
    (lossy : Bytes → Bytes) (actions : List Action) (io : ResponseHeadIo)
    → IsIdle io
    → io.observation.generation ≡ io.generation
    → sequence (acts lossy actions io).0 ≡ sequence io ++ (acts lossy actions io).1
unfolding acts
acts-sequence lossy [] io i g = sym (append-nil (sequence io))
acts-sequence lossy (write_buffer buffer ∷ actions) io i g =
    let w = poll_write-Wrote lossy io buffer i g in
    acts-sequence lossy actions (poll_write lossy io buffer).0 w.still_idle w.follows
    ∙ ap (λ x. x ++ (acts lossy actions (poll_write lossy io buffer).0).1) w.sequence_is
    ∙ append_assoc (sequence io) _ _
acts-sequence lossy (drain_with answer ∷ actions) io i g =
    let d = drain-Drained io.inner.writes io in
    let e = poll_drained-state io answer in
    let dg = ap (λ (x : ResponseHeadState). x.generation) d.same.0 ∙ g ∙ sym d.same.1 in
    acts-sequence lossy actions (poll_drained io answer).0 (rw e d.idle) (rw e dg)
    ∙ ap (λ x. x ++ (acts lossy actions (poll_drained io answer).0).1) (ap sequence e ∙ d.in_order)
