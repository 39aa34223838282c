-- ===== src/Heads/Stream.antt =====
-- What a reader gets of a response over any polls of `ResponseHeadIo` of
-- crates/requests/src/transport/mod.rs.
use requests_native.Prelude.{
  ℕ, ◌-◌, ◌≡◌, refl, sym, ap, ap₂, ◌∙◌, inl, inr, true, false, not, Option, List, [], ◌∷◌, ◌++◌,
  append_assoc, ltb, Bool-cases, length, All, Bytes,
}
use requests_native.Heads.{Head, unchanged}
use requests_native.Heads.Observation.{
  ResponseHeadState, max_response_head_bytes, begin, take_normalized_python_response, observe,
  inspect_complete_response_head, buffer_python_response_bytes, buffers_python_response_head,
}
use requests_native.Heads.Inspection.{inspect-cases}
use requests_native.Heads.Invariant.{if-lem, true-false}
use requests_native.Heads.Io.{ResponseHeadIo, poll_read}
use requests_native.Heads.Withheld.{unread, held, backlog, IsOpen}
use requests_native.Heads.Polls.{poll_read-backlog, poll_read-keeps}

-- Polls into buffers with these rooms, and all that is in the buffers behind them.
unfoldable pub polls :
    (Bytes → Option Head) → (Bytes → Bytes) → List ℕ → ResponseHeadIo → ResponseHeadIo × Bytes
unfolding poll_read
polls parse lossy [] io = (io, [])
polls parse lossy (room ∷ rooms) io =
    let (io1, (polled, filled)) = poll_read parse lossy io room in
    let (io2, more) = polls parse lossy rooms io1 in (io2, filled ++ more)

-- Nothing is known of a head that is still awaited.
abbrev IsCalm : ResponseHeadState → Type 0
IsCalm state = state.active ≡ true → state.content_length_normalization ≡ unchanged

IsCalm-take :
    (state : ResponseHeadState) → IsCalm state → IsCalm (take_normalized_python_response state).0
unfolding take_normalized_python_response
IsCalm-take state c =
    if-lem (λ (r : ResponseHeadState × Option Bytes). IsCalm r.0) state.active (λ h. c) (λ h. c)

module _ (parse : Bytes → Option Head) (lossy : Bytes → Bytes) where
  IsCalm-inspect :
      (state : ResponseHeadState)
      → IsCalm state
      → IsCalm (inspect_complete_response_head parse lossy state)
  IsCalm-inspect state c = elim (inspect-cases parse lossy state) [
    | inl (e, f) ↦ rw f c
    | inr (at, (q, (e, f))) ↦ rw f (λ h. absurd (true-false (sym h)))
  ]

  IsCalm-observe :
      (state : ResponseHeadState) (bytes : Bytes)
      → IsCalm state
      → IsCalm (observe parse lossy state bytes)
  unfolding observe
  IsCalm-observe state bytes c = if-lem IsCalm (not state.active) (λ h. c) (λ h. IsCalm-inspect _ c)

  IsCalm-buffer :
      (state : ResponseHeadState) (bytes : Bytes)
      → IsCalm state
      → IsCalm (buffer_python_response_bytes parse lossy state bytes).0
  unfolding buffer_python_response_bytes
  IsCalm-buffer state bytes c =
      if-lem (λ (r : ResponseHeadState × Option Bytes). IsCalm r.0)
        (ltb (max_response_head_bytes - length state.captured) (length bytes))
        (λ h k. absurd (true-false (sym k))) (λ h. IsCalm-take _ (IsCalm-inspect _ c))

  buffers-inactive :
      (state : ResponseHeadState)
      → state.active ≡ false
      → buffers_python_response_head state ≡ false
  unfolding buffers_python_response_head
  buffers-inactive state e = simp e refl

  module _ (io : ResponseHeadIo) (room : ℕ) (a : All IsOpen io.inner.reads) where
    IsCalm-poll_read :
        IsCalm io.observation
        → IsCalm (poll_read parse lossy io room).0.observation
          × All IsOpen (poll_read parse lossy io room).0.inner.reads
    IsCalm-poll_read c =
        poll_read-keeps parse lossy IsCalm io room a c
          (λ bytes h. IsCalm-buffer io.observation bytes c)
          (λ bytes. IsCalm-observe io.observation bytes c)

    poll_read-inactive :
        io.observation.active ≡ false
        → (poll_read parse lossy io room).0.observation ≡ io.observation
    unfolding observe
    poll_read-inactive e =
        let P : ResponseHeadState → Type 0 = λ s. s ≡ io.observation in
        (poll_read-keeps parse lossy P io room a refl
          (λ bytes h. absurd (true-false (sym h ∙ buffers-inactive io.observation e)))
          (λ bytes.
            if-lem P (not io.observation.active) (λ h. refl)
              (λ h. absurd (true-false (sym (ap not e) ∙ h))))).0

    poll_read-unchanged :
        IsCalm io.observation
        → (poll_read parse lossy io room).0.observation.content_length_normalization ≡ unchanged
        → io.observation.content_length_normalization ≡ unchanged
    poll_read-unchanged c n = elim (Bool-cases io.observation.active) [
      | inl e ↦ c e
      | inr e ↦
          ap (λ (s : ResponseHeadState). s.content_length_normalization)
            (sym (poll_read-inactive e))
          ∙ n
    ]

  polls-unchanged :
      (rooms : List ℕ) (io : ResponseHeadIo)
      → All IsOpen io.inner.reads
      → IsCalm io.observation
      → (polls parse lossy rooms io).0.observation.content_length_normalization ≡ unchanged
      → io.observation.content_length_normalization ≡ unchanged
  unfolding polls
  polls-unchanged [] io a c n = n
  polls-unchanged (room ∷ rooms) io a c n =
      let (c1, a1) = IsCalm-poll_read io room a c in
      poll_read-unchanged io room a c
        (polls-unchanged rooms (poll_read parse lossy io room).0 a1 c1 n)

  polls-backlog_from :
      (rooms : List ℕ) (io : ResponseHeadIo)
      → All IsOpen io.inner.reads
      → IsCalm io.observation
      → (polls parse lossy rooms io).0.observation.content_length_normalization ≡ unchanged
      → (polls parse lossy rooms io).1 ++ backlog (polls parse lossy rooms io).0 ≡ backlog io
  unfolding polls
  polls-backlog_from [] io a c n = refl
  polls-backlog_from (room ∷ rooms) io a c n =
      let io1 = (poll_read parse lossy io room).0 in
      let filled = (poll_read parse lossy io room).1.1 in
      let (c1, a1) = IsCalm-poll_read io room a c in
      append_assoc filled _ _
      ∙ ap (λ x. filled ++ x) (polls-backlog_from rooms io1 a1 c1 n)
      ∙ poll_read-backlog parse lossy io room a (polls-unchanged rooms io1 a1 c1 n)

begun :
    (io : ResponseHeadIo)
    → io.injected ≡ []
    → held io.observation ≡ []
    → backlog io ≡ unread io.inner.reads
unfolding backlog
begun io i h = ap₂ (λ x y. x ++ (y ++ unread io.inner.reads)) i h

IsCalm-begin :
    (state : ResponseHeadState) (names : Option (List Bytes))
    → (begin state names).content_length_normalization ≡ unchanged
unfolding begin
IsCalm-begin state names = refl

held-begin :
    (state : ResponseHeadState) (names : Option (List Bytes)) → held (begin state names) ≡ []
unfolding held begin
held-begin state names =
    if-lem (λ x. x ≡ []) (buffers_python_response_head (begin state names)) (λ h. refl) (λ h. refl)

-- From the start of a response on, while the connection stays open and until a head asks for its lengths to
-- be normalized, no byte is lost, made up or moved: what polls have given to the reader, followed by what is
-- injected, what is held back and what the connection still gives, is what the connection gave at first.
pub polls-backlog :
    (parse : Bytes → Option Head) (lossy : Bytes → Bytes) (state : ResponseHeadState)
    (names : Option (List Bytes)) (io : ResponseHeadIo) (rooms : List ℕ)
    → io.observation ≡ begin state names
    → io.injected ≡ []
    → All IsOpen io.inner.reads
    → (polls parse lossy rooms io).0.observation.content_length_normalization ≡ unchanged
    → (polls parse lossy rooms io).1 ++ backlog (polls parse lossy rooms io).0
      ≡ unread io.inner.reads
polls-backlog parse lossy state names io rooms o i a n =
    polls-backlog_from parse lossy rooms io a (λ h. rw o (IsCalm-begin state names)) n
    ∙ begun io i (rw o (held-begin state names))
