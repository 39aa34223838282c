-- ===== src/Upload/Progress.antt =====
-- What is sent of a body of crates/requests/src/transport/mod.rs, and when it counts as sent.
use requests_native.Prelude.{
  ℕ, ◌≡◌, refl, sym, ap, ◌∙◌, ◌≢◌, inl, inr, Bool, true, false, Option, none, some, List, [], ◌∷◌,
  ◌++◌, append_assoc, append-nil, Bool-cases, Option-cases, Bytes, ok, err,
}
use requests_native.Prelude.{none-some}
use requests_native.Upload.{
  StreamAnswer, gives, fails, pends, BodySource, empty, bytes, stream, BodyProgress, OutgoingBody,
  Poll, ready, pending, new, mark_progress, mark_complete, Frame, frame_of, poll_frame,
}

abbrev chunks : List StreamAnswer → Bytes
chunks [] = []
chunks (gives chunk ∷ answers) = chunk ++ chunks answers
chunks (fails error ∷ answers) = chunks answers
chunks (pends ∷ answers) = chunks answers

-- What a source still has to give.
unfoldable pub content : BodySource → Bytes
content empty = []
content (bytes chunk) = chunk
content (stream size answers) = chunks answers

unfoldable pub given : Poll Frame → Bytes
given pending = []
given (ready none) = []
given (ready (some (ok chunk))) = chunk
given (ready (some (err error))) = []

-- Polls at these instants, and what they give.
unfoldable pub polls : List ℕ → OutgoingBody → OutgoingBody × Bytes
unfolding poll_frame given
polls [] body = (body, [])
polls (now ∷ nows) body =
    let (body1, polled) = poll_frame now body in
    let (body2, more) = polls nows body1 in (body2, given polled ++ more)

abbrev pub completed_at : OutgoingBody → Option ℕ
completed_at body = elim body.progress [ none ↦ none | some progress ↦ progress.completed_at ]

frame_of-content :
    (source : BodySource)
    → given (frame_of source).1.1 ++ content (frame_of source).0 ≡ content source
unfolding frame_of given content
frame_of-content empty = refl
frame_of-content (bytes []) = refl
frame_of-content (bytes (b ∷ bs)) = append-nil (b ∷ bs)
frame_of-content (stream size []) = refl
frame_of-content (stream size (pends ∷ answers)) = refl
frame_of-content (stream size (gives chunk ∷ answers)) = refl
frame_of-content (stream size (fails error ∷ answers)) = refl

-- What completes a body leaves nothing of it, and what has nothing left stays so.
frame_of-spent :
    (source : BodySource) → (frame_of source).1.0 ≡ true → content (frame_of source).0 ≡ []
unfolding frame_of content
frame_of-spent empty h = refl
frame_of-spent (bytes []) h = refl
frame_of-spent (bytes (b ∷ bs)) h = refl
frame_of-spent (stream size []) h = refl
frame_of-spent (stream size (pends ∷ answers)) h = cc
frame_of-spent (stream size (gives chunk ∷ answers)) h = cc
frame_of-spent (stream size (fails error ∷ answers)) h = cc

poll_frame-content :
    (now : ℕ) (body : OutgoingBody)
    → given (poll_frame now body).1 ++ content (poll_frame now body).0.source ≡ content body.source
unfolding poll_frame mark_complete
poll_frame-content now body = elim (Bool-cases (frame_of body.source).1.0) [
  | inl e ↦ rw e (frame_of-content body.source)
  | inr e ↦ rw e (frame_of-content body.source)
]

-- A body that counts as sent has nothing left.
abbrev pub IsHonest : OutgoingBody → Type 0
IsHonest body = completed_at body ≢ none → content body.source ≡ []

append_empty : (xs ys : Bytes) → xs ++ ys ≡ [] → ys ≡ []
append_empty [] ys e = e
append_empty (x ∷ xs) ys e = cc

mark_progress-stays :
    (now at : ℕ) (progress : BodyProgress)
    → progress.completed_at ≡ some at
    → (mark_progress now progress).completed_at ≡ some at
unfolding mark_progress
mark_progress-stays now at progress e = rw (e, mark_progress) e

-- The instant of completion once it is marked: the old one, if there is one.
mark_complete-stays :
    (now at : ℕ) (body : OutgoingBody)
    → completed_at body ≡ some at
    → completed_at (mark_complete now body) ≡ some at
unfolding mark_complete mark_progress
mark_complete-stays now at body e = elim (Option-cases body.progress) [
  | inl f ↦ absurd (none-some (sym (rw f at e)))
  | inr (p, f) ↦ rw f (mark_progress-stays now at p (rw f at e))
]

poll_frame-stays :
    (now at : ℕ) (body : OutgoingBody)
    → completed_at body ≡ some at
    → completed_at (poll_frame now body).0 ≡ some at
unfolding poll_frame
poll_frame-stays now at body e = elim (Bool-cases (frame_of body.source).1.0) [
  | inl h ↦ rw h (mark_complete-stays now at (record body { source = (frame_of body.source).0 }) e)
  | inr h ↦ rw h e
]

-- The instant at which a body counts as sent never changes.
pub polls-stays :
    (nows : List ℕ) (at : ℕ) (body : OutgoingBody)
    → completed_at body ≡ some at
    → completed_at (polls nows body).0 ≡ some at
unfolding polls
polls-stays [] at body e = e
polls-stays (now ∷ nows) at body e =
    polls-stays nows at (poll_frame now body).0 (poll_frame-stays now at body e)

poll_frame-IsHonest :
    (now : ℕ) (body : OutgoingBody) → IsHonest body → IsHonest (poll_frame now body).0
unfolding poll_frame mark_complete
poll_frame-IsHonest now body h = elim (Bool-cases (frame_of body.source).1.0) [
  | inl e ↦ rw e (λ c. frame_of-spent body.source e)
  | inr e ↦
      rw e (λ c.
        append_empty (given (frame_of body.source).1.1) _ (frame_of-content body.source ∙ h c))
]

polls-IsHonest :
    (nows : List ℕ) (body : OutgoingBody) → IsHonest body → IsHonest (polls nows body).0
unfolding polls
polls-IsHonest [] body h = h
polls-IsHonest (now ∷ nows) body h =
    polls-IsHonest nows (poll_frame now body).0 (poll_frame-IsHonest now body h)

polls-content_from :
    (nows : List ℕ) (body : OutgoingBody)
    → (polls nows body).1 ++ content (polls nows body).0.source ≡ content body.source
unfolding polls
polls-content_from [] body = refl
polls-content_from (now ∷ nows) body =
    append_assoc (given (poll_frame now body).1) _ _
    ∙ ap (λ x. given (poll_frame now body).1 ++ x) (polls-content_from nows (poll_frame now body).0)
    ∙ poll_frame-content now body

new-IsHonest : (source : BodySource) (track : Bool) (now : ℕ) → IsHonest (new source track now)
unfolding new content
new-IsHonest source false now h = absurd (h refl)
new-IsHonest empty true now h = refl
new-IsHonest (bytes []) true now h = refl
new-IsHonest (bytes (b ∷ bs)) true now h = absurd (h refl)
new-IsHonest (stream size answers) true now h = absurd (h refl)

new-source : (source : BodySource) (track : Bool) (now : ℕ) → (new source track now).source ≡ source
unfolding new
new-source source track now = refl

-- Whenever a body is polled, what its frames have given, followed by what it still has to give, is what it
-- was made of; and where it counts as sent, nothing is left to give.
pub polls-content :
    (source : BodySource) (track : Bool) (start : ℕ) (nows : List ℕ)
    → ((polls nows (new source track start)).1
          ++ content (polls nows (new source track start)).0.source
        ≡ content source)
      × (completed_at (polls nows (new source track start)).0 ≢ none
          → content (polls nows (new source track start)).0.source ≡ [])
polls-content source track start nows = (
  polls-content_from nows (new source track start) ∙ ap content (new-source source track start),
  polls-IsHonest nows (new source track start) (new-IsHonest source track start),
)
