-- ===== src/Decode/Drain.antt =====
-- The end of a body at `IncomingReader` of crates/requests/src/transport/decode.rs: `poll_drain` and
-- `poll_reject_trailing`.
use requests_native.Prelude.{
  ℕ, zero, suc, ◌≡◌, refl, sym, ap, ap₂, ◌∙◌, ◌≢◌, ◌⊎◌, inl, inr, Bool, true, false, ◌||◌, Option,
  none, some, List, [], ◌∷◌, ◌++◌, arith, ltb, if◌then◌else◌, Bool-cases, Option-cases, length,
  drop, Bytes, Result, ok, err,
}
use requests_native.Response.Poll.{Poll, pending, ready}
use requests_native.Decode.{
  Frame, waiting, data_frame, other_frame, failed_frame, TransportError, IncomingReader, window,
  is_replaying, has_error, poll_body, poll_fill_buf, consume, consume_replay, consume_buffered,
}
use requests_native.Decode.Replay.{given}
use requests_native.Decode.Source.{
  arriving, coming, remaining, available, drop-all, length-drop, poll_fill_buf-Filled,
}

-- What stands for the errors: that of the transport, and one for bytes behind the end.
pub data DrainError : Type 0 where
  transport : TransportError → DrainError
  content_decoding : DrainError

-- The end of the input, unless it is an error.
unfoldable pub ended_by :
    IncomingReader → Option TransportError → Result DrainError ℕ × IncomingReader
ended_by this none = (ok 0, this)
ended_by this (some e) = (err (transport e), record this { transport_error = none })

unfoldable pub ended : IncomingReader → Result DrainError ℕ × IncomingReader
unfolding ended_by
ended this = ended_by this this.transport_error

-- `poll_reject_trailing` behind `poll_fill_buf`.
unfoldable pub reject : IncomingReader → Poll Bytes → Poll (Result DrainError ℕ) × IncomingReader
unfolding ended
reject this pending = (pending, this)
reject this (ready []) = let (r, t) = ended this in (ready r, t)
reject this (ready (b ∷ bs)) = (ready (err content_decoding), this)

unfoldable pub poll_reject_trailing : IncomingReader → Poll (Result DrainError ℕ) × IncomingReader
unfolding poll_fill_buf reject
poll_reject_trailing this = elim this.transport_error [
  | none ↦ let (p, t) = poll_fill_buf this in reject t p
  | some e ↦ (ready (err (transport e)), record this { transport_error = none })
]

abbrev pub has_ended : IncomingReader → Bool
has_ended this = has_error this || this.clean_eof

-- What can be given at once is nothing only at the end, where the input is not limited.
body-empty :
    (this : IncomingReader) (fs : List Frame)
    → this.input_limit ≡ none
    → (poll_body this fs).0 ≡ ready []
    → has_ended (poll_body this fs).1 ≡ true
unfolding poll_body window
body-empty this [] l h = elim (Bool-cases (has_error this)) [
  | inl e ↦ rw e refl
  | inr e ↦ rw e refl
]
body-empty this (waiting ∷ fs) l h = cc
body-empty this (data_frame [] ∷ fs) l h = body-empty this fs l h
body-empty this (data_frame (b ∷ bs) ∷ fs) l h =
    let g = ap (λ w. ready (window w 0 (b ∷ bs))) (sym l) ∙ h in cc
body-empty this (other_frame ∷ fs) l h = body-empty this fs l h
body-empty this (failed_frame ∷ fs) l h = refl

drop-some : (n : ℕ) (xs : Bytes) → ltb n (length xs) ≡ true → drop n xs ≢ []
drop-some n xs h = λ e. let f = length-drop n xs in let g = ap length e in ground (arith, f, g)

window-none :
    (limit : Option ℕ) (offset : ℕ) (bytes : Bytes)
    → limit ≡ none
    → drop offset bytes ≡ window limit offset bytes
unfolding window
window-none limit offset bytes l = ap (λ x. window x offset bytes) (sym l)

-- A reader without a limit has nothing at once where it has neither a replay nor a chunk left.
available-empty :
    (this : IncomingReader)
    → this.input_limit ≡ none
    → available this ≡ []
    → (drop this.replay_offset this.replay ≡ []) × (drop this.buffered_offset this.buffered ≡ [])
unfolding available window
available-empty this l h = elim (Bool-cases (is_replaying this)) [
  | inl e ↦
      let g : window this.input_limit this.replay_offset this.replay ≡ available this = rw e refl in
      elim (drop-some this.replay_offset this.replay e
        (window-none this.input_limit this.replay_offset this.replay l ∙ g ∙ h)) [ ]
  | inr e ↦ elim (Bool-cases (ltb this.buffered_offset (length this.buffered))) [
    | inl f ↦
        let g : window this.input_limit this.buffered_offset this.buffered ≡ available this =
          rw (e, f) refl in
        elim (drop-some this.buffered_offset this.buffered f
          (window-none this.input_limit this.buffered_offset this.buffered l ∙ g ∙ h)) [ ]
    | inr f ↦
        (drop-all this.replay_offset this.replay e, drop-all this.buffered_offset this.buffered f)
  ]
]

-- What holds of both branches of a test holds of what it chooses.
branch-has_ended :
    (b : Bool) (x y : Poll Bytes × IncomingReader)
    → (b ≡ true → x.0 ≡ ready [] → has_ended x.1 ≡ true)
    → (b ≡ false → y.0 ≡ ready [] → has_ended y.1 ≡ true)
    → (if b then x else y).0 ≡ ready []
    → has_ended (if b then x else y).1 ≡ true
branch-has_ended true x y f g h = f refl h
branch-has_ended false x y f g h = g refl h

window-some :
    (limit : Option ℕ) (offset : ℕ) (bytes : Bytes)
    → limit ≡ none
    → ltb offset (length bytes) ≡ true
    → ready (window limit offset bytes) ≢ ready []
window-some limit offset bytes l e =
    λ h. drop-some offset bytes e (window-none limit offset bytes l ∙ ap given h)

-- Filling that answers nothing has come to the end, or to an error.
fill-has_ended :
    (this : IncomingReader)
    → this.input_limit ≡ none
    → (poll_fill_buf this).0 ≡ ready []
    → has_ended (poll_fill_buf this).1 ≡ true
unfolding poll_fill_buf
fill-has_ended this l =
    branch-has_ended (is_replaying this) _ _
      (λ e h. absurd (window-some this.input_limit this.replay_offset this.replay l e h))
      (λ e.
        branch-has_ended (ltb this.buffered_offset (length this.buffered)) _ _
          (λ f h. absurd (window-some this.input_limit this.buffered_offset this.buffered l f h))
          (λ f.
            branch-has_ended (has_ended this) _ _ (λ g h. g) (λ g. body-empty this this.body l)))

answered-empty :
    (p : Poll Bytes) (t : IncomingReader)
    → (p ≡ pending) ⊎ (p ≡ ready (available t))
    → p ≡ ready []
    → available t ≡ []
answered-empty p t (inl e) h = cc
answered-empty p t (inr e) h = ap given (sym e ∙ h)

-- Filling that answers nothing has given every byte.
fill-empty :
    (this : IncomingReader)
    → this.input_limit ≡ none
    → (poll_fill_buf this).0 ≡ ready []
    → (remaining this ≡ []) × (has_ended (poll_fill_buf this).1 ≡ true)
fill-empty this l h =
    let f = poll_fill_buf-Filled this in
    let t = (poll_fill_buf this).1 in
    let e = fill-has_ended this l h in
    let (r, b) =
      available-empty t (f.limit ∙ l) (answered-empty (poll_fill_buf this).0 t f.answer h) in
    (
      sym f.remains
          ∙ ap₂ (λ x y. x ++ (y ++ arriving t)) r b
          ∙ ap (λ x. if x then [] else coming t.body) e,
      e,
    )

abbrev pub Answer : Type 0
Answer = Poll (Result DrainError ℕ) × IncomingReader

-- The rest of the loop, for a reader whose bytes were consumed.
abbrev pub proceed : (IncomingReader → Option Answer) → Option IncomingReader → Option Answer
proceed rest none = none
proceed rest (some this) = rest this

-- `poll_drain` behind `poll_fill_buf`.
unfoldable pub drain_filled :
    (IncomingReader → Option Answer) → IncomingReader → Poll Bytes → Option Answer
unfolding ended consume
drain_filled rest this pending = some (pending, this)
drain_filled rest this (ready []) = let (r, t) = ended this in some (ready r, t)
drain_filled rest this (ready (b ∷ bs)) = proceed rest (consume this (length (b ∷ bs)))

unfoldable pub drain_unless :
    (IncomingReader → Option Answer) → IncomingReader → Option TransportError → Option Answer
unfolding drain_filled poll_fill_buf
drain_unless rest this none = let (p, t) = poll_fill_buf this in drain_filled rest t p
drain_unless rest this (some e) =
    some (ready (err (transport e)), record this { transport_error = none })

-- `poll_drain`, with fuel for its loop.
unfoldable pub poll_drain : ℕ → IncomingReader → Option Answer
unfolding drain_unless
poll_drain zero this = none
poll_drain (suc n) this = drain_unless (poll_drain n) this this.transport_error

consume-limit :
    (this t : IncomingReader) (amount : ℕ)
    → consume this amount ≡ some t
    → t.input_limit ≡ this.input_limit
unfolding consume consume_replay consume_buffered
consume-limit this t amount h = ground arith

-- A reader at the clean end of its body.
unfoldable pub IsDone : IncomingReader → Type 0
IsDone this = (this.transport_error ≡ none) × (this.clean_eof ≡ true) × (remaining this ≡ [])

clean-ended :
    (this : IncomingReader)
    → this.transport_error ≡ none
    → has_ended this ≡ true
    → this.clean_eof ≡ true
clean-ended this f e = let g : has_ended this ≡ this.clean_eof = rw (f, has_error) refl in sym g ∙ e

ended_by-IsDone :
    (this t : IncomingReader) (o : Option TransportError)
    → this.transport_error ≡ o
    → has_ended this ≡ true
    → remaining this ≡ []
    → ended_by this o ≡ (ok 0, t)
    → IsDone t
unfolding ended_by IsDone
ended_by-IsDone this t none f e r h =
    let q = ap (λ x. x.1) h in let d : IsDone this = (f, clean-ended this f e, r) in rw (sym q) d
ended_by-IsDone this t (some x) f e r h = let g = ap (λ x. x.0) h in cc

nothing : {A : Type 0} {a : A} → none ≢ some a
nothing = λ h. cc

abbrev answer_or :
    Result DrainError ℕ × IncomingReader → Option Answer → Result DrainError ℕ × IncomingReader
answer_or x none = x
answer_or x (some (pending, t)) = x
answer_or x (some (ready r, t)) = (r, t)

filled-IsDone :
    (rest : IncomingReader → Option Answer) (this t : IncomingReader) (p : Poll Bytes)
    → ((u : IncomingReader) → u.input_limit ≡ none → rest u ≡ some (ready (ok 0), t) → IsDone t)
    → this.input_limit ≡ none
    → (p ≡ ready [] → (remaining this ≡ []) × (has_ended this ≡ true))
    → drain_filled rest this p ≡ some (ready (ok 0), t)
    → IsDone t
unfolding drain_filled ended
filled-IsDone rest this t pending i l e h = cc
filled-IsDone rest this t (ready []) i l e h =
    let (r, f) = e refl in
    ended_by-IsDone this t this.transport_error refl f r (ap (answer_or (ended this)) h)
filled-IsDone rest this t (ready (b ∷ bs)) i l e h =
    elim (Option-cases (consume this (length (b ∷ bs)))) [
      | inl n ↦ absurd (nothing (sym (ap (proceed rest) n) ∙ h))
      | inr (u, n) ↦
          i u (consume-limit this u (length (b ∷ bs)) n ∙ l) (sym (ap (proceed rest) n) ∙ h)
    ]

unless-IsDone :
    (rest : IncomingReader → Option Answer) (this t : IncomingReader) (o : Option TransportError)
    → ((u : IncomingReader) → u.input_limit ≡ none → rest u ≡ some (ready (ok 0), t) → IsDone t)
    → this.input_limit ≡ none
    → drain_unless rest this o ≡ some (ready (ok 0), t)
    → IsDone t
unfolding drain_unless
unless-IsDone rest this t none i l h =
    let f = poll_fill_buf-Filled this in
    filled-IsDone rest (poll_fill_buf this).1 t (poll_fill_buf this).0 i (f.limit ∙ l)
      (λ e. let (r, g) = fill-empty this l e in (f.remains ∙ r, g)) h
unless-IsDone rest this t (some e) i l h = cc

-- A drain of a reader without a limit that ends well has come to the clean end of the body, with every
-- byte given and no error.
pub poll_drain-IsDone :
    (n : ℕ) (this t : IncomingReader)
    → this.input_limit ≡ none
    → poll_drain n this ≡ some (ready (ok 0), t)
    → IsDone t
unfolding poll_drain
poll_drain-IsDone zero this t l h = cc
poll_drain-IsDone (suc n) this t l h =
    unless-IsDone (poll_drain n) this t this.transport_error (λ u m e. poll_drain-IsDone n u t m e)
      l h
