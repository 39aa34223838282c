-- ===== src/Decode/Rounds.antt =====
-- The rounds of `poll_drain` in crates/requests/src/transport/decode.rs.
use requests_native.Prelude.{
  ℕ, zero, suc, ◌<◌, ◌≡◌, refl, sym, ap, ◌∙◌, ◌≢◌, ◌⊎◌, inl, inr, Option, none, some, [], ◌∷◌, ◌++◌,
  arith, Option-cases, length, take, length-append, Bytes, Result, ok,
}
use requests_native.Response.Poll.{Poll, pending, ready}
use requests_native.Decode.{TransportError, IncomingReader, poll_fill_buf, consume}
use requests_native.Decode.Source.{remaining, available, poll_fill_buf-Filled}
use requests_native.Decode.Consume.{consume-Consumed}
use requests_native.Decode.Replay.{given}
use requests_native.Decode.Drain.{
  Answer, DrainError, IsDone, poll_drain-IsDone, proceed, drain_filled, drain_unless, poll_drain,
  ended,
}

take-all : (xs : Bytes) → take (length xs) xs ≡ xs
take-all [] = refl
take-all (x ∷ xs) = ap (λ y. x ∷ y) (take-all xs)

-- A round that goes on has consumed a byte at least.
consume-shorter :
    (this : IncomingReader) (b : ℕ) (bs : Bytes)
    → b ∷ bs ≡ available this
    → (u : IncomingReader) × (consume this (length (b ∷ bs)) ≡ some u)
      × (length (remaining u) < length (remaining this))
consume-shorter this b bs e =
    let g = ap length e in
    let (u, c, k) = consume-Consumed this (length (b ∷ bs)) (ground (arith, g)) in
    let f = ap (take (length (b ∷ bs))) (sym e) ∙ take-all (b ∷ bs) in
    let l = ap length (k.remains ∙ ap (λ x. x ++ remaining u) f) in
    let m = length-append bs (remaining u) in (u, c, ground (arith, l, m))

filled-total :
    (rest : IncomingReader → Option Answer) (this : IncomingReader) (p : Poll Bytes)
    → ((u : IncomingReader) → length (remaining u) < length (remaining this) → rest u ≢ none)
    → (p ≡ pending) ⊎ (p ≡ ready (available this))
    → drain_filled rest this p ≢ none
unfolding drain_filled ended
filled-total rest this pending i a = λ h. cc
filled-total rest this (ready []) i a = λ h. cc
filled-total rest this (ready (b ∷ bs)) i (inl e) = λ h. cc
filled-total rest this (ready (b ∷ bs)) i (inr e) =
    let (u, c, l) = consume-shorter this b bs (ap given e) in
    λ h. i u l (sym (ap (proceed rest) c) ∙ h)

unless-total :
    (rest : IncomingReader → Option Answer) (this : IncomingReader) (o : Option TransportError)
    → ((u : IncomingReader) → length (remaining u) < length (remaining this) → rest u ≢ none)
    → drain_unless rest this o ≢ none
unfolding drain_unless
unless-total rest this (some e) i = λ h. cc
unless-total rest this none i =
    let f = poll_fill_buf-Filled this in
    let g = ap length f.remains in
    filled-total rest (poll_fill_buf this).1 (poll_fill_buf this).0
      (λ u l. i u (ground (arith, l, g))) f.answer

-- A drain returns, with more fuel than there are bytes to give, and fails no assertion.
poll_drain-total :
    (n : ℕ) (this : IncomingReader) → length (remaining this) < n → poll_drain n this ≢ none
unfolding poll_drain
poll_drain-total zero this h = ground arith
poll_drain-total (suc n) this h =
    unless-total (poll_drain n) this this.transport_error
      (λ u l. poll_drain-total n u (omega (arith, h, l)))

-- A drain of a reader without a limit returns, with more fuel than there are bytes to give, and fails no
-- assertion; where it answers that the body has ended well, the reader is at its clean end and has given
-- every byte.
pub poll_drain-ends :
    (n : ℕ) (this : IncomingReader)
    → length (remaining this) < n
    → this.input_limit ≡ none
    → (p : Poll (Result DrainError ℕ)) × (t : IncomingReader) × (poll_drain n this ≡ some (p, t))
      × (p ≡ ready (ok 0) → IsDone t)
poll_drain-ends n this h l = elim (Option-cases (poll_drain n this)) [
  | inl e ↦ absurd (poll_drain-total n this h e)
  | inr ((p, t), e) ↦ (p, t, e, λ f. poll_drain-IsDone n this t l (e ∙ ap (λ x. some (x, t)) f))
]
