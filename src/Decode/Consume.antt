-- ===== src/Decode/Consume.antt =====
-- What consuming leaves of `IncomingReader` in crates/requests/src/transport/decode.rs.
use requests_native.Prelude.{
  ℕ, zero, suc, ◌+◌, ◌-◌, ◌≤◌, ◌≡◌, refl, sym, ap, ◌∙◌, inl, inr, true, false, Option, none, some,
  [], ◌++◌, append_assoc, arith, ltb, le→leb, Bool-cases, length, take, drop, take-append-drop,
  Bytes,
}
use requests_native.Decode.{
  IncomingReader, window, is_replaying, consume, consume_replay, consume_buffered, record_bytes,
}
use requests_native.Decode.Source.{
  arriving, remaining, available, drop-all, no_bytes, drop_add, length-drop, take-take,
  length-take_le,
}

-- What consuming a part of what is available leaves.
pub record Consumed (this : IncomingReader) (given : Bytes) (t : IncomingReader) : Type 0 where
  pub remains : remaining this ≡ given ++ remaining t
  pub tentative : t.tentative ≡ record_bytes this given
  pub recording : t.record_tentative ≡ this.record_tentative
  pub replaying : is_replaying this ≡ false → is_replaying t ≡ false
  pub limit : t.input_limit ≡ this.input_limit

-- What is available of a chunk is its next bytes.
window-take :
    (limit : Option ℕ) (offset amount : ℕ) (bytes : Bytes)
    → amount ≤ length (window limit offset bytes)
    → (take amount (window limit offset bytes) ≡ take amount (drop offset bytes))
      × (amount ≤ length bytes - offset)
unfolding window
window-take none offset amount bytes h = (refl, omega (arith, h, length-drop offset bytes))
window-take (some limit) offset amount bytes h =
    let (i, j) = length-take_le limit (drop offset bytes) in
    (
      take-take amount limit (drop offset bytes) (omega (arith, h, i)),
      omega (arith, h, j, length-drop offset bytes),
    )

-- A chunk from an offset on, with its next bytes taken off.
drop-split :
    (offset amount : ℕ) (bytes : Bytes)
    → drop offset bytes ≡ take amount (drop offset bytes) ++ drop (offset + amount) bytes
drop-split offset amount bytes =
    sym (take-append-drop amount (drop offset bytes))
    ∙ ap (λ x. take amount (drop offset bytes) ++ x) (sym (drop_add offset amount bytes))

-- The front of what remains, taken off.
front-split :
    (offset amount : ℕ) (bytes rest given : Bytes)
    → given ≡ take amount (drop offset bytes)
    → drop offset bytes ++ rest ≡ given ++ (drop (offset + amount) bytes ++ rest)
front-split offset amount bytes rest given g =
    ap (λ x. x ++ rest) (drop-split offset amount bytes)
    ∙ append_assoc (take amount (drop offset bytes)) (drop (offset + amount) bytes) rest
    ∙ ap (λ x. x ++ (drop (offset + amount) bytes ++ rest)) (sym g)

consume-replay :
    (this : IncomingReader) (amount : ℕ) (given : Bytes)
    → is_replaying this ≡ true
    → given ≡ take amount (drop this.replay_offset this.replay)
    → amount ≤ length this.replay - this.replay_offset
    → (t : IncomingReader) × (consume this amount ≡ some t) × Consumed this given t
unfolding consume consume_replay
consume-replay this amount given e g h =
    let l = le→leb amount (length this.replay - this.replay_offset) h in
    (
      consume_replay this amount,
      rw (e, l) refl,
      record {
        remains =
            front-split this.replay_offset amount this.replay
              (drop this.buffered_offset this.buffered ++ arriving this) given g;
        tentative = ap (record_bytes this) (sym g);
        recording = refl;
        replaying = λ x. cc;
        limit = refl;
      },
    )

consume-buffered :
    (this : IncomingReader) (amount : ℕ) (given : Bytes)
    → is_replaying this ≡ false
    → given ≡ take amount (drop this.buffered_offset this.buffered)
    → amount ≤ length this.buffered - this.buffered_offset
    → (t : IncomingReader) × (consume this amount ≡ some t) × Consumed this given t
unfolding consume consume_buffered
consume-buffered this amount given e g h =
    let l = le→leb amount (length this.buffered - this.buffered_offset) h in
    let r = drop-all this.replay_offset this.replay e in
    (
      consume_buffered this amount,
      rw (e, l) refl,
      record {
        remains =
            rw r (front-split this.buffered_offset amount this.buffered (arriving this) given g);
        tentative = ap (record_bytes this) (sym g);
        recording = refl;
        replaying = λ x. x;
        limit = refl;
      },
    )

take-zero : (n : ℕ) (xs : Bytes) → n ≤ 0 → take n no_bytes ≡ take n xs
take-zero zero xs h = refl
take-zero (suc n) xs h = ground arith

-- The bytes of a part of what is available are consumed, and recorded where that is asked for.
pub consume-Consumed :
    (this : IncomingReader) (amount : ℕ)
    → amount ≤ length (available this)
    → (t : IncomingReader) × (consume this amount ≡ some t)
      × Consumed this (take amount (available this)) t
unfolding available window
consume-Consumed this amount h = elim (Bool-cases (is_replaying this)) [
  | inl e ↦
      let a : available this ≡ window this.input_limit this.replay_offset this.replay = rw e refl in
      let b = ap length a in
      let (i, j) =
        window-take this.input_limit this.replay_offset amount this.replay (ground (arith, h, b)) in
      consume-replay this amount (take amount (available this)) e (ap (take amount) a ∙ i) j
  | inr e ↦ elim (Bool-cases (ltb this.buffered_offset (length this.buffered))) [
    | inl f ↦
        let a : available this ≡ window this.input_limit this.buffered_offset this.buffered =
          rw (e, f) refl in
        let b = ap length a in
        let (i, j) =
          window-take this.input_limit this.buffered_offset amount this.buffered
            (ground (arith, h, b)) in
        consume-buffered this amount (take amount (available this)) e (ap (take amount) a ∙ i) j
    | inr f ↦
        let a : available this ≡ [] = rw (e, f) refl in
        let b = ap length a in
        consume-buffered this amount (take amount (available this)) e
          (ap (take amount) a ∙ take-zero amount _ (ground (arith, h, b))) (ground (arith, h, b))
  ]
]
