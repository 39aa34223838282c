-- ===== src/Decode/Source.antt =====
-- What one read of `IncomingReader` in crates/requests/src/transport/decode.rs gives and leaves.
use requests_native.Prelude.{
  ℕ, zero, suc, ◌+◌, ◌-◌, ◌≤◌, ◌≡◌, refl, sym, ap, ◌∙◌, ◌⊎◌, inl, inr, Bool, true, false, ◌||◌,
  List, [], ◌∷◌, ◌++◌, arith, ltb, if◌then◌else◌, Bool-cases, length, take, drop, Bytes,
}
use requests_native.Response.Poll.{Poll, pending, ready}
use requests_native.Decode.{
  Frame, waiting, data_frame, other_frame, failed_frame, IncomingReader, window, is_replaying,
  poll_body, poll_fill_buf, has_error,
}

-- The bytes that frames will give, up to an error.
abbrev pub coming : List Frame → Bytes
coming [] = []
coming (waiting ∷ fs) = coming fs
coming (data_frame bytes ∷ fs) = bytes ++ coming fs
coming (other_frame ∷ fs) = coming fs
coming (failed_frame ∷ fs) = []

-- Those of the body, which is not asked again after its end or an error.
abbrev pub arriving : IncomingReader → Bytes
arriving this = if has_error this || this.clean_eof then [] else coming this.body

-- All that a reader has still to give.
abbrev pub remaining : IncomingReader → Bytes
remaining this =
    drop this.replay_offset this.replay
    ++ (drop this.buffered_offset this.buffered ++ arriving this)

-- What a reader can give at once.
unfoldable pub available : IncomingReader → Bytes
unfolding window
available this =
    if is_replaying this
    then window this.input_limit this.replay_offset this.replay
    else if ltb this.buffered_offset (length this.buffered)
    then window this.input_limit this.buffered_offset this.buffered
    else []

pub drop-all {ℓ} : {A : Type ℓ} (n : ℕ) (xs : List A) → ltb n (length xs) ≡ false → drop n xs ≡ []
drop-all zero [] h = refl
drop-all zero (x ∷ xs) h = ground arith
drop-all (suc n) [] h = refl
drop-all (suc n) (x ∷ xs) h = drop-all n xs (ground (arith, h))

abbrev pub no_bytes : Bytes
no_bytes = []

drop-nil : (n : ℕ) → drop n no_bytes ≡ []
drop-nil zero = refl
drop-nil (suc n) = refl

pub drop_add : (m n : ℕ) (xs : Bytes) → drop (m + n) xs ≡ drop n (drop m xs)
drop_add zero n xs = ap (λ k. drop k xs) (omega arith)
drop_add (suc m) n [] = drop-nil (suc m + n) ∙ sym (drop-nil n)
drop_add (suc m) n (x ∷ xs) =
    let e : suc m + n ≡ suc (m + n) = omega arith in ap (λ k. drop k (x ∷ xs)) e ∙ drop_add m n xs

pub length-drop {ℓ} : {A : Type ℓ} (n : ℕ) (xs : List A) → length (drop n xs) ≡ length xs - n
length-drop zero xs = omega arith
length-drop (suc n) [] = omega arith
length-drop (suc n) (x ∷ xs) = omega (arith, length-drop n xs)

pub take-take {ℓ} : {A : Type ℓ} (m n : ℕ) (xs : List A) → m ≤ n → take m (take n xs) ≡ take m xs
take-take zero n xs h = refl
take-take (suc m) zero xs h = ground arith
take-take (suc m) (suc n) [] h = refl
take-take (suc m) (suc n) (x ∷ xs) h = ap (λ y. x ∷ y) (take-take m n xs (omega (arith, h)))

pub length-take_le {ℓ} :
    {A : Type ℓ} (n : ℕ) (xs : List A) → (length (take n xs) ≤ n) × (length (take n xs) ≤ length xs)
length-take_le zero xs = (omega arith, omega arith)
length-take_le (suc n) [] = (omega arith, omega arith)
length-take_le (suc n) (x ∷ xs) =
    let (i, j) = length-take_le n xs in (omega (arith, i), omega (arith, j))

or-false : (a b : Bool) → (a || b) ≡ false → (a ≡ false) × (b ≡ false)
or-false true b h = cc
or-false false b h = (refl, h)

-- What filling leaves: so many bytes to give, of which those that are available are answered.
pub record Filled (this : IncomingReader) (bytes : Bytes) (p : Poll Bytes) (t : IncomingReader)
    : Type 0 where
  pub answer : (p ≡ pending) ⊎ (p ≡ ready (available t))
  pub remains : remaining t ≡ bytes
  pub tentative : t.tentative ≡ this.tentative
  pub recording : t.record_tentative ≡ this.record_tentative
  pub replay : t.replay ≡ this.replay
  pub replay_offset : t.replay_offset ≡ this.replay_offset
  pub limit : t.input_limit ≡ this.input_limit

poll_body-Filled :
    (this : IncomingReader) (fs : List Frame)
    → is_replaying this ≡ false
    → ltb this.buffered_offset (length this.buffered) ≡ false
    → has_error this ≡ false
    → this.clean_eof ≡ false
    → Filled this (coming fs) (poll_body this fs).0 (poll_body this fs).1
unfolding poll_body window available
poll_body-Filled this [] nr nb ne nc =
    let r = drop-all this.replay_offset this.replay nr in
    let b = drop-all this.buffered_offset this.buffered nb in
    record {
      answer = inr (rw (nr, nb) refl);
      remains = rw (r, b, ne) refl;
      tentative = refl;
      recording = refl;
      replay = refl;
      replay_offset = refl;
      limit = refl;
    }
poll_body-Filled this (waiting ∷ fs) nr nb ne nc =
    let r = drop-all this.replay_offset this.replay nr in
    let b = drop-all this.buffered_offset this.buffered nb in
    record {
      answer = inl refl;
      remains = rw (r, b, ne, nc) refl;
      tentative = refl;
      recording = refl;
      replay = refl;
      replay_offset = refl;
      limit = refl;
    }
poll_body-Filled this (data_frame [] ∷ fs) nr nb ne nc = poll_body-Filled this fs nr nb ne nc
poll_body-Filled this (data_frame (x ∷ bytes) ∷ fs) nr nb ne nc =
    let r = drop-all this.replay_offset this.replay nr in
    let z : ltb 0 (suc (length bytes)) ≡ true = ground arith in
    record {
      answer = inr (rw (nr, z) refl);
      remains = rw (r, ne, nc) refl;
      tentative = refl;
      recording = refl;
      replay = refl;
      replay_offset = refl;
      limit = refl;
    }
poll_body-Filled this (other_frame ∷ fs) nr nb ne nc = poll_body-Filled this fs nr nb ne nc
poll_body-Filled this (failed_frame ∷ fs) nr nb ne nc =
    let r = drop-all this.replay_offset this.replay nr in
    let b = drop-all this.buffered_offset this.buffered nb in
    record {
      answer = inr (rw (nr, nb) refl);
      remains = rw (r, b) refl;
      tentative = refl;
      recording = refl;
      replay = refl;
      replay_offset = refl;
      limit = refl;
    }

unchanged :
    (this : IncomingReader) (bytes rest : Bytes)
    → bytes ≡ available this
    → remaining this ≡ rest
    → Filled this rest (ready bytes) this
unchanged this bytes rest e f = record {
  answer = inr (ap ready e);
  remains = f;
  tentative = refl;
  recording = refl;
  replay = refl;
  replay_offset = refl;
  limit = refl;
}

-- Filling neither gives nor loses a byte.
pub poll_fill_buf-Filled :
    (this : IncomingReader)
    → Filled this (remaining this) (poll_fill_buf this).0 (poll_fill_buf this).1
unfolding poll_fill_buf window available
poll_fill_buf-Filled this = elim (Bool-cases (is_replaying this)) [
  | inl e ↦ rw e (
      unchanged this (window this.input_limit this.replay_offset this.replay) (remaining this)
        (rw e refl) refl)
  | inr e ↦ elim (Bool-cases (ltb this.buffered_offset (length this.buffered))) [
    | inl f ↦
        rw (e, f)
          (unchanged this (window this.input_limit this.buffered_offset this.buffered)
            (remaining this) (rw (e, f) refl) refl)
    | inr f ↦ elim (Bool-cases (has_error this || this.clean_eof)) [
      | inl g ↦ rw (e, f, g) (unchanged this [] _ (rw (e, f) refl) (rw g refl))
      | inr g ↦
          let (h, i) = or-false (has_error this) this.clean_eof g in
          let r = drop-all this.replay_offset this.replay e in
          let b = drop-all this.buffered_offset this.buffered f in
          rw (e, f, g, r, b) (poll_body-Filled this this.body e f h i)
    ]
  ]
]
