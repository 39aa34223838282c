-- ===== src/Heads/Settled.antt =====
-- The header lines that `take_normalized_python_response` of crates/requests/src/transport/mod.rs writes, as
-- headers that a client reads again.
use requests_native.Prelude.{
  ◌≡◌, refl, ap, inl, inr, Bool, true, false, not, ◌&&◌, ◌||◌, List, [], ◌∷◌, ◌++◌, if◌then◌else◌,
  Bool-cases, any, Bytes, codes, is_ascii_digit,
}
use requests_native.Heads.{
  ContentLengthNormalization, unchanged, ignore, overflow, is_content_length, is_transfer_encoding,
  is_chunked, split_commas, trim_ascii, trim_start, trim_end,
}
use requests_native.Heads.Lengths.{declared, declares_chunked, values, disagree}
use requests_native.Heads.Framing.{conflicts, framing}
use requests_native.Heads.Observation.{normalized_lines, header_line, overflow_line, is_overflow}

-- The lines of headers.
abbrev pub lines : List (Bytes × Bytes) → Bytes
lines [] = []
lines ((name, value) ∷ headers) = header_line name value ++ lines headers

-- The headers that declare no length.
unfoldable pub others : List (Bytes × Bytes) → List (Bytes × Bytes)
others [] = []
others ((name, value) ∷ headers) =
    let rest = others headers in if is_content_length name then rest else (name, value) ∷ rest

unfoldable pub has_length : List (Bytes × Bytes) → Bool
has_length headers = any (λ header. is_content_length header.0) headers

abbrev largest : Bytes × Bytes
largest = (codes "Content-Length", codes "9223372036854775807")

unfoldable kept : ContentLengthNormalization → Bool → List (Bytes × Bytes) → List (Bytes × Bytes)
kept normalization wrote [] = []
kept normalization wrote ((name, value) ∷ headers) =
    let rest = kept normalization wrote headers in
    let after = kept normalization true headers in
    if is_content_length name
    then if is_overflow normalization && not wrote then largest ∷ after else rest
    else (name, value) ∷ rest

and_false : (b : Bool) → (b && false) ≡ false
and_false true = refl
and_false false = refl

module _ (n : ContentLengthNormalization) where
  lines-kept :
      (w : Bool) (hs : List (Bytes × Bytes)) → normalized_lines n w hs ≡ lines (kept n w hs)
  unfolding normalized_lines kept
  lines-kept w [] = refl
  lines-kept w ((name, value) ∷ hs) = elim (Bool-cases (is_content_length name)) [
    | inl e ↦ elim (Bool-cases (is_overflow n && not w)) [
      | inl f ↦ rw (e, f) (ap (λ x. overflow_line ++ x) (lines-kept true hs))
      | inr f ↦ rw (e, f) (lines-kept w hs)
    ]
    | inr e ↦ rw e (ap (λ x. header_line name value ++ x) (lines-kept w hs))
  ]

  others-kept : (w : Bool) (hs : List (Bytes × Bytes)) → others (kept n w hs) ≡ others hs
  unfolding others kept is_content_length
  others-kept w [] = refl
  others-kept w ((name, value) ∷ hs) = elim (Bool-cases (is_content_length name)) [
    | inl e ↦ elim (Bool-cases (is_overflow n && not w)) [
      | inl f ↦ rw (e, f) (others-kept true hs)
      | inr f ↦ rw (e, f) (others-kept w hs)
    ]
    | inr e ↦ rw (e, e) (ap (λ x. (name, value) ∷ x) (others-kept w hs))
  ]

  chunked-kept :
      (w : Bool) (hs : List (Bytes × Bytes)) → declares_chunked (kept n w hs) ≡ declares_chunked hs
  unfolding declares_chunked kept is_content_length
  chunked-kept w [] = refl
  chunked-kept w ((name, value) ∷ hs) = elim (Bool-cases (is_content_length name)) [
    | inl e ↦ elim (Bool-cases (is_overflow n && not w)) [
      | inl f ↦ rw (e, f) (chunked-kept true hs)
      | inr f ↦ rw (e, f) (chunked-kept w hs)
    ]
    | inr e ↦
        rw (e, e)
          (ap
            (λ x. if is_transfer_encoding name then any is_chunked (split_commas value) || x else x)
            (chunked-kept w hs))
  ]

  -- No length is written where none is to be written any more.
  declared-written :
      (w : Bool) (hs : List (Bytes × Bytes))
      → (is_overflow n && not w) ≡ false
      → declared (kept n w hs) ≡ []
  unfolding declared kept
  declared-written w [] h = refl
  declared-written w ((name, value) ∷ hs) h = elim (Bool-cases (is_content_length name)) [
    | inl e ↦ rw (e, h) (declared-written w hs h)
    | inr e ↦ rw (e, e) (declared-written w hs h)
  ]

  declared-kept :
      (w : Bool) (hs : List (Bytes × Bytes))
      → (is_overflow n && not w) ≡ true
      → declared (kept n w hs) ≡ (if has_length hs then largest.1 ∷ [] else [])
  unfolding declared kept has_length is_content_length split_commas trim_ascii trim_start trim_end
  declared-kept w [] h = refl
  declared-kept w ((name, value) ∷ hs) h = elim (Bool-cases (is_content_length name)) [
    | inl e ↦
        rw (e, h) (ap (λ x. largest.1 ∷ x) (declared-written true hs (and_false (is_overflow n))))
    | inr e ↦ rw (e, e) (declared-kept w hs h)
  ]

written :
    (n : ContentLengthNormalization) (hs : List (Bytes × Bytes))
    → declared (kept n false hs) ≡ (if is_overflow n && has_length hs then largest.1 ∷ [] else [])
written unchanged hs = declared-written unchanged false hs refl
written ignore hs = declared-written ignore false hs refl
written overflow hs = declared-kept overflow false hs refl

agreed :
    (b : Bool) (hs : List (Bytes × Bytes))
    → declared hs ≡ (if b then largest.1 ∷ [] else [])
    → (conflicts hs ≡ false) × (framing hs ≡ unchanged)
unfolding conflicts framing values disagree is_ascii_digit
agreed true hs e = elim (Bool-cases (declares_chunked hs)) [
  | inl c ↦ rw (e, c) (refl, refl)
  | inr c ↦ rw (e, c) (refl, refl)
]
agreed false hs e = elim (Bool-cases (declares_chunked hs)) [
  | inl c ↦ rw (e, c) (refl, refl)
  | inr c ↦ rw (e, c) (refl, refl)
]

-- The lines that are written for a head to be normalized are the lines of headers of which these hold. But
-- for the lengths they are the headers of the head, in order. They declare no length, or one, 2 ^ 63 - 1,
-- where the head has a length and it overflows. They list `chunked` where the head does. Their own lengths
-- do not conflict and need no further normalization.
pub normalized_lines-settles :
    (n : ContentLengthNormalization) (headers : List (Bytes × Bytes))
    → (again : List (Bytes × Bytes)) × ((normalized_lines n false headers ≡ lines again)
        × ((others again ≡ others headers)
            × ((declared again ≡ (
                  if is_overflow n && has_length headers
                  then codes "9223372036854775807" ∷ []
                  else []))
                × ((declares_chunked again ≡ declares_chunked headers)
                    × ((conflicts again ≡ false) × (framing again ≡ unchanged))))))
normalized_lines-settles n headers = (
  kept n false headers,
  (
    lines-kept n false headers,
    (
      others-kept n false headers,
      (
        written n headers,
        (chunked-kept n false headers, agreed _ (kept n false headers) (written n headers)),
      ),
    ),
  ),
)
