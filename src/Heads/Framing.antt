-- ===== src/Heads/Framing.antt =====
-- What the lengths that a head declares mean for its framing: `parsed_response_head` of
-- crates/requests/src/transport/mod.rs against a reading of the lengths as numbers.
use requests_native.Prelude.{
  ℕ, ◌^◌, ◌<◌, ◌≡◌, refl, sym, ap, ◌∙◌, inl, inr, Bool, true, false, not, ◌&&◌, ◌||◌, Option, none,
  some, List, [], ◌∷◌, arith, leb, ◌==◌, if◌then◌else◌, Bool-cases, any, all, All, Bytes, bytes_eq,
  bytes_eq_iff,
}
use requests_native.Heads.{
  Head, ContentLengthNormalization, unchanged, ignore, overflow, trim_leading_ascii_zeroes,
  is_number, fails_u64, value_from, scan_headers, no_scan, has_other, is_conflicting, normalization,
  parsed_head,
}
use requests_native.Heads.Digits.{number-value, trim_zeroes-bytes_eq}
use requests_native.Heads.Lengths.{
  declared, declares_chunked, values, disagree, canonicals, too_large, scan_headers-Scanned,
}

-- The declared lengths are all numbers, two of them differ, and no chunked coding overrules them.
unfoldable pub conflicts : List (Bytes × Bytes) → Bool
unfolding declared declares_chunked values disagree
conflicts headers =
    all is_number (declared headers)
    && not (declares_chunked headers)
    && disagree (values (declared headers))

unfoldable pub framing : List (Bytes × Bytes) → ContentLengthNormalization
unfolding declared declares_chunked values conflicts
framing headers =
    if not (all is_number (declared headers))
    then ignore
    else if any (leb (2 ^ 64)) (values (declared headers)) && not (conflicts headers)
    then if declares_chunked headers then ignore else overflow
    else unchanged

too_large-values :
    (tokens : List Bytes)
    → all is_number tokens ≡ true
    → too_large tokens ≡ any (leb (2 ^ 64)) (values tokens)
unfolding too_large values fails_u64
too_large-values [] h = refl
too_large-values (token ∷ tokens) h = elim (Bool-cases (is_number token)) [
  | inl e ↦
      rw (e, number-value token e)
        (ap (λ x. leb (2 ^ 64) (value_from 0 token) || x) (too_large-values tokens (rw e at h)))
  | inr e ↦ cc
]

others-values :
    (first : Bytes) (tokens : List Bytes)
    → is_number first ≡ true
    → all is_number tokens ≡ true
    → any (λ t. not (bytes_eq t (trim_leading_ascii_zeroes first))) (canonicals tokens)
      ≡ any (λ m. not (m == value_from 0 first)) (values tokens)
unfolding canonicals values
others-values first [] h i = refl
others-values first (token ∷ tokens) h i = elim (Bool-cases (is_number token)) [
  | inl e ↦
      rw (e, trim_zeroes-bytes_eq token first e h)
        (ap (λ x. not (value_from 0 token == value_from 0 first) || x)
          (others-values first tokens h (rw e at i)))
  | inr e ↦ cc
]

has_other-values :
    (tokens : List Bytes)
    → all is_number tokens ≡ true
    → has_other (canonicals tokens) ≡ disagree (values tokens)
unfolding has_other canonicals values disagree
has_other-values [] h = refl
has_other-values (token ∷ tokens) h = elim (Bool-cases (is_number token)) [
  | inl e ↦
      let k =
        (bytes_eq_iff (trim_leading_ascii_zeroes token) (trim_leading_ascii_zeroes token)).1 refl in
      rw (e, k) (others-values token tokens e (rw e at h))
  | inr e ↦ cc
]

module _ (lossy : Bytes → Bytes) (headers : List (Bytes × Bytes)) where
  scan_headers-conflicts : is_conflicting (scan_headers lossy no_scan headers) ≡ conflicts headers
  unfolding is_conflicting conflicts
  scan_headers-conflicts =
      let s = scan_headers-Scanned lossy no_scan headers in
      elim (Bool-cases (all is_number (declared headers))) [
        | inl e ↦
            rw (s.invalid, s.codings, s.lengths, e, has_other-values (declared headers) e) refl
        | inr e ↦ rw (s.invalid, e) refl
      ]

  scan_headers-framing : normalization (scan_headers lossy no_scan headers) ≡ framing headers
  unfolding normalization framing
  scan_headers-framing =
      let s = scan_headers-Scanned lossy no_scan headers in
      elim (Bool-cases (all is_number (declared headers))) [
        | inl e ↦
            rw
              (
                scan_headers-conflicts,
                s.invalid,
                s.codings,
                s.large,
                e,
                too_large-values (declared headers) e,
              )
              refl
        | inr e ↦ rw (s.invalid, e) refl
      ]

abbrev pub is_some : {A : Type 0} → Option A → Bool
is_some none = false
is_some (some a) = true

is_some-if : {A : Type 0} (a : A) (b : Bool) → is_some (if b then some a else none) ≡ b
is_some-if a true = refl
is_some-if a false = refl

-- A head is refused for conflicting lengths exactly where `conflicts` says so, and what its lengths are
-- normalized to is what `framing` says, both read off the numbers that the head declares.
pub parsed_head-framing :
    (lossy : Bytes → Bytes) (head : Head)
    → (is_some (parsed_head lossy head).conflicting_content_length ≡ conflicts head.headers)
      × ((parsed_head lossy head).content_length_normalization ≡ framing head.headers)
unfolding parsed_head
parsed_head-framing lossy head = (
  rw (sym (scan_headers-conflicts lossy head.headers)) (is_some-if _ _),
  scan_headers-framing lossy head.headers,
)

same-All : (n : ℕ) (ns : List ℕ) → any (λ m. not (m == n)) ns ≡ false → All (λ m. m ≡ n) ns
same-All n [] h = tt
same-All n (m ∷ ns) h = ground (arith, same-All n ns)

agree :
    (ns : List ℕ)
    → any (leb (2 ^ 64)) ns ≡ false
    → disagree ns ≡ false
    → (n : ℕ) × ((n < 2 ^ 64) × All (λ m. m ≡ n) ns)
unfolding disagree
agree [] h i = (0, (omega arith, tt))
agree (n ∷ ns) h i = (n, (ground (arith, h), (refl, same-All n ns i)))

unchanged_cases :
    (numbers chunked differ large : Bool)
    → (if not numbers
        then ignore
        else if large && not (numbers && not chunked && differ)
        then if chunked then ignore else overflow
        else unchanged)
      ≡ unchanged
    → (numbers && not chunked && differ) ≡ false
    → chunked ≡ false
    → (large ≡ false) × (differ ≡ false)
unchanged_cases numbers chunked differ large u c d = ground arith

-- Where a head without chunked coding has no conflict and its lengths are left as they are, there is one
-- number below 2 ^ 64 that every part of every Content-Length header of it stands for.
pub parsed_head-agreement :
    (lossy : Bytes → Bytes) (head : Head)
    → (parsed_head lossy head).conflicting_content_length ≡ none
    → (parsed_head lossy head).content_length_normalization ≡ unchanged
    → declares_chunked head.headers ≡ false
    → (n : ℕ) × ((n < 2 ^ 64) × All (λ m. m ≡ n) (values (declared head.headers)))
unfolding conflicts framing
parsed_head-agreement lossy head c u d =
    let (k, f) = parsed_head-framing lossy head in
    let g = sym (ap is_some c) ∙ k in
    let (large, same) = unchanged_cases _ _ _ _ (sym f ∙ u) (sym g) d in
    agree (values (declared head.headers)) large same
