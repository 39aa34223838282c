-- ===== src/Heads/Lengths.antt =====
-- The lengths that a head declares, as numbers, and what `parsed_response_head` of
-- crates/requests/src/transport/mod.rs makes of them.
use requests_native.Prelude.{
  ℕ, ◌≡◌, refl, sym, ap, ◌∙◌, inl, inr, Bool, true, false, not, ◌||◌, List, [], ◌∷◌, ◌++◌, map,
  append_assoc, append-nil, ◌==◌, if◌then◌else◌, Bool-cases, any, all, Bytes,
}
use requests_native.Heads.{
  trim_ascii, trim_leading_ascii_zeroes, split_commas, value_from, is_number, fails_u64, Scan,
  scan_token, scan_tokens, is_content_length, is_transfer_encoding, is_chunked, scan_header,
  scan_headers,
}

-- The parts of every Content-Length header, in order.
unfoldable pub declared : List (Bytes × Bytes) → List Bytes
unfolding split_commas trim_ascii
declared [] = []
declared ((name, value) ∷ headers) =
    let rest = declared headers in
    if is_content_length name then map trim_ascii (split_commas value) ++ rest else rest

-- Whether a Transfer-Encoding header lists `chunked`.
unfoldable pub declares_chunked : List (Bytes × Bytes) → Bool
unfolding split_commas
declares_chunked [] = false
declares_chunked ((name, value) ∷ headers) =
    let rest = declares_chunked headers in
    if is_content_length name
    then rest
    else if is_transfer_encoding name
    then any is_chunked (split_commas value) || rest
    else rest

unfoldable pub values : List Bytes → List ℕ
unfolding value_from
values [] = []
values (token ∷ tokens) = value_from 0 token ∷ values tokens

-- Whether two of the numbers differ.
unfoldable pub disagree : List ℕ → Bool
disagree [] = false
disagree (n ∷ ns) = any (λ m. not (m == n)) ns

-- What the scan keeps of the parts: those that are numbers, without leading zeroes.
unfoldable pub canonicals : List Bytes → List Bytes
unfolding trim_leading_ascii_zeroes
canonicals [] = []
canonicals (token ∷ tokens) =
    let rest = canonicals tokens in
    if is_number token then trim_leading_ascii_zeroes token ∷ rest else rest

unfoldable pub too_large : List Bytes → Bool
unfolding fails_u64 trim_leading_ascii_zeroes
too_large [] = false
too_large (token ∷ tokens) =
    let rest = too_large tokens in
    if is_number token then fails_u64 (trim_leading_ascii_zeroes token) || rest else rest

-- A scan with what further parts bring.
abbrev with_tokens : Scan → List Bytes → Scan
with_tokens s tokens = record s {
  content_lengths = s.content_lengths ++ canonicals tokens;
  invalid_content_length = s.invalid_content_length || not (all is_number tokens);
  overflowing_content_length = s.overflowing_content_length || too_large tokens;
}

or_false : (b : Bool) → (b || false) ≡ b
or_false true = refl
or_false false = refl

or_true : (b : Bool) → (b || true) ≡ true
or_true true = refl
or_true false = refl

or_assoc : (a b c : Bool) → ((a || b) || c) ≡ (a || (b || c))
or_assoc true b c = refl
or_assoc false b c = refl

scan_ext :
    (s t : Scan)
    → s.content_lengths ≡ t.content_lengths
    → s.content_length_values ≡ t.content_length_values
    → s.invalid_content_length ≡ t.invalid_content_length
    → s.overflowing_content_length ≡ t.overflowing_content_length
    → s.chunked ≡ t.chunked
    → s ≡ t
scan_ext s t a b c d e = λ i. record {
  content_lengths = a i;
  content_length_values = b i;
  invalid_content_length = c i;
  overflowing_content_length = d i;
  chunked = e i;
}

scan_token-with_tokens :
    (s : Scan) (part : Bytes) (tokens : List Bytes)
    → with_tokens (scan_token s part) tokens ≡ with_tokens s (trim_ascii part ∷ tokens)
unfolding scan_token canonicals too_large
scan_token-with_tokens s part tokens = elim (Bool-cases (is_number (trim_ascii part))) [
  | inl e ↦ rw e (
      scan_ext _ _ (append_assoc s.content_lengths _ _) refl refl
        (or_assoc s.overflowing_content_length _ _) refl)
  | inr e ↦ rw e (scan_ext _ _ refl refl (sym (or_true s.invalid_content_length)) refl refl)
]

scan_tokens-with_tokens :
    (s : Scan) (parts : List Bytes) → scan_tokens s parts ≡ with_tokens s (map trim_ascii parts)
unfolding scan_tokens canonicals too_large
scan_tokens-with_tokens s [] =
    scan_ext _ _ (sym (append-nil s.content_lengths)) refl (sym (or_false s.invalid_content_length))
      (sym (or_false s.overflowing_content_length)) refl
scan_tokens-with_tokens s (part ∷ parts) =
    scan_tokens-with_tokens (scan_token s part) parts
    ∙ scan_token-with_tokens s part (map trim_ascii parts)

canonicals-append : (s t : List Bytes) → canonicals (s ++ t) ≡ canonicals s ++ canonicals t
unfolding canonicals
canonicals-append [] t = refl
canonicals-append (a ∷ s) t = elim (Bool-cases (is_number a)) [
  | inl e ↦ rw e (ap (λ x. trim_leading_ascii_zeroes a ∷ x) (canonicals-append s t))
  | inr e ↦ rw e (canonicals-append s t)
]

too_large-append : (s t : List Bytes) → too_large (s ++ t) ≡ (too_large s || too_large t)
unfolding too_large
too_large-append [] t = refl
too_large-append (a ∷ s) t = elim (Bool-cases (is_number a)) [
  | inl e ↦ rw e (
      ap (λ x. fails_u64 (trim_leading_ascii_zeroes a) || x) (too_large-append s t)
      ∙ sym (or_assoc (fails_u64 (trim_leading_ascii_zeroes a)) _ _))
  | inr e ↦ rw e (too_large-append s t)
]

numbers-append :
    (s t : List Bytes)
    → not (all is_number (s ++ t)) ≡ (not (all is_number s) || not (all is_number t))
numbers-append [] t = refl
numbers-append (a ∷ s) t = elim (Bool-cases (is_number a)) [
  | inl e ↦ rw e (numbers-append s t)
  | inr e ↦ rw e refl
]

with_tokens-append :
    (s : Scan) (a b : List Bytes) → with_tokens (with_tokens s a) b ≡ with_tokens s (a ++ b)
with_tokens-append s a b =
    scan_ext _ _
      (append_assoc s.content_lengths _ _
        ∙ ap (λ x. s.content_lengths ++ x) (sym (canonicals-append a b)))
      refl
      (or_assoc s.invalid_content_length _ _
        ∙ ap (λ x. s.invalid_content_length || x) (sym (numbers-append a b)))
      (or_assoc s.overflowing_content_length _ _
        ∙ ap (λ x. s.overflowing_content_length || x) (sym (too_large-append a b)))
      refl

-- The scan `t` comes from `s` by these parts, and by `chunked` where `c` says so.
pub record Scanned (s t : Scan) (tokens : List Bytes) (c : Bool) : Type 0 where
  pub lengths : t.content_lengths ≡ s.content_lengths ++ canonicals tokens
  pub invalid : t.invalid_content_length ≡ (s.invalid_content_length || not (all is_number tokens))
  pub large : t.overflowing_content_length ≡ (s.overflowing_content_length || too_large tokens)
  pub codings : t.chunked ≡ (s.chunked || c)

after_tokens :
    (s : Scan) (parts : List Bytes)
    → {s1 t : Scan} {tokens : List Bytes} {c : Bool} → s1 ≡ with_tokens s parts
    → Scanned s1 t tokens c
    → Scanned s t (parts ++ tokens) c
unfolding canonicals too_large
after_tokens s parts {s1} {t} {tokens} {c} k h =
    let a = with_tokens-append s parts tokens in
    let b = ap (λ x. with_tokens x tokens) k ∙ a in
    record {
      lengths = h.lengths ∙ ap (λ x. x.content_lengths) b;
      invalid = h.invalid ∙ ap (λ x. x.invalid_content_length) b;
      large = h.large ∙ ap (λ x. x.overflowing_content_length) b;
      codings = h.codings ∙ ap (λ x. x.chunked || c) k;
    }

module _ (lossy : Bytes → Bytes) where
  pub scan_headers-Scanned :
      (s : Scan) (headers : List (Bytes × Bytes))
      → Scanned s (scan_headers lossy s headers) (declared headers) (declares_chunked headers)
  unfolding scan_headers scan_header declared declares_chunked canonicals too_large
  scan_headers-Scanned s [] = record {
    lengths = sym (append-nil s.content_lengths);
    invalid = sym (or_false s.invalid_content_length);
    large = sym (or_false s.overflowing_content_length);
    codings = sym (or_false s.chunked);
  }
  scan_headers-Scanned s ((name, value) ∷ headers) = elim (Bool-cases (is_content_length name)) [
    | inl e ↦
        let s1 = record s { content_length_values = s.content_length_values ++ lossy value ∷ [] } in
        let parts = map trim_ascii (split_commas value) in
        let h = scan_headers-Scanned (scan_tokens s1 (split_commas value)) headers in
        let k = scan_tokens-with_tokens s1 (split_commas value) in
        let r = after_tokens s1 parts k h in
        rw e
          record { lengths = r.lengths; invalid = r.invalid; large = r.large; codings = r.codings }
    | inr e ↦ elim (Bool-cases (is_transfer_encoding name)) [
      | inl f ↦
          let c = any is_chunked (split_commas value) in
          let h = scan_headers-Scanned (record s { chunked = s.chunked || c }) headers in
          rw (e, f)
            record {
              lengths = h.lengths;
              invalid = h.invalid;
              large = h.large;
              codings = h.codings ∙ or_assoc s.chunked c _;
            }
      | inr f ↦ rw (e, f) (scan_headers-Scanned s headers)
    ]
  ]
