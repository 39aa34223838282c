-- ===== src/Uri/Query.antt =====
-- `encode_query_pairs` of crates/requests/src/utils.rs against a reader of urlencoded forms.
use requests_native.Prelude.{
  ℕ, ◌/◌, ◌%◌, ◌≡◌, refl, ap, ◌≢◌, inl, inr, true, false, List, [], ◌∷◌, ◌++◌, map, append-nil,
  arith, ◌==◌, if◌then◌else◌, Bool-cases, All, All-append, Bytes, IsByte, contains_byte,
  is_ascii_digit, is_ascii_uppercase, is_ascii_lowercase, is_ascii_hexdigit,
}
use requests_native.Uri.{
  is_unreserved, hex_digit, quote_byte, quote_bytes, quote_form_component, encode_pair, encode_rest,
  encode_query_pairs,
}
use requests_native.Uri.Escapes.{
  percent_decode, percent_decode-literal, percent_decode-escape, hex_digit-IsHex,
}
use requests_native.Uri.Requote.{nibbles, unreserved_lt}

-- A reader of forms, written independently: split at every `&`, then each row at its first `=`, and
-- decode the two sides, `+` as a space.
pub split_on : ℕ → Bytes → List Bytes
split_on sep [] = [] ∷ []
split_on sep (c ∷ r) = elim (c == sep) [
  | true ↦ [] ∷ split_on sep r
  | false ↦ elim (split_on sep r) [ [] ↦ (c ∷ []) ∷ [] | field ∷ fields ↦ (c ∷ field) ∷ fields ]
]

pub before : ℕ → Bytes → Bytes
before sep [] = []
before sep (c ∷ r) = if c == sep then [] else c ∷ before sep r

pub after : ℕ → Bytes → Bytes
after sep [] = []
after sep (c ∷ r) = if c == sep then r else after sep r

pub plus_to_space : ℕ → ℕ
plus_to_space c = if c == b'+' then b' ' else c

pub decode_form : Bytes → Bytes
unfolding plus_to_space percent_decode
decode_form field = percent_decode (map plus_to_space field)

pub decode_row : Bytes → Bytes × Bytes
unfolding before after decode_form
decode_row row = (decode_form (before b'=' row), decode_form (after b'=' row))

pub decode_query : Bytes → List (Bytes × Bytes)
unfolding split_on decode_row
decode_query query = map decode_row (split_on b'&' query)

-- What a quoted form component is made of.
abbrev IsFormByte : ℕ → Type 0
IsFormByte c = (c ≢ b'&') × (c ≢ b'=')

quote_byte-IsFormByte : (c : ℕ) → IsByte c → All IsFormByte (quote_byte [] true c)
unfolding quote_byte contains_byte is_unreserved is_ascii_uppercase is_ascii_lowercase hex_digit
quote_byte-IsFormByte c h = ground arith

quote-IsFormByte : (v : Bytes) → All IsByte v → All IsFormByte (quote_bytes v [] true)
unfolding quote_bytes
quote-IsFormByte [] h = tt
quote-IsFormByte (c ∷ r) h =
    All-append IsFormByte (quote_byte [] true c) (quote_bytes r [] true)
      (quote_byte-IsFormByte c h.0) (quote-IsFormByte r h.1)

plus_to_space_keeps : (c : ℕ) → is_ascii_hexdigit c ≡ true → plus_to_space c ≡ c
unfolding plus_to_space is_ascii_hexdigit is_ascii_digit
plus_to_space_keeps c h = ground arith

unreserved_keeps : (c : ℕ) → is_unreserved c ≡ true → plus_to_space c ≡ c
unfolding plus_to_space is_unreserved is_ascii_uppercase is_ascii_lowercase
unreserved_keeps c h = ground arith

decode-quote_form_byte :
    (c : ℕ) (r : Bytes)
    → IsByte c
    → percent_decode (map plus_to_space (quote_byte [] true c ++ r))
      ≡ c ∷ percent_decode (map plus_to_space r)
unfolding quote_byte contains_byte
decode-quote_form_byte c r h = elim (Bool-cases (is_unreserved c)) [
  | inl e ↦ rw (e, unreserved_keeps c e) (percent_decode-literal c _ (unreserved_lt c e).1)
  | inr e ↦ elim (Bool-cases (c == b' ')) [
    | inl p ↦
        rw
          (
            e,
            p,
            percent_decode-literal (plus_to_space b'+') _ (unfold plus_to_space in ground arith),
          )
          (unfold plus_to_space in ground arith)
    | inr p ↦
        let ha = hex_digit-IsHex (c / 16) (omega arith) in
        let hb = hex_digit-IsHex (c % 16) (omega arith) in
        rw
          (
            e,
            p,
            percent_plain,
            plus_to_space_keeps _ ha,
            plus_to_space_keeps _ hb,
            percent_decode-escape _ _ (map plus_to_space r) ha hb,
          )
          (ap (λ n. n ∷ percent_decode (map plus_to_space r)) (nibbles c h))
  ]
]
  where
    percent_plain : plus_to_space b'%' ≡ b'%'
    percent_plain = unfold plus_to_space in refl

-- A form component is read back as the bytes that it was made of.
pub decode_form-quote_form_component :
    (v : Bytes) → All IsByte v → decode_form (quote_form_component v) ≡ v
unfolding decode_form quote_form_component quote_bytes percent_decode
decode_form-quote_form_component [] h = refl
decode_form-quote_form_component (c ∷ r) h =
    rw (decode-quote_form_byte c (quote_bytes r [] true) h.0)
      (ap (◌∷◌ c) (decode_form-quote_form_component r h.1))

abbrev Lacks : ℕ → Bytes → Type 0
Lacks sep = All (λ c. c ≢ sep)

split_on_last : (sep : ℕ) (x : Bytes) → Lacks sep x → split_on sep x ≡ x ∷ []
unfolding split_on
split_on_last sep [] h = refl
split_on_last sep (c ∷ r) h = ground (arith, split_on_last sep r h.1)

split_on_first :
    (sep : ℕ) (x r : Bytes) → Lacks sep x → split_on sep (x ++ sep ∷ r) ≡ x ∷ split_on sep r
unfolding split_on
split_on_first sep [] r h = ground arith
split_on_first sep (c ∷ x) r h = ground (arith, split_on_first sep x r h.1)

before_first : (sep : ℕ) (x r : Bytes) → Lacks sep x → before sep (x ++ sep ∷ r) ≡ x
unfolding before
before_first sep [] r h = ground arith
before_first sep (c ∷ x) r h = ground (arith, before_first sep x r h.1)

after_first : (sep : ℕ) (x r : Bytes) → Lacks sep x → after sep (x ++ sep ∷ r) ≡ r
unfolding after
after_first sep [] r h = ground arith
after_first sep (c ∷ x) r h = ground (arith, after_first sep x r h.1)

Lacks-ampersand : (x : Bytes) → All IsFormByte x → Lacks b'&' x
Lacks-ampersand [] h = tt
Lacks-ampersand (c ∷ r) h = (h.0.0, Lacks-ampersand r h.1)

Lacks-equals : (x : Bytes) → All IsFormByte x → Lacks b'=' x
Lacks-equals [] h = tt
Lacks-equals (c ∷ r) h = (h.0.1, Lacks-equals r h.1)

-- A row of bytes.
abbrev pub IsRow : Bytes × Bytes → Type 0
IsRow pair = All IsByte pair.0 × All IsByte pair.1

module _ (pair : Bytes × Bytes) (h : IsRow pair) where
  component-Lacks : (v : Bytes) → All IsByte v → Lacks b'&' (quote_form_component v)
  unfolding quote_form_component
  component-Lacks v b = Lacks-ampersand _ (quote-IsFormByte v b)

  encode_pair-Lacks : Lacks b'&' (encode_pair pair)
  unfolding encode_pair
  encode_pair-Lacks =
      All-append _ (quote_form_component pair.0) _ (component-Lacks pair.0 h.0)
        ((λ e. omega arith), component-Lacks pair.1 h.1)

  decode_row-encode_pair : decode_row (encode_pair pair) ≡ pair
  unfolding encode_pair
  decode_row-encode_pair =
      let name = quote_form_component pair.0 in
      let value = quote_form_component pair.1 in
      let clean : Lacks b'=' name =
        unfold quote_form_component in Lacks-equals _ (quote-IsFormByte pair.0 h.0) in
      unfold decode_row in
      rw (
        before_first b'=' name value clean,
        after_first b'=' name value clean,
        decode_form-quote_form_component pair.0 h.0,
        decode_form-quote_form_component pair.1 h.1,
      )

decode_rest :
    (pair : Bytes × Bytes) (pairs : List (Bytes × Bytes))
    → IsRow pair
    → All IsRow pairs
    → decode_query (encode_pair pair ++ encode_rest pairs) ≡ pair ∷ pairs
unfolding decode_query encode_rest
decode_rest pair [] h hs = rw (
  append-nil (encode_pair pair),
  split_on_last b'&' (encode_pair pair) (encode_pair-Lacks pair h),
  decode_row-encode_pair pair h,
)
decode_rest pair (next ∷ pairs) h hs =
    rw
      (
        split_on_first b'&' (encode_pair pair) _ (encode_pair-Lacks pair h),
        decode_row-encode_pair pair h,
      )
      (ap (◌∷◌ pair) (decode_rest next pairs hs.0 hs.1))

-- Every list of at least one row of bytes is read back from its encoding, in order.
pub decode_query-encode_query_pairs :
    (pair : Bytes × Bytes) (pairs : List (Bytes × Bytes))
    → IsRow pair
    → All IsRow pairs
    → decode_query (encode_query_pairs (pair ∷ pairs)) ≡ pair ∷ pairs
unfolding encode_query_pairs
decode_query-encode_query_pairs pair pairs h hs = decode_rest pair pairs h hs
