-- ===== src/Uri.antt =====
-- Percent-encoding of crates/requests/src/utils.rs, over the UTF-8 bytes of the strings. A `String`
-- that the source builds from single bytes is built by `push_byte`, since `char::from` reads a byte
-- as a Latin-1 character, which takes two bytes of UTF-8 from 128 on.
pub mod Escapes
pub mod Requote
pub mod Decoding
pub mod Query
pub mod Normalize
mod Examples
use requests_native.Prelude.{
  ℕ, ◌+◌, ◌-◌, ◌*◌, ◌/◌, ◌%◌, Bool, true, false, ◌&&◌, ◌||◌, Option, none, some, List, [], ◌∷◌,
  ◌++◌, Bytes, codes, leb, ◌==◌, if◌then◌else◌, contains_byte, is_ascii_digit,
  is_ascii_alphanumeric, is_ascii_hexdigit, to_ascii_uppercase, ltb,
}

-- `output.push(char::from(byte))`.
pub push_byte : ℕ → Bytes
push_byte b = if ltb b 128 then b ∷ [] else (192 + b / 64) ∷ (128 + b % 64) ∷ []

-- The unreserved punctuation `-`, `.`, `_`, `~`.
pub is_unreserved_mark : ℕ → Bool
is_unreserved_mark b = b == b'-' || b == b'.' || b == b'_' || b == b'~'

pub is_unreserved : ℕ → Bool
unfolding is_unreserved_mark is_ascii_alphanumeric is_ascii_digit
is_unreserved b = is_ascii_alphanumeric b || is_unreserved_mark b

unfoldable pub hex_value : ℕ → Option ℕ
hex_value b =
    if leb b'0' b && leb b b'9'
    then some (b - b'0')
    else if leb b'a' b && leb b b'f'
    then some (b - b'a' + 10)
    else if leb b'A' b && leb b b'F'
    then some (b - b'A' + 10)
    else none

-- `HEX[n]`.
pub hex_digit : ℕ → ℕ
hex_digit n = if ltb n 10 then b'0' + n else b'A' + (n - 10)

-- One round of `quote_bytes`.
pub quote_byte : Bytes → Bool → ℕ → Bytes
quote_byte safe plus_for_space b =
    if is_unreserved b || contains_byte b safe
    then b ∷ []
    else if plus_for_space && b == b' '
    then b'+' ∷ []
    else b'%' ∷ hex_digit (b / 16) ∷ hex_digit (b % 16) ∷ []

pub quote_bytes : Bytes → Bytes → Bool → Bytes
quote_bytes [] safe plus_for_space = []
quote_bytes (b ∷ bs) safe plus_for_space =
    quote_byte safe plus_for_space b ++ quote_bytes bs safe plus_for_space

-- The escape `%` followed by two bytes, where `is_ascii_hexdigit` accepts both.
unfoldable pub is_escape : ℕ → ℕ → ℕ → Bool
is_escape c a b = c == b'%' && is_ascii_hexdigit a && is_ascii_hexdigit b

pub normalize_percent_escape_hex : Bytes → Bytes
normalize_percent_escape_hex [] = []
normalize_percent_escape_hex (c ∷ []) = push_byte c
normalize_percent_escape_hex (c ∷ a ∷ []) = push_byte c ++ push_byte a
normalize_percent_escape_hex (c ∷ a ∷ b ∷ rest) = elim (is_escape c a b) [
  | true ↦ b'%' ∷ to_ascii_uppercase a ∷ to_ascii_uppercase b ∷ normalize_percent_escape_hex rest
  | false ↦ push_byte c ++ normalize_percent_escape_hex (a ∷ b ∷ rest)
]

-- `hex_value(high).and_then(|high| hex_value(low).map(|low| high * 16 + low))`.
pub escape_value : ℕ → ℕ → Option ℕ
unfolding hex_value
escape_value a b = elim (hex_value a) [
  | none ↦ none
  | some high ↦ elim (hex_value b) [ none ↦ none | some low ↦ some (high * 16 + low) ]
]

-- What an escape leaves: its byte where that is unreserved, and the escape itself otherwise.
pub keep_escape : ℕ → ℕ → ℕ → Bytes
keep_escape a b value = if is_unreserved value then value ∷ [] else b'%' ∷ a ∷ b ∷ []

-- The output so far is dropped with the error, so a round puts its bytes before the rest's.
pub prepend : Bytes → Option Bytes → Option Bytes
prepend out none = none
prepend out (some rest) = some (out ++ rest)

-- `none` is `Err(())`: two letters or digits behind `%` that are no hexadecimal number.
pub unquote_unreserved : Bytes → Option Bytes
unfolding prepend
unquote_unreserved [] = some []
unquote_unreserved (c ∷ []) = prepend (push_byte c) (some [])
unquote_unreserved (c ∷ a ∷ []) = prepend (push_byte c) (prepend (push_byte a) (some []))
unquote_unreserved (c ∷ a ∷ b ∷ rest) = elim (c == b'%') [
  | false ↦ prepend (push_byte c) (unquote_unreserved (a ∷ b ∷ rest))
  | true ↦ elim (is_ascii_alphanumeric a && is_ascii_alphanumeric b) [
    | false ↦ prepend (b'%' ∷ []) (unquote_unreserved (a ∷ b ∷ rest))
    | true ↦ elim (escape_value a b) [
      | none ↦ none
      | some value ↦ prepend (keep_escape a b value) (unquote_unreserved rest)
    ]
  ]
]

abbrev pub safe_with_percent : Bytes
safe_with_percent = codes "!#$%&'()*+,/:;=?@[]~"

abbrev pub safe_without_percent : Bytes
safe_without_percent = codes "!#$&'()*+,/:;=?@[]~"

pub requote_uri : Bytes → Bytes
requote_uri uri = elim (unquote_unreserved uri) [
  | some unquoted ↦ quote_bytes unquoted safe_with_percent false
  | none ↦ quote_bytes uri safe_without_percent false
]

pub quote_form_component : Bytes → Bytes
quote_form_component value = quote_bytes value [] true

-- `name=value` of one row.
pub encode_pair : Bytes × Bytes → Bytes
encode_pair (name, value) = quote_form_component name ++ b'=' ∷ quote_form_component value

-- The rows behind the first are each led by `&`.
pub encode_rest : List (Bytes × Bytes) → Bytes
encode_rest [] = []
encode_rest (pair ∷ pairs) = b'&' ∷ encode_pair pair ++ encode_rest pairs

pub encode_query_pairs : List (Bytes × Bytes) → Bytes
unfolding encode_pair encode_rest
encode_query_pairs [] = []
encode_query_pairs (pair ∷ pairs) = encode_pair pair ++ encode_rest pairs

-- crates/requests/src/models.rs: an escape of a URL that is cut short or not hexadecimal.
unfoldable pub has_incomplete_percent_escape : Bytes → Bool
has_incomplete_percent_escape [] = false
has_incomplete_percent_escape (c ∷ []) = c == b'%'
has_incomplete_percent_escape (c ∷ a ∷ []) = c == b'%' || a == b'%'
has_incomplete_percent_escape (c ∷ a ∷ b ∷ rest) = elim (c == b'%') [
  | false ↦ has_incomplete_percent_escape (a ∷ b ∷ rest)
  | true ↦ elim (is_ascii_hexdigit a && is_ascii_hexdigit b) [
    | false ↦ true
    | true ↦ has_incomplete_percent_escape rest
  ]
]
