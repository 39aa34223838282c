-- ===== src/Heads.antt =====
-- Response heads of crates/requests/src/transport/mod.rs: what `parsed_response_head` makes of the lengths
-- that a head declares. The parser of heads, httparse, is a parameter; so is lossy UTF-8.
pub mod Capture
pub mod Delivery
pub mod Digits
mod Examples
pub mod Framing
pub mod Inspection
pub mod Invariant
pub mod Io
pub mod Lengths
pub mod Observation
pub mod Polls
pub mod Request
pub mod Sending
pub mod Settled
pub mod Stream
pub mod Withheld
pub mod Writing
use requests_native.Prelude.{
  ℕ, zero, suc, ◌+◌, ◌-◌, ◌*◌, ◌/◌, ◌%◌, ◌^◌, ◌≤◌, ◌<◌, min, ◌≡◌, refl, sym, ap, ap₂, ◌∙◌, ◌≢◌, ◌↔◌,
  ◌⊎◌, inl, inr, Bool, true, false, not, ◌&&◌, ◌||◌, Option, none, some, List, [], ◌∷◌, ◌++◌, map,
  append_assoc, append-nil, arith, ltb, leb, ◌==◌, if◌then◌else◌, ltb→lt, lt→ltb, leb→le, le→leb,
  ==_iff, Bool-cases, Option-cases, length, take, drop, length-append, take-append-drop, any, all,
  All, All-append, Bytes, IsByte, codes, bytes_eq, bytes_eq_iff, contains_byte, is_ascii_digit,
  is_ascii_uppercase, is_ascii_lowercase, is_ascii_alphanumeric, is_ascii_hexdigit,
  to_ascii_uppercase, to_ascii_lowercase, Result, ok, err, ◌>>=◌, ok_or,
}
use requests_native.Client.{eq_ignore_ascii_case}

-- What `httparse::Response::parse` gives for a complete head.
pub record Head : Type 0 where
  pub consumed : ℕ
  pub status : ℕ
  pub headers : List (Bytes × Bytes)

-- `unchanged` is the `None` of the source.
pub data ContentLengthNormalization : Type 0 where
  unchanged ignore overflow : ContentLengthNormalization

pub record ParsedResponseHead : Type 0 where
  pub consumed : ℕ
  pub status : ℕ
  pub content_length_normalization : ContentLengthNormalization
  pub conflicting_content_length : Option Bytes
  pub raw_headers : List (Bytes × Bytes)

-- `u8::is_ascii_whitespace`.
abbrev pub is_ascii_whitespace : ℕ → Bool
is_ascii_whitespace b = b == 32 || b == 9 || b == 10 || b == 12 || b == 13

unfoldable pub trim_start : Bytes → Bytes
trim_start [] = []
trim_start (b ∷ bs) = let rest = trim_start bs in if is_ascii_whitespace b then rest else b ∷ bs

abbrev pub is_empty : Bytes → Bool
is_empty [] = true
is_empty (b ∷ bs) = false

unfoldable pub trim_end : Bytes → Bytes
trim_end [] = []
trim_end (b ∷ bs) =
    let rest = trim_end bs in if is_empty rest && is_ascii_whitespace b then [] else b ∷ rest

unfoldable pub trim_ascii : Bytes → Bytes
unfolding trim_start trim_end
trim_ascii bytes = trim_end (trim_start bytes)

-- All zeroes in front go, but for the last byte.
unfoldable pub trim_leading_ascii_zeroes : Bytes → Bytes
trim_leading_ascii_zeroes [] = []
trim_leading_ascii_zeroes (b ∷ []) = b ∷ []
trim_leading_ascii_zeroes (b ∷ c ∷ bs) =
    let rest = trim_leading_ascii_zeroes (c ∷ bs) in if b == b'0' then rest else b ∷ c ∷ bs

abbrev pub to_first : ℕ → List Bytes → List Bytes
to_first b [] = (b ∷ []) ∷ []
to_first b (part ∷ parts) = (b ∷ part) ∷ parts

-- `split` at a comma.
unfoldable pub split_commas : Bytes → List Bytes
split_commas [] = [] ∷ []
split_commas (b ∷ bs) =
    let rest = split_commas bs in if b == b',' then [] ∷ rest else to_first b rest

-- A number in decimal digits, behind a number.
unfoldable pub value_from : ℕ → Bytes → ℕ
value_from acc [] = acc
value_from acc (b ∷ bs) = value_from (acc * 10 + (b - b'0')) bs

abbrev pub is_number : Bytes → Bool
is_number token = not (is_empty token) && all is_ascii_digit token

-- `parse::<u64>` of digits fails where the number does not fit.
unfoldable pub fails_u64 : Bytes → Bool
unfolding value_from
fails_u64 digits = leb (2 ^ 64) (value_from 0 digits)

-- What the loop over the headers has found.
pub record Scan : Type 0 where
  pub content_lengths : List Bytes
  pub content_length_values : List Bytes
  pub invalid_content_length : Bool
  pub overflowing_content_length : Bool
  pub chunked : Bool

unfoldable pub scan_token : Scan → Bytes → Scan
unfolding trim_ascii trim_leading_ascii_zeroes fails_u64 is_ascii_digit
scan_token s part =
    let token = trim_ascii part in
    let canonical = trim_leading_ascii_zeroes token in
    if is_number token
    then record s {
      overflowing_content_length = s.overflowing_content_length || fails_u64 canonical;
      content_lengths = s.content_lengths ++ canonical ∷ [];
    }
    else record s { invalid_content_length = true }

unfoldable pub scan_tokens : Scan → List Bytes → Scan
unfolding scan_token
scan_tokens s [] = s
scan_tokens s (part ∷ parts) = scan_tokens (scan_token s part) parts

unfoldable pub is_content_length : Bytes → Bool
unfolding eq_ignore_ascii_case
is_content_length name = eq_ignore_ascii_case name (codes "content-length")

unfoldable pub is_transfer_encoding : Bytes → Bool
unfolding eq_ignore_ascii_case
is_transfer_encoding name = eq_ignore_ascii_case name (codes "transfer-encoding")

unfoldable pub is_chunked : Bytes → Bool
unfolding eq_ignore_ascii_case trim_ascii
is_chunked coding = eq_ignore_ascii_case (trim_ascii coding) (codes "chunked")

module _ (lossy : Bytes → Bytes) where
  unfoldable pub scan_header : Scan → Bytes × Bytes → Scan
  unfolding scan_tokens split_commas
  scan_header s (name, value) =
      if is_content_length name
      then scan_tokens
          (record s { content_length_values = s.content_length_values ++ lossy value ∷ [] })
          (split_commas value)
      else if is_transfer_encoding name
      then record s { chunked = s.chunked || any is_chunked (split_commas value) }
      else s

  unfoldable pub scan_headers : Scan → List (Bytes × Bytes) → Scan
  unfolding scan_header
  scan_headers s [] = s
  scan_headers s (header ∷ headers) = scan_headers (scan_header s header) headers

abbrev pub no_scan : Scan
no_scan = record {
  content_lengths = [];
  content_length_values = [];
  invalid_content_length = false;
  overflowing_content_length = false;
  chunked = false;
}

-- Whether a length differs from the first.
unfoldable pub has_other : List Bytes → Bool
unfolding bytes_eq
has_other [] = false
has_other (first ∷ rest) = any (λ value. not (bytes_eq value first)) (first ∷ rest)

abbrev pub join : List Bytes → Bytes
join [] = []
join (value ∷ []) = value
join (value ∷ more ∷ values) = value ++ codes ", " ++ join (more ∷ values)

unfoldable pub conflict_message : List Bytes → Bytes
conflict_message values =
    codes "Content-Length contained multiple unmatching values (" ++ join values ++ codes ")"

unfoldable pub is_conflicting : Scan → Bool
unfolding has_other
is_conflicting s = not s.invalid_content_length && not s.chunked && has_other s.content_lengths

unfoldable pub normalization : Scan → ContentLengthNormalization
unfolding is_conflicting
normalization s =
    if s.invalid_content_length
    then ignore
    else if s.overflowing_content_length && not (is_conflicting s)
    then if s.chunked then ignore else overflow
    else unchanged

-- What is made of a head that is complete.
unfoldable pub parsed_head : (Bytes → Bytes) → Head → ParsedResponseHead
unfolding scan_headers is_conflicting conflict_message normalization
parsed_head lossy head =
    let s = scan_headers lossy no_scan head.headers in
    record {
      consumed = head.consumed;
      status = head.status;
      content_length_normalization = normalization s;
      conflicting_content_length =
          if is_conflicting s then some (conflict_message s.content_length_values) else none;
      raw_headers = head.headers;
    }

unfoldable pub parsed_response_head :
    (Bytes → Option Head) → (Bytes → Bytes) → Bytes → Option ParsedResponseHead
unfolding parsed_head
parsed_response_head parse lossy bytes = elim (parse bytes) [
  | none ↦ none
  | some head ↦ some (parsed_head lossy head)
]
