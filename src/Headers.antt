-- ===== src/Headers.antt =====
-- Header validation of crates/requests/src/utils.rs. A text is the list of its characters.
mod Validation
mod Examples
use requests_native.Prelude.{
  ℕ, zero, suc, ◌+◌, ◌-◌, ◌*◌, ◌/◌, ◌%◌, ◌^◌, ◌≤◌, ◌<◌, min, ◌≡◌, refl, sym, ap, ap₂, ◌∙◌, ◌≢◌, ◌↔◌,
  ◌⊎◌, inl, inr, Bool, true, false, not, ◌&&◌, ◌||◌, Option, none, some, List, [], ◌∷◌, ◌++◌, map,
  append_assoc, append-nil, arith, ltb, leb, ◌==◌, if◌then◌else◌, ltb→lt, lt→ltb, leb→le, le→leb,
  ==_iff, Bool-cases, Option-cases, length, take, drop, length-append, take-append-drop, any, all,
  All, All-append, Bytes, IsByte, codes, bytes_eq, bytes_eq_iff, contains_byte, is_ascii_digit,
  is_ascii_uppercase, is_ascii_lowercase, is_ascii_alphanumeric, is_ascii_hexdigit,
  to_ascii_uppercase, to_ascii_lowercase, Result, ok, err, ◌>>=◌, ok_or,
}

pub data HeaderValidationError : Type 0 where
  invalid_name invalid_value : HeaderValidationError

-- `char::is_whitespace`.
unfoldable pub is_whitespace : ℕ → Bool
is_whitespace c =
    (leb 9 c && leb c 13)
    || c == 32
    || c == 133
    || c == 160
    || c == 5760
    || (leb 8192 c && leb c 8202)
    || c == 8232
    || c == 8233
    || c == 8239
    || c == 8287
    || c == 12288

unfoldable pub is_python_whitespace : ℕ → Bool
unfolding is_whitespace
is_python_whitespace c = is_whitespace c || (leb 28 c && leb c 31)

-- `matches!(ch, ':' | '\r' | '\n')` and `matches!(ch, '\r' | '\n')`.
abbrev pub is_name_separator : ℕ → Bool
is_name_separator c = c == 58 || c == 13 || c == 10

abbrev pub is_return : ℕ → Bool
is_return c = c == 13 || c == 10

unfoldable pub validate_header_name : List ℕ → Result HeaderValidationError (Unit {0})
unfolding is_python_whitespace
validate_header_name [] = err invalid_name
validate_header_name (first ∷ chars) =
    if first == 58 || is_python_whitespace first || any is_name_separator chars
    then err invalid_name
    else ok tt

unfoldable pub validate_header_value : List ℕ → Result HeaderValidationError (Unit {0})
unfolding is_python_whitespace
validate_header_value [] = ok tt
validate_header_value (first ∷ chars) =
    if is_python_whitespace first || first == 13 || first == 10
    then err invalid_value
    else if any is_return chars
    then err invalid_value
    else ok tt

unfoldable pub validate_header : List ℕ → List ℕ → Result HeaderValidationError (Unit {0})
unfolding validate_header_name validate_header_value
validate_header name value = do u ← validate_header_name name; validate_header_value value

-- `u8::is_ascii_whitespace`.
unfoldable pub is_ascii_whitespace : ℕ → Bool
is_ascii_whitespace b = b == 32 || b == 9 || b == 10 || b == 12 || b == 13

unfoldable pub is_python_bytes_whitespace : ℕ → Bool
unfolding is_ascii_whitespace
is_python_bytes_whitespace b = is_ascii_whitespace b || b == 11

unfoldable pub has_return : Bytes → Bool
unfolding contains_byte
has_return value = contains_byte 13 value || contains_byte 10 value

unfoldable pub validate_header_name_bytes : Bytes → Result HeaderValidationError (Unit {0})
unfolding is_python_bytes_whitespace contains_byte has_return
validate_header_name_bytes [] = err invalid_name
validate_header_name_bytes (first ∷ rest) =
    if first == 58 || is_python_bytes_whitespace first || contains_byte 58 rest || has_return rest
    then err invalid_name
    else ok tt

unfoldable pub validate_header_value_bytes : Bytes → Result HeaderValidationError (Unit {0})
unfolding is_python_bytes_whitespace has_return
validate_header_value_bytes [] = ok tt
validate_header_value_bytes (first ∷ rest) =
    if is_python_bytes_whitespace first || has_return rest then err invalid_value else ok tt

unfoldable pub validate_header_bytes : Bytes → Bytes → Result HeaderValidationError (Unit {0})
unfolding validate_header_name_bytes validate_header_value_bytes
validate_header_bytes name value = do
  u ← validate_header_name_bytes name
  validate_header_value_bytes value

-- `trim_start_matches` by `is_python_whitespace`.
pub trim_python_whitespace_start : List ℕ → List ℕ
unfolding is_python_whitespace
trim_python_whitespace_start [] = []
trim_python_whitespace_start (c ∷ r) =
    if is_python_whitespace c then trim_python_whitespace_start r else c ∷ r

pub unicode_is_ascii : List ℕ → Bool
unicode_is_ascii = all (λ c. ltb c 128)
