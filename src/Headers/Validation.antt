-- ===== src/Headers/Validation.antt =====
-- Which headers crates/requests/src/utils.rs accepts.
use requests_native.Prelude.{
  ℕ, ◌<◌, ◌≡◌, refl, ◌≢◌, ◌↔◌, ◌⊎◌, false, ◌||◌, List, [], ◌∷◌, arith, any, All, contains_byte, ok,
}
use requests_native.Headers.{
  is_whitespace, is_python_whitespace, is_name_separator, is_return, validate_header_name,
  validate_header_value, validate_header, is_ascii_whitespace, is_python_bytes_whitespace,
  has_return, validate_header_name_bytes, validate_header_value_bytes, validate_header_bytes,
}

-- No colon and no line break.
abbrev pub IsNameChar : ℕ → Type 0
IsNameChar c = (c ≢ 58) × (c ≢ 13) × (c ≢ 10)

abbrev pub IsValueChar : ℕ → Type 0
IsValueChar c = (c ≢ 13) × (c ≢ 10)

-- A text that does not start with whitespace.
abbrev pub IsUnspaced : List ℕ → Type 0
IsUnspaced [] = Unit
IsUnspaced (c ∷ r) = is_python_whitespace c ≡ false

any-IsNameChar : (s : List ℕ) → (any is_name_separator s ≡ false) ↔ All IsNameChar s
any-IsNameChar [] = ((λ h. tt), (λ h. refl))
any-IsNameChar (c ∷ r) = ground (arith, any-IsNameChar r)

any-IsValueChar : (s : List ℕ) → (any is_return s ≡ false) ↔ All IsValueChar s
any-IsValueChar [] = ((λ h. tt), (λ h. refl))
any-IsValueChar (c ∷ r) = ground (arith, any-IsValueChar r)

-- Line breaks are whitespace.
is_python_whitespace_return : (c : ℕ) → is_python_whitespace c ≡ false → IsValueChar c
unfolding is_python_whitespace is_whitespace
is_python_whitespace_return c h = ground arith

validate_header_name_iff :
    (name : List ℕ)
    → (validate_header_name name ≡ ok tt) ↔ ((name ≢ []) × IsUnspaced name × All IsNameChar name)
unfolding validate_header_name
validate_header_name_iff [] = ground arith
validate_header_name_iff (c ∷ r) = ground (arith, any-IsNameChar r, is_python_whitespace_return c)

validate_header_value_iff :
    (value : List ℕ)
    → (validate_header_value value ≡ ok tt) ↔ (IsUnspaced value × All IsValueChar value)
unfolding validate_header_value
validate_header_value_iff [] = ground arith
validate_header_value_iff (c ∷ r) = ground (arith, any-IsValueChar r, is_python_whitespace_return c)

-- A header is accepted exactly when its name is not empty and holds neither a colon nor a line break,
-- its value holds no line break, and neither starts with whitespace.
pub validate_header_iff :
    (name value : List ℕ)
    → (validate_header name value ≡ ok tt) ↔ (
        ((name ≢ []) × IsUnspaced name × All IsNameChar name)
        × IsUnspaced value
        × All IsValueChar value)
unfolding validate_header
validate_header_iff name value =
    ground (arith, validate_header_name_iff name, validate_header_value_iff value)

-- ASCII text that does not start with one of the separators 28 to 31.
abbrev pub IsPlainAscii : List ℕ → Type 0
IsPlainAscii [] = Unit
IsPlainAscii (c ∷ r) = ((c < 28) ⊎ (31 < c)) × All (λ d. d < 128) (c ∷ r)

ascii_whitespace :
    (c : ℕ) → (c < 28) ⊎ (31 < c) → c < 128 → is_python_bytes_whitespace c ≡ is_python_whitespace c
unfolding is_python_bytes_whitespace is_ascii_whitespace is_python_whitespace is_whitespace
ascii_whitespace c h k = ground arith

has_return-any : (s : List ℕ) → has_return s ≡ any is_return s
unfolding has_return contains_byte
has_return-any [] = refl
has_return-any (c ∷ r) = ground (arith, has_return-any r)

contains_byte-any : (s : List ℕ) → (contains_byte 58 s || has_return s) ≡ any is_name_separator s
unfolding has_return contains_byte
contains_byte-any [] = refl
contains_byte-any (c ∷ r) = ground (arith, contains_byte-any r)

name_bytes :
    (name : List ℕ)
    → IsPlainAscii name
    → validate_header_name_bytes name ≡ validate_header_name name
unfolding validate_header_name_bytes validate_header_name
name_bytes [] h = refl
name_bytes (c ∷ r) h = ground (arith, contains_byte-any r, ascii_whitespace c h.0 h.1.0)

value_bytes :
    (value : List ℕ)
    → IsPlainAscii value
    → validate_header_value_bytes value ≡ validate_header_value value
unfolding validate_header_value_bytes validate_header_value
value_bytes [] h = refl
value_bytes (c ∷ r) h =
    ground (arith, has_return-any r, ascii_whitespace c h.0 h.1.0, is_python_whitespace_return c)

-- Text and bytes are accepted and refused alike, with the same error, where the header is ASCII and
-- neither its name nor its value starts with one of the separators 28 to 31.
pub validate_header_bytes-validate_header :
    (name value : List ℕ)
    → IsPlainAscii name
    → IsPlainAscii value
    → validate_header_bytes name value ≡ validate_header name value
unfolding validate_header_bytes validate_header
validate_header_bytes-validate_header name value h k = rw (name_bytes name h, value_bytes value k)
