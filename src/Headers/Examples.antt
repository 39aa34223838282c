-- ===== src/Headers/Examples.antt =====
-- The theorems on headers at a concrete header.
use requests_native.Prelude.{ℕ, ◌≡◌, ◌≢◌, ◌↔◌, List, [], ◌∷◌, arith, All, ok}
use requests_native.Headers.{validate_header, validate_header_bytes}
use requests_native.Headers.Validation.{
  IsNameChar, IsValueChar, IsUnspaced, validate_header_iff, validate_header_bytes-validate_header,
}

-- `A: b c`.
abbrev a_name : List ℕ
a_name = 65 ∷ []

abbrev spaced_value : List ℕ
spaced_value = 98 ∷ 32 ∷ 99 ∷ []

validate_header_iff_example : (validate_header a_name spaced_value ≡ ok tt) ↔ (
    ((a_name ≢ []) × IsUnspaced a_name × All IsNameChar a_name)
    × IsUnspaced spaced_value
    × All IsValueChar spaced_value)
validate_header_iff_example = validate_header_iff a_name spaced_value

validate_header_bytes-validate_header_test :
    validate_header_bytes (65 ∷ []) (98 ∷ 13 ∷ []) ≡ validate_header (65 ∷ []) (98 ∷ 13 ∷ [])
validate_header_bytes-validate_header_test =
    validate_header_bytes-validate_header (65 ∷ []) (98 ∷ 13 ∷ []) (ground arith) (ground arith)
