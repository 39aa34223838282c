-- ===== src/Prepare.antt =====
-- The preparation of header names in crates/requests/src/models.rs, over the ordered map of
-- crates/requests/src/structures.rs. Lossy UTF-8 is a parameter.
mod Examples
pub mod Names
use requests_native.Prelude.{
  ℕ, zero, suc, ◌+◌, ◌-◌, ◌*◌, ◌/◌, ◌%◌, ◌^◌, ◌≤◌, ◌<◌, min, ◌≡◌, refl, sym, ap, ap₂, ◌∙◌, ◌≢◌, ◌↔◌,
  ◌⊎◌, inl, inr, Bool, true, false, not, ◌&&◌, ◌||◌, Option, none, some, List, [], ◌∷◌, ◌++◌, map,
  append_assoc, append-nil, arith, ltb, leb, ◌==◌, if◌then◌else◌, ltb→lt, lt→ltb, leb→le, le→leb,
  ==_iff, Bool-cases, Option-cases, length, take, drop, length-append, take-append-drop, any, all,
  All, All-append, Bytes, IsByte, codes, bytes_eq, bytes_eq_iff, contains_byte, is_ascii_digit,
  is_ascii_uppercase, is_ascii_lowercase, is_ascii_alphanumeric, is_ascii_hexdigit,
  to_ascii_uppercase, to_ascii_lowercase, Result, ok, err, ◌>>=◌, ok_or,
}
use requests_native.Headers.{
  HeaderValidationError, validate_header_name, validate_header_value, validate_header_name_bytes,
  validate_header_value_bytes,
}
use requests_native.Structures.{Text, IndexMap, CaseInsensitiveMap, new, insert, iter}

pub data HeaderPart : Type 0 where
  text : Text → HeaderPart
  bytes : Bytes → HeaderPart

pub record HeaderInput : Type 0 where
  pub name : HeaderPart
  pub value : HeaderPart

pub record PreparedHeader : Type 0 where
  pub source_index : ℕ
  pub name : Text

pub data InvalidHeaderPart : Type 0 where
  name_part value_part : InvalidHeaderPart

pub record HeaderPreparationError : Type 0 where
  pub prepared : List PreparedHeader
  pub source_index : ℕ
  pub part : InvalidHeaderPart

unfoldable pub validate_name : HeaderPart → Result HeaderValidationError (Unit {0})
unfolding validate_header_name validate_header_name_bytes
validate_name (text name) = validate_header_name name
validate_name (bytes name) = validate_header_name_bytes name

unfoldable pub validate_value : HeaderPart → Result HeaderValidationError (Unit {0})
unfolding validate_header_value validate_header_value_bytes
validate_value (text value) = validate_header_value value
validate_value (bytes value) = validate_header_value_bytes value

abbrev pub to_prepared : Text × ℕ → PreparedHeader
to_prepared (name, source_index) = record { source_index = source_index; name = name }

module _ (lossy : Bytes → Text) where
  unfoldable pub name_of : HeaderInput → Text
  name_of header = elim header.name [ text name ↦ name | bytes name ↦ lossy name ]

  -- `to_ascii_lowercase`.
  unfoldable pub key_of : HeaderInput → Text
  unfolding name_of to_ascii_lowercase
  key_of header = map to_ascii_lowercase (name_of header)

module _ (map_of : IndexMap (Text × ℕ)) where
  unfoldable pub prepared_headers : CaseInsensitiveMap map_of → List PreparedHeader
  unfolding iter
  prepared_headers prepared = map to_prepared (iter map_of prepared)

  abbrev header_error : CaseInsensitiveMap map_of → ℕ → InvalidHeaderPart → HeaderPreparationError
  header_error prepared source_index part = record {
    prepared = prepared_headers prepared;
    source_index = source_index;
    part = part;
  }

module _ (lossy : Bytes → Text) (map_of : IndexMap (Text × ℕ)) where
  -- The loop over the headers from a position on.
  unfoldable pub prepare_from :
      ℕ
      → CaseInsensitiveMap map_of
      → List HeaderInput
      → Result HeaderPreparationError (List PreparedHeader)
  unfolding validate_name validate_value key_of name_of insert prepared_headers
  prepare_from source_index prepared [] = ok (prepared_headers map_of prepared)
  prepare_from source_index prepared (header ∷ headers) =
      let more =
        (insert map_of prepared (key_of lossy header) (name_of lossy header) source_index).0 in
      let rest = prepare_from (source_index + 1) more headers in
      elim (validate_name header.name) [
        | err e ↦ err (header_error map_of prepared source_index name_part)
        | ok u ↦ elim (validate_value header.value) [
          | err e ↦ err (header_error map_of prepared source_index value_part)
          | ok v ↦ rest
        ]
      ]

  unfoldable pub prepare_headers :
      List HeaderInput → Result HeaderPreparationError (List PreparedHeader)
  unfolding prepare_from
  prepare_headers headers = prepare_from 0 (new map_of) headers
