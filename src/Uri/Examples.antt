-- ===== src/Uri/Examples.antt =====
-- The theorems on texts at concrete texts.
use requests_native.Prelude.{
  ◌<◌, ◌≡◌, refl, ◌≢◌, false, none, [], ◌∷◌, arith, length, All, Bytes, IsByte, is_ascii_digit,
  is_ascii_uppercase, is_ascii_lowercase, is_ascii_alphanumeric, is_ascii_hexdigit,
}
use requests_native.Uri.{
  normalize_percent_escape_hex, escape_value, unquote_unreserved, requote_uri, encode_query_pairs,
  has_incomplete_percent_escape,
}
use requests_native.Uri.Escapes.{percent_decode}
use requests_native.Uri.Requote.{requote_uri_idem}
use requests_native.Uri.Decoding.{requote_uri_decode, requote_uri_invalid, requote_uri_non_ascii}
use requests_native.Uri.Query.{decode_query, decode_query-encode_query_pairs}
use requests_native.Uri.Normalize.{normalize_percent_escape_hex_lem}

-- `/a%41`.
abbrev escaped : Bytes
escaped = 47 ∷ 97 ∷ 37 ∷ 52 ∷ 49 ∷ []

escaped_complete : has_incomplete_percent_escape escaped ≡ false
unfolding has_incomplete_percent_escape is_ascii_hexdigit is_ascii_digit
escaped_complete = refl

escaped_ascii : All (λ c. c < 128) escaped
escaped_ascii = ground arith

escaped_bytes : All IsByte escaped
escaped_bytes = ground arith

requote_uri_idem_test : requote_uri (requote_uri escaped) ≡ requote_uri escaped
requote_uri_idem_test = requote_uri_idem escaped escaped_bytes escaped_complete

requote_uri_decode_example : percent_decode (requote_uri escaped) ≡ percent_decode escaped
requote_uri_decode_example = requote_uri_decode escaped escaped_ascii escaped_complete

-- `%zz`.
abbrev broken : Bytes
broken = 37 ∷ 122 ∷ 122 ∷ []

broken_bytes : All IsByte broken
broken_bytes = ground arith

broken_escape : unquote_unreserved broken ≡ none
unfolding unquote_unreserved is_ascii_alphanumeric is_ascii_digit is_ascii_uppercase
    is_ascii_lowercase escape_value
broken_escape = refl

requote_uri_invalid_test : percent_decode (requote_uri broken) ≡ broken
requote_uri_invalid_test = requote_uri_invalid broken broken_bytes broken_escape

-- The UTF-8 of `é`.
abbrev accented : Bytes
accented = 195 ∷ 169 ∷ []

requote_uri_non_ascii_example : percent_decode (requote_uri accented) ≢ accented
requote_uri_non_ascii_example = requote_uri_non_ascii accented (ground arith) refl

normalize_percent_escape_hex_lem_test :
    (length (normalize_percent_escape_hex escaped) ≡ 5)
    × (normalize_percent_escape_hex (normalize_percent_escape_hex escaped)
        ≡ normalize_percent_escape_hex escaped)
    × (percent_decode (normalize_percent_escape_hex escaped) ≡ percent_decode escaped)
normalize_percent_escape_hex_lem_test = normalize_percent_escape_hex_lem escaped escaped_ascii

decode_query-encode_query_pairs_example :
    decode_query (encode_query_pairs ((accented, escaped) ∷ [])) ≡ (accented, escaped) ∷ []
decode_query-encode_query_pairs_example =
    decode_query-encode_query_pairs (accented, escaped) [] (ground arith, escaped_bytes) tt
