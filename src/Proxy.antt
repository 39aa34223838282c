-- ===== src/Proxy.antt =====
-- Texts of crates/requests/src/transport/proxy.rs. `String::from_utf8` is the parameter `is_utf8`.
pub mod Base64
mod Escapes
pub mod Socks
mod Exchange
mod Examples
use requests_native.Prelude.{
  ℕ, zero, suc, ◌+◌, ◌-◌, ◌*◌, ◌/◌, ◌%◌, ◌^◌, ◌≤◌, ◌<◌, min, ◌≡◌, refl, sym, ap, ap₂, ◌∙◌, ◌≢◌, ◌↔◌,
  ◌⊎◌, inl, inr, Bool, true, false, not, ◌&&◌, ◌||◌, Option, none, some, List, [], ◌∷◌, ◌++◌, map,
  append_assoc, append-nil, arith, ltb, leb, ◌==◌, if◌then◌else◌, ltb→lt, lt→ltb, leb→le, le→leb,
  ==_iff, Bool-cases, Option-cases, length, take, drop, length-append, take-append-drop, any, all,
  All, All-append, Bytes, IsByte, codes, bytes_eq, bytes_eq_iff, contains_byte, is_ascii_digit,
  is_ascii_uppercase, is_ascii_lowercase, is_ascii_alphanumeric, is_ascii_hexdigit,
  to_ascii_uppercase, to_ascii_lowercase, Result, ok, err, ◌>>=◌, ok_or,
}
use requests_native.Client.{Proxy, http, https}

pub needs_tls : Proxy → Bool
needs_tls (https u) = true
needs_tls _ = false

pub uses_absolute_form : Option Proxy → Bool → Bool
uses_absolute_form none target_is_https = false
uses_absolute_form (some (http u)) target_is_https = not target_is_https
uses_absolute_form (some (https u)) target_is_https = not target_is_https
uses_absolute_form (some proxy) target_is_https = false

-- `none` is the error for more than 255 bytes.
unfoldable pub length_prefixed : Bytes → Option Bytes
length_prefixed value = if ltb (length value) 256 then some (length value ∷ value) else none

-- `hex`.
unfoldable pub hex : ℕ → Option ℕ
hex byte =
    if leb b'0' byte && leb byte b'9'
    then some (byte - b'0')
    else if leb b'a' byte && leb byte b'f'
    then some (byte - b'a' + 10)
    else if leb b'A' byte && leb byte b'F'
    then some (byte - b'A' + 10)
    else none

-- The byte of two digits, before the text that is decoded behind them.
unfoldable pub decoded_pair : Option ℕ → Option ℕ → Option Bytes → Option Bytes
decoded_pair (some high) (some low) (some rest) = some ((high * 16 + low) ∷ rest)
decoded_pair _ _ _ = none

unfoldable pub decoded_byte : ℕ → Option Bytes → Option Bytes
decoded_byte c none = none
decoded_byte c (some rest) = some (c ∷ rest)

-- The loop of `percent_decode`; `none` is the error for an incomplete escape.
unfoldable pub percent_bytes : Bytes → Option Bytes
unfolding hex decoded_pair decoded_byte
percent_bytes [] = some []
percent_bytes (c ∷ []) = if c == b'%' then none else some (c ∷ [])
percent_bytes (c ∷ a ∷ []) =
    let rest = percent_bytes (a ∷ []) in if c == b'%' then none else decoded_byte c rest
percent_bytes (c ∷ a ∷ b ∷ r) =
    let after = percent_bytes r in
    let rest = percent_bytes (a ∷ b ∷ r) in
    if c == b'%' then decoded_pair (hex a) (hex b) after else decoded_byte c rest

module _ (is_utf8 : Bytes → Bool) where
  pub percent_decode : Bytes → Option Bytes
  unfolding percent_bytes
  percent_decode value = elim (percent_bytes value) [
    | none ↦ none
    | some decoded ↦ if is_utf8 decoded then some decoded else none
  ]

-- The characters of a number in base ten are the parameter `decimal`.
module _ (decimal : ℕ → Bytes) where
  pub authority : Bytes → ℕ → Bytes
  unfolding contains_byte
  authority host port =
      if contains_byte b':' host
      then b'[' ∷ host ++ b']' ∷ b':' ∷ decimal port
      else host ++ b':' ∷ decimal port

-- `ALPHABET[n as usize]`; beyond the end the source would panic, which no index of six bits is.
abbrev pub alphabet : Bytes
alphabet = codes "ABCDEFGHIJKLMNOPQRSTUVWXYZabcdefghijklmnopqrstuvwxyz0123456789+/"

abbrev pub at_index : Bytes → ℕ → ℕ
at_index [] n = 0
at_index (c ∷ r) zero = c
at_index (c ∷ r) (suc n) = at_index r n

unfoldable pub letter : ℕ → ℕ
letter n = at_index alphabet n

-- `base64`: shifts and masks are written as divisions and remainders, and `|` of bits that do not
-- overlap as a sum.
unfoldable pub base64 : Bytes → Bytes
unfolding letter
base64 [] = []
base64 (a ∷ []) = letter (a / 4) ∷ letter (a % 4 * 16) ∷ b'=' ∷ b'=' ∷ []
base64 (a ∷ b ∷ []) =
    letter (a / 4) ∷ letter (a % 4 * 16 + b / 16) ∷ letter (b % 16 * 4) ∷ b'=' ∷ []
base64 (a ∷ b ∷ c ∷ r) =
    letter (a / 4)
    ∷ letter (a % 4 * 16 + b / 16)
    ∷ letter (b % 16 * 4 + c / 64)
    ∷ letter (c % 64)
    ∷ base64 r
