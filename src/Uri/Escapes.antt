-- ===== src/Uri/Escapes.antt =====
-- Percent-decoding as an independent description of what an encoded text stands for, and the shapes
-- that the encoders of crates/requests/src/utils.rs read and leave.
use requests_native.Prelude.{
  ℕ, ◌+◌, ◌*◌, ◌<◌, ◌≡◌, refl, ◌≢◌, true, false, ◌&&◌, none, some, [], ◌∷◌, arith, Bytes, IsByte,
  ◌==◌, is_ascii_hexdigit, is_ascii_digit, is_ascii_alphanumeric, contains_byte, All, Bool-cases,
  inl, inr, ◌||◌, is_ascii_uppercase, is_ascii_lowercase,
}
use requests_native.Uri.{
  push_byte, is_unreserved, hex_value, hex_digit, is_escape, escape_value, keep_escape, prepend,
  unquote_unreserved, has_incomplete_percent_escape, safe_with_percent,
}

-- The value of a hexadecimal digit.
abbrev pub nibble : ℕ → ℕ
nibble b = elim (hex_value b) [ none ↦ 0 | some n ↦ n ]

-- Every escape stands for its byte, every other byte for itself.
unfoldable pub percent_decode : Bytes → Bytes
unfolding is_escape is_ascii_hexdigit is_ascii_digit hex_value
percent_decode [] = []
percent_decode (c ∷ []) = c ∷ []
percent_decode (c ∷ a ∷ []) = c ∷ a ∷ []
percent_decode (c ∷ a ∷ b ∷ rest) = elim (is_escape c a b) [
  | true ↦ (nibble a * 16 + nibble b) ∷ percent_decode rest
  | false ↦ c ∷ percent_decode (a ∷ b ∷ rest)
]

pub percent_decode-literal :
    (c : ℕ) (r : Bytes) → c ≢ b'%' → percent_decode (c ∷ r) ≡ c ∷ percent_decode r
unfolding percent_decode
percent_decode-literal c [] h = refl
percent_decode-literal c (a ∷ []) h = refl
percent_decode-literal c (a ∷ b ∷ r) h = ground arith

pub percent_decode-plain :
    (c a b : ℕ) (r : Bytes)
    → is_escape c a b ≡ false
    → percent_decode (c ∷ a ∷ b ∷ r) ≡ c ∷ percent_decode (a ∷ b ∷ r)
unfolding percent_decode
percent_decode-plain c a b r e = rw (e, percent_decode)

pub percent_decode-escape :
    (a b : ℕ) (r : Bytes)
    → is_ascii_hexdigit a ≡ true
    → is_ascii_hexdigit b ≡ true
    → percent_decode (b'%' ∷ a ∷ b ∷ r) ≡ (nibble a * 16 + nibble b) ∷ percent_decode r
unfolding percent_decode
percent_decode-escape a b r ha hb = ground arith

pub hex_digit-IsHex : (n : ℕ) → n < 16 → is_ascii_hexdigit (hex_digit n) ≡ true
unfolding hex_digit is_ascii_hexdigit is_ascii_digit
hex_digit-IsHex n h = ground arith

pub nibble-hex_digit : (n : ℕ) → n < 16 → nibble (hex_digit n) ≡ n
unfolding hex_digit hex_value
nibble-hex_digit n h = ground arith

-- A text of bytes that `L` allows and of escapes that `E` allows.
pub data Shape (L : ℕ → Type 0) (E : ℕ → ℕ → Type 0) : Bytes → Type 0 where
  done : Shape L E []
  literal : {c : ℕ} {r : Bytes} → L c → Shape L E r → Shape L E (c ∷ r)
  escape : {c a b : ℕ} {r : Bytes} → c ≡ b'%' → E a b → Shape L E r → Shape L E (c ∷ a ∷ b ∷ r)

abbrev pub IsLiteral : ℕ → Type 0
IsLiteral c = IsByte c × (c ≢ b'%')

abbrev pub IsHexPair : ℕ → ℕ → Type 0
IsHexPair a b = (is_ascii_hexdigit a ≡ true) × (is_ascii_hexdigit b ≡ true)

-- The escape of a byte that must stay escaped.
abbrev pub IsReservedPair : ℕ → ℕ → Type 0
IsReservedPair a b =
    (is_ascii_hexdigit a ≡ true)
    × (is_ascii_hexdigit b ≡ true)
    × (is_unreserved (nibble a * 16 + nibble b) ≡ false)

-- A byte that `requote_uri` lets stand.
abbrev pub IsUriLiteral : ℕ → Type 0
IsUriLiteral c =
    (c < 128) × (c ≢ b'%') × ((is_unreserved c || contains_byte c safe_with_percent) ≡ true)

abbrev pub Escaped : Bytes → Type 0
Escaped = Shape IsLiteral IsHexPair

abbrev pub Reserved : Bytes → Type 0
Reserved = Shape IsLiteral IsReservedPair

abbrev pub Requoted : Bytes → Type 0
Requoted = Shape IsUriLiteral IsReservedPair

-- A text of bytes in which the code finds no incomplete escape.
pub complete-Escaped :
    (u : Bytes) → All IsByte u → has_incomplete_percent_escape u ≡ false → Escaped u
unfolding has_incomplete_percent_escape
complete-Escaped [] h e = done
complete-Escaped (c ∷ []) h e = literal (h.0, ground arith) done
complete-Escaped (c ∷ a ∷ []) h e = literal (h.0, ground arith) (literal (h.1.0, ground arith) done)
complete-Escaped (c ∷ a ∷ b ∷ r) h e = elim (Bool-cases (c == b'%')) [
  | inl p ↦ elim (Bool-cases (is_ascii_hexdigit a && is_ascii_hexdigit b)) [
    | inl q ↦
        escape (ground arith) (ground arith, ground arith)
          (complete-Escaped r h.1.1.1 (rw (p, q, has_incomplete_percent_escape) at e))
    | inr q ↦ absurd (ground arith)
  ]
  | inr p ↦ literal (h.0, ground arith) (complete-Escaped (a ∷ b ∷ r) h.1 (ground arith))
]

-- The value of a hexadecimal pair, as the code computes it.
pub escape_value-hex :
    (a b : ℕ) → IsHexPair a b → escape_value a b ≡ some (nibble a * 16 + nibble b)
unfolding escape_value is_ascii_hexdigit is_ascii_digit
escape_value-hex a b h = ground arith

pub hex-alphanumeric : (a : ℕ) → is_ascii_hexdigit a ≡ true → is_ascii_alphanumeric a ≡ true
unfolding is_ascii_hexdigit is_ascii_alphanumeric is_ascii_digit is_ascii_uppercase
    is_ascii_lowercase
hex-alphanumeric a h = ground arith

pub unquote-literal :
    (c : ℕ) (r : Bytes)
    → c ≢ b'%'
    → unquote_unreserved (c ∷ r) ≡ prepend (push_byte c) (unquote_unreserved r)
unfolding unquote_unreserved
unquote-literal c [] h = refl
unquote-literal c (a ∷ []) h = refl
unquote-literal c (a ∷ b ∷ r) h = ground arith

pub unquote-escape :
    (c a b : ℕ) (r : Bytes)
    → c ≡ b'%'
    → IsHexPair a b
    → unquote_unreserved (c ∷ a ∷ b ∷ r)
      ≡ prepend (keep_escape a b (nibble a * 16 + nibble b)) (unquote_unreserved r)
unfolding unquote_unreserved
unquote-escape c a b r e h =
    ground (arith, escape_value-hex a b, hex-alphanumeric a, hex-alphanumeric b)
