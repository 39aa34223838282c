-- ===== src/Proxy/Escapes.antt =====
-- What `percent_decode` of crates/requests/src/transport/proxy.rs decodes.
use requests_native.Prelude.{
  ℕ, ◌≡◌, refl, sym, ap, ap₂, ◌∙◌, inl, inr, true, false, ◌&&◌, Option, none, some, [], ◌∷◌, arith,
  ◌==◌, if◌then◌else◌, ==_iff, Bool-cases, Bytes, is_ascii_digit, is_ascii_hexdigit,
}
use requests_native.Uri.{hex_value, has_incomplete_percent_escape}
use requests_native.Uri.Escapes.{
  nibble, percent_decode, percent_decode-literal, percent_decode-escape,
}
use requests_native.Proxy.{hex, decoded_pair, decoded_byte, percent_bytes}

hex-hex_value : (b : ℕ) → hex b ≡ hex_value b
unfolding hex hex_value
hex-hex_value b = refl

hex_hexdigit : (b : ℕ) → is_ascii_hexdigit b ≡ true → hex b ≡ some (nibble b)
unfolding hex hex_value is_ascii_hexdigit is_ascii_digit
hex_hexdigit b h = ground arith

hex_other : (b : ℕ) → is_ascii_hexdigit b ≡ false → hex b ≡ none
unfolding hex is_ascii_hexdigit is_ascii_digit
hex_other b h = ground arith

decoded_pair-none :
    (a b : ℕ) (r : Option Bytes)
    → (is_ascii_hexdigit a && is_ascii_hexdigit b) ≡ false
    → decoded_pair (hex a) (hex b) r ≡ none
unfolding decoded_pair
decoded_pair-none a b r h = elim (Bool-cases (is_ascii_hexdigit a)) [
  | inr e ↦ rw (hex_other a e) refl
  | inl e ↦ rw (hex_other b (ground arith)) (ground arith)
]

-- What the loop should give.
abbrev expected : Bytes → Option Bytes
expected u = if has_incomplete_percent_escape u then none else some (percent_decode u)

percent_bytes-literal :
    (c a b : ℕ) (r : Bytes)
    → (c == b'%') ≡ false
    → percent_bytes (c ∷ a ∷ b ∷ r) ≡ decoded_byte c (percent_bytes (a ∷ b ∷ r))
unfolding percent_bytes
percent_bytes-literal c a b r e = rw e

expected-literal :
    (c a b : ℕ) (r : Bytes)
    → (c == b'%') ≡ false
    → expected (c ∷ a ∷ b ∷ r) ≡ decoded_byte c (expected (a ∷ b ∷ r))
unfolding has_incomplete_percent_escape decoded_byte
expected-literal c a b r e =
    let d = percent_decode-literal c (a ∷ b ∷ r) (ground (arith, e)) in
    rw (d, e, has_incomplete_percent_escape) (ground arith)

expected-escape :
    (a b : ℕ) (r : Bytes)
    → (is_ascii_hexdigit a && is_ascii_hexdigit b) ≡ true
    → expected (b'%' ∷ a ∷ b ∷ r) ≡ decoded_pair (some (nibble a)) (some (nibble b)) (expected r)
unfolding has_incomplete_percent_escape decoded_pair
expected-escape a b r e =
    let d = percent_decode-escape a b r (ground arith) (ground arith) in
    rw (d, e, has_incomplete_percent_escape) (ground arith)

expected-refused :
    (a b : ℕ) (r : Bytes)
    → (is_ascii_hexdigit a && is_ascii_hexdigit b) ≡ false
    → expected (b'%' ∷ a ∷ b ∷ r) ≡ none
unfolding has_incomplete_percent_escape
expected-refused a b r e = rw (e, has_incomplete_percent_escape)

escaped_bytes :
    (a b : ℕ) (r : Bytes)
    → percent_bytes r ≡ expected r
    → percent_bytes (b'%' ∷ a ∷ b ∷ r) ≡ expected (b'%' ∷ a ∷ b ∷ r)
unfolding percent_bytes
escaped_bytes a b r h = elim (Bool-cases (is_ascii_hexdigit a && is_ascii_hexdigit b)) [
  | inr k ↦ decoded_pair-none a b (percent_bytes r) k ∙ sym (expected-refused a b r k)
  | inl k ↦
      ap₂ (λ x y. decoded_pair x y (percent_bytes r)) (hex_hexdigit a (ground arith))
        (hex_hexdigit b (ground arith))
      ∙ ap (decoded_pair (some (nibble a)) (some (nibble b))) h
      ∙ sym (expected-escape a b r k)
]

-- The loop refuses a text exactly where `has_incomplete_percent_escape` finds something, and else gives
-- the bytes that the text stands for.
pub percent_bytes-percent_decode :
    (u : Bytes)
    → percent_bytes u ≡ (if has_incomplete_percent_escape u then none else some (percent_decode u))
percent_bytes-percent_decode [] =
    unfold percent_bytes has_incomplete_percent_escape percent_decode in refl
percent_bytes-percent_decode (c ∷ []) =
    unfold percent_bytes has_incomplete_percent_escape percent_decode in refl
percent_bytes-percent_decode (c ∷ a ∷ []) =
    unfold percent_bytes decoded_byte has_incomplete_percent_escape percent_decode in ground arith
percent_bytes-percent_decode (c ∷ a ∷ b ∷ r) = elim (Bool-cases (c == b'%')) [
  | inr e ↦
      percent_bytes-literal c a b r e
      ∙ ap (decoded_byte c) (percent_bytes-percent_decode (a ∷ b ∷ r))
      ∙ sym (expected-literal c a b r e)
  | inl e ↦ rw ((==_iff c b'%').0 e) (escaped_bytes a b r (percent_bytes-percent_decode r))
]
