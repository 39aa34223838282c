-- ===== src/Uri/Requote.antt =====
-- `requote_uri` of crates/requests/src/utils.rs: what it leaves, and what the result stands for.
use requests_native.Prelude.{
  ℕ, ◌+◌, ◌*◌, ◌/◌, ◌%◌, ◌<◌, ◌≡◌, refl, ◌≢◌, Bool, true, false, ◌||◌, some, [], ◌∷◌, ◌++◌, arith,
  Bytes, IsByte, is_ascii_hexdigit, contains_byte, All, Bool-cases, inl, inr, is_ascii_uppercase,
  is_ascii_lowercase, ltb,
}
use requests_native.Uri.{
  push_byte, is_unreserved, hex_digit, quote_byte, keep_escape, prepend, unquote_unreserved,
  has_incomplete_percent_escape, quote_bytes, safe_with_percent, requote_uri,
}
use requests_native.Uri.Escapes.{
  nibble, hex_digit-IsHex, nibble-hex_digit, done, literal, escape, IsLiteral, IsHexPair,
  IsUriLiteral, Escaped, Reserved, Requoted, complete-Escaped, unquote-literal, unquote-escape,
  hex-alphanumeric,
}

pub unreserved_lt : (c : ℕ) → is_unreserved c ≡ true → (c < 128) × (c ≢ b'%')
unfolding is_unreserved is_ascii_uppercase is_ascii_lowercase
unreserved_lt c h = ground arith

safe_lt : (c : ℕ) → contains_byte c safe_with_percent ≡ true → c < 128
unfolding contains_byte
safe_lt c h = ground arith

hex-unreserved : (a : ℕ) → is_ascii_hexdigit a ≡ true → is_unreserved a ≡ true
unfolding is_unreserved
hex-unreserved a h = rw (hex-alphanumeric a h)

hex-UriLiteral : (a : ℕ) → is_ascii_hexdigit a ≡ true → IsUriLiteral a
hex-UriLiteral a h =
    let u = hex-unreserved a h in ((unreserved_lt a u).0, (unreserved_lt a u).1, rw u)

pub push-Reserved : (c : ℕ) (r : Bytes) → IsLiteral c → Reserved r → Reserved (push_byte c ++ r)
unfolding push_byte
push-Reserved c r h s = elim (Bool-cases (ltb c 128)) [
  | inl e ↦ rw e (literal h s)
  | inr e ↦ rw e (literal (omega arith, ground arith) (literal (omega arith, ground arith) s))
]

pub keep-Reserved :
    (a b : ℕ) (r : Bytes)
    → IsHexPair a b
    → Reserved r
    → Reserved (keep_escape a b (nibble a * 16 + nibble b) ++ r)
unfolding keep_escape
keep-Reserved a b r h s = elim (Bool-cases (is_unreserved (nibble a * 16 + nibble b))) [
  | inl e ↦ rw e (literal (omega (arith, unreserved_lt _ e), (unreserved_lt _ e).1) s)
  | inr e ↦ rw e (escape refl (h.0, h.1, e) s)
]

-- Where no escape is incomplete, unquoting succeeds and leaves only escapes of reserved bytes.
unquote-Reserved :
    {u : Bytes} → Escaped u → (w : Bytes) × (unquote_unreserved u ≡ some w) × Reserved w
unfolding prepend
unquote-Reserved done = ([], unfold unquote_unreserved in refl, done)
unquote-Reserved (literal {c} {r} h s) =
    let (w, e, sw) = unquote-Reserved s in
    (push_byte c ++ w, rw (unquote-literal c r h.1, e), push-Reserved c w h sw)
unquote-Reserved (escape {c} {a} {b} {r} p h s) =
    let (w, e, sw) = unquote-Reserved s in
    (
      keep_escape a b (nibble a * 16 + nibble b) ++ w,
      rw (unquote-escape c a b r p h, e),
      keep-Reserved a b w h sw,
    )

pub quote_literal :
    (c : ℕ) (safe : Bytes)
    → (is_unreserved c || contains_byte c safe) ≡ true
    → quote_byte safe false c ≡ c ∷ []
unfolding quote_byte
quote_literal c safe h = rw h

pub quote_escaped :
    (c : ℕ) (safe : Bytes)
    → (is_unreserved c || contains_byte c safe) ≡ false
    → quote_byte safe false c ≡ b'%' ∷ hex_digit (c / 16) ∷ hex_digit (c % 16) ∷ []
unfolding quote_byte
quote_escaped c safe h = rw h

-- The escape that `quote_bytes` writes for a byte is read back as that byte.
pub nibbles :
    (c : ℕ) → IsByte c → nibble (hex_digit (c / 16)) * 16 + nibble (hex_digit (c % 16)) ≡ c
nibbles c h =
    omega (arith, nibble-hex_digit (c / 16) (omega arith), nibble-hex_digit (c % 16) (omega arith))

pub digits-IsHexPair : (c : ℕ) → IsByte c → IsHexPair (hex_digit (c / 16)) (hex_digit (c % 16))
digits-IsHexPair c h =
    (hex_digit-IsHex (c / 16) (omega arith), hex_digit-IsHex (c % 16) (omega arith))

or_false : (a b : Bool) → (a || b) ≡ false → a ≡ false
or_false a b h = ground arith

percent_safe : contains_byte b'%' safe_with_percent ≡ true
unfolding contains_byte
percent_safe = refl

uri_literal :
    (c : ℕ)
    → c ≢ b'%'
    → (is_unreserved c || contains_byte c safe_with_percent) ≡ true
    → IsUriLiteral c
uri_literal c n h = elim (Bool-cases (is_unreserved c)) [
  | inl e ↦ ((unreserved_lt c e).0, n, h)
  | inr e ↦ (safe_lt c (rw e at h), n, h)
]

-- One literal byte, quoted in front of a text.
quote-Requoted-literal :
    (c : ℕ) (r : Bytes)
    → IsLiteral c
    → Requoted r
    → Requoted (quote_byte safe_with_percent false c ++ r)
quote-Requoted-literal c r h s =
    elim (Bool-cases (is_unreserved c || contains_byte c safe_with_percent)) [
      | inl e ↦ rw (quote_literal c safe_with_percent e) (literal (uri_literal c h.1 e) s)
      | inr e ↦ rw (quote_escaped c safe_with_percent e) (
          escape refl
            (
              (digits-IsHexPair c h.0).0,
              (digits-IsHexPair c h.0).1,
              rw (nibbles c h.0) (or_false _ _ e),
            )
            s)
    ]

pub quote-nil : (safe : Bytes) → quote_bytes [] safe false ≡ []
unfolding quote_bytes
quote-nil safe = refl

pub quote-cons :
    (c : ℕ) (r safe : Bytes)
    → quote_bytes (c ∷ r) safe false ≡ quote_byte safe false c ++ quote_bytes r safe false
unfolding quote_bytes
quote-cons c r safe = refl

pub quote_escape :
    (a b : ℕ)
    → IsHexPair a b
    → (r : Bytes)
    → quote_bytes (b'%' ∷ a ∷ b ∷ r) safe_with_percent false
      ≡ b'%' ∷ a ∷ b ∷ quote_bytes r safe_with_percent false
unfolding quote_bytes is_unreserved is_ascii_uppercase is_ascii_lowercase
quote_escape a b h r = rw (
  quote_literal b'%' safe_with_percent (rw percent_safe),
  quote_literal a safe_with_percent (rw (hex-unreserved a h.0)),
  quote_literal b safe_with_percent (rw (hex-unreserved b h.1)),
)

-- Quoting such a text gives a requoted one, and does not change what it stands for.
quote-Requoted : {w : Bytes} → Reserved w → Requoted (quote_bytes w safe_with_percent false)
quote-Requoted done = rw quote-nil done
quote-Requoted (literal {c} {r} h s) =
    rw (quote-cons c r) (quote-Requoted-literal c _ h (quote-Requoted s))
quote-Requoted (escape {c} {a} {b} {r} p h s) =
    rw (p, quote_escape a b (h.0, h.1) r) (escape refl h (quote-Requoted s))

-- A requoted text goes through both steps unchanged.
unquote-Requoted : {w : Bytes} → Requoted w → unquote_unreserved w ≡ some w
unfolding prepend
unquote-Requoted done = unfold unquote_unreserved in refl
unquote-Requoted (literal {c} {r} h s) =
    rw (unquote-literal c r h.1, unquote-Requoted s) (unfold push_byte in ground arith)
unquote-Requoted (escape {c} {a} {b} {r} p h s) =
    rw (unquote-escape c a b r p (h.0, h.1), unquote-Requoted s) (unfold keep_escape in rw (h.2, p))

quote-Requoted_eq : {w : Bytes} → Requoted w → quote_bytes w safe_with_percent false ≡ w
quote-Requoted_eq done = quote-nil safe_with_percent
quote-Requoted_eq (literal {c} {r} h s) =
    rw (quote-cons c r, quote_literal c safe_with_percent h.2, quote-Requoted_eq s)
quote-Requoted_eq (escape {c} {a} {b} {r} p h s) =
    rw (p, quote_escape a b (h.0, h.1) r, quote-Requoted_eq s)

requote-Requoted_eq : {w : Bytes} → Requoted w → requote_uri w ≡ w
unfolding requote_uri
requote-Requoted_eq {w} s = rw (unquote-Requoted s, requote_uri) (quote-Requoted_eq s)

requote-Requoted : {u : Bytes} → Escaped u → Requoted (requote_uri u)
unfolding requote_uri
requote-Requoted s = let (w, e, sw) = unquote-Reserved s in rw (e, requote_uri) (quote-Requoted sw)

-- Requoting a text of bytes in which `has_incomplete_percent_escape` finds nothing is idempotent.
pub requote_uri_idem :
    (u : Bytes)
    → All IsByte u
    → has_incomplete_percent_escape u ≡ false
    → requote_uri (requote_uri u) ≡ requote_uri u
requote_uri_idem u h e = requote-Requoted_eq (requote-Requoted (complete-Escaped u h e))
