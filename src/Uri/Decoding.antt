-- ===== src/Uri/Decoding.antt =====
-- What a requoted URI stands for, by percent-decoding it (crates/requests/src/utils.rs).
use requests_native.Prelude.{
  ℕ, ◌+◌, ◌*◌, ◌/◌, ◌%◌, ◌<◌, ◌≤◌, ◌≡◌, refl, ◌≢◌, sym, ap, ◌∙◌, true, false, ◌||◌, some, none, [],
  ◌∷◌, ◌++◌, arith, Bytes, IsByte, contains_byte, All, any, Bool-cases, inl, inr, length, ltb, leb,
}
use requests_native.Uri.{
  push_byte, is_unreserved, keep_escape, prepend, unquote_unreserved, quote_byte,
  has_incomplete_percent_escape, quote_bytes, safe_with_percent, safe_without_percent, requote_uri,
}
use requests_native.Uri.Escapes.{
  nibble, percent_decode, percent_decode-literal, percent_decode-escape, Shape, done, literal,
  escape, IsLiteral, IsHexPair, Reserved, complete-Escaped, unquote-literal, unquote-escape,
}
use requests_native.Uri.Requote.{
  nibbles, digits-IsHexPair, quote-nil, quote-cons, quote_literal, quote_escaped, quote_escape,
  push-Reserved, keep-Reserved, unreserved_lt,
}

-- A quoted byte is decoded to itself, if `%` is quoted or left out.
decode-quote_byte :
    (c : ℕ) (safe r : Bytes)
    → IsByte c
    → ((is_unreserved c || contains_byte c safe) ≡ true → c ≢ b'%')
    → percent_decode (quote_byte safe false c ++ r) ≡ c ∷ percent_decode r
decode-quote_byte c safe r h plain = elim (Bool-cases (is_unreserved c || contains_byte c safe)) [
  | inl e ↦ rw (quote_literal c safe e) (percent_decode-literal c r (plain e))
  | inr e ↦
      rw
        (
          quote_escaped c safe e,
          percent_decode-escape _ _ r (digits-IsHexPair c h).0 (digits-IsHexPair c h).1,
        )
        (ap (λ n. n ∷ percent_decode r) (nibbles c h))
]

decode-quote-Reserved :
    {w : Bytes}
    → Reserved w
    → percent_decode (quote_bytes w safe_with_percent false) ≡ percent_decode w
decode-quote-Reserved done = rw quote-nil
decode-quote-Reserved (literal {c} {r} h s) =
    rw (quote-cons c r, percent_decode-literal c r h.1, ← decode-quote-Reserved s)
      (decode-quote_byte c safe_with_percent _ h.0 (λ _. h.1))
decode-quote-Reserved (escape {c} {a} {b} {r} p h s) = rw (
  p,
  quote_escape a b (h.0, h.1) r,
  percent_decode-escape a b r h.0 h.1,
  percent_decode-escape a b _ h.0 h.1,
  decode-quote-Reserved s,
)

-- What `unquote_unreserved` leaves of a text of bytes that decode as `v`, each byte above 127 doubled.
abbrev pub latin1 : Bytes → Bytes
latin1 [] = []
latin1 (c ∷ r) = push_byte c ++ latin1 r

decode-push :
    (c : ℕ) (r : Bytes)
    → IsLiteral c
    → percent_decode (push_byte c ++ r) ≡ push_byte c ++ percent_decode r
unfolding push_byte
decode-push c r h = elim (Bool-cases (ltb c 128)) [
  | inl e ↦ rw e (percent_decode-literal c r h.1)
  | inr e ↦ rw (
    e,
    percent_decode-literal (192 + c / 64) ((128 + c % 64) ∷ r) (ground arith),
    percent_decode-literal (128 + c % 64) r (ground arith),
  )
]

decode-keep :
    (a b : ℕ) (r : Bytes)
    → IsHexPair a b
    → percent_decode (keep_escape a b (nibble a * 16 + nibble b) ++ r)
      ≡ (nibble a * 16 + nibble b) ∷ percent_decode r
unfolding keep_escape
decode-keep a b r h = elim (Bool-cases (is_unreserved (nibble a * 16 + nibble b))) [
  | inl e ↦ rw e (percent_decode-literal _ r (unreserved_lt _ e).1)
  | inr e ↦ rw e (percent_decode-escape a b r h.0 h.1)
]

abbrev IsPlain : ℕ → Type 0
IsPlain c = (c < 128) × (c ≢ b'%')

unquote-decode :
    {u : Bytes}
    → Shape IsPlain IsHexPair u
    → (w : Bytes) × (unquote_unreserved u ≡ some w)
      × Reserved w
      × (percent_decode w ≡ percent_decode u)
unfolding prepend
unquote-decode done = ([], unfold unquote_unreserved in refl, done, refl)
unquote-decode (literal {c} {r} h s) =
    let (w, e, sw, d) = unquote-decode s in
    (
      push_byte c ++ w,
      rw (unquote-literal c r h.1, e),
      push-Reserved c w (omega arith, h.1) sw,
      decode-push c w (omega arith, h.1)
          ∙ rw (percent_decode-literal c r h.1, d) (push_ascii c (percent_decode r) h.0),
    )
  where
    push_ascii : (n : ℕ) (t : Bytes) → n < 128 → push_byte n ++ t ≡ n ∷ t
    push_ascii n t lt = unfold push_byte in ground arith
unquote-decode (escape {c} {a} {b} {r} p h s) =
    let (w, e, sw, d) = unquote-decode s in
    (
      keep_escape a b (nibble a * 16 + nibble b) ++ w,
      rw (unquote-escape c a b r p h, e),
      keep-Reserved a b w h sw,
      decode-keep a b w h ∙ rw (p, percent_decode-escape a b r h.0 h.1, d),
    )

IsPlain-Shape :
    {u : Bytes} → All (λ c. c < 128) u → Shape IsLiteral IsHexPair u → Shape IsPlain IsHexPair u
IsPlain-Shape h done = done
IsPlain-Shape h (literal l s) = literal (h.0, l.1) (IsPlain-Shape h.1 s)
IsPlain-Shape h (escape p l s) = escape p l (IsPlain-Shape h.1.1.1 s)

ascii-IsByte : (u : Bytes) → All (λ c. c < 128) u → All IsByte u
ascii-IsByte [] h = tt
ascii-IsByte (c ∷ r) h = (omega arith, ascii-IsByte r h.1)

-- Requoting an ASCII text in which `has_incomplete_percent_escape` finds nothing does not change what
-- the text stands for.
pub requote_uri_decode :
    (u : Bytes)
    → All (λ c. c < 128) u
    → has_incomplete_percent_escape u ≡ false
    → percent_decode (requote_uri u) ≡ percent_decode u
unfolding requote_uri
requote_uri_decode u h e =
    let (w, p, sw, d) =
      unquote-decode (IsPlain-Shape h (complete-Escaped u (ascii-IsByte u h) e)) in
    rw (p, requote_uri) (decode-quote-Reserved sw ∙ d)

safe_lacks_percent :
    (c : ℕ) → (is_unreserved c || contains_byte c safe_without_percent) ≡ true → c ≢ b'%'
unfolding contains_byte
safe_lacks_percent c h = elim (Bool-cases (is_unreserved c)) [
  | inl e ↦ (unreserved_lt c e).1
  | inr e ↦ ground arith
]

decode-quote_bytes :
    (u : Bytes) → All IsByte u → percent_decode (quote_bytes u safe_without_percent false) ≡ u
unfolding percent_decode
decode-quote_bytes [] h = rw quote-nil
decode-quote_bytes (c ∷ r) h = rw (
  quote-cons c r,
  decode-quote_byte c safe_without_percent _ h.0 (safe_lacks_percent c),
  decode-quote_bytes r h.1,
)

-- Where unquoting fails, every `%` is quoted: the result stands for the text itself, byte for byte.
pub requote_uri_invalid :
    (u : Bytes) → All IsByte u → unquote_unreserved u ≡ none → percent_decode (requote_uri u) ≡ u
unfolding requote_uri
requote_uri_invalid u h e = rw (e, requote_uri) (decode-quote_bytes u h)

push-IsLiteral :
    (c : ℕ) (r : Bytes) → IsLiteral c → All IsLiteral r → All IsLiteral (push_byte c ++ r)
unfolding push_byte
push-IsLiteral c r h s = ground arith

latin1-IsLiteral : (u : Bytes) → All IsLiteral u → All IsLiteral (latin1 u)
latin1-IsLiteral [] h = tt
latin1-IsLiteral (c ∷ r) h = push-IsLiteral c (latin1 r) h.0 (latin1-IsLiteral r h.1)

unquote_literals : (u : Bytes) → All IsLiteral u → unquote_unreserved u ≡ some (latin1 u)
unfolding prepend
unquote_literals [] h = unfold unquote_unreserved in refl
unquote_literals (c ∷ r) h = rw (unquote-literal c r h.0.1, unquote_literals r h.1)

IsLiteral-Reserved : (u : Bytes) → All IsLiteral u → Reserved u
IsLiteral-Reserved [] h = done
IsLiteral-Reserved (c ∷ r) h = literal h.0 (IsLiteral-Reserved r h.1)

decode_literals : (u : Bytes) → All IsLiteral u → percent_decode u ≡ u
unfolding percent_decode
decode_literals [] h = refl
decode_literals (c ∷ r) h = rw (percent_decode-literal c r h.0.1, decode_literals r h.1)

-- A text of bytes without `%` is requoted as if each byte were a character of its own: the result
-- stands for the bytes of `latin1 u`, in which a byte from 128 on is the two bytes that encode it.
pub requote_uri-latin1 : (u : Bytes) → All IsLiteral u → percent_decode (requote_uri u) ≡ latin1 u
unfolding requote_uri
requote_uri-latin1 u h =
    rw (unquote_literals u h, requote_uri)
      (decode-quote-Reserved (IsLiteral-Reserved _ (latin1-IsLiteral u h))
        ∙ decode_literals _ (latin1-IsLiteral u h))

length-latin1-le : (u : Bytes) → length u ≤ length (latin1 u)
unfolding push_byte
length-latin1-le [] = omega arith
length-latin1-le (c ∷ r) = ground (arith, length-latin1-le r)

length-latin1-lt : (u : Bytes) → any (leb 128) u ≡ true → length u < length (latin1 u)
unfolding push_byte
length-latin1-lt [] h = cc
length-latin1-lt (c ∷ r) h = ground (arith, length-latin1-lt r, length-latin1-le r)

-- So a text of bytes without `%` that holds a byte from 128 on, as the UTF-8 of every character
-- outside ASCII does, is never requoted to one that stands for it.
pub requote_uri_non_ascii :
    (u : Bytes) → All IsLiteral u → any (leb 128) u ≡ true → percent_decode (requote_uri u) ≢ u
requote_uri_non_ascii u h k e =
    let p : latin1 u ≡ u = sym (requote_uri-latin1 u h) ∙ e in
    omega (arith, ap length p, length-latin1-lt u k)
