-- ===== src/Uri/Normalize.antt =====
-- `normalize_percent_escape_hex` of crates/requests/src/utils.rs.
use requests_native.Prelude.{
  ℕ, ◌<◌, ◌≡◌, refl, sym, ap, ◌∙◌, ◌≢◌, inl, inr, true, false, [], ◌∷◌, ◌++◌, append-nil, arith,
  ◌==◌, Bool-cases, length, All, Bytes, is_ascii_digit, is_ascii_hexdigit, to_ascii_uppercase,
}
use requests_native.Uri.{push_byte, hex_value, is_escape, normalize_percent_escape_hex}
use requests_native.Uri.Escapes.{
  nibble, percent_decode, percent_decode-plain, percent_decode-escape,
}

normalize-literal :
    (c : ℕ) (r : Bytes)
    → c ≢ b'%'
    → normalize_percent_escape_hex (c ∷ r) ≡ push_byte c ++ normalize_percent_escape_hex r
unfolding normalize_percent_escape_hex is_escape
normalize-literal c [] h = simp append-nil
normalize-literal c (a ∷ []) h = refl
normalize-literal c (a ∷ b ∷ r) h = ground arith

pub upper-hex :
    (a : ℕ)
    → is_ascii_hexdigit a ≡ true
    → (is_ascii_hexdigit (to_ascii_uppercase a) ≡ true)
      × (to_ascii_uppercase (to_ascii_uppercase a) ≡ to_ascii_uppercase a)
      × (nibble (to_ascii_uppercase a) ≡ nibble a)
unfolding is_ascii_hexdigit is_ascii_digit to_ascii_uppercase hex_value
upper-hex a h = ground arith

abbrev IsAscii : ℕ → Type 0
IsAscii c = c < 128

push_ascii : (c : ℕ) → c < 128 → push_byte c ≡ c ∷ []
unfolding push_byte
push_ascii c h = ground arith

-- On ASCII the length stays, a second pass changes nothing, and what the text stands for stays.
abbrev IsNormalized : Bytes → Bytes → Type 0
IsNormalized u w =
    (length w ≡ length u)
    × (normalize_percent_escape_hex w ≡ w)
    × (percent_decode w ≡ percent_decode u)

normalize-short : (c a : ℕ) → normalize_percent_escape_hex (c ∷ a ∷ []) ≡ push_byte c ++ push_byte a
unfolding normalize_percent_escape_hex
normalize-short c a = refl

normalize-plain :
    (c a b : ℕ) (r : Bytes)
    → is_escape c a b ≡ false
    → normalize_percent_escape_hex (c ∷ a ∷ b ∷ r)
      ≡ push_byte c ++ normalize_percent_escape_hex (a ∷ b ∷ r)
unfolding normalize_percent_escape_hex
normalize-plain c a b r e = rw (e, normalize_percent_escape_hex)

normalize-escape :
    (c a b : ℕ) (r : Bytes)
    → is_escape c a b ≡ true
    → normalize_percent_escape_hex (c ∷ a ∷ b ∷ r)
      ≡ b'%' ∷ to_ascii_uppercase a ∷ to_ascii_uppercase b ∷ normalize_percent_escape_hex r
unfolding normalize_percent_escape_hex
normalize-escape c a b r e = rw (e, normalize_percent_escape_hex)

is_escape-percent : (c a b : ℕ) → is_escape c a b ≡ true → c ≡ b'%'
unfolding is_escape
is_escape-percent c a b e = ground arith

-- The first byte stays.
normalize-head :
    (c : ℕ) (r : Bytes) → c < 128 → (t : Bytes) × (normalize_percent_escape_hex (c ∷ r) ≡ c ∷ t)
normalize-head c [] h = ([], unfold normalize_percent_escape_hex in push_ascii c h)
normalize-head c (a ∷ []) h = (push_byte a, rw (normalize-short c a, push_ascii c h))
normalize-head c (a ∷ b ∷ r) h = elim (Bool-cases (is_escape c a b)) [
  | inl e ↦ (
    to_ascii_uppercase a ∷ to_ascii_uppercase b ∷ normalize_percent_escape_hex r,
    rw (normalize-escape c a b r e, is_escape-percent c a b e),
  )
  | inr e ↦
      (normalize_percent_escape_hex (a ∷ b ∷ r), rw (normalize-plain c a b r e, push_ascii c h))
]

-- So does the second, unless the first begins an escape.
normalize-heads :
    (a b : ℕ) (r : Bytes)
    → a < 128
    → b < 128
    → (b' : ℕ) × (t : Bytes) × (normalize_percent_escape_hex (a ∷ b ∷ r) ≡ a ∷ b' ∷ t)
      × (is_ascii_hexdigit a ≡ true → b' ≡ b)
normalize-heads a b r ha hb = elim (Bool-cases (a == b'%')) [
  | inl e ↦ percent (ground arith) r
  | inr e ↦
      let (t, q) = normalize-head b r hb in
      (b, t, rw (normalize-literal a (b ∷ r) (ground arith), push_ascii a ha, q), (λ _. refl))
]
  where
    not_hex : a ≡ b'%' → is_ascii_hexdigit a ≡ true → ⊥
    not_hex e k = unfold is_ascii_hexdigit is_ascii_digit in ground arith

    percent :
        a ≡ b'%'
        → (r : Bytes)
        → (b' : ℕ) × (t : Bytes) × (normalize_percent_escape_hex (a ∷ b ∷ r) ≡ a ∷ b' ∷ t)
          × (is_ascii_hexdigit a ≡ true → b' ≡ b)
    percent e [] = (b, [], rw (normalize-short a b, push_ascii a ha, push_ascii b hb), (λ _. refl))
    percent e (d ∷ r) = elim (Bool-cases (is_escape a b d)) [
      | inl p ↦ (
        to_ascii_uppercase b,
        to_ascii_uppercase d ∷ normalize_percent_escape_hex r,
        rw (normalize-escape a b d r p, e),
        (λ k. absurd (not_hex e k)),
      )
      | inr p ↦
          let (t, q) = normalize-head b (d ∷ r) hb in
          (b, t, rw (normalize-plain a b d r p, push_ascii a ha, q), (λ _. refl))
    ]

-- A byte that begins no escape begins none in front of the normalized rest.
normalize-step :
    (c a b : ℕ) (r : Bytes)
    → c < 128
    → a < 128
    → b < 128
    → is_escape c a b ≡ false
    → (w : Bytes) → normalize_percent_escape_hex (a ∷ b ∷ r) ≡ w
    → IsNormalized (a ∷ b ∷ r) w
    → IsNormalized (c ∷ a ∷ b ∷ r) (c ∷ w)
normalize-step c a b r hc ha hb e w p n =
    let (b', t, q, same) = normalize-heads a b r ha hb in
    let v : w ≡ a ∷ b' ∷ t = sym p ∙ q in
    let still : is_escape c a b' ≡ false = still_plain b' same in
    (
      omega (arith, n.0),
      rw (v, normalize-plain c a b' t still, push_ascii c hc) (ap (◌∷◌ c) (rw v at n.1)),
      rw (v, percent_decode-plain c a b' t still, percent_decode-plain c a b r e)
          (ap (◌∷◌ c) (rw v at n.2)),
    )
  where
    still_plain : (b' : ℕ) → (is_ascii_hexdigit a ≡ true → b' ≡ b) → is_escape c a b' ≡ false
    still_plain b' same = elim (Bool-cases (is_ascii_hexdigit a)) [
      | inl k ↦ rw (same k) e
      | inr k ↦ unfold is_escape in ground arith
    ]

upper_escape :
    (c a b : ℕ)
    → is_escape c a b ≡ true
    → is_escape b'%' (to_ascii_uppercase a) (to_ascii_uppercase b) ≡ true
unfolding is_escape
upper_escape c a b e = ground (arith, upper-hex a, upper-hex b)

-- An escape in front of a normalized rest.
escaped :
    (c a b : ℕ)
    → is_escape c a b ≡ true
    → (r w : Bytes) → IsNormalized r w
    → IsNormalized (c ∷ a ∷ b ∷ r) (b'%' ∷ to_ascii_uppercase a ∷ to_ascii_uppercase b ∷ w)
escaped c a b e r w n =
    let ha : is_ascii_hexdigit a ≡ true = unfold is_escape in ground arith in
    let hb : is_ascii_hexdigit b ≡ true = unfold is_escape in ground arith in
    let ua = upper-hex a ha in
    let ub = upper-hex b hb in
    (
      omega (arith, n.0),
      rw (normalize-escape _ _ _ w (upper_escape c a b e), ua.1, ub.1, n.1),
      rw (
        is_escape-percent c a b e,
        percent_decode-escape a b r ha hb,
        percent_decode-escape _ _ w ua.0 ub.0,
        ua.2,
        ub.2,
        n.2,
      ),
    )

normalize-IsNormalized :
    (u : Bytes) → All IsAscii u → IsNormalized u (normalize_percent_escape_hex u)
normalize-IsNormalized [] h = unfold normalize_percent_escape_hex in (refl, refl, refl)
normalize-IsNormalized (c ∷ []) h =
    let p : normalize_percent_escape_hex (c ∷ []) ≡ c ∷ [] =
      unfold normalize_percent_escape_hex in push_ascii c h.0 in
    rw p (refl, p, refl)
normalize-IsNormalized (c ∷ a ∷ []) h =
    let p : normalize_percent_escape_hex (c ∷ a ∷ []) ≡ c ∷ a ∷ [] =
      rw (normalize-short c a, push_ascii c h.0, push_ascii a h.1.0) in
    rw p (refl, p, refl)
normalize-IsNormalized (c ∷ a ∷ b ∷ r) h = elim (Bool-cases (is_escape c a b)) [
  | inl e ↦ rw (normalize-escape c a b r e) (escaped c a b e r _ (normalize-IsNormalized r h.1.1.1))
  | inr e ↦
      rw (normalize-plain c a b r e, push_ascii c h.0)
        (normalize-step c a b r h.0 h.1.0 h.1.1.0 e _ refl (normalize-IsNormalized (a ∷ b ∷ r) h.1))
]

-- What normalizing an ASCII text does: the length stays, a second pass changes nothing, and the text
-- stands for the same bytes.
pub normalize_percent_escape_hex_lem :
    (u : Bytes)
    → All IsAscii u
    → (length (normalize_percent_escape_hex u) ≡ length u)
      × (normalize_percent_escape_hex (normalize_percent_escape_hex u)
          ≡ normalize_percent_escape_hex u)
      × (percent_decode (normalize_percent_escape_hex u) ≡ percent_decode u)
normalize_percent_escape_hex_lem u h = normalize-IsNormalized u h
