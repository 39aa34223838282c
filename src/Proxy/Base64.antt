-- ===== src/Proxy/Base64.antt =====
-- What `base64` of crates/requests/src/transport/proxy.rs encodes.
use requests_native.Prelude.{
  ℕ, zero, suc, ◌+◌, ◌*◌, ◌/◌, ◌%◌, ◌<◌, ◌≡◌, refl, ap, ap₂, inl, inr, Bool, true, false, not, ◌&&◌,
  [], ◌∷◌, arith, ◌==◌, if◌then◌else◌, ==_iff, Bool-cases, All, Bytes, IsByte,
}
use requests_native.Proxy.{alphabet, letter, base64}

-- Where a character stands in a text.
abbrev pub index_in : ℕ → Bytes → ℕ
index_in c [] = 0
index_in c (x ∷ xs) = let rest = index_in c xs in if x == c then 0 else suc rest

unfoldable pub digit : ℕ → ℕ
digit c = index_in c alphabet

-- The bytes of a base 64 text: the groups of four characters, of which the last may be padded.
unfoldable pub unbase64 : Bytes → Bytes
unfolding digit
unbase64 (a ∷ b ∷ c ∷ d ∷ r) =
    let rest = unbase64 r in
    let x = digit a * 4 + digit b / 16 in
    let y = digit b % 16 * 16 + digit c / 4 in
    let z = digit c % 4 * 64 + digit d in
    if c == b'=' then x ∷ [] else if d == b'=' then x ∷ y ∷ [] else x ∷ y ∷ z ∷ rest
unbase64 _ = []

-- A test that holds below a bound.
abbrev all_below : (ℕ → Bool) → ℕ → Bool
all_below p zero = true
all_below p (suc n) = p n && all_below p n

all_below_lem : (p : ℕ → Bool) (k n : ℕ) → all_below p k ≡ true → n < k → p n ≡ true
all_below_lem p zero n h b = absurd (omega arith)
all_below_lem p (suc k) n h b = elim (Bool-cases (n == k)) [
  | inl e ↦ rw ((==_iff n k).0 e) (ground (arith, h))
  | inr e ↦ all_below_lem p k n (ground (arith, h)) (ground (arith, e, b))
]

abbrev is_letter : ℕ → Bool
is_letter n = digit (letter n) == n && not (letter n == b'=')

letters : all_below is_letter 64 ≡ true
unfolding digit letter
letters = refl

digit-letter : (n : ℕ) → n < 64 → (digit (letter n) ≡ n) × ((letter n == b'=') ≡ false)
digit-letter n h = ground (arith, all_below_lem is_letter 64 n letters h)

digit_pad : digit b'=' ≡ 64
unfolding digit
digit_pad = refl

first_byte : (a k : ℕ) → k < 16 → a / 4 * 4 + (a % 4 * 16 + k) / 16 ≡ a
first_byte a k h = omega arith

second_byte :
    (a b k : ℕ) → b < 256 → k < 4 → (a % 4 * 16 + b / 16) % 16 * 16 + (b % 16 * 4 + k) / 4 ≡ b
second_byte a b k h l = omega arith

third_byte : (b c : ℕ) → c < 256 → (b % 16 * 4 + c / 64) % 4 * 64 + c % 64 ≡ c
third_byte b c h = omega arith

-- Every text of bytes is read back from its base 64 encoding.
pub unbase64-base64 : (v : Bytes) → All IsByte v → unbase64 (base64 v) ≡ v
unfolding base64 unbase64
unbase64-base64 [] h = refl
unbase64-base64 (a ∷ []) h =
    let p = digit-letter (a / 4) (omega (arith, h.0)) in
    let q = digit-letter (a % 4 * 16) (omega arith) in
    rw (p.0, q.0) (ap (λ x. x ∷ []) (omega arith))
unbase64-base64 (a ∷ b ∷ []) h =
    let p = digit-letter (a / 4) (omega (arith, h.0)) in
    let q = digit-letter (a % 4 * 16 + b / 16) (omega (arith, h.1.0)) in
    let t = digit-letter (b % 16 * 4) (omega arith) in
    rw (t.1, p.0, q.0, t.0)
      (ap₂ (λ x y. x ∷ y ∷ []) (first_byte a (b / 16) (omega (arith, h.1.0)))
        (omega (arith, h.1.0)))
unbase64-base64 (a ∷ b ∷ c ∷ r) h =
    let p = digit-letter (a / 4) (omega (arith, h.0)) in
    let q = digit-letter (a % 4 * 16 + b / 16) (omega (arith, h.1.0)) in
    let t = digit-letter (b % 16 * 4 + c / 64) (omega (arith, h.1.1.0)) in
    let u = digit-letter (c % 64) (omega arith) in
    rw (t.1, u.1, p.0, q.0, t.0, u.0, unbase64-base64 r h.1.1.1)
      (ap₂ ◌∷◌ (first_byte a (b / 16) (omega (arith, h.1.0))) (
        ap₂ ◌∷◌ (second_byte a b (c / 64) h.1.0 (omega (arith, h.1.1.0)))
          (ap (λ x. x ∷ r) (third_byte b c h.1.1.0))))
