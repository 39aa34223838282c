-- ===== src/Heads/Digits.antt =====
-- Decimal numbers without leading zeroes, as `parsed_response_head` of crates/requests/src/transport/mod.rs
-- compares them.
use requests_native.Prelude.{
  ℕ, suc, ◌+◌, ◌-◌, ◌*◌, ◌≤◌, ◌<◌, ◌≡◌, refl, sym, ap, ap₂, ◌∙◌, ◌≢◌, inl, inr, true, [], ◌∷◌,
  arith, ltb, ◌==◌, ==_iff, Bool-cases, length, all, Bytes, bytes_eq, bytes_eq_iff, is_ascii_digit,
}
use requests_native.Heads.{value_from, trim_leading_ascii_zeroes, is_number}

abbrev pub AreDigits : Bytes → Type 0
AreDigits [] = Unit
AreDigits (b ∷ bs) = ((48 ≤ b) × (b ≤ 57)) × AreDigits bs

digits-AreDigits : (bs : Bytes) → all is_ascii_digit bs ≡ true → AreDigits bs
unfolding is_ascii_digit
digits-AreDigits [] h = tt
digits-AreDigits (b ∷ bs) h = ground (arith, digits-AreDigits bs)

-- Digits of one length behind two numbers.
value_from-injective :
    (a b : ℕ) (ds es : Bytes)
    → length ds ≡ length es
    → AreDigits ds
    → AreDigits es
    → value_from a ds ≡ value_from b es
    → (a ≡ b) × (ds ≡ es)
unfolding value_from
value_from-injective a b [] [] l h i e = (e, refl)
value_from-injective a b [] (e ∷ es) l h i k = ground arith
value_from-injective a b (d ∷ ds) [] l h i k = ground arith
value_from-injective a b (d ∷ ds) (e ∷ es) l (h, j) (i, m) k =
    let (p, q) =
      value_from-injective (a * 10 + (d - 48)) (b * 10 + (e - 48)) ds es (omega (arith, l)) j m k in
    (omega (arith, p, h, i), ap₂ (λ x y. x ∷ y) (omega (arith, p, h, i)) q)

value_from_le : (a : ℕ) (ds : Bytes) → a ≤ value_from a ds
unfolding value_from
value_from_le a [] = omega arith
value_from_le a (d ∷ ds) = omega (arith, value_from_le (a * 10 + (d - 48)) ds)

-- More digits behind a number that has two digits already make a larger one.
value_from-longer :
    (a b : ℕ) (ds es : Bytes)
    → a < 10
    → 10 ≤ b
    → length ds ≤ length es
    → AreDigits ds
    → AreDigits es
    → value_from a ds ≢ value_from b es
unfolding value_from
value_from-longer a b [] [] h i l p q = λ k. omega (arith, h, i, k)
value_from-longer a b (d ∷ ds) [] h i l p q = ground arith
value_from-longer a b ds (e ∷ es) h i l p (q, r) =
    elim (Bool-cases (length ds == suc (length es))) [
      | inl f ↦ λ k.
          let (g, j) =
            value_from-injective a b ds (e ∷ es) ((==_iff (length ds) (suc (length es))).0 f) p
              (q, r) k in
          omega (arith, g, h, i)
      | inr f ↦
          value_from-longer a (b * 10 + (e - 48)) ds es h (omega (arith, i)) (ground (arith, l, f))
            p r
    ]

-- A text of digits without leading zeroes.
abbrev IsCanonical : Bytes → Type 0
IsCanonical [] = ⊥
IsCanonical (d ∷ []) = (48 ≤ d) × (d ≤ 57)
IsCanonical (d ∷ e ∷ ds) = (49 ≤ d) × ((d ≤ 57) × AreDigits (e ∷ ds))

trim_zeroes-IsCanonical :
    (b : ℕ) (bs : Bytes) → AreDigits (b ∷ bs) → IsCanonical (trim_leading_ascii_zeroes (b ∷ bs))
unfolding trim_leading_ascii_zeroes
trim_zeroes-IsCanonical b [] (h, i) = h
trim_zeroes-IsCanonical b (c ∷ bs) (h, i) = elim (Bool-cases (b == b'0')) [
  | inl e ↦ rw e (trim_zeroes-IsCanonical c bs i)
  | inr e ↦ rw e (ground (arith, h, e), (h.1, i))
]

trim_zeroes-value :
    (bs : Bytes) → AreDigits bs → value_from 0 (trim_leading_ascii_zeroes bs) ≡ value_from 0 bs
unfolding trim_leading_ascii_zeroes value_from
trim_zeroes-value [] h = refl
trim_zeroes-value (b ∷ []) h = refl
trim_zeroes-value (b ∷ c ∷ bs) (h, i) = elim (Bool-cases (b == b'0')) [
  | inl e ↦
      let z : 0 * 10 + (b - 48) ≡ 0 = ground (arith, e) in
      rw e (trim_zeroes-value (c ∷ bs) i ∙ ap (λ x. value_from x (c ∷ bs)) (sym z))
  | inr e ↦ rw e refl
]

-- Canonical texts of one value are one text.
canonical-injective :
    (ds es : Bytes) → IsCanonical ds → IsCanonical es → value_from 0 ds ≡ value_from 0 es → ds ≡ es
unfolding value_from
canonical-injective [] es h i k = absurd h
canonical-injective (d ∷ ds) [] h i k = absurd i
canonical-injective (d ∷ []) (e ∷ []) h i k = ap (λ x. x ∷ []) (omega (arith, k, h, i))
canonical-injective (d ∷ []) (e ∷ f ∷ es) h (i, (j, m)) k =
    let v = value_from_le ((0 * 10 + (e - 48)) * 10 + (f - 48)) es in ground (arith, k, h, i, v)
canonical-injective (d ∷ c ∷ ds) (e ∷ []) h i k =
    let v = value_from_le ((0 * 10 + (d - 48)) * 10 + (c - 48)) ds in ground (arith, k, h.0, i, v)
canonical-injective (d ∷ c ∷ ds) (e ∷ f ∷ es) (h, (g, j)) (i, (m, n)) k =
    let p : AreDigits (d ∷ c ∷ ds) = ((omega (arith, h), g), j) in
    let q : AreDigits (e ∷ f ∷ es) = ((omega (arith, i), m), n) in
    elim (Bool-cases (length ds == length es)) [
      | inl x ↦
          let l = (==_iff (length ds) (length es)).0 x in
          (value_from-injective 0 0 (d ∷ c ∷ ds) (e ∷ f ∷ es) (ap (λ y. suc (suc y)) l) p q k).1
      | inr x ↦ elim (Bool-cases (ltb (length ds) (length es))) [
        | inl y ↦ absurd (
            value_from-longer (0 * 10 + (d - 48)) ((0 * 10 + (e - 48)) * 10 + (f - 48)) (c ∷ ds) es
              (omega (arith, g)) (omega (arith, i)) (ground (arith, y)) j n.1 k)
        | inr y ↦ absurd (
            value_from-longer (0 * 10 + (e - 48)) ((0 * 10 + (d - 48)) * 10 + (c - 48)) (f ∷ es) ds
              (omega (arith, m)) (omega (arith, h)) (ground (arith, x, y)) n j.1 (sym k))
      ]
    ]

number-AreDigits : (token : Bytes) → is_number token ≡ true → AreDigits token
number-AreDigits [] h = tt
number-AreDigits (b ∷ bs) h = digits-AreDigits (b ∷ bs) h

number-IsCanonical :
    (token : Bytes) → is_number token ≡ true → IsCanonical (trim_leading_ascii_zeroes token)
number-IsCanonical [] h = cc
number-IsCanonical (b ∷ bs) h = trim_zeroes-IsCanonical b bs (digits-AreDigits (b ∷ bs) h)

pub number-value :
    (token : Bytes)
    → is_number token ≡ true
    → value_from 0 (trim_leading_ascii_zeroes token) ≡ value_from 0 token
number-value token h = trim_zeroes-value token (number-AreDigits token h)

-- Numbers without leading zeroes are one text exactly where they are one number.
pub trim_zeroes-bytes_eq :
    (s t : Bytes)
    → is_number s ≡ true
    → is_number t ≡ true
    → bytes_eq (trim_leading_ascii_zeroes s) (trim_leading_ascii_zeroes t)
      ≡ (value_from 0 s == value_from 0 t)
trim_zeroes-bytes_eq s t h i =
    let a = number-value s h in
    let b = number-value t i in
    let c = trim_leading_ascii_zeroes s in
    let d = trim_leading_ascii_zeroes t in
    elim (Bool-cases (value_from 0 s == value_from 0 t)) [
      | inl e ↦
          let f = (==_iff (value_from 0 s) (value_from 0 t)).0 e in
          let g =
            canonical-injective c d (number-IsCanonical s h) (number-IsCanonical t i)
              (a ∙ f ∙ sym b) in
          (bytes_eq_iff c d).1 g ∙ sym e
      | inr e ↦ elim (Bool-cases (bytes_eq c d)) [
        | inl f ↦
            let g = sym a ∙ ap (value_from 0) ((bytes_eq_iff c d).0 f) ∙ b in ground (arith, e, g)
        | inr f ↦ f ∙ sym e
      ]
    ]
