-- ===== src/Mounting/Order.antt =====
-- The order that `mount_active_adapter` of crates/requests-python/src/sessions.rs keeps.
use requests_native.Prelude.{
  ℕ, ◌≤◌, ◌<◌, ◌≡◌, refl, inl, inr, false, List, [], ◌∷◌, ◌++◌, append_assoc, arith, ltb,
  if◌then◌else◌, ltb→lt, lt→ltb, Bool-cases, All, All-append,
}

-- Lengths that do not grow.
unfoldable pub IsOrdered : List ℕ → Type 0
IsOrdered [] = Unit
IsOrdered (n ∷ ns) = All (λ m. m ≤ n) ns × IsOrdered ns

-- The numbers that are at least, and those below.
abbrev pub at_least : ℕ → List ℕ → List ℕ
at_least b [] = []
at_least b (n ∷ ns) = let rest = at_least b ns in if ltb n b then rest else n ∷ rest

abbrev pub below : ℕ → List ℕ → List ℕ
below b [] = []
below b (n ∷ ns) = let rest = below b ns in if ltb n b then n ∷ rest else rest

All-at_least : (b k : ℕ) (ns : List ℕ) → All (λ m. m ≤ k) ns → All (λ m. m ≤ k) (at_least b ns)
All-at_least b k [] h = h
All-at_least b k (n ∷ ns) (h, i) =
    let j = All-at_least b k ns i in
    elim (Bool-cases (ltb n b)) [ inl e ↦ rw e j | inr e ↦ rw e (h, j) ]

-- Numbers that are all below stay as they are.
below-All : (b : ℕ) (ns : List ℕ) → All (λ m. m < b) ns → (below b ns ≡ ns) × (at_least b ns ≡ [])
below-All b [] h = (refl, refl)
below-All b (n ∷ ns) (h, i) =
    let (j, k) = below-All b ns i in let e = lt→ltb n b h in rw (e, j, k) (refl, refl)

All-weaken : (j k : ℕ) (ns : List ℕ) → j < k → All (λ m. m ≤ j) ns → All (λ m. m < k) ns
All-weaken j k [] h i = i
All-weaken j k (n ∷ ns) h (i, l) = (omega (arith, h, i), All-weaken j k ns h l)

All-below : (b n : ℕ) (ns : List ℕ) → n < b → All (λ m. m ≤ n) ns → All (λ m. m ≤ b) ns
All-below b n [] h i = i
All-below b n (m ∷ ns) h (i, j) = (omega (arith, h, i), All-below b n ns h j)

All-part : (b k : ℕ) (ns : List ℕ) → All (λ m. m ≤ k) ns → All (λ m. m ≤ k) (below b ns)
All-part b k [] h = h
All-part b k (n ∷ ns) (h, i) =
    let j = All-part b k ns i in
    elim (Bool-cases (ltb n b)) [ inl e ↦ rw e (h, j) | inr e ↦ rw e j ]

IsOrdered-below : (b n : ℕ) (ns : List ℕ) → n < b → IsOrdered (n ∷ ns) → IsOrdered (b ∷ n ∷ ns)
unfolding IsOrdered
IsOrdered-below b n ns h (i, j) = ((omega (arith, h), All-below b n ns h i), (i, j))

-- A length put behind those that are at least it.
pub insert-IsOrdered :
    (b : ℕ) (ns : List ℕ) → IsOrdered ns → IsOrdered (at_least b ns ++ b ∷ below b ns)
unfolding IsOrdered
insert-IsOrdered b [] h = (tt, tt)
insert-IsOrdered b (n ∷ ns) (h, i) = elim (Bool-cases (ltb n b)) [
  | inl e ↦
      let l = ltb→lt n b e in
      let (p, q) = below-All b ns (All-weaken n b ns l h) in
      rw (e, p, q) (IsOrdered-below b n ns l (h, i))
  | inr e ↦ rw e (
    All-append (λ m. m ≤ n) (at_least b ns) (b ∷ below b ns) (All-at_least b n ns h)
        (ground (arith, e), All-part b n ns h),
    insert-IsOrdered b ns i,
  )
]

-- Numbers in order that are split stay in order.
pub split-IsOrdered : (b : ℕ) (ns : List ℕ) → IsOrdered ns → IsOrdered (at_least b ns ++ below b ns)
unfolding IsOrdered
split-IsOrdered b [] h = tt
split-IsOrdered b (n ∷ ns) (h, i) = elim (Bool-cases (ltb n b)) [
  | inl e ↦
      let l = ltb→lt n b e in
      let (p, q) = below-All b ns (All-weaken n b ns l h) in rw (e, p, q) (h, i)
  | inr e ↦ rw e (
    All-append (λ m. m ≤ n) (at_least b ns) (below b ns) (All-at_least b n ns h)
        (All-part b n ns h),
    split-IsOrdered b ns i,
  )
]

at_least-append : (b : ℕ) (ns : List ℕ) → at_least b (ns ++ b ∷ []) ≡ at_least b ns ++ b ∷ []
at_least-append b [] = let e : ltb b b ≡ false = ground arith in rw e refl
at_least-append b (n ∷ ns) =
    let i = at_least-append b ns in
    elim (Bool-cases (ltb n b)) [ inl e ↦ rw (e, i) refl | inr e ↦ rw (e, i) refl ]

below-append : (b : ℕ) (ns : List ℕ) → below b (ns ++ b ∷ []) ≡ below b ns
below-append b [] = let e : ltb b b ≡ false = ground arith in rw e refl
below-append b (n ∷ ns) =
    let i = below-append b ns in
    elim (Bool-cases (ltb n b)) [ inl e ↦ rw (e, i) refl | inr e ↦ rw (e, i) refl ]

-- A length that is put at the end, and the lengths split.
pub append-IsOrdered :
    (b : ℕ) (ns : List ℕ)
    → IsOrdered ns
    → IsOrdered (at_least b (ns ++ b ∷ []) ++ below b (ns ++ b ∷ []))
append-IsOrdered b ns h =
    let e = at_least-append b ns in
    let f = below-append b ns in
    let a = append_assoc (at_least b ns) (b ∷ []) (below b ns) in
    rw (e, f, a) (insert-IsOrdered b ns h)
