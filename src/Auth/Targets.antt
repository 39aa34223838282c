-- ===== src/Auth/Targets.antt =====
-- The request targets that `digest_request_target` of crates/requests/src/auth.rs gives.
use requests_native.Prelude.{
  ℕ, zero, suc, ◌≤◌, ◌<◌, ◌≡◌, refl, sym, inl, inr, Bool, true, false, Option, some, [], ◌∷◌, ◌++◌,
  arith, ◌==◌, if◌then◌else◌, Bool-cases, Option-cases, length, take, any, Bytes, codes,
}
use requests_native.Prelude.{none-some, some_injective}
use requests_native.Auth.Target.{
  ParsedUrl, strip_prefix, is_boundary, before, from, is_empty, lexical_target, final_segment,
  without_params, or_root, with_query, trimmed_target, same_target, target_of,
  digest_request_target,
}

-- A target that starts at the root.
abbrev pub IsAbsolute : Bytes → Type 0
IsAbsolute [] = ⊥
IsAbsolute (b ∷ bs) = b ≡ 47

module _ (p q : ℕ → Bool) where
  any-before : (xs : Bytes) → any p xs ≡ false → any p (before q xs) ≡ false
  unfolding before
  any-before [] h = refl
  any-before (x ∷ xs) h = elim (Bool-cases (q x)) [
    | inl e ↦ rw e refl
    | inr e ↦ rw e (ground (arith, h, any-before xs))
  ]

  any-from : (xs : Bytes) → any p xs ≡ false → any p (from q xs) ≡ false
  unfolding from
  any-from [] h = refl
  any-from (x ∷ xs) h = elim (Bool-cases (q x)) [
    | inl e ↦ rw e h
    | inr e ↦ rw e (any-from xs (ground (arith, h)))
  ]

module _ (p : ℕ → Bool) where
  before-none : (xs : Bytes) → any p (before p xs) ≡ false
  unfolding before
  before-none [] = refl
  before-none (x ∷ xs) = elim (Bool-cases (p x)) [
    | inl e ↦ rw e refl
    | inr e ↦ rw (e, e) (before-none xs)
  ]

  any-take : (n : ℕ) (xs : Bytes) → any p xs ≡ false → any p (take n xs) ≡ false
  any-take zero xs h = refl
  any-take (suc n) [] h = refl
  any-take (suc n) (x ∷ xs) h = ground (arith, h, any-take n xs)

  any-append : (xs ys : Bytes) → any p xs ≡ false → any p ys ≡ false → any p (xs ++ ys) ≡ false
  any-append [] ys h k = k
  any-append (x ∷ xs) ys h k = ground (arith, h, any-append xs ys)

  any-without_params : (path : Bytes) → any p path ≡ false → any p (without_params path) ≡ false
  unfolding without_params
  any-without_params path h = elim (Bool-cases (any (λ b. b == b';') (final_segment path))) [
    | inl e ↦ rw e (any-take _ path h)
    | inr e ↦ rw e h
  ]

length-final_segment : (xs : Bytes) → length (final_segment xs) ≤ length xs
unfolding final_segment
length-final_segment [] = omega arith
length-final_segment (x ∷ xs) = elim (Bool-cases (any (λ c. c == b'/') (x ∷ xs))) [
  | inl e ↦ rw e (omega (arith, length-final_segment xs))
  | inr e ↦ rw e (omega arith)
]

take-IsAbsolute : (n : ℕ) (xs : Bytes) → 0 < n → IsAbsolute (take n (47 ∷ xs))
take-IsAbsolute zero xs h = absurd (omega (arith, h))
take-IsAbsolute (suc n) xs h = refl

without_params-IsAbsolute : (xs : Bytes) → IsAbsolute (without_params (47 ∷ xs))
unfolding without_params final_segment
without_params-IsAbsolute xs = elim (Bool-cases (any (λ b. b == b';') (final_segment (47 ∷ xs)))) [
  | inl e ↦ rw e (take-IsAbsolute _ xs (omega (arith, length-final_segment xs)))
  | inr e ↦ rw e refl
]

append-IsAbsolute : (xs ys : Bytes) → IsAbsolute xs → IsAbsolute (xs ++ ys)
append-IsAbsolute [] ys h = absurd h
append-IsAbsolute (x ∷ xs) ys h = h

lexical_target-boundary :
    (b : ℕ) (bs : Bytes) → is_boundary b ≡ true → IsAbsolute (lexical_target (b ∷ bs))
unfolding lexical_target before
lexical_target-boundary b bs h = elim (Bool-cases (b == 35)) [
  | inl e ↦ rw (e, lexical_target, before) refl
  | inr e ↦ elim (Bool-cases (b == 63)) [
    | inl f ↦ rw (e, f, lexical_target, before) refl
    | inr f ↦ rw (e, f, lexical_target, before) (ground (arith, h, e, f))
  ]
]

lexical_target-IsAbsolute : (r : Bytes) → IsAbsolute (lexical_target (from is_boundary r))
unfolding lexical_target from before
lexical_target-IsAbsolute [] = refl
lexical_target-IsAbsolute (b ∷ bs) = elim (Bool-cases (is_boundary b)) [
  | inl e ↦ rw e (lexical_target-boundary b bs e)
  | inr e ↦ rw e (lexical_target-IsAbsolute bs)
]

abbrev has_fragment : Bytes → Bool
has_fragment bytes = any (λ b. b == 35) bytes

lexical_case :
    (bytes : Bytes)
    → has_fragment bytes ≡ false
    → has_fragment
        (elim bytes [ [] ↦ codes "/" | b ∷ bs ↦ if b == b'?' then b'/' ∷ b ∷ bs else b ∷ bs ])
      ≡ false
lexical_case [] h = refl
lexical_case (b ∷ bs) h = elim (Bool-cases (b == 63)) [ inl e ↦ rw e h | inr e ↦ rw e h ]

lexical_target_fragment : (suffix : Bytes) → has_fragment (lexical_target suffix) ≡ false
unfolding lexical_target
lexical_target_fragment suffix = lexical_case (before (λ b. b == 35) suffix) (before-none _ suffix)

with_query-IsAbsolute : (path query : Bytes) → IsAbsolute path → IsAbsolute (with_query path query)
with_query-IsAbsolute path [] h = h
with_query-IsAbsolute path (mark ∷ query) h = elim (Bool-cases (is_empty query)) [
  | inl e ↦ rw e h
  | inr e ↦ rw e (append-IsAbsolute path _ h)
]

with_query_fragment :
    (path query : Bytes)
    → has_fragment path ≡ false
    → has_fragment query ≡ false
    → has_fragment (with_query path query) ≡ false
with_query_fragment path [] h k = h
with_query_fragment path (mark ∷ query) h k = elim (Bool-cases (is_empty query)) [
  | inl e ↦ rw e h
  | inr e ↦ rw e (any-append (λ b. b == 35) path (63 ∷ query) h (ground (arith, k)))
]

or_root_fragment : (path : Bytes) → has_fragment path ≡ false → has_fragment (or_root path) ≡ false
or_root_fragment [] h = refl
or_root_fragment (b ∷ bs) h = h

trimmed_target-IsAbsolute :
    (target : Bytes) → IsAbsolute target → IsAbsolute (trimmed_target target)
unfolding trimmed_target before
trimmed_target-IsAbsolute [] h = absurd h
trimmed_target-IsAbsolute (b ∷ bs) h = rw h (
    with_query-IsAbsolute _ (from (λ b. b == 63) bs)
      (without_params-IsAbsolute (before (λ b. b == 63) bs)))

trimmed_target_fragment :
    (target : Bytes) → has_fragment target ≡ false → has_fragment (trimmed_target target) ≡ false
unfolding trimmed_target
trimmed_target_fragment target h =
    let p : ℕ → Bool = λ b. b == 35 in
    let q : ℕ → Bool = λ b. b == 63 in
    with_query_fragment (without_params (or_root (before q target))) (from q target)
      (any-without_params p (or_root (before q target))
        (or_root_fragment (before q target) (any-before p q target h)))
      (any-from p q target h)

target_of-IsAbsolute :
    (parse : Bytes → Option ParsedUrl) (url remainder target : Bytes)
    → target_of parse url remainder ≡ some target
    → IsAbsolute target × (has_fragment target ≡ false)
unfolding target_of
target_of-IsAbsolute parse url remainder target e =
    let t = lexical_target (from is_boundary remainder) in
    elim (Bool-cases (is_empty (before is_boundary remainder))) [
      | inl a ↦ absurd (none-some (sym (rw (a, target_of) at e)))
      | inr a ↦ elim (Option-cases (parse url)) [
        | inl b ↦ absurd (none-some (sym (rw (a, b, target_of) at e)))
        | inr (parsed, b) ↦ elim (Bool-cases (same_target parsed t)) [
          | inl c ↦ rw (sym (some_injective (rw (a, b, c, target_of) at e))) (
            trimmed_target-IsAbsolute t (lexical_target-IsAbsolute remainder),
            trimmed_target_fragment t (lexical_target_fragment (from is_boundary remainder)),
          )
          | inr c ↦ absurd (none-some (sym (rw (a, b, c, target_of) at e)))
        ]
      ]
    ]

-- A request target for a digest starts with a slash and has no fragment.
pub digest_request_target-IsAbsolute :
    (parse : Bytes → Option ParsedUrl) (url target : Bytes)
    → digest_request_target parse url ≡ some target
    → IsAbsolute target × (any (λ b. b == b'#') target ≡ false)
unfolding digest_request_target
digest_request_target-IsAbsolute parse url target e =
    elim (Option-cases (strip_prefix (codes "http://") url)) [
      | inr (remainder, a) ↦
          target_of-IsAbsolute parse url remainder target (rw (a, digest_request_target) at e)
      | inl a ↦ elim (Option-cases (strip_prefix (codes "https://") url)) [
        | inr (remainder, b) ↦
            target_of-IsAbsolute parse url remainder target (rw (a, b, digest_request_target) at e)
        | inl b ↦ absurd (none-some (sym (rw (a, b, digest_request_target) at e)))
      ]
    ]
