-- ===== src/Mounting/Lookup.antt =====
-- What mounting an adapter does to the dictionary of a session, and which adapter a URL gets, in
-- crates/requests-python/src/sessions.rs.
use requests_native.Prelude.{
  ℕ, ◌≡◌, refl, sym, ap, ◌∙◌, ◌⊎◌, inl, inr, Bool, true, false, Option, some, List, [], ◌∷◌, ◌++◌,
  append_assoc, append-nil, ltb, if◌then◌else◌, Bool-cases, length, Bytes, bytes_eq, bytes_eq_iff,
}
use requests_native.Mounting.{
  Adapters, find, set_item, remove, keys_to_move, move_key, move_keys, mount,
}
use requests_native.Mounting.Order.{at_least, below}

-- A short key is none of the long ones.
long-differs :
    (prefix k l : Bytes)
    → ltb (length k) (length prefix) ≡ false
    → ltb (length l) (length prefix) ≡ true
    → bytes_eq k l ≡ false
long-differs prefix k l h i = elim (Bool-cases (bytes_eq k l)) [
  | inl e ↦ let f = ap (λ x. ltb (length x) (length prefix)) ((bytes_eq_iff k l).0 e) in cc
  | inr e ↦ e
]

bytes_eq_refl : (k : Bytes) → bytes_eq k k ≡ true
bytes_eq_refl k = (bytes_eq_iff k k).1 refl

pub same-choice {ℓ} :
    {A : Type ℓ} (b : Bool) (a v : A) (r : Option A)
    → (if b then some a else r) ≡ (if b then some a else if b then some v else r)
same-choice true a v r = refl
same-choice false a v r = refl

pub swap-choice {ℓ} :
    {A : Type ℓ} (l key k : Bytes) (a v : A) (r : Option A)
    → bytes_eq l key ≡ false
    → (if bytes_eq l k then some v else if bytes_eq key k then some a else r)
      ≡ (if bytes_eq key k then some a else if bytes_eq l k then some v else r)
swap-choice l key k a v r h = elim (Bool-cases (bytes_eq key k)) [
  | inr e ↦ rw e refl
  | inl e ↦ let p = ap (bytes_eq l) (sym ((bytes_eq_iff key k).0 e)) ∙ h in rw (e, p) refl
]

module _ {ℓ} {A : Type ℓ} where
  -- The items whose keys are no shorter than a prefix, and the others.
  abbrev pub longs : Bytes → Adapters A → Adapters A
  longs prefix [] = []
  longs prefix ((k, v) ∷ r) =
      let rest = longs prefix r in if ltb (length k) (length prefix) then rest else (k, v) ∷ rest

  abbrev pub shorts : Bytes → Adapters A → Adapters A
  shorts prefix [] = []
  shorts prefix ((k, v) ∷ r) =
      let rest = shorts prefix r in if ltb (length k) (length prefix) then (k, v) ∷ rest else rest

  abbrev pub lengths : Adapters A → List ℕ
  lengths [] = []
  lengths ((k, v) ∷ r) = length k ∷ lengths r

  -- Items with long keys only.
  abbrev pub AreLong : Bytes → Adapters A → Type 0
  AreLong prefix [] = Unit
  AreLong prefix ((k, v) ∷ r) = (ltb (length k) (length prefix) ≡ false) × AreLong prefix r

  AreLong-append :
      (prefix : Bytes) (xs ys : Adapters A)
      → AreLong prefix xs
      → AreLong prefix ys
      → AreLong prefix (xs ++ ys)
  AreLong-append prefix [] ys h i = i
  AreLong-append prefix ((k, v) ∷ xs) ys (h, j) i = (h, AreLong-append prefix xs ys j i)

  pub find-behind :
      (prefix k : Bytes) (v : A) (ls r : Adapters A)
      → AreLong prefix ls
      → ltb (length k) (length prefix) ≡ true
      → find k (ls ++ (k, v) ∷ r) ≡ some v
  unfolding find
  find-behind prefix k v [] r h i = rw (bytes_eq_refl k) refl
  find-behind prefix k v ((l, w) ∷ ls) r (h, j) i =
      rw (long-differs prefix l k h i) (find-behind prefix k v ls r j i)

  remove-behind :
      (prefix k : Bytes) (v : A) (ls r : Adapters A)
      → AreLong prefix ls
      → ltb (length k) (length prefix) ≡ true
      → remove k (ls ++ (k, v) ∷ r) ≡ ls ++ r
  unfolding remove
  remove-behind prefix k v [] r h i = rw (bytes_eq_refl k) refl
  remove-behind prefix k v ((l, w) ∷ ls) r (h, j) i =
      rw (long-differs prefix l k h i) (ap (λ x. (l, w) ∷ x) (remove-behind prefix k v ls r j i))

  move_key-behind :
      (prefix k : Bytes) (v : A) (ls r : Adapters A)
      → AreLong prefix ls
      → ltb (length k) (length prefix) ≡ true
      → move_key k (ls ++ (k, v) ∷ r) ≡ ls ++ (r ++ (k, v) ∷ [])
  unfolding move_key
  move_key-behind prefix k v ls r h i =
      rw (find-behind prefix k v ls r h i, move_key, remove-behind prefix k v ls r h i)
        (append_assoc ls r ((k, v) ∷ []))

  -- The loop brings the short keys to the end, in the order they had.
  move_keys-parts :
      (prefix : Bytes) (ls xs ms : Adapters A)
      → AreLong prefix ls
      → move_keys (keys_to_move prefix xs) (ls ++ (xs ++ ms))
        ≡ ls ++ (longs prefix xs ++ (ms ++ shorts prefix xs))
  unfolding move_keys keys_to_move
  move_keys-parts prefix ls [] ms h = ap (λ x. ls ++ x) (sym (append-nil ms))
  move_keys-parts prefix ls ((k, v) ∷ xs) ms h =
      elim (Bool-cases (ltb (length k) (length prefix))) [
        | inl e ↦
            let m = move_key-behind prefix k v ls (xs ++ ms) h e in
            let i = move_keys-parts prefix ls xs (ms ++ (k, v) ∷ []) h in
            let a = append_assoc xs ms ((k, v) ∷ []) in
            let b = append_assoc ms ((k, v) ∷ []) (shorts prefix xs) in
            rw e (
              ap (move_keys (keys_to_move prefix xs)) (m ∙ ap (λ x. ls ++ x) a)
              ∙ i
              ∙ ap (λ x. ls ++ (longs prefix xs ++ x)) b)
        | inr e ↦
            let i =
              move_keys-parts prefix (ls ++ (k, v) ∷ []) xs ms
                (AreLong-append prefix ls ((k, v) ∷ []) h (e, tt)) in
            let a = append_assoc ls ((k, v) ∷ []) (xs ++ ms) in
            let b = append_assoc ls ((k, v) ∷ []) (longs prefix xs ++ (ms ++ shorts prefix xs)) in
            rw e (ap (move_keys (keys_to_move prefix xs)) (sym a) ∙ i ∙ b)
      ]

  pub mount-parts :
      (prefix : Bytes) (adapter : A) (ads : Adapters A)
      → mount prefix adapter ads
        ≡ longs prefix (set_item prefix adapter ads) ++ shorts prefix (set_item prefix adapter ads)
  unfolding mount
  mount-parts prefix adapter ads =
      let set = set_item prefix adapter ads in
      ap (move_keys (keys_to_move prefix set)) (sym (append-nil set))
      ∙ move_keys-parts prefix [] set [] tt

  pub lengths-append : (xs ys : Adapters A) → lengths (xs ++ ys) ≡ lengths xs ++ lengths ys
  lengths-append [] ys = refl
  lengths-append ((k, v) ∷ xs) ys = ap (λ x. length k ∷ x) (lengths-append xs ys)

  pub lengths-longs :
      (prefix : Bytes) (xs : Adapters A)
      → (lengths (longs prefix xs) ≡ at_least (length prefix) (lengths xs))
        × (lengths (shorts prefix xs) ≡ below (length prefix) (lengths xs))
  lengths-longs prefix [] = (refl, refl)
  lengths-longs prefix ((k, v) ∷ xs) =
      let (i, j) = lengths-longs prefix xs in
      elim (Bool-cases (ltb (length k) (length prefix))) [
        | inl e ↦ rw e (i, ap (λ x. length k ∷ x) j)
        | inr e ↦ rw e (ap (λ x. length k ∷ x) i, j)
      ]

  pub lengths-set_item :
      (key : Bytes) (value : A) (xs : Adapters A)
      → (lengths (set_item key value xs) ≡ lengths xs)
        ⊎ (lengths (set_item key value xs) ≡ lengths xs ++ length key ∷ [])
  unfolding set_item
  lengths-set_item key value [] = inr refl
  lengths-set_item key value ((k, v) ∷ xs) =
      let i = lengths-set_item key value xs in
      elim (Bool-cases (bytes_eq k key)) [
        | inl e ↦ rw e (inl refl)
        | inr e ↦ rw e (elim i [
          | inl j ↦ inl (ap (λ x. length k ∷ x) j)
          | inr j ↦ inr (ap (λ x. length k ∷ x) j)
        ])
      ]
