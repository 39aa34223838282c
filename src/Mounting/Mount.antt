-- ===== src/Mounting/Mount.antt =====
-- What mounting an adapter does to the dictionary of a session, in crates/requests-python/src/sessions.rs.
use requests_native.Prelude.{
  ◌≡◌, refl, sym, ap, ap₂, ◌∙◌, inl, inr, false, some, [], ◌∷◌, ◌++◌, ltb, if◌then◌else◌,
  Bool-cases, length, Bytes, bytes_eq, bytes_eq_iff,
}
use requests_native.Mounting.{Adapters, find, set_item, mount}
use requests_native.Mounting.Order.{IsOrdered, split-IsOrdered, append-IsOrdered}
use requests_native.Mounting.Lookup.{
  same-choice, swap-choice, longs, shorts, lengths, AreLong, find-behind, mount-parts,
  lengths-append, lengths-longs, lengths-set_item,
}

module _ {ℓ} {A : Type ℓ} where
  -- Mounting keeps prefixes in the order of decreasing length.
  pub mount-IsOrdered :
      (prefix : Bytes) (adapter : A) (ads : Adapters A)
      → IsOrdered (lengths ads)
      → IsOrdered (lengths (mount prefix adapter ads))
  mount-IsOrdered prefix adapter ads h =
      let set = set_item prefix adapter ads in
      let (i, j) = lengths-longs prefix set in
      let p =
        ap lengths (mount-parts prefix adapter ads)
        ∙ lengths-append (longs prefix set) (shorts prefix set)
        ∙ ap₂ (λ x y. x ++ y) i j in
      rw p (elim (lengths-set_item prefix adapter ads) [
        | inl e ↦ rw e (split-IsOrdered (length prefix) (lengths ads) h)
        | inr e ↦ rw e (append-IsOrdered (length prefix) (lengths ads) h)
      ])

  AreLong-longs : (prefix : Bytes) (xs : Adapters A) → AreLong prefix (longs prefix xs)
  AreLong-longs prefix [] = tt
  AreLong-longs prefix ((k, v) ∷ xs) =
      let i = AreLong-longs prefix xs in
      elim (Bool-cases (ltb (length k) (length prefix))) [ inl e ↦ rw e i | inr e ↦ rw e (e, i) ]

  find-skip :
      (key k : Bytes) (v : A) (ls r : Adapters A)
      → bytes_eq k key ≡ false
      → find key (ls ++ (k, v) ∷ r) ≡ find key (ls ++ r)
  unfolding find
  find-skip key k v [] r h = rw h refl
  find-skip key k v ((l, w) ∷ ls) r h =
      ap (λ x. if bytes_eq l key then some w else x) (find-skip key k v ls r h)

  -- Splitting by length does not move a key past itself.
  find-parts :
      (prefix key : Bytes) (xs : Adapters A)
      → find key (longs prefix xs ++ shorts prefix xs) ≡ find key xs
  unfolding find
  find-parts prefix key [] = refl
  find-parts prefix key ((k, v) ∷ xs) =
      let i = find-parts prefix key xs in
      elim (Bool-cases (ltb (length k) (length prefix))) [
        | inr e ↦ rw e (ap (λ x. if bytes_eq k key then some v else x) i)
        | inl e ↦ elim (Bool-cases (bytes_eq k key)) [
          | inl f ↦
              let p = (bytes_eq_iff k key).0 f in
              let l =
                find-behind prefix k v (longs prefix xs) (shorts prefix xs)
                  (AreLong-longs prefix xs) e in
              rw (e, f)
                (ap (λ x. find x (longs prefix xs ++ (k, v) ∷ shorts prefix xs)) (sym p) ∙ l)
          | inr f ↦ rw (e, f) (find-skip key k v (longs prefix xs) (shorts prefix xs) f ∙ i)
        ]
      ]

  find-set_item :
      (key k : Bytes) (value : A) (xs : Adapters A)
      → find k (set_item key value xs) ≡ (if bytes_eq key k then some value else find k xs)
  unfolding find set_item
  find-set_item key k value [] = refl
  find-set_item key k value ((l, v) ∷ xs) =
      let i = find-set_item key k value xs in
      elim (Bool-cases (bytes_eq l key)) [
        | inl e ↦
            let p = (bytes_eq_iff l key).0 e in rw (e, p) (same-choice (bytes_eq key k) value v _)
        | inr e ↦
            rw e (ap (λ x. if bytes_eq l k then some v else x) i ∙ swap-choice l key k value v _ e)
      ]

  -- A mounted adapter is found at its prefix, and every other prefix has the adapter it had.
  pub find-mount :
      (prefix key : Bytes) (adapter : A) (ads : Adapters A)
      → find key (mount prefix adapter ads)
        ≡ (if bytes_eq prefix key then some adapter else find key ads)
  find-mount prefix key adapter ads =
      ap (find key) (mount-parts prefix adapter ads)
      ∙ find-parts prefix key (set_item prefix adapter ads)
      ∙ find-set_item prefix key adapter ads
