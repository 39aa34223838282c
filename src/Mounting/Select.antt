-- ===== src/Mounting/Select.antt =====
-- Which adapter a URL gets in crates/requests-python/src/sessions.rs.
use requests_native.Prelude.{
  ℕ, ◌≤◌, ◌≡◌, refl, ◌↔◌, ◌⊎◌, inl, inr, Bool, true, false, none, List, [], ◌∷◌, Bool-cases, length,
  any, Bytes,
}
use requests_native.Mounting.{Adapters, mount, starts_with, select}

-- Whether a URL starts with a prefix, in any case.
abbrev pub is_under : (Bytes → Bytes) → Bytes → Bytes → Bool
unfolding starts_with
is_under lower url prefix = starts_with (lower url) (lower prefix)

module _ {A : Type 0} where
  -- An adapter that is mounted at a prefix.
  abbrev pub IsMounted : Bytes → A → Adapters A → Type 0
  IsMounted p a [] = ⊥
  IsMounted p a ((k, v) ∷ r) = ((p ≡ k) × (a ≡ v)) ⊎ IsMounted p a r

  -- The adapters that mounting gives in turn.
  unfoldable pub mounted : List (Bytes × A) → Adapters A → Adapters A
  unfolding mount
  mounted [] ads = ads
  mounted ((prefix, adapter) ∷ ms) ads = mounted ms (mount prefix adapter ads)

module _ {A : Type 0} (lower : Bytes → Bytes) where
  -- The prefixes that the URL starts with are at most so long.
  abbrev pub AreShorter : Bytes → ℕ → Adapters A → Type 0
  AreShorter url n [] = Unit
  AreShorter url n ((k, v) ∷ r) = (is_under lower url k ≡ true → length k ≤ n) × AreShorter url n r

  -- An adapter is found just where the URL starts with a prefix.
  select-any :
      (url : Bytes) (ads : Adapters A)
      → (select lower url ads ≡ none) ↔ (any (λ e. is_under lower url e.0) ads ≡ false)
  unfolding select
  select-any url [] = ((λ e. refl), (λ e. refl))
  select-any url ((k, v) ∷ ads) =
      let (i, j) = select-any url ads in
      elim (Bool-cases (is_under lower url k)) [
        | inl f ↦ rw f ((λ e. cc), (λ e. cc))
        | inr f ↦ rw f (i, j)
      ]
