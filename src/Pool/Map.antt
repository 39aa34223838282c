-- ===== src/Pool/Map.antt =====
-- Laws of the pool's map, and what it holds at a key.
use requests_native.Prelude.{◌≡◌, refl, none, some, List, [], ◌∷◌, arith, All}
use mathlib.Core.Logic.{ite, if_pos, if_neg}
use requests_native.Pool.Keys.{PoolKey, PoolKey-discrete}
use requests_native.Pool.Leases.{IdleConnection}
use requests_native.Pool.{PoolGeneration, Generations, lookup, insert}

pub lookup-insert :
    (k j : PoolKey) (g : PoolGeneration) (gs : Generations)
    → lookup j (insert k g gs) ≡ ite (PoolKey-discrete k j) (some g) (lookup j gs)
unfolding lookup insert
lookup-insert k j g [] = refl
lookup-insert k j g ((i, h) ∷ gs) = ground (arith, lookup-insert k j g gs)

pub lookup-insert_self :
    (k : PoolKey) (g : PoolGeneration) (gs : Generations) → lookup k (insert k g gs) ≡ some g
lookup-insert_self k g gs = rw (lookup-insert k k g gs, if_pos {P = k ≡ k} _ refl)

-- The idle connections at a key, newest first.
unfoldable pub idle_at : PoolKey → Generations → List IdleConnection
unfolding lookup
idle_at k gs = elim (lookup k gs) [ none ↦ [] | some g ↦ g.idle ]

pub idle_at-insert_self :
    (k : PoolKey) (g : PoolGeneration) (gs : Generations) → idle_at k (insert k g gs) ≡ g.idle
unfolding idle_at
idle_at-insert_self k g gs = rw (lookup-insert_self k g gs, idle_at)

module _ {ℓ} (P : PoolGeneration → Type ℓ) where
  abbrev pub AllGenerations : Generations → Type ℓ
  AllGenerations = All (λ e. P e.1)

  pub insert-All :
      (k : PoolKey) (g : PoolGeneration) (gs : Generations)
      → P g
      → AllGenerations gs
      → AllGenerations (insert k g gs)
  unfolding insert
  insert-All k g [] h hs = (h, tt)
  insert-All k g ((j, x) ∷ gs) h hs = elim (PoolKey-discrete j k) [
    | yes e ↦ rw (if_pos _ e) (h, hs.1)
    | no n ↦ rw (if_neg _ n) (hs.0, insert-All k g gs h hs.1)
  ]

  pub lookup-All :
      (k : PoolKey) (gs : Generations) (g : PoolGeneration)
      → AllGenerations gs
      → lookup k gs ≡ some g
      → P g
  unfolding lookup
  lookup-All k [] g hs e = cc
  lookup-All k ((j, x) ∷ gs) g hs e = elim (PoolKey-discrete j k) [
    | yes q ↦ let p : x ≡ g = ground arith in rw (← p) hs.0
    | no n ↦ lookup-All k gs g hs.1 (ground arith)
  ]
