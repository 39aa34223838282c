-- ===== src/Retry/Sets.antt =====
-- `BTreeSet` as its items in ascending order, which is what `iter` yields.
use requests_native.Prelude.{
  Bool, true, false, not, ◌&&◌, ◌||◌, List, [], ◌∷◌, ltb, ◌==◌, if◌then◌else◌, Bytes,
}

abbrev pub OrderedSet : Type 0 → Type 0
OrderedSet A = List A

-- The order of `String`: byte by byte, a prefix first.
unfoldable pub bytes_lt : Bytes → Bytes → Bool
bytes_lt [] [] = false
bytes_lt [] (y ∷ ys) = true
bytes_lt (x ∷ xs) [] = false
bytes_lt (x ∷ xs) (y ∷ ys) = ltb x y || (x == y && bytes_lt xs ys)

module _ {A : Type 0} (lt : A → A → Bool) where
  pub put : A → OrderedSet A → OrderedSet A
  put a [] = a ∷ []
  put a (x ∷ xs) = if lt a x then a ∷ x ∷ xs else if lt x a then x ∷ put a xs else x ∷ xs

  -- `iter.collect()`.
  pub collect_into : OrderedSet A → List A → OrderedSet A
  unfolding put
  collect_into set [] = set
  collect_into set (a ∷ as_) = collect_into (put a set) as_

  unfoldable pub collect : List A → OrderedSet A
  unfolding collect_into
  collect as_ = collect_into [] as_

  unfoldable pub holds : A → OrderedSet A → Bool
  holds a [] = false
  holds a (x ∷ xs) = (not (lt a x) && not (lt x a)) || holds a xs
