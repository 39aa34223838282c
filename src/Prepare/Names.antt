-- ===== src/Prepare/Names.antt =====
-- What `prepare_headers` of crates/requests/src/models.rs keeps of the headers it is given.
use requests_native.Prelude.{
  ℕ, ◌+◌, ◌≡◌, refl, sym, ap, ◌∙◌, inl, inr, Bool, true, false, ◌&&◌, Option, none, some, List, [],
  ◌∷◌, map, arith, if◌then◌else◌, Bool-cases, all, Bytes, bytes_eq, bytes_eq_iff,
  to_ascii_lowercase, Result, ok, err,
}
use requests_native.Structures.{
  Text, entry, with_entry, IndexMap, insert, iter, new, CaseInsensitiveMap,
}
use requests_native.Mounting.Lookup.{same-choice, swap-choice}
use requests_native.Prepare.{
  HeaderInput, validate_name, validate_value, to_prepared, name_of, key_of, prepared_headers,
  prepare_from, prepare_headers,
}

-- No key stands in two entries.
abbrev pub AreDistinct : {V : Type 0} → List (Text × V) → Type 0
AreDistinct [] = Unit
AreDistinct ((k, v) ∷ entries) = (entry k entries ≡ none) × AreDistinct entries

bytes_differ : (a b : Text) → bytes_eq a b ≡ false → bytes_eq b a ≡ false
bytes_differ a b e = elim (Bool-cases (bytes_eq b a)) [
  | inl f ↦ let g = (bytes_eq_iff a b).1 (sym ((bytes_eq_iff b a).0 f)) in cc
  | inr f ↦ f
]

module _ {V : Type 0} (key : Text) (value : V) where
  entry-with_entry :
      (k : Text) (entries : List (Text × V))
      → entry k (with_entry key value entries)
        ≡ (if bytes_eq key k then some value else entry k entries)
  unfolding entry with_entry
  entry-with_entry k [] = refl
  entry-with_entry k ((l, v) ∷ entries) = elim (Bool-cases (bytes_eq l key)) [
    | inl e ↦
        let q = (bytes_eq_iff l key).0 e in
        rw (e, q) (same-choice (bytes_eq key k) value v (entry k entries))
    | inr e ↦ rw (e, entry-with_entry k entries) (swap-choice l key k value v (entry k entries) e)
  ]

  other_entry :
      (l : Text) (entries : List (Text × V))
      → bytes_eq l key ≡ false
      → entry l (with_entry key value entries) ≡ entry l entries
  other_entry l entries e = rw (entry-with_entry l entries, bytes_differ l key e) refl

  with_entry-AreDistinct :
      (entries : List (Text × V)) → AreDistinct entries → AreDistinct (with_entry key value entries)
  unfolding entry with_entry
  with_entry-AreDistinct [] d = (refl, tt)
  with_entry-AreDistinct ((l, v) ∷ entries) (n, d) = elim (Bool-cases (bytes_eq l key)) [
    | inl e ↦ rw e (n, d)
    | inr e ↦ rw e (other_entry l entries e ∙ n, with_entry-AreDistinct entries d)
  ]

-- Whether a name and a value are accepted.
abbrev pub is_ok : {E A : Type 0} → Result E A → Bool
is_ok (ok a) = true
is_ok (err e) = false

unfoldable pub is_valid : HeaderInput → Bool
unfolding validate_name validate_value
is_valid header = is_ok (validate_name header.name) && is_ok (validate_value header.value)

ok_of : {E : Type 0} (r : Result E (Unit {0})) → is_ok r ≡ true → r ≡ ok tt
ok_of (ok tt) h = refl
ok_of (err e) h = cc

abbrev or_else : Option (Text × ℕ) → Option (Text × ℕ) → Option (Text × ℕ)
or_else (some a) b = some a
or_else none b = b

chosen :
    (later : Option (Text × ℕ)) (b : Bool) (n : Text × ℕ) (before : Option (Text × ℕ))
    → or_else later (if b then some n else before)
      ≡ or_else (elim later [ some a ↦ some a | none ↦ if b then some n else none ]) before
chosen (some a) b n before = refl
chosen none true n before = refl
chosen none false n before = refl

module _ (lossy : Bytes → Text) where
  -- The last header of a name that is told apart by its case only: how it is written, and where it stands.
  unfoldable pub last_of : Text → ℕ → List HeaderInput → Option (Text × ℕ)
  unfolding name_of to_ascii_lowercase bytes_eq
  last_of key at [] = none
  last_of key at (header ∷ headers) = elim (last_of key (at + 1) headers) [
    | some later ↦ some later
    | none ↦
        if bytes_eq (map to_ascii_lowercase (name_of lossy header)) key
        then some (name_of lossy header, at)
        else none
  ]

  module _ (map_of : IndexMap (Text × ℕ)) where
    -- The map behind headers that are all accepted.
    unfoldable filled : ℕ → CaseInsensitiveMap map_of → List HeaderInput → CaseInsensitiveMap map_of
    unfolding insert key_of name_of
    filled at m [] = m
    filled at m (header ∷ headers) =
        filled (at + 1) (insert map_of m (key_of lossy header) (name_of lossy header) at).0 headers

    prepare_from-filled :
        (headers : List HeaderInput) (at : ℕ) (m : CaseInsensitiveMap map_of)
        → all is_valid headers ≡ true
        → prepare_from lossy map_of at m headers
          ≡ ok (prepared_headers map_of (filled at m headers))
    unfolding prepare_from filled is_valid
    prepare_from-filled [] at m h = refl
    prepare_from-filled (header ∷ headers) at m h =
        let a = ok_of (validate_name header.name) (ground (arith, h)) in
        let b = ok_of (validate_value header.value) (ground (arith, h)) in
        rw (a, b, prepare_from) (prepare_from-filled headers (at + 1) _ (ground (arith, h)))

    filled-AreDistinct :
        (headers : List HeaderInput) (at : ℕ) (m : CaseInsensitiveMap map_of)
        → AreDistinct (map_of.items m)
        → AreDistinct (map_of.items (filled at m headers))
    unfolding filled insert
    filled-AreDistinct [] at m d = d
    filled-AreDistinct (header ∷ headers) at m d = filled-AreDistinct headers (at + 1) _ (
        rw (map_of.items-set (key_of lossy header) (name_of lossy header, at) m)
          (with_entry-AreDistinct _ _ (map_of.items m) d))

    entry-filled :
        (key : Text) (headers : List HeaderInput) (at : ℕ) (m : CaseInsensitiveMap map_of)
        → entry key (map_of.items (filled at m headers))
          ≡ or_else (last_of key at headers) (entry key (map_of.items m))
    unfolding filled insert last_of key_of
    entry-filled key [] at m = refl
    entry-filled key (header ∷ headers) at m =
        let n : Text × ℕ = (name_of lossy header, at) in
        let m1 = (insert map_of m (key_of lossy header) (name_of lossy header) at).0 in
        let h =
          entry-filled key headers (at + 1) m1
          ∙ ap (or_else (last_of key (at + 1) headers)) (
              ap (entry key) (map_of.items-set (key_of lossy header) n m)
              ∙ entry-with_entry (key_of lossy header) n key (map_of.items m)) in
        h ∙ chosen (last_of key (at + 1) headers) (bytes_eq (key_of lossy header) key) n _

or_else-none : (a : Option (Text × ℕ)) → or_else a none ≡ a
or_else-none none = refl
or_else-none (some a) = refl

-- Where all names and values are accepted, `prepare_headers` gives the entries of a map with no key twice.
-- Its keys are the names in lower case, and the entry of a key is the last header with such a name: as it is
-- written there, and with its place.
pub prepare_headers-entries :
    (lossy : Bytes → Text) (map_of : IndexMap (Text × ℕ)) (headers : List HeaderInput)
    → all is_valid headers ≡ true
    → (entries : List (Text × (Text × ℕ))) × ((prepare_headers lossy map_of headers
          ≡ ok (map to_prepared (map (λ e. e.1) entries)))
        × (AreDistinct entries × ((key : Text) → entry key entries ≡ last_of lossy key 0 headers)))
unfolding prepare_headers prepared_headers iter entry
prepare_headers-entries lossy map_of headers h =
    let m = filled lossy map_of 0 (new map_of) headers in
    (
      map_of.items m,
      (
        prepare_from-filled lossy map_of headers 0 (new map_of) h,
        (
          filled-AreDistinct lossy map_of headers 0 (new map_of) (rw map_of.items-empty tt),
          λ key.
              entry-filled lossy map_of key headers 0 (new map_of)
              ∙ rw map_of.items-empty (or_else-none _),
        ),
      ),
    )
