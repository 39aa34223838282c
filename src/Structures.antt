-- ===== src/Structures.antt =====
-- The ordered map of header names in crates/requests/src/structures.rs. The map of the crate `indexmap` is an
-- interface: its operations, and what is documented of them over its entries in order.
use requests_native.Prelude.{
  ℕ, ◌≡◌, Option, none, some, List, [], ◌∷◌, map, if◌then◌else◌, length, bytes_eq,
}

-- A text is the list of its characters.
abbrev pub Text : Type 0
Text = List ℕ

module _ {V : Type 0} where
  -- The value of a key, in the first entry of it.
  unfoldable pub entry : Text → List (Text × V) → Option V
  unfolding bytes_eq
  entry key [] = none
  entry key ((k, v) ∷ entries) =
      let rest = entry key entries in if bytes_eq k key then some v else rest

  -- The entries with a value for a key: in its place, or at the end.
  unfoldable pub with_entry : Text → V → List (Text × V) → List (Text × V)
  unfolding bytes_eq
  with_entry key value [] = (key, value) ∷ []
  with_entry key value ((k, v) ∷ entries) =
      let rest = with_entry key value entries in
      if bytes_eq k key then (k, value) ∷ entries else (k, v) ∷ rest

  -- The entries without a key, in their order.
  unfoldable pub without_entry : Text → List (Text × V) → List (Text × V)
  unfolding bytes_eq
  without_entry key [] = []
  without_entry key ((k, v) ∷ entries) =
      let rest = without_entry key entries in if bytes_eq k key then entries else (k, v) ∷ rest

pub record IndexMap (V : Type 0) : Type 1 where
  pub Entries : Type 0
  pub empty : Entries
  pub set : Text → V → Entries → Entries
  pub find : Text → Entries → Option V
  pub shift_remove : Text → Entries → Entries
  pub items : Entries → List (Text × V)
  pub items-empty : items empty ≡ []
  pub items-set : (k : Text) (v : V) (m : Entries) → items (set k v m) ≡ with_entry k v (items m)
  pub items-shift_remove :
      (k : Text) (m : Entries) → items (shift_remove k m) ≡ without_entry k (items m)
  pub find-items : (k : Text) (m : Entries) → find k m ≡ entry k (items m)

-- `CaseInsensitiveMap`: each normalized key has the key as it was cased and a value.
module _ {V : Type 0} (map_of : IndexMap (Text × V)) where
  abbrev pub CaseInsensitiveMap : Type 0
  CaseInsensitiveMap = map_of.Entries

  abbrev pub new : CaseInsensitiveMap
  new = map_of.empty

  -- What it returns is what the key had.
  unfoldable pub insert :
      CaseInsensitiveMap → Text → Text → V → CaseInsensitiveMap × Option (Text × V)
  insert entries normalized_key cased_key value =
      (map_of.set normalized_key (cased_key, value) entries, map_of.find normalized_key entries)

  unfoldable pub get : CaseInsensitiveMap → Text → Option V
  get entries normalized_key = elim (map_of.find normalized_key entries) [
    | none ↦ none
    | some (cased_key, value) ↦ some value
  ]

  unfoldable pub remove : CaseInsensitiveMap → Text → CaseInsensitiveMap × Option (Text × V)
  remove entries normalized_key =
      (map_of.shift_remove normalized_key entries, map_of.find normalized_key entries)

  unfoldable pub iter : CaseInsensitiveMap → List (Text × V)
  iter entries = map (λ e. e.1) (map_of.items entries)

  unfoldable pub lower_items : CaseInsensitiveMap → List (Text × V)
  lower_items entries = map (λ e. (e.0, e.1.1)) (map_of.items entries)

  unfoldable pub len : CaseInsensitiveMap → ℕ
  len entries = length (map_of.items entries)
