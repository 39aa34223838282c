-- ===== src/Mounting.antt =====
-- The adapters of a session in crates/requests-python/src/sessions.rs: a dictionary of URL prefixes, kept
-- in the order of decreasing length. A dictionary is the list of its items in the order they were set.
pub mod Order
pub mod Lookup
pub mod Mount
pub mod Select
mod Examples
use requests_native.Prelude.{
  ℕ, zero, suc, ◌+◌, ◌-◌, ◌*◌, ◌/◌, ◌%◌, ◌^◌, ◌≤◌, ◌<◌, min, ◌≡◌, refl, sym, ap, ap₂, ◌∙◌, ◌≢◌, ◌↔◌,
  ◌⊎◌, inl, inr, Bool, true, false, not, ◌&&◌, ◌||◌, Option, none, some, List, [], ◌∷◌, ◌++◌, map,
  append_assoc, append-nil, arith, ltb, leb, ◌==◌, if◌then◌else◌, ltb→lt, lt→ltb, leb→le, le→leb,
  ==_iff, Bool-cases, Option-cases, length, take, drop, length-append, take-append-drop, any, all,
  All, All-append, Bytes, IsByte, codes, bytes_eq, bytes_eq_iff, contains_byte, is_ascii_digit,
  is_ascii_uppercase, is_ascii_lowercase, is_ascii_alphanumeric, is_ascii_hexdigit,
  to_ascii_uppercase, to_ascii_lowercase, Result, ok, err, ◌>>=◌, ok_or,
}

abbrev pub Adapters {ℓ} : Type ℓ → Type ℓ
Adapters A = List (Bytes × A)

module _ {ℓ} {A : Type ℓ} where
  unfoldable pub find : Bytes → Adapters A → Option A
  unfolding bytes_eq
  find key [] = none
  find key ((k, v) ∷ r) = if bytes_eq k key then some v else find key r

  -- `set_item`: a key that is there stays in its place.
  unfoldable pub set_item : Bytes → A → Adapters A → Adapters A
  unfolding bytes_eq
  set_item key value [] = (key, value) ∷ []
  set_item key value ((k, v) ∷ r) =
      let rest = set_item key value r in if bytes_eq k key then (k, value) ∷ r else (k, v) ∷ rest

  unfoldable pub remove : Bytes → Adapters A → Adapters A
  unfolding bytes_eq
  remove key [] = []
  remove key ((k, v) ∷ r) = let rest = remove key r in if bytes_eq k key then r else (k, v) ∷ rest

  -- The keys that are shorter than a prefix.
  unfoldable pub keys_to_move : Bytes → Adapters A → List Bytes
  keys_to_move prefix [] = []
  keys_to_move prefix ((k, v) ∷ r) =
      let rest = keys_to_move prefix r in if ltb (length k) (length prefix) then k ∷ rest else rest

  -- `pop` of a key, and the same key set again: it comes to the end.
  unfoldable pub move_key : Bytes → Adapters A → Adapters A
  unfolding find remove
  move_key key adapters = elim (find key adapters) [
    | none ↦ adapters
    | some moved ↦ remove key adapters ++ (key, moved) ∷ []
  ]

  unfoldable pub move_keys : List Bytes → Adapters A → Adapters A
  unfolding move_key
  move_keys [] adapters = adapters
  move_keys (key ∷ keys) adapters = move_keys keys (move_key key adapters)

  -- `mount_active_adapter`, and `inline_base_mount` likewise.
  unfoldable pub mount : Bytes → A → Adapters A → Adapters A
  unfolding set_item keys_to_move move_keys
  mount prefix adapter adapters =
      let set = set_item prefix adapter adapters in move_keys (keys_to_move prefix set) set

-- Python's `startswith`.
unfoldable pub starts_with : Bytes → Bytes → Bool
starts_with text [] = true
starts_with [] (c ∷ prefix) = false
starts_with (t ∷ text) (c ∷ prefix) = let rest = starts_with text prefix in t == c && rest

module _ {ℓ} {A : Type ℓ} (lower : Bytes → Bytes) where
  -- `select_active_adapter`: nothing where no connection adapter was found.
  unfoldable pub select : Bytes → Adapters A → Option A
  unfolding starts_with
  select url [] = none
  select url ((prefix, adapter) ∷ r) =
      if starts_with (lower url) (lower prefix) then some adapter else select url r
