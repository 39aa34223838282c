-- ===== src/Prepare/Examples.antt =====
-- The preparation of headers in crates/requests/src/models.rs at concrete inputs.
use requests_native.Prelude.{ℕ, ◌≡◌, refl, true, List, [], ◌∷◌, map, all, Bytes, codes, ok}
use requests_native.Structures.{Text, entry, with_entry, without_entry, IndexMap}
use requests_native.Headers.{
  is_python_whitespace, is_whitespace, validate_header_name, validate_header_value,
}
use requests_native.Prepare.{
  HeaderInput, text, to_prepared, prepare_headers, validate_name, validate_value,
}
use requests_native.Prepare.Names.{AreDistinct, is_valid, last_of, prepare_headers-entries}

-- A map that is the list of its entries.
abbrev list_map : IndexMap (Text × ℕ)
list_map = record {
  Entries = List (Text × (Text × ℕ));
  empty = [];
  set = with_entry;
  find = entry;
  shift_remove = without_entry;
  items = λ m. m;
  items-empty = refl;
  items-set = λ k v m. refl;
  items-shift_remove = λ k m. refl;
  find-items = λ k m. refl;
}

abbrev same : Bytes → Text
same chars = chars

abbrev inputs : List HeaderInput
inputs =
    record { name = text (codes "A"); value = text (codes "1") }
    ∷ record { name = text (codes "b"); value = text (codes "2") }
    ∷ record { name = text (codes "a"); value = text (codes "3") }
    ∷ []

valid_test : all is_valid inputs ≡ true
unfolding is_valid validate_name validate_value validate_header_name validate_header_value
    is_python_whitespace is_whitespace
valid_test = refl

prepare_headers-entries_example :
    (entries : List (Text × (Text × ℕ))) × ((prepare_headers same list_map inputs
        ≡ ok (map to_prepared (map (λ e. e.1) entries)))
      × (AreDistinct entries × ((key : Text) → entry key entries ≡ last_of same key 0 inputs)))
prepare_headers-entries_example = prepare_headers-entries same list_map inputs valid_test
