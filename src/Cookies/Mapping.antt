-- ===== src/Cookies/Mapping.antt =====
-- What `get_dict` of crates/requests/src/cookies.rs maps a name to.
use requests_native.Prelude.{
  ◌≡◌, refl, ◌∙◌, Bool, not, ◌&&◌, ◌||◌, Option, none, some, List, [], ◌∷◌, arith, if◌then◌else◌,
  Bytes, bytes_eq, bytes_eq_iff,
}
use requests_native.Cookies.{CookieSnapshot, JarSnapshot, admits, update, get_dict_from, get_dict}

-- The value of a name in a mapping.
abbrev pub find : Bytes → List (Bytes × Option Bytes) → Option (Option Bytes)
find name [] = none
find name ((n, v) ∷ r) = if bytes_eq n name then some v else find name r

abbrev pub or_else : Option (Option Bytes) → Option (Option Bytes) → Option (Option Bytes)
or_else none b = b
or_else (some a) b = some a

abbrev pub is_selected : Option Bytes → Option Bytes → Bytes → CookieSnapshot → Bool
is_selected domain path name c =
    bytes_eq c.name name && admits domain c.domain && admits path c.path

-- The value of the last cookie of a name in a domain and at a path.
abbrev pub last_value :
    Option Bytes → Option Bytes → Bytes → List CookieSnapshot → Option (Option Bytes)
last_value domain path name [] = none
last_value domain path name (c ∷ cs) =
    or_else (last_value domain path name cs)
      (if is_selected domain path name c then some c.value else none)

-- Every name stands once.
abbrev pub IsUnique : List (Bytes × Option Bytes) → Type 0
IsUnique [] = Unit
IsUnique ((n, v) ∷ r) = (find n r ≡ none) × IsUnique r

find-update :
    (name m : Bytes) (v : Option Bytes) (vs : List (Bytes × Option Bytes))
    → find name (update m v vs) ≡ (if bytes_eq m name then some v else find name vs)
unfolding update
find-update name m v [] = refl
find-update name m v ((n, w) ∷ r) =
    ground
      (arith, find-update name m v r, bytes_eq_iff n m, bytes_eq_iff n name, bytes_eq_iff m name)

update-IsUnique :
    (m : Bytes) (v : Option Bytes) (vs : List (Bytes × Option Bytes))
    → IsUnique vs
    → IsUnique (update m v vs)
unfolding update
update-IsUnique m v [] h = (refl, tt)
update-IsUnique m v ((n, w) ∷ r) h =
    ground
      (arith, find-update n m v r, update-IsUnique m v r h.1, bytes_eq_iff n m, bytes_eq_iff m n)

module _ (domain path : Option Bytes) where
  abbrev stepped : CookieSnapshot → List (Bytes × Option Bytes) → List (Bytes × Option Bytes)
  stepped c vs =
      if not (admits domain c.domain) || not (admits path c.path)
      then vs
      else update c.name c.value vs

  get_dict_from-IsUnique :
      (vs : List (Bytes × Option Bytes)) (cs : List CookieSnapshot)
      → IsUnique vs
      → IsUnique (get_dict_from domain path vs cs)
  unfolding get_dict_from
  get_dict_from-IsUnique vs [] h = h
  get_dict_from-IsUnique vs (c ∷ cs) h =
      get_dict_from-IsUnique (stepped c vs) cs (ground (arith, update-IsUnique c.name c.value vs h))

  find-get_dict_from :
      (name : Bytes) (vs : List (Bytes × Option Bytes)) (cs : List CookieSnapshot)
      → find name (get_dict_from domain path vs cs)
        ≡ or_else (last_value domain path name cs) (find name vs)
  unfolding get_dict_from
  find-get_dict_from name vs [] = refl
  find-get_dict_from name vs (c ∷ cs) =
      find-get_dict_from name (stepped c vs) cs ∙ ground (arith, find-update name c.name c.value vs)

-- The mapping has each name once, with the value of the last cookie of that name in the domain and at
-- the path that are asked for, and no name besides.
pub find-get_dict :
    (jar : JarSnapshot) (domain path : Option Bytes) (name : Bytes)
    → IsUnique (get_dict jar domain path)
      × (find name (get_dict jar domain path) ≡ last_value domain path name jar.cookies)
unfolding get_dict
find-get_dict jar domain path name = (
  get_dict_from-IsUnique domain path [] jar.cookies tt,
  find-get_dict_from domain path name [] jar.cookies ∙ ground arith,
)
