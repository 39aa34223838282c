-- ===== src/Cookies.antt =====
-- Cookie snapshots of crates/requests/src/cookies.rs. Texts are their bytes.
mod Lookup
mod Mapping
mod Domains
mod Examples
use requests_native.Prelude.{
  ℕ, zero, suc, ◌+◌, ◌-◌, ◌*◌, ◌/◌, ◌%◌, ◌^◌, ◌≤◌, ◌<◌, min, ◌≡◌, refl, sym, ap, ap₂, ◌∙◌, ◌≢◌, ◌↔◌,
  ◌⊎◌, inl, inr, Bool, true, false, not, ◌&&◌, ◌||◌, Option, none, some, List, [], ◌∷◌, ◌++◌, map,
  append_assoc, append-nil, arith, ltb, leb, ◌==◌, if◌then◌else◌, ltb→lt, lt→ltb, leb→le, le→leb,
  ==_iff, Bool-cases, Option-cases, length, take, drop, length-append, take-append-drop, any, all,
  All, All-append, Bytes, IsByte, codes, bytes_eq, bytes_eq_iff, contains_byte, is_ascii_digit,
  is_ascii_uppercase, is_ascii_lowercase, is_ascii_alphanumeric, is_ascii_hexdigit,
  to_ascii_uppercase, to_ascii_lowercase, Result, ok, err, ◌>>=◌, ok_or,
}
use mathlib.Core.Logic.{ite}
use native.Mathlib.Decide.{ℕ_discrete}
use requests_native.Prelude.{ℤ}

pub data CookieScalar : Type 0 where
  none_scalar : CookieScalar
  bool_scalar : Bool → CookieScalar
  integer : ℤ → CookieScalar
  text : Bytes → CookieScalar

pub record CookieSnapshot : Type 0 where
  pub name : Bytes
  pub value : Option Bytes
  pub domain : Option Bytes
  pub path : Option Bytes
  pub secure : Bool
  pub expires : Option ℤ
  pub discard : Bool
  pub rest : List (Bytes × CookieScalar)

pub record JarSnapshot : Type 0 where
  pub cookies : List CookieSnapshot

pub record LookupQuery : Type 0 where
  pub name : Bytes
  pub domain : Option Bytes
  pub path : Option Bytes
  pub default : Bytes

pub data LookupValue : Type 0 where
  value : Bytes → LookupValue
  missing conflict : LookupValue

pub keys : JarSnapshot → List Bytes
keys jar = map (λ c. c.name) jar.cookies

pub values : JarSnapshot → List (Option Bytes)
values jar = map (λ c. c.value) jar.cookies

pub items : JarSnapshot → List (Bytes × Option Bytes)
items jar = map (λ c. (c.name, c.value)) jar.cookies

-- `==` on optional texts.
unfoldable pub option_eq : Option Bytes → Option Bytes → Bool
unfolding bytes_eq
option_eq none none = true
option_eq (some s) (some t) = bytes_eq s t
option_eq _ _ = false

-- `selected.is_none_or(|s| field == Some(s))`; `is_some_and` with `!=` is its negation.
unfoldable pub admits : Option Bytes → Option Bytes → Bool
unfolding option_eq
admits none field = true
admits (some s) field = option_eq field (some s)

unfoldable pub matching : LookupQuery → List CookieSnapshot → List CookieSnapshot
unfolding admits bytes_eq
matching query [] = []
matching query (c ∷ cs) =
    let rest = matching query cs in
    if bytes_eq c.name query.name && admits query.domain c.domain && admits query.path c.path
    then c ∷ rest
    else rest

-- The loop of `find_no_duplicates`, with the value selected so far.
unfoldable pub select_from : Option Bytes → List CookieSnapshot → LookupValue
select_from none [] = missing
select_from (some v) [] = value v
select_from (some v) (c ∷ cs) = conflict
select_from none (c ∷ cs) = select_from c.value cs

unfoldable pub find_no_duplicates : JarSnapshot → LookupQuery → LookupValue
unfolding matching select_from
find_no_duplicates jar query = select_from none (matching query jar.cookies)

-- The value of a name is replaced where it stands, or the name is put behind the others.
unfoldable pub update :
    Bytes → Option Bytes → List (Bytes × Option Bytes) → List (Bytes × Option Bytes)
unfolding bytes_eq
update name v [] = (name, v) ∷ []
update name v ((n, w) ∷ r) =
    let rest = update name v r in if bytes_eq n name then (n, v) ∷ r else (n, w) ∷ rest

unfoldable pub get_dict_from :
    Option Bytes
    → Option Bytes
    → List (Bytes × Option Bytes)
    → List CookieSnapshot
    → List (Bytes × Option Bytes)
unfolding admits update
get_dict_from domain path vs [] = vs
get_dict_from domain path vs (c ∷ cs) =
    get_dict_from domain path
      (if not (admits domain c.domain) || not (admits path c.path)
        then vs
        else update c.name c.value vs)
      cs

unfoldable pub get_dict : JarSnapshot → Option Bytes → Option Bytes → List (Bytes × Option Bytes)
unfolding get_dict_from
get_dict jar domain path = get_dict_from domain path [] jar.cookies

unfoldable pub contains_option : Option Bytes → List (Option Bytes) → Bool
unfolding option_eq
contains_option x [] = false
contains_option x (y ∷ ys) = option_eq y x || contains_option x ys

-- The loop of `domains` and of `paths`.
unfoldable pub distinct_from : List (Option Bytes) → List (Option Bytes) → List (Option Bytes)
unfolding contains_option
distinct_from seen [] = seen
distinct_from seen (x ∷ xs) =
    distinct_from (if contains_option x seen then seen else seen ++ x ∷ []) xs

unfoldable pub domains : JarSnapshot → List (Option Bytes)
unfolding distinct_from
domains jar = distinct_from [] (map (λ c. c.domain) jar.cookies)

unfoldable pub paths : JarSnapshot → List (Option Bytes)
unfolding distinct_from
paths jar = distinct_from [] (map (λ c. c.path) jar.cookies)

unfoldable pub contains_text : Bytes → List Bytes → Bool
unfolding bytes_eq
contains_text x [] = false
contains_text x (y ∷ ys) = bytes_eq y x || contains_text x ys

unfoldable pub multiple_from : List Bytes → List (Option Bytes) → Bool
unfolding contains_text
multiple_from seen [] = false
multiple_from seen (none ∷ rest) = multiple_from seen rest
multiple_from seen (some domain ∷ rest) =
    let later = multiple_from (seen ++ domain ∷ []) rest in
    if contains_text domain seen then true else later

unfoldable pub multiple_domains : JarSnapshot → Bool
unfolding multiple_from
multiple_domains jar = multiple_from [] (map (λ c. c.domain) jar.cookies)

pub record SnapshotDelta : Type 0 where
  pub before : JarSnapshot
  pub after : JarSnapshot

JarSnapshot-discrete : Discrete JarSnapshot
JarSnapshot-discrete = hlevel ℕ_discrete

pub changed : SnapshotDelta → Bool
unfolding JarSnapshot-discrete
changed d = ite (JarSnapshot-discrete d.before d.after) false true
