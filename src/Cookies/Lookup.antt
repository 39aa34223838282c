-- ===== src/Cookies/Lookup.antt =====
-- What `find_no_duplicates` of crates/requests/src/cookies.rs finds.
use requests_native.Prelude.{
  ◌≡◌, refl, ◌↔◌, Option, none, some, List, [], ◌∷◌, map, arith, All, Bytes,
}
use requests_native.Cookies.{
  CookieSnapshot, JarSnapshot, LookupQuery, value, missing, matching, select_from,
  find_no_duplicates,
}

abbrev pub values_of : List CookieSnapshot → List (Option Bytes)
values_of = map (λ c. c.value)

-- Cookies without a value, and then one with it.
abbrev pub IsOnly : Bytes → List (Option Bytes) → Type 0
IsOnly v [] = ⊥
IsOnly v (none ∷ vs) = IsOnly v vs
IsOnly v (some w ∷ []) = w ≡ v
IsOnly v (some w ∷ _ ∷ vs) = ⊥

abbrev pub IsUnset : List (Option Bytes) → Type 0
IsUnset = All (λ v. v ≡ none)

select_missing_iff :
    (v : Option Bytes) (cs : List CookieSnapshot)
    → (select_from v cs ≡ missing) ↔ IsUnset (v ∷ values_of cs)
unfolding select_from
select_missing_iff none [] = ground arith
select_missing_iff none (c ∷ cs) = ground (arith, select_missing_iff c.value cs)
select_missing_iff (some v) [] = ground arith
select_missing_iff (some v) (c ∷ cs) = ground arith

select_value_iff :
    (u : Bytes) (v : Option Bytes) (cs : List CookieSnapshot)
    → (select_from v cs ≡ value u) ↔ IsOnly u (v ∷ values_of cs)
unfolding select_from
select_value_iff u none [] = ground arith
select_value_iff u none (c ∷ cs) = select_value_iff u c.value cs
select_value_iff u (some v) [] = ((λ h. cc), (λ h. cc))
select_value_iff u (some v) (c ∷ cs) = ground arith

-- A lookup finds a value exactly when it is that of the last cookie that matches and no cookie that
-- matches before it has a value; it misses exactly when no cookie that matches has a value. In all
-- other cases it reports a conflict.
pub find_no_duplicates_iff :
    (jar : JarSnapshot) (query : LookupQuery) (v : Bytes)
    → ((find_no_duplicates jar query ≡ value v) ↔ IsOnly v (values_of (matching query jar.cookies)))
      × ((find_no_duplicates jar query ≡ missing)
          ↔ IsUnset (values_of (matching query jar.cookies)))
unfolding find_no_duplicates
find_no_duplicates_iff jar query v =
    let cs = matching query jar.cookies in
    (
      select_value_iff v none cs,
      (
        (λ h. ((select_missing_iff none cs).0 h).1),
        (λ h. (select_missing_iff none cs).1 (refl, h)),
      ),
    )
