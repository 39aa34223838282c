-- ===== src/Cookies/Domains.antt =====
-- What `domains`, `paths` and `multiple_domains` of crates/requests/src/cookies.rs collect.
use requests_native.Prelude.{
  ◌≡◌, refl, ◌∙◌, ◌↔◌, Bool, true, false, ◌||◌, Option, none, some, List, [], ◌∷◌, ◌++◌, map, arith,
  if◌then◌else◌, Bytes, bytes_eq, bytes_eq_iff,
}
use requests_native.Cookies.{
  JarSnapshot, option_eq, contains_option, distinct_from, domains, paths, contains_text,
  multiple_from, multiple_domains,
}

-- No element stands again later.
abbrev pub IsDistinct : List (Option Bytes) → Type 0
IsDistinct [] = Unit
IsDistinct (x ∷ xs) = (contains_option x xs ≡ false) × IsDistinct xs

option_eq_iff : (x y : Option Bytes) → (option_eq x y ≡ true) ↔ (x ≡ y)
unfolding option_eq
option_eq_iff none none = ((λ h. refl), (λ h. refl))
option_eq_iff none (some t) = ground arith
option_eq_iff (some s) none = ground arith
option_eq_iff (some s) (some t) = ground (arith, bytes_eq_iff s t)

contains_option-append :
    (x y : Option Bytes) (xs : List (Option Bytes))
    → contains_option x (xs ++ y ∷ []) ≡ (contains_option x xs || option_eq y x)
unfolding contains_option
contains_option-append x y [] = ground arith
contains_option-append x y (z ∷ xs) = ground (arith, contains_option-append x y xs)

append-IsDistinct :
    (xs : List (Option Bytes)) (y : Option Bytes)
    → IsDistinct xs
    → contains_option y xs ≡ false
    → IsDistinct (xs ++ y ∷ [])
unfolding contains_option
append-IsDistinct [] y h k = (refl, tt)
append-IsDistinct (x ∷ xs) y h k = (
  rw (contains_option-append x y xs) (ground (arith, option_eq_iff x y, option_eq_iff y x)),
  append-IsDistinct xs y h.1 (ground arith),
)

distinct_from-IsDistinct :
    (seen xs : List (Option Bytes)) → IsDistinct seen → IsDistinct (distinct_from seen xs)
unfolding distinct_from
distinct_from-IsDistinct seen [] h = h
distinct_from-IsDistinct seen (x ∷ xs) h =
    distinct_from-IsDistinct (if contains_option x seen then seen else seen ++ x ∷ []) xs
      (ground (arith, append-IsDistinct seen x h))

contains_option-distinct_from :
    (x : Option Bytes) (seen xs : List (Option Bytes))
    → contains_option x (distinct_from seen xs) ≡ (contains_option x seen || contains_option x xs)
unfolding distinct_from contains_option
contains_option-distinct_from x seen [] = ground arith
contains_option-distinct_from x seen (y ∷ ys) =
    contains_option-distinct_from x (if contains_option y seen then seen else seen ++ y ∷ []) ys
    ∙ ground (arith, contains_option-append x y seen, option_eq_iff y x)

-- The domains of a jar are those of its cookies, each once, and so are its paths.
pub domains-IsDistinct :
    (jar : JarSnapshot) (x : Option Bytes)
    → (IsDistinct (domains jar)
        × (contains_option x (domains jar) ≡ contains_option x (map (λ c. c.domain) jar.cookies)))
      × IsDistinct (paths jar)
      × (contains_option x (paths jar) ≡ contains_option x (map (λ c. c.path) jar.cookies))
unfolding domains paths contains_option
domains-IsDistinct jar x = (
  (
    distinct_from-IsDistinct [] (map (λ c. c.domain) jar.cookies) tt,
    contains_option-distinct_from x [] (map (λ c. c.domain) jar.cookies),
  ),
  distinct_from-IsDistinct [] (map (λ c. c.path) jar.cookies) tt,
  contains_option-distinct_from x [] (map (λ c. c.path) jar.cookies),
)

abbrev pub somes : List (Option Bytes) → List Bytes
somes [] = []
somes (none ∷ xs) = somes xs
somes (some x ∷ xs) = x ∷ somes xs

-- An element stands again later.
abbrev pub has_repeat : List Bytes → Bool
has_repeat [] = false
has_repeat (x ∷ xs) = contains_text x xs || has_repeat xs

contains_text-append :
    (x y : Bytes) (xs : List Bytes)
    → contains_text x (xs ++ y ∷ []) ≡ (contains_text x xs || bytes_eq y x)
unfolding contains_text
contains_text-append x y [] = ground arith
contains_text-append x y (z ∷ xs) = ground (arith, contains_text-append x y xs)

-- An element of the first list stands in the second.
abbrev meets : List Bytes → List Bytes → Bool
meets seen [] = false
meets seen (x ∷ xs) = contains_text x seen || meets seen xs

meets-append :
    (seen : List Bytes) (y : Bytes) (xs : List Bytes)
    → meets (seen ++ y ∷ []) xs ≡ (meets seen xs || contains_text y xs)
unfolding contains_text
meets-append seen y [] = refl
meets-append seen y (x ∷ xs) = ground (
  arith,
  meets-append seen y xs,
  contains_text-append x y seen,
  bytes_eq_iff x y,
  bytes_eq_iff y x,
)

multiple_from_lem :
    (seen : List Bytes) (xs : List (Option Bytes))
    → multiple_from seen xs ≡ (meets seen (somes xs) || has_repeat (somes xs))
unfolding multiple_from
multiple_from_lem seen [] = refl
multiple_from_lem seen (none ∷ xs) = multiple_from_lem seen xs
multiple_from_lem seen (some x ∷ xs) =
    ground (arith, multiple_from_lem (seen ++ x ∷ []) xs, meets-append seen x (somes xs))

meets-nil : (xs : List Bytes) → meets [] xs ≡ false
unfolding contains_text
meets-nil [] = refl
meets-nil (x ∷ xs) = meets-nil xs

-- `multiple_domains` says whether a domain stands twice, not whether there are two.
pub multiple_domains-has_repeat :
    (jar : JarSnapshot)
    → multiple_domains jar ≡ has_repeat (somes (map (λ c. c.domain) jar.cookies))
unfolding multiple_domains
multiple_domains-has_repeat jar =
    let xs = map (λ c. c.domain) jar.cookies in
    multiple_from_lem [] xs ∙ ground (arith, meets-nil (somes xs))
