-- ===== src/Cookies/Examples.antt =====
-- The theorems on cookies at a concrete jar.
use requests_native.Prelude.{◌≡◌, ◌↔◌, false, Option, none, some, [], ◌∷◌, map, Bytes, codes}
use requests_native.Cookies.{
  CookieSnapshot, JarSnapshot, LookupQuery, value, missing, matching, find_no_duplicates, get_dict,
  domains, paths, contains_option, multiple_domains,
}
use requests_native.Cookies.Lookup.{IsOnly, IsUnset, values_of, find_no_duplicates_iff}
use requests_native.Cookies.Mapping.{find, last_value, IsUnique, find-get_dict}
use requests_native.Cookies.Domains.{
  IsDistinct, domains-IsDistinct, somes, has_repeat, multiple_domains-has_repeat,
}

abbrev cookie : Option Bytes → Option Bytes → CookieSnapshot
cookie set host_name = record {
  name = codes "a";
  value = set;
  domain = host_name;
  path = none;
  secure = false;
  expires = none;
  discard = false;
  rest = [];
}

abbrev host : Option Bytes
host = some (codes "h")

abbrev example_jar : JarSnapshot
example_jar = record { cookies = cookie none host ∷ cookie (some (codes "v")) host ∷ [] }

abbrev example_query : LookupQuery
example_query = record { name = codes "a"; domain = none; path = none; default = [] }

find_no_duplicates_iff_example :
    ((find_no_duplicates example_jar example_query ≡ value (codes "v"))
      ↔ IsOnly (codes "v") (values_of (matching example_query example_jar.cookies)))
    × ((find_no_duplicates example_jar example_query ≡ missing)
        ↔ IsUnset (values_of (matching example_query example_jar.cookies)))
find_no_duplicates_iff_example = find_no_duplicates_iff example_jar example_query (codes "v")

find-get_dict_test :
    IsUnique (get_dict example_jar host none)
    × (find (codes "a") (get_dict example_jar host none)
        ≡ last_value host none (codes "a") example_jar.cookies)
find-get_dict_test = find-get_dict example_jar host none (codes "a")

domains-IsDistinct_test :
    (IsDistinct (domains example_jar)
      × (contains_option host (domains example_jar)
          ≡ contains_option host (map (λ c. c.domain) example_jar.cookies)))
    × IsDistinct (paths example_jar)
    × (contains_option host (paths example_jar)
        ≡ contains_option host (map (λ c. c.path) example_jar.cookies))
domains-IsDistinct_test = domains-IsDistinct example_jar host

multiple_domains-has_repeat_test :
    multiple_domains example_jar ≡ has_repeat (somes (map (λ c. c.domain) example_jar.cookies))
multiple_domains-has_repeat_test = multiple_domains-has_repeat example_jar
