-- ===== src/Mounting/Examples.antt =====
-- Three adapters, the longest prefix in the middle.
use requests_native.Prelude.{
  ℕ, ◌≡◌, some, List, [], ◌∷◌, map, arith, Bytes, codes, bytes_eq, to_ascii_lowercase,
}
use requests_native.Mounting.{Adapters, find, mount}
use requests_native.Mounting.Order.{IsOrdered}
use requests_native.Mounting.Lookup.{lengths}
use requests_native.Mounting.Mount.{find-mount, mount-IsOrdered}

abbrev adapters : Adapters ℕ
adapters = (codes "https://", 1) ∷ (codes "http://", 2) ∷ []

abbrev mounts : List (Bytes × ℕ)
mounts = (codes "http://", 2) ∷ (codes "http://a/", 3) ∷ (codes "https://", 1) ∷ []

abbrev lower : Bytes → Bytes
lower = map to_ascii_lowercase

mount-IsOrdered_test : IsOrdered (lengths (mount (codes "http://a/") 3 adapters))
unfolding IsOrdered
mount-IsOrdered_test = mount-IsOrdered (codes "http://a/") 3 adapters (ground arith)

find-mount_test : find (codes "http://a/") (mount (codes "http://a/") 3 adapters) ≡ some 3
unfolding bytes_eq
find-mount_test = find-mount (codes "http://a/") (codes "http://a/") 3 adapters
