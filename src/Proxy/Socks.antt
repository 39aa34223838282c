-- ===== src/Proxy/Socks.antt =====
-- `socks5_connect` of crates/requests/src/transport/proxy.rs over a stream: the bytes that the proxy
-- will send and the bytes that were sent to it. A network that fails is one that sends no more bytes. What
-- `IpAddr` parses and what DNS answers are arguments.
use requests_native.Prelude.{
  ℕ, ◌+◌, ◌/◌, ◌%◌, Bool, true, false, not, ◌&&◌, ◌||◌, Option, none, some, List, [], ◌∷◌, ◌++◌,
  ltb, ◌==◌, if◌then◌else◌, length, take, drop, Bytes, bytes_eq, Result, ok, err,
}
use requests_native.Errors.{Error, plain, proxy}
use requests_native.Proxy.{length_prefixed, at_index}

pub record Stream : Type 0 where
  pub input : Bytes
  pub output : Bytes

-- What a step answers, and the stream that it leaves.
abbrev pub Step : Type 0 → Type 0
Step A = Result Error A × Stream

abbrev pub and_then : {A B : Type 0} → Step A → (A → Stream → Step B) → Step B
and_then (err e, s) next = (err e, s)
and_then (ok a, s) next = next a s

abbrev pub fail : {A : Type 0} → Stream → Step A
fail s = (err (plain proxy), s)

unfoldable pub write_all : Bytes → Stream → Stream
write_all bytes s = record s { output = s.output ++ bytes }

unfoldable pub read_exact : ℕ → Stream → Step Bytes
read_exact n s =
    if ltb (length s.input) n
    then fail s
    else (ok (take n s.input), record s { input = drop n s.input })

pub data IpAddress : Type 0 where
  v4 v6 : Bytes → IpAddress

unfoldable pub greeting : Bool → Bytes
greeting true = 5 ∷ 2 ∷ 0 ∷ 2 ∷ []
greeting false = 5 ∷ 1 ∷ 0 ∷ []

unfoldable pub is_unsupported : Bool → Bytes → Bool
is_unsupported authenticated method =
    not (at_index method 0 == 5)
    || (not (at_index method 1 == 0) && (not authenticated || not (at_index method 1 == 2)))

unfoldable pub authenticate : Bytes → Bytes → Stream → Step (Unit {0})
unfolding length_prefixed write_all read_exact bytes_eq
authenticate username password s = elim (length_prefixed username) [
  | none ↦ fail s
  | some u ↦ elim (length_prefixed password) [
    | none ↦ fail s
    | some p ↦
        and_then (read_exact 2 (write_all (1 ∷ u ++ p) s))
          (λ response s'. if bytes_eq response (1 ∷ 0 ∷ []) then (ok tt, s') else fail s')
  ]
]

unfoldable pub octets : IpAddress → Bytes
octets (v4 address) = 1 ∷ address
octets (v6 address) = 4 ∷ address

unfoldable pub resolved_octets : Option IpAddress → Option (List IpAddress) → Option Bytes
unfolding octets
resolved_octets (some address) resolved = some (octets address)
resolved_octets none none = none
resolved_octets none (some []) = none
resolved_octets none (some (address ∷ rest)) = some (octets address)

-- The address that is asked for, with its type.
unfoldable pub target : Bytes → Bool → Option IpAddress → Option (List IpAddress) → Option Bytes
unfolding length_prefixed resolved_octets
target host true none resolved = elim (length_prefixed host) [ none ↦ none | some h ↦ some (3 ∷ h) ]
target host remote_dns address resolved = resolved_octets address resolved

unfoldable pub address_length : Bytes → Stream → Step ℕ
unfolding read_exact
address_length response s =
    if at_index response 3 == 1
    then (ok 4, s)
    else if at_index response 3 == 4
    then (ok 16, s)
    else if at_index response 3 == 3
    then and_then (read_exact 1 s) (λ l s'. (ok (at_index l 0), s'))
    else fail s

unfoldable pub read_reply : Stream → Step (Unit {0})
unfolding read_exact address_length
read_reply s = and_then (read_exact 4 s) (λ response s₁.
    if not (at_index response 0 == 5) || not (at_index response 1 == 0)
    then fail s₁
    else and_then (address_length response s₁)
        (λ n s₂. and_then (read_exact (n + 2) s₂) (λ ignored s₃. (ok tt, s₃))))

-- `port.to_be_bytes()`.
abbrev pub to_be_bytes : ℕ → Bytes
to_be_bytes port = port / 256 ∷ port % 256 ∷ []

unfoldable pub request : Option Bytes → ℕ → Stream → Step (Unit {0})
unfolding write_all read_reply
request none port s = fail s
request (some address) port s = read_reply (write_all (5 ∷ 1 ∷ 0 ∷ address ++ to_be_bytes port) s)

abbrev pub is_set : Bytes → Bool
is_set [] = false
is_set (c ∷ r) = true

-- `socks5_connect`, once the user name and the password are decoded.
unfoldable pub socks5_connect :
    Bytes
    → Bytes
    → Bytes
    → Bool
    → Option IpAddress
    → Option (List IpAddress)
    → ℕ
    → Stream
    → Step (Unit {0})
unfolding greeting write_all read_exact is_unsupported authenticate target request
socks5_connect username password host remote_dns address resolved port s =
    let authenticated = is_set username && is_set password in
    let asked = target host remote_dns address resolved in
    and_then (read_exact 2 (write_all (greeting authenticated) s)) (λ method s₁.
      if is_unsupported authenticated method
      then fail s₁
      else if at_index method 1 == 2
      then and_then (authenticate username password s₁) (λ u s₂. request asked port s₂)
      else request asked port s₁)
