-- ===== src/Proxy/Exchange.antt =====
-- A whole exchange of `socks5_connect` of crates/requests/src/transport/proxy.rs.
use requests_native.Prelude.{
  ℕ, ◌+◌, ◌<◌, ◌≡◌, refl, sym, ap, ◌∙◌, Bool, true, false, ◌&&◌, Option, some, List, [], ◌∷◌, ◌++◌,
  arith, ltb, if◌then◌else◌, lt→ltb, length, take, drop, length-append, Bytes, bytes_eq, ok,
}
use requests_native.Proxy.{length_prefixed}
use requests_native.Proxy.Socks.{
  Stream, Step, and_then, fail, write_all, read_exact, IpAddress, greeting, is_unsupported,
  authenticate, target, address_length, read_reply, to_be_bytes, request, is_set, socks5_connect,
}

take-append : (xs rest : Bytes) → take (length xs) (xs ++ rest) ≡ xs
take-append [] rest = refl
take-append (x ∷ xs) rest = ap (◌∷◌ x) (take-append xs rest)

drop-append : (xs rest : Bytes) → drop (length xs) (xs ++ rest) ≡ rest
drop-append [] rest = refl
drop-append (x ∷ xs) rest = drop-append xs rest

enough : (xs rest : Bytes) → ltb (length (xs ++ rest)) (length xs) ≡ false
enough xs rest = ground (arith, length-append xs rest)

read_exact-append :
    (xs rest out : Bytes)
    → read_exact (length xs) (record { input = xs ++ rest; output = out })
      ≡ (ok xs, record { input = rest; output = out })
unfolding read_exact
read_exact-append xs rest out = rw (enough xs rest, take-append xs rest, drop-append xs rest)

read_exact_ok :
    (n : ℕ) (xs rest out : Bytes)
    → length xs ≡ n
    → read_exact n (record { input = xs ++ rest; output = out })
      ≡ (ok xs, record { input = rest; output = out })
read_exact_ok n xs rest out h = rw (sym h) (read_exact-append xs rest out)

-- The address that the proxy is bound to, with its port.
pub data Bound : Type 0 where
  bound_v4 bound_v6 : Bytes → Bound
  bound_name : ℕ → Bytes → Bound

abbrev pub reply : Bound → Bytes
reply (bound_v4 bytes) = 5 ∷ 0 ∷ 0 ∷ 1 ∷ bytes
reply (bound_v6 bytes) = 5 ∷ 0 ∷ 0 ∷ 4 ∷ bytes
reply (bound_name n bytes) = 5 ∷ 0 ∷ 0 ∷ 3 ∷ n ∷ bytes

abbrev pub IsBound : Bound → Type 0
IsBound (bound_v4 bytes) = length bytes ≡ 6
IsBound (bound_v6 bytes) = length bytes ≡ 18
IsBound (bound_name n bytes) = length bytes ≡ n + 2

read_reply_ok :
    (b : Bound) (rest out : Bytes)
    → IsBound b
    → read_reply (record { input = reply b ++ rest; output = out })
      ≡ (ok tt, record { input = rest; output = out })
unfolding read_reply address_length
read_reply_ok (bound_v4 bytes) rest out h = rw (
  read_exact_ok 4 (5 ∷ 0 ∷ 0 ∷ 1 ∷ []) (bytes ++ rest) out refl,
  read_exact_ok 6 bytes rest out h,
)
read_reply_ok (bound_v6 bytes) rest out h = rw (
  read_exact_ok 4 (5 ∷ 0 ∷ 0 ∷ 4 ∷ []) (bytes ++ rest) out refl,
  read_exact_ok 18 bytes rest out h,
)
read_reply_ok (bound_name n bytes) rest out h = rw (
  read_exact_ok 4 (5 ∷ 0 ∷ 0 ∷ 3 ∷ []) (n ∷ bytes ++ rest) out refl,
  read_exact_ok 1 (n ∷ []) (bytes ++ rest) out refl,
  read_exact_ok (n + 2) bytes rest out h,
)

-- What is sent to ask for an address.
abbrev pub asks : Bytes → ℕ → Bytes
asks address port = 5 ∷ 1 ∷ 0 ∷ address ++ to_be_bytes port

length_prefixed_ok : (v : Bytes) → length v < 256 → length_prefixed v ≡ some (length v ∷ v)
unfolding length_prefixed
length_prefixed_ok v h = rw (lt→ltb (length v) 256 h)

-- What is sent to be let in.
abbrev pub credentials : Bytes → Bytes → Bytes
credentials username password = 1 ∷ (length username ∷ username) ++ length password ∷ password

abbrev accepted : Bytes → Stream → Step (Unit {0})
accepted response s = if bytes_eq response (1 ∷ 0 ∷ []) then (ok tt, s) else fail s

authenticate_sent :
    (username password : Bytes) (s : Stream)
    → length username < 256
    → length password < 256
    → authenticate username password s
      ≡ and_then (read_exact 2 (write_all (credentials username password) s)) accepted
unfolding authenticate
authenticate_sent username password s k l =
    rw (length_prefixed_ok username k, authenticate, length_prefixed_ok password l) refl

sent_answer :
    (bytes rest out : Bytes)
    → read_exact 2 (write_all bytes (record { input = 1 ∷ 0 ∷ rest; output = out }))
      ≡ (ok (1 ∷ 0 ∷ []), record { input = rest; output = out ++ bytes })
unfolding write_all
sent_answer bytes rest out = read_exact_ok 2 (1 ∷ 0 ∷ []) rest (out ++ bytes) refl

authenticate_ok :
    (username password rest out : Bytes)
    → length username < 256
    → length password < 256
    → authenticate username password (record { input = 1 ∷ 0 ∷ rest; output = out })
      ≡ (ok tt, record { input = rest; output = out ++ credentials username password })
unfolding bytes_eq
authenticate_ok username password rest out k l =
    authenticate_sent username password _ k l
    ∙ ap (λ x. and_then x accepted) (sent_answer (credentials username password) rest out)

module _ (username password host : Bytes) (remote_dns : Bool) (parsed : Option IpAddress)
    (resolved : Option (List IpAddress)) (port : ℕ) (address : Bytes) (b : Bound)
    (rest out : Bytes) where
  -- A proxy that asks for no authentication and accepts the address: the exchange succeeds, whether or
  -- not there are credentials. It sent the greeting and the address and no credentials, and it took
  -- nothing of what follows the reply.
  pub socks5_connect_anonymous :
      target host remote_dns parsed resolved ≡ some address
      → IsBound b
      → socks5_connect username password host remote_dns parsed resolved port
          (record { input = 5 ∷ 0 ∷ reply b ++ rest; output = out })
        ≡ (
          ok tt,
          record {
            input = rest;
            output = (out ++ greeting (is_set username && is_set password)) ++ asks address port;
          },
        )
  unfolding socks5_connect write_all is_unsupported request
  socks5_connect_anonymous e h =
      rw
        (
          read_exact_ok 2 (5 ∷ 0 ∷ []) (reply b ++ rest)
              (out ++ greeting (is_set username && is_set password)) refl,
          e,
        )
        (read_reply_ok b rest _ h)

  -- A proxy that asks for the user name and the password and accepts both and the address: the exchange
  -- succeeds where both are set and have at most 255 bytes. It sent the greeting, the credentials with
  -- their lengths and the address, and it took nothing of what follows the reply.
  pub socks5_connect_authenticated :
      is_set username ≡ true
      → is_set password ≡ true
      → length username < 256
      → length password < 256
      → target host remote_dns parsed resolved ≡ some address
      → IsBound b
      → socks5_connect username password host remote_dns parsed resolved port
          (record { input = 5 ∷ 2 ∷ 1 ∷ 0 ∷ reply b ++ rest; output = out })
        ≡ (
          ok tt,
          record {
            input = rest;
            output = ((out ++ greeting true) ++ credentials username password) ++ asks address port;
          },
        )
  unfolding socks5_connect write_all is_unsupported request
  socks5_connect_authenticated p q k l e h =
      rw
        (
          p,
          q,
          read_exact_ok 2 (5 ∷ 2 ∷ []) (1 ∷ 0 ∷ reply b ++ rest) (out ++ greeting true) refl,
          authenticate_ok username password (reply b ++ rest) (out ++ greeting true) k l,
          e,
        )
        (read_reply_ok b rest _ h)
