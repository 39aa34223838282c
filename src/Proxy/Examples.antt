-- ===== src/Proxy/Examples.antt =====
-- The theorems on proxies at concrete texts.
use requests_native.Prelude.{
  ◌≡◌, refl, true, false, none, some, [], ◌∷◌, ◌++◌, arith, if◌then◌else◌, Bytes, codes, ok,
}
use requests_native.Uri.{has_incomplete_percent_escape}
use requests_native.Uri.Escapes.{percent_decode}
use requests_native.Proxy.{percent_bytes, base64}
use requests_native.Proxy.Base64.{unbase64, unbase64-base64}
use requests_native.Proxy.Socks.{v4, greeting, target, socks5_connect}
use requests_native.Proxy.Exchange.{
  bound_v4, reply, asks, credentials, socks5_connect_anonymous, socks5_connect_authenticated,
}
use requests_native.Proxy.Escapes.{percent_bytes-percent_decode}

unbase64-base64_test : unbase64 (base64 (codes "user:pass")) ≡ codes "user:pass"
unbase64-base64_test = unbase64-base64 (codes "user:pass") (ground arith)

percent_bytes-percent_decode_test : percent_bytes (codes "p%40ss") ≡ (
    if has_incomplete_percent_escape (codes "p%40ss")
    then none
    else some (percent_decode (codes "p%40ss")))
percent_bytes-percent_decode_test = percent_bytes-percent_decode (codes "p%40ss")

abbrev four : Bytes
four = 1 ∷ 2 ∷ 3 ∷ 4 ∷ []

abbrev bound_at : Bytes
bound_at = 9 ∷ 9 ∷ 9 ∷ 9 ∷ 0 ∷ 80 ∷ []

example_target : target (codes "h") false (some (v4 four)) none ≡ some (1 ∷ four)
unfolding target
example_target = refl

socks5_connect_anonymous_test :
    socks5_connect [] []
      (codes "h")
      false
      (some (v4 four))
      none
      443
      (record { input = 5 ∷ 0 ∷ reply (bound_v4 bound_at) ++ codes "next"; output = [] })
    ≡ (
      ok tt,
      record { input = codes "next"; output = ([] ++ greeting false) ++ asks (1 ∷ four) 443 },
    )
socks5_connect_anonymous_test =
    socks5_connect_anonymous [] [] (codes "h") false (some (v4 four)) none 443 (1 ∷ four)
      (bound_v4 bound_at) (codes "next") [] example_target refl

socks5_connect_authenticated_example :
    socks5_connect
      (codes "u")
      (codes "p")
      (codes "h")
      false
      (some (v4 four))
      none
      443
      (record { input = 5 ∷ 2 ∷ 1 ∷ 0 ∷ reply (bound_v4 bound_at) ++ codes "next"; output = [] })
    ≡ (
      ok tt,
      record {
        input = codes "next";
        output =
            (([] ++ greeting true) ++ credentials (codes "u") (codes "p")) ++ asks (1 ∷ four) 443;
      },
    )
socks5_connect_authenticated_example =
    socks5_connect_authenticated (codes "u") (codes "p") (codes "h") false (some (v4 four)) none 443
      (1 ∷ four) (bound_v4 bound_at) (codes "next") [] refl refl (omega arith) (omega arith)
      example_target refl
