-- ===== src/Auth/Examples.antt =====
-- Digest authentication of crates/requests/src/auth.rs at concrete inputs.
use requests_native.Prelude.{
  ◌+◌, ◌≡◌, refl, true, false, ◌&&◌, Option, none, some, [], ◌∷◌, map, arith, ◌==◌, if◌then◌else◌,
  any, Bytes, codes, bytes_eq, is_ascii_lowercase, to_ascii_uppercase,
}
use requests_native.Auth.{DigestState, DigestRequest, sha256, protection, split}
use requests_native.Auth.Target.{
  ParsedUrl, strip_prefix, before, from, lexical_target, parsed_target, final_segment,
  without_params, trimmed_target, same_target, target_of, digest_request_target,
}
use requests_native.Auth.Preparation.{algorithm_of, name_or_default}
use requests_native.Auth.Counts.{
  Outside, answer, answers, IsSupported, answers-count, answer-header, is_some, is_accepted,
}
use requests_native.Auth.Targets.{IsAbsolute, digest_request_target-IsAbsolute}

abbrev no_bytes : Bytes → Bytes
no_bytes bytes = []

-- A parser that knows one URL.
abbrev one_url : Bytes → Option ParsedUrl
one_url url =
    if bytes_eq url (codes "http://h/a;p?q#f")
    then some record {
      scheme = codes "http";
      has_host = true;
      path = codes "/a;p";
      query = some (codes "q");
    }
    else none

abbrev outside : Outside
outside = record {
  hashes = record {
    md5_of = no_bytes;
    sha1_of = no_bytes;
    sha256_of = no_bytes;
    sha512_of = no_bytes;
  };
  decimal = λ n. [];
  parse = one_url;
  to_uppercase = λ name. map to_ascii_uppercase name;
}

abbrev request : DigestRequest
request = record {
  username = codes "u";
  password = codes "p";
  method = codes "GET";
  url = codes "http://h/a;p?q#f";
  challenge = record {
    realm = codes "r";
    nonce = codes "n";
    qop = some (codes "auth-int,auth");
    algorithm = some (codes "sha-256");
    opaque = none;
  };
}

abbrev unseen : DigestState
unseen = record { last_nonce = []; nonce_count = 7 }

abbrev draw : Bytes × Bytes
draw = ([], [])

target_test : digest_request_target one_url request.url ≡ some (codes "/a?q")
unfolding digest_request_target strip_prefix target_of same_target parsed_target lexical_target
    before from trimmed_target without_params final_segment bytes_eq
target_test = refl

supported : IsSupported outside request
unfolding algorithm_of bytes_eq to_ascii_uppercase is_ascii_lowercase protection split
supported = record {
  algorithm = sha256;
  path = codes "/a?q";
  algorithm_is = refl;
  path_is = target_test;
  protection_is = λ e. cc;
}

answers-count_example :
    answers outside request (draw ∷ draw ∷ draw ∷ []) unseen
    ≡ record { last_nonce = codes "n"; nonce_count = 2 + 1 }
answers-count_example =
    answers-count outside request unseen draw (draw ∷ draw ∷ []) supported (λ e. cc) (omega arith)

answer-header_example :
    let known =
      is_some (algorithm_of (outside.to_uppercase (name_or_default request.challenge.algorithm)))
      && is_some (digest_request_target outside.parse request.url)
      && is_accepted (protection request.challenge.qop) in
    (is_some (answer outside request unseen draw).header ≡ known)
    × ((answer outside request unseen draw).state.last_nonce
        ≡ (if known then request.challenge.nonce else unseen.last_nonce))
answer-header_example = answer-header outside request unseen draw

digest_request_target-IsAbsolute_example :
    IsAbsolute (codes "/a?q") × (any (λ b. b == b'#') (codes "/a?q") ≡ false)
digest_request_target-IsAbsolute_example =
    digest_request_target-IsAbsolute one_url request.url (codes "/a?q") target_test
