-- ===== src/Auth/Preparation.antt =====
-- `prepare_digest` of crates/requests/src/auth.rs.
use requests_native.Prelude.{
  ◌+◌, ◌%◌, ◌^◌, Option, none, some, if◌then◌else◌, Bytes, codes, bytes_eq,
}
use requests_native.Auth.{
  DigestState, DigestRequest, DigestAlgorithm, md5, md5_sess, sha1, sha256, sha512,
  DigestPreparation, unsupported, prepared,
}
use requests_native.Auth.Target.{ParsedUrl, digest_request_target}

unfoldable pub algorithm_of : Bytes → Option DigestAlgorithm
unfolding bytes_eq
algorithm_of name =
    if bytes_eq name (codes "MD5")
    then some md5
    else if bytes_eq name (codes "MD5-SESS")
    then some md5_sess
    else if bytes_eq name (codes "SHA")
    then some sha1
    else if bytes_eq name (codes "SHA-256")
    then some sha256
    else if bytes_eq name (codes "SHA-512")
    then some sha512
    else none

abbrev pub name_or_default : Option Bytes → Bytes
name_or_default none = codes "MD5"
name_or_default (some name) = name

-- The count for a nonce behind a state.
unfoldable pub counted : DigestState → Bytes → DigestState
unfolding bytes_eq
counted state nonce = record state {
  nonce_count = if bytes_eq nonce state.last_nonce then (state.nonce_count + 1) % 2 ^ 32 else 1;
}

unfoldable pub prepare_digest :
    (Bytes → Option ParsedUrl) → (Bytes → Bytes) → DigestRequest → DigestState → DigestPreparation
unfolding digest_request_target algorithm_of counted
prepare_digest parse to_uppercase request state =
    elim (algorithm_of (to_uppercase (name_or_default request.challenge.algorithm))) [
      | none ↦ unsupported state
      | some algorithm ↦ elim (digest_request_target parse request.url) [
        | none ↦ unsupported state
        | some path ↦ prepared record {
          request = request;
          algorithm = algorithm;
          path = path;
          state = counted state request.challenge.nonce;
        }
      ]
    ]
