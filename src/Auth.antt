-- ===== src/Auth.antt =====
-- Basic and Digest authentication of crates/requests/src/auth.rs. The hashes, base 64, the parser of URLs,
-- decimal output and Unicode upper case are parameters. A count of nonces wraps as in a release build.
pub mod Counts
mod Examples
pub mod Preparation
pub mod Steps
pub mod Target
pub mod Targets
use requests_native.Prelude.{
  ℕ, zero, suc, ◌+◌, ◌-◌, ◌*◌, ◌/◌, ◌%◌, ◌^◌, ◌≤◌, ◌<◌, min, ◌≡◌, refl, sym, ap, ap₂, ◌∙◌, ◌≢◌, ◌↔◌,
  ◌⊎◌, inl, inr, Bool, true, false, not, ◌&&◌, ◌||◌, Option, none, some, List, [], ◌∷◌, ◌++◌, map,
  append_assoc, append-nil, arith, ltb, leb, ◌==◌, if◌then◌else◌, ltb→lt, lt→ltb, leb→le, le→leb,
  ==_iff, Bool-cases, Option-cases, length, take, drop, length-append, take-append-drop, any, all,
  All, All-append, Bytes, IsByte, codes, bytes_eq, bytes_eq_iff, contains_byte, is_ascii_digit,
  is_ascii_uppercase, is_ascii_lowercase, is_ascii_alphanumeric, is_ascii_hexdigit,
  to_ascii_uppercase, to_ascii_lowercase, Result, ok, err, ◌>>=◌, ok_or,
}

pub record BasicCredentials : Type 0 where
  pub username : Bytes
  pub password : Bytes

-- `BasicCredentials::authorization`; base 64 is a parameter.
unfoldable pub authorization : (Bytes → Bytes) → BasicCredentials → Bytes
authorization base64 c = codes "Basic " ++ base64 (c.username ++ b':' ∷ c.password)

pub record DigestChallenge : Type 0 where
  pub realm : Bytes
  pub nonce : Bytes
  pub qop : Option Bytes
  pub algorithm : Option Bytes
  pub opaque : Option Bytes

pub record DigestState : Type 0 where
  pub last_nonce : Bytes
  pub nonce_count : ℕ

pub record DigestRequest : Type 0 where
  pub username : Bytes
  pub password : Bytes
  pub method : Bytes
  pub url : Bytes
  pub challenge : DigestChallenge

pub data DigestAlgorithm : Type 0 where
  md5 md5_sess sha1 sha256 sha512 : DigestAlgorithm

pub record DigestPlan : Type 0 where
  pub request : DigestRequest
  pub algorithm : DigestAlgorithm
  pub path : Bytes
  pub state : DigestState

pub data DigestPreparation : Type 0 where
  unsupported : DigestState → DigestPreparation
  prepared : DigestPlan → DigestPreparation

pub record DigestOutput : Type 0 where
  pub header : Option Bytes
  pub state : DigestState

-- The digests of `md5`, `sha1` and `sha2`.
pub record Hashes : Type 0 where
  pub md5_of : Bytes → Bytes
  pub sha1_of : Bytes → Bytes
  pub sha256_of : Bytes → Bytes
  pub sha512_of : Bytes → Bytes

abbrev hex_digit : ℕ → ℕ
hex_digit n = if ltb n 10 then b'0' + n else b'a' + (n - 10)

-- The last hexadecimal digits of a number, so many of them: `{:08x}` gives eight of a `u32`.
unfoldable pub hex : ℕ → ℕ → Bytes
hex zero n = []
hex (suc digits) n = hex digits (n / 16) ++ hex_digit (n % 16) ∷ []

-- `hex_digest` of the bytes that a hash gives.
unfoldable pub hex_digest : Bytes → Bytes
unfolding hex
hex_digest [] = []
hex_digest (byte ∷ bytes) = hex 2 byte ++ hex_digest bytes

unfoldable pub digest_hex : Hashes → DigestAlgorithm → Bytes → Bytes
unfolding hex_digest
digest_hex hashes md5 value = hex_digest (hashes.md5_of value)
digest_hex hashes md5_sess value = hex_digest (hashes.md5_of value)
digest_hex hashes sha1 value = hex_digest (hashes.sha1_of value)
digest_hex hashes sha256 value = hex_digest (hashes.sha256_of value)
digest_hex hashes sha512 value = hex_digest (hashes.sha512_of value)

-- The parts of a text between bytes of a kind.
unfoldable pub split : ℕ → Bytes → List Bytes
split separator [] = [] ∷ []
split separator (b ∷ bs) = elim (split separator bs) [
  | [] ↦ [] ∷ []
  | part ∷ parts ↦ if b == separator then [] ∷ part ∷ parts else (b ∷ part) ∷ parts
]

-- What the challenge asks of the quality of protection.
pub data Protection : Type 0 where
  absent offered refused : Protection

unfoldable pub protection : Option Bytes → Protection
unfolding bytes_eq split
protection none = absent
protection (some []) = absent
protection (some (b ∷ bs)) =
    if bytes_eq (b ∷ bs) (codes "auth")
      || any (λ value. bytes_eq value (codes "auth")) (split b',' (b ∷ bs))
    then offered
    else refused

abbrev is_present : Option Bytes → Bool
is_present none = false
is_present (some []) = false
is_present (some (b ∷ bs)) = true

-- A field of the header where there is a value that is not empty.
abbrev optional_field : Bytes → Option Bytes → Bytes
optional_field name none = []
optional_field name (some []) = []
optional_field name (some (b ∷ bs)) = codes ", " ++ name ++ codes "=\"" ++ (b ∷ bs) ++ codes "\""

module _ (hashes : Hashes) (decimal : ℕ → Bytes) (plan : DigestPlan) (ctime random : Bytes) where
  abbrev pub ncvalue : Bytes
  unfolding hex
  ncvalue = hex 8 plan.state.nonce_count

  unfoldable pub cnonce : Bytes
  unfolding hex_digest
  cnonce = take 16 (
      hex_digest (
        hashes.sha1_of
          (decimal plan.state.nonce_count ++ plan.request.challenge.nonce ++ ctime ++ random)))

  -- `ha1`, also for a session.
  unfoldable pub ha1 : Bytes
  unfolding digest_hex cnonce
  ha1 =
      let r = plan.request in
      let once =
        digest_hex hashes plan.algorithm
          (r.username ++ b':' ∷ r.challenge.realm ++ b':' ∷ r.password) in
      elim plan.algorithm [
        | md5_sess ↦
            digest_hex hashes plan.algorithm (once ++ b':' ∷ r.challenge.nonce ++ b':' ∷ cnonce)
        | md5 ↦ once
        | sha1 ↦ once
        | sha256 ↦ once
        | sha512 ↦ once
      ]

  unfoldable pub ha2 : Bytes
  unfolding digest_hex
  ha2 = digest_hex hashes plan.algorithm (plan.request.method ++ b':' ∷ plan.path)

  -- The response, where the protection that is asked for is supported.
  unfoldable pub response : Protection → Option Bytes
  unfolding digest_hex cnonce ha1 ha2
  response absent =
      some (
        digest_hex hashes plan.algorithm (ha1 ++ b':' ∷ plan.request.challenge.nonce ++ b':' ∷ ha2))
  response offered = some (
      digest_hex hashes plan.algorithm (
        ha1
        ++ b':' ∷ plan.request.challenge.nonce
        ++ b':' ∷ ncvalue
        ++ b':' ∷ cnonce
        ++ codes ":auth:"
        ++ ha2))
  response refused = none

  unfoldable pub fields : Bytes → Bytes
  unfolding cnonce
  fields answer =
      let r = plan.request in
      codes "username=\""
      ++ r.username
      ++ codes "\", realm=\""
      ++ r.challenge.realm
      ++ codes "\", nonce=\""
      ++ r.challenge.nonce
      ++ codes "\", uri=\""
      ++ plan.path
      ++ codes "\", response=\""
      ++ answer
      ++ codes "\""
      ++ optional_field (codes "opaque") r.challenge.opaque
      ++ optional_field (codes "algorithm") r.challenge.algorithm
      ++ (if is_present r.challenge.qop
          then codes ", qop=\"auth\", nc=" ++ ncvalue ++ codes ", cnonce=\"" ++ cnonce ++ codes "\""
          else [])

  unfoldable pub finish : DigestOutput
  unfolding protection response fields
  finish = elim (response (protection plan.request.challenge.qop)) [
    | none ↦ record { header = none; state = plan.state }
    | some answer ↦ record {
      header = some (codes "Digest " ++ fields answer);
      state = record plan.state { last_nonce = plan.request.challenge.nonce };
    }
  ]
