-- ===== src/Errors.antt =====
-- crates/requests/src/error.rs, without the messages and the numbers of the operating system.
use requests_native.Prelude.{ℕ, Option, none}

pub data ErrorKind : Type 0 where
  body blocking builder chunked_encoding connect connect_timeout connection content_decoding :
      ErrorKind
  dns handshake invalid_header invalid_url missing_schema proxy read_timeout response_body :
      ErrorKind
  retry send tls : ErrorKind

pub record Error : Type 0 where
  pub kind : ErrorKind
  pub incomplete_body : Option (ℕ × ℕ)

-- `Error::plain` and `Error::transport` of a kind.
abbrev pub plain : ErrorKind → Error
plain kind = record { kind = kind; incomplete_body = none }

-- `Error::response_body_hyper`.
abbrev pub response_body_hyper : Option (ℕ × ℕ) → Error
response_body_hyper incomplete = record { kind = response_body; incomplete_body = incomplete }
