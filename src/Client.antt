-- ===== src/Client.antt =====
-- The configuration types of crates/requests/src/client.rs. A `Uri` is its text; a path is the list of
-- its components, by which `PathBuf` compares.
use requests_native.Prelude.{
  Bool, true, false, ◌&&◌, ◌||◌, Option, List, map, Bytes, codes, bytes_eq, to_ascii_lowercase,
}

abbrev pub Uri : Type 0
Uri = Bytes

abbrev pub FilePath : Type 0
FilePath = List Bytes

pub data Proxy : Type 0 where
  http : Uri → Proxy
  https : Uri → Proxy
  socks4 : Uri → Proxy
  socks5 : Uri → Bool → Proxy

-- `Proxy::uri`.
unfoldable pub uri : Proxy → Uri
uri (http u) = u
uri (https u) = u
uri (socks4 u) = u
uri (socks5 u remote_dns) = u

pub data CertificateSource : Type 0 where
  platform : CertificateSource
  pem_bundle : FilePath → CertificateSource
  pem_directory : FilePath → CertificateSource
  disabled : CertificateSource

pub record Identity : Type 0 where
  pub certificate_chain : FilePath
  pub private_key : Option FilePath

pub record TlsConfig : Type 0 where
  pub roots : CertificateSource
  pub identity : Option Identity

pub record ContentCodecs : Type 0 where
  pub brotli : Bool
  pub zstandard : Bool

-- `ContentCodecs::accept_encoding`, by the fields `brotli` and `zstandard`.
pub accept_encoding_by : Bool → Bool → Bytes
accept_encoding_by true true = codes "gzip, deflate, br, zstd"
accept_encoding_by false true = codes "gzip, deflate, zstd"
accept_encoding_by true false = codes "gzip, deflate, br"
accept_encoding_by false false = codes "gzip, deflate"

pub accept_encoding : ContentCodecs → Bytes
unfolding accept_encoding_by
accept_encoding c = accept_encoding_by c.brotli c.zstandard

-- `str::eq_ignore_ascii_case`.
unfoldable pub eq_ignore_ascii_case : Bytes → Bytes → Bool
unfolding bytes_eq to_ascii_lowercase
eq_ignore_ascii_case s t = bytes_eq (map to_ascii_lowercase s) (map to_ascii_lowercase t)

pub decodes : ContentCodecs → Bytes → Bool
unfolding eq_ignore_ascii_case
decodes c encoding =
    eq_ignore_ascii_case encoding (codes "gzip")
    || eq_ignore_ascii_case encoding (codes "x-gzip")
    || eq_ignore_ascii_case encoding (codes "deflate")
    || (c.brotli && eq_ignore_ascii_case encoding (codes "br"))
    || (c.zstandard && eq_ignore_ascii_case encoding (codes "zstd"))
