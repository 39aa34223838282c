-- ===== src/Pool/Keys.antt =====
-- The pool's keys: what two requests must agree on to share a connection.
use requests_native.Prelude.{
  ℕ, true, false, Option, none, some, ◌++◌, if◌then◌else◌, Bytes, codes, bytes_eq,
}
use native.Mathlib.Decide.{ℕ_discrete}
use requests_native.Client.{FilePath, Proxy, socks5, uri, CertificateSource, TlsConfig, Identity}

-- The text of a proxy's key.
abbrev pub ProxyKey : Type 0
ProxyKey = Bytes

pub from_proxy : Proxy → ProxyKey
unfolding uri
from_proxy (socks5 u true) = u ++ codes "#remote-dns"
from_proxy (socks5 u false) = u ++ codes "#local-dns"
from_proxy proxy = uri proxy

pub data TlsPoolKey : Type 0 where
  plain platform disabled : TlsPoolKey
  pem_bundle pem_directory : FilePath → TlsPoolKey

pub from_roots : CertificateSource → TlsPoolKey
from_roots CertificateSource.platform = platform
from_roots (CertificateSource.pem_bundle path) = pem_bundle path
from_roots (CertificateSource.pem_directory path) = pem_directory path
from_roots CertificateSource.disabled = disabled

-- `TlsPoolKey::from_config`.
pub from_config : TlsConfig → TlsPoolKey
unfolding from_roots
from_config tls = from_roots tls.roots

pub record IdentityKey : Type 0 where
  pub certificate_chain : FilePath
  pub private_key : Option FilePath

pub from_identity : Identity → IdentityKey
from_identity identity = record {
  certificate_chain = identity.certificate_chain;
  private_key = identity.private_key;
}

-- An authority is its text in lower case, since the `http` crate compares authorities without regard
-- to case. `Scheme` is its text.
pub record PoolKey : Type 0 where
  pub scheme : Bytes
  pub authority : Bytes
  pub proxy : Option ProxyKey
  pub tls : TlsPoolKey
  pub identity : Option IdentityKey

-- `Authority::port_u16` of the `http` crate is the parameter `port_u16`.
module _ (port_u16 : Bytes → Option ℕ) where
  -- The authority with the port that it leaves out.
  pub with_port : Bytes → Bytes → Option ℕ → Bytes
  with_port scheme authority (some port) = authority
  with_port scheme authority none =
      if bytes_eq scheme (codes "https")
      then authority ++ codes ":443"
      else authority ++ codes ":80"

  pub new : Bytes → Bytes → Option ProxyKey → TlsPoolKey → Option IdentityKey → PoolKey
  unfolding with_port bytes_eq
  new scheme authority proxy tls identity = record {
    scheme = scheme;
    authority = with_port scheme authority (port_u16 authority);
    proxy = proxy;
    tls = tls;
    identity = identity;
  }

unfoldable pub PoolKey-discrete : Discrete PoolKey
PoolKey-discrete = hlevel ℕ_discrete
