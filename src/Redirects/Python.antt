-- ===== src/Redirects/Python.antt =====
-- The state of a redirect cursor of crates/requests-python/src/sessions.rs, and what Python supplies, the
-- record `Python`: `urlparse` and its kin, the cookie library, netrc, the environment's proxies, and what
-- reading a body and sending a request answer.
use requests_native.Prelude.{
  ℕ, Bool, true, false, ◌&&◌, ◌||◌, Option, none, some, List, [], ◌∷◌, ◌++◌, ◌==◌, if◌then◌else◌,
  take, Bytes, codes, bytes_eq,
}
use requests_native.Redirects.{Request, Response, ParsedUrl}

-- An exception that ends the iteration.
pub data Failure : Type 0 where
  too_many_redirects : ℕ → Failure
  read_failure send_failure rewind_failure : Failure

-- What reading `content` does: it succeeds, or it raises one of the errors that are caught, or another.
pub data ContentRead : Type 0 where
  content_read content_caught content_raised : ContentRead

abbrev pub Proxies : Type 0
Proxies = List (Bytes × Bytes)

pub record Python (Jar Auth : Type 0) : Type 0 where
  pub urlparse : Bytes → ParsedUrl
  pub geturl : ParsedUrl → Bytes
  pub urljoin : Bytes → Bytes → Bytes
  pub requote_uri : Bytes → Bytes
  pub decode_location : Bytes → Bytes
  pub resolve_proxies : Request Jar → Proxies → Bool → Proxies
  pub get_auth_from_url : Bytes → Bytes × Bytes
  pub basic_auth_str : Bytes → Bytes → Bytes
  pub get_netrc_auth : Bytes → Option Auth
  pub prepare_auth : Auth → Request Jar → Request Jar
  pub extract_cookies : Jar → Request Jar → Response Jar → Jar
  pub merge_cookies : Jar → Jar → Jar
  pub prepare_cookies : Jar → Request Jar → Request Jar
  pub rewind_body : Request Jar → Option (Request Jar)
  pub content : Response Jar → ContentRead
  -- Whether `raw.read(decode_content=False)` succeeds where `content` raised.
  pub raw_read : Response Jar → Bool
  -- What the adapter and the hooks give for the request that is sent after so many responses.
  pub adapter_send : ℕ → Request Jar → Option (Response Jar)

pub record Session (Jar : Type 0) : Type 0 where
  pub max_redirects : ℕ
  pub trust_env : Bool
  pub cookies : Jar

-- `RedirectCursorState`. `histories` is what `history` was set to for each response, the latest first,
-- and `closed` the responses that were closed.
pub record CursorState (Jar : Type 0) : Type 0 where
  pub session : Session Jar
  pub response : Response Jar
  pub request : Request Jar
  pub proxies : Proxies
  pub history : List ℕ
  pub histories : List (ℕ × List ℕ)
  pub closed : List ℕ
  pub url : Option Bytes
  pub previous_fragment : Bytes
  pub stream : Bool
  pub yield_requests : Bool
  pub created : Bool

pub data Advance (Jar : Type 0) : Type 0 where
  yields_response : Response Jar → CursorState Jar → Advance Jar
  yields_request : Request Jar → CursorState Jar → Advance Jar
  done : CursorState Jar → Advance Jar
  fails : Failure → CursorState Jar → Advance Jar

abbrev pub is_redirect_status : ℕ → Bool
is_redirect_status s = s == 301 || s == 302 || s == 303 || s == 307 || s == 308

-- `starts_with` for `//`.
abbrev pub is_network_path : Bytes → Bool
is_network_path (a ∷ b ∷ r) = a == b'/' && b == b'/'
is_network_path _ = false

abbrev pub is_filled : Bytes → Bool
is_filled [] = false
is_filled (c ∷ r) = true

abbrev pub is_some : {A : Type 0} → Option A → Bool
is_some none = false
is_some (some a) = true

abbrev pub find_proxy : Bytes → Proxies → Option Bytes
find_proxy scheme [] = none
find_proxy scheme ((k, v) ∷ ps) =
    let rest = find_proxy scheme ps in if bytes_eq k scheme then some v else rest

module _ {Jar : Type 0} where
  -- `SessionRedirectCursor::from_invocation`.
  unfoldable pub new_cursor :
      Session Jar → Response Jar → Request Jar → Proxies → Bool → Bool → CursorState Jar
  new_cursor session response request proxies stream yield_requests = record {
    session = session;
    response = response;
    request = request;
    proxies = proxies;
    history = [];
    histories = [];
    closed = [];
    url = none;
    previous_fragment = [];
    stream = stream;
    yield_requests = yield_requests;
    created = true;
  }

abbrev pub is_https : Bytes → Bool
is_https s = bytes_eq (take 5 s) (codes "https")

abbrev pub network_url : Bytes → Bytes → Bytes
network_url scheme url = scheme ++ b':' ∷ url
