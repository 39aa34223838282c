-- ===== src/Redirects.antt =====
-- The redirects of a session in crates/requests-python/src/sessions.rs, for objects whose methods are
-- the library's own: attributes are fields, a response is known by its number, and a header mapping is
-- the list of its items in order.
pub mod Python
pub mod Rebuild
pub mod Advance
pub mod Steps
pub mod Modes
pub mod Send
pub mod Loop
pub mod History
pub mod Outcomes
pub mod Nested
pub mod Limit
pub mod Cursor
pub mod Protocol
pub mod Claims
pub mod Auth
mod Examples
use requests_native.Prelude.{
  ℕ, zero, suc, ◌+◌, ◌-◌, ◌*◌, ◌/◌, ◌%◌, ◌^◌, ◌≤◌, ◌<◌, min, ◌≡◌, refl, sym, ap, ap₂, ◌∙◌, ◌≢◌, ◌↔◌,
  ◌⊎◌, inl, inr, Bool, true, false, not, ◌&&◌, ◌||◌, Option, none, some, List, [], ◌∷◌, ◌++◌, map,
  append_assoc, append-nil, arith, ltb, leb, ◌==◌, if◌then◌else◌, ltb→lt, lt→ltb, leb→le, le→leb,
  ==_iff, Bool-cases, Option-cases, length, take, drop, length-append, take-append-drop, any, all,
  All, All-append, Bytes, IsByte, codes, bytes_eq, bytes_eq_iff, contains_byte, is_ascii_digit,
  is_ascii_uppercase, is_ascii_lowercase, is_ascii_alphanumeric, is_ascii_hexdigit,
  to_ascii_uppercase, to_ascii_lowercase, Result, ok, err, ◌>>=◌, ok_or,
}
use requests_native.Client.{eq_ignore_ascii_case}

abbrev pub Headers : Type 0
Headers = List (Bytes × Bytes)

unfoldable pub contains_header : Bytes → Headers → Bool
unfolding eq_ignore_ascii_case
contains_header name [] = false
contains_header name ((n, v) ∷ hs) = eq_ignore_ascii_case n name || contains_header name hs

-- `pop(name, None)`, and `del` of a name that is there.
unfoldable pub remove_header : Bytes → Headers → Headers
unfolding eq_ignore_ascii_case
remove_header name [] = []
remove_header name ((n, v) ∷ hs) =
    let rest = remove_header name hs in if eq_ignore_ascii_case n name then rest else (n, v) ∷ rest

unfoldable pub set_header : Bytes → Bytes → Headers → Headers
unfolding eq_ignore_ascii_case
set_header name value [] = (name, value) ∷ []
set_header name value ((n, v) ∷ hs) =
    let rest = set_header name value hs in
    if eq_ignore_ascii_case n name then (name, value) ∷ hs else (n, v) ∷ rest

-- What `urlparse` gives; `other` stands for the parts that redirects do not look at.
pub record ParsedUrl : Type 0 where
  pub scheme : Bytes
  pub netloc : Bytes
  pub hostname : Option Bytes
  pub port : Option ℕ
  pub fragment : Bytes
  pub other : Bytes

pub record Request (Jar : Type 0) : Type 0 where
  pub method : Bytes
  pub url : Bytes
  pub headers : Headers
  pub body : Option Bytes
  pub body_position : Option ℕ
  pub jar : Jar

pub record Response (Jar : Type 0) : Type 0 where
  pub id : ℕ
  pub request : Request Jar
  pub url : Bytes
  pub status_code : ℕ
  pub location : Option Bytes

unfoldable pub option_eq : Option ℕ → Option ℕ → Bool
option_eq none none = true
option_eq (some a) (some b) = a == b
option_eq _ _ = false

unfoldable pub hostname_eq : Option Bytes → Option Bytes → Bool
unfolding bytes_eq
hostname_eq none none = true
hostname_eq (some a) (some b) = bytes_eq a b
hostname_eq _ _ = false

-- `DEFAULT_PORTS.get(scheme)`.
unfoldable pub default_port : Bytes → Option ℕ
unfolding bytes_eq
default_port scheme =
    if bytes_eq scheme (codes "http")
    then some 80
    else if bytes_eq scheme (codes "https")
    then some 443
    else none

-- Whether a port is the default one or left out.
unfoldable pub is_default : Option ℕ → Option ℕ → Bool
unfolding option_eq
is_default default none = true
is_default default (some port) = option_eq (some port) default

unfoldable pub should_strip_auth : ParsedUrl → ParsedUrl → Bool
unfolding hostname_eq is_default default_port bytes_eq option_eq
should_strip_auth old new =
    if not (hostname_eq old.hostname new.hostname)
    then true
    else if bytes_eq old.scheme (codes "http")
        && is_default (some 80) old.port
        && bytes_eq new.scheme (codes "https")
        && is_default (some 443) new.port
    then false
    else if bytes_eq old.scheme new.scheme
        && is_default (default_port old.scheme) old.port
        && is_default (default_port old.scheme) new.port
    then false
    else not (option_eq old.port new.port) || not (bytes_eq old.scheme new.scheme)

-- What a method is changed to for a status: three tests in order, each of the method that the request
-- had.
unfoldable pub rebuild_method : Bytes → ℕ → Bytes
unfolding bytes_eq
rebuild_method original status =
    let see_other =
      if status == 303 && not (bytes_eq original (codes "HEAD")) then codes "GET" else original in
    let found =
      if status == 302 && not (bytes_eq original (codes "HEAD")) then codes "GET" else see_other in
    if status == 301 && bytes_eq original (codes "POST") then codes "GET" else found

-- Whether a status keeps the body and the headers about it.
unfoldable pub preserves : ℕ → Bool
preserves status = status == 307 || status == 308

module _ {Jar : Type 0} where
  unfoldable pub purge : Request Jar → ℕ → Request Jar
  unfolding preserves remove_header
  purge prepared status = if preserves status then prepared else record prepared {
    headers = remove_header (codes "Transfer-Encoding") (
        remove_header (codes "Content-Type")
          (remove_header (codes "Content-Length") prepared.headers));
    body = none;
  }

  unfoldable pub is_rewindable : Request Jar → Bool
  unfolding contains_header
  is_rewindable prepared = elim prepared.body_position [
    | none ↦ false
    | some position ↦
        contains_header (codes "Content-Length") prepared.headers
        || contains_header (codes "Transfer-Encoding") prepared.headers
  ]
