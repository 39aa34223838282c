-- ===== src/Redirects/Auth.antt =====
-- The credentials of a redirected request, in crates/requests-python/src/sessions.rs.
use requests_native.Prelude.{
  ℕ, ◌≡◌, refl, sym, ap, ap₂, ◌∙◌, ◌⊎◌, inl, inr, Bool, true, false, not, ◌&&◌, ◌||◌, Option, none,
  some, [], ◌∷◌, arith, if◌then◌else◌, Bool-cases, Option-cases, Bytes, codes, bytes_eq,
  bytes_eq_iff,
}
use requests_native.Client.{eq_ignore_ascii_case}
use requests_native.Redirects.{
  Headers, contains_header, remove_header, ParsedUrl, Request, Response, hostname_eq, option_eq,
  is_default, default_port, should_strip_auth,
}
use requests_native.Redirects.Python.{Python, Session}
use requests_native.Redirects.Rebuild.{drop_auth, rebuild_auth}

-- The port that a URL means.
abbrev pub effective_port : ParsedUrl → Option ℕ
unfolding default_port
effective_port url = elim url.port [ none ↦ default_port url.scheme | some port ↦ some port ]

-- The upgrade from plain to encrypted at the default ports.
abbrev pub is_upgrade : ParsedUrl → ParsedUrl → Bool
unfolding is_default
is_upgrade old new =
    bytes_eq old.scheme (codes "http")
    && is_default (some 80) old.port
    && bytes_eq new.scheme (codes "https")
    && is_default (some 443) new.port

-- The port that a port means, for a default.
abbrev meant : Option ℕ → Option ℕ → Option ℕ
meant d none = d
meant d (some p) = some p

same_scheme-ports :
    (d p q : Option ℕ)
    → (if is_default d p && is_default d q then false else not (option_eq p q) || false)
      ≡ not (option_eq (meant d p) (meant d q))
unfolding is_default option_eq
same_scheme-ports none none none = refl
same_scheme-ports (some x) none none = ground arith
same_scheme-ports none none (some b) = refl
same_scheme-ports none (some a) none = refl
same_scheme-ports none (some a) (some b) = ground arith
same_scheme-ports (some x) none (some b) = ground arith
same_scheme-ports (some x) (some a) none = ground arith
same_scheme-ports (some x) (some a) (some b) = ground arith

effective-port : (url : ParsedUrl) → meant (default_port url.scheme) url.port ≡ effective_port url
unfolding effective_port default_port
effective-port url = elim (Option-cases url.port) [ inl e ↦ rw e refl | inr (p, e) ↦ rw e refl ]

-- The tests in turn, as one condition.
strip-tests :
    (h u s a b x y : Bool)
    → (s ≡ true → (if a && b then false else x || false) ≡ not y)
    → (if not h then true else if u then false else if s && a && b then false else x || not s)
      ≡ not (h && (u || s && y))
strip-tests false u s a b x y e = refl
strip-tests true true s a b x y e = refl
strip-tests true false true a b x y e = e refl
strip-tests true false false a b true y e = refl
strip-tests true false false a b false y e = refl

meant-effective :
    (old new : ParsedUrl)
    → bytes_eq old.scheme new.scheme ≡ true
    → (meant (default_port old.scheme) old.port ≡ effective_port old)
      × (meant (default_port old.scheme) new.port ≡ effective_port new)
meant-effective old new e =
    let s = (bytes_eq_iff old.scheme new.scheme).0 e in
    (effective-port old, ap (λ x. meant (default_port x) new.port) s ∙ effective-port new)

-- Credentials are kept where the host is the same, and the port that is meant and the scheme are too, or
-- the scheme goes from http to https at the default ports; they are stripped otherwise.
pub should_strip_auth-kept :
    (old new : ParsedUrl)
    → should_strip_auth old new
      ≡ not (
          hostname_eq old.hostname new.hostname
          && (is_upgrade old new
              || bytes_eq old.scheme new.scheme
                && option_eq (effective_port old) (effective_port new)))
unfolding should_strip_auth
should_strip_auth-kept old new =
    strip-tests (hostname_eq old.hostname new.hostname) (is_upgrade old new)
      (bytes_eq old.scheme new.scheme) (is_default (default_port old.scheme) old.port)
      (is_default (default_port old.scheme) new.port) (not (option_eq old.port new.port))
      (option_eq (effective_port old) (effective_port new))
      (λ e.
        let (p, q) = meant-effective old new e in
        same_scheme-ports (default_port old.scheme) old.port new.port
        ∙ ap₂ (λ x y. not (option_eq x y)) p q)

-- The scheme and the port that is meant stay, or go from http to https at the default ports.
abbrev pub is_kept : ParsedUrl → ParsedUrl → Bool
is_kept old new =
    is_upgrade old new
    || bytes_eq old.scheme new.scheme && option_eq (effective_port old) (effective_port new)

kept-host : (h k : Bool) → (h ≡ false) ⊎ (k ≡ true) → h ≡ not (not (h && k))
kept-host false k e = refl
kept-host true true e = refl
kept-host true false e = ground (arith, e)

strips_host :
    (old new : ParsedUrl)
    → (hostname_eq old.hostname new.hostname ≡ false) ⊎ (is_kept old new ≡ true)
    → hostname_eq old.hostname new.hostname ≡ not (should_strip_auth old new)
strips_host old new e =
    kept-host (hostname_eq old.hostname new.hostname) (is_kept old new) e
    ∙ ap not (sym (should_strip_auth-kept old new))

contains-remove :
    (name : Bytes) (hs : Headers) → contains_header name (remove_header name hs) ≡ false
unfolding contains_header remove_header
contains-remove name [] = refl
contains-remove name ((n, v) ∷ hs) =
    let i = contains-remove name hs in
    elim (Bool-cases (eq_ignore_ascii_case n name)) [
      | inl e ↦ rw (e, i) refl
      | inr e ↦ rw (e, e, i) refl
    ]

module _ {Jar Auth : Type 0} (py : Python Jar Auth) where
  drop_auth-tests :
      (b c : Bool) (prepared : Request Jar)
      → contains_header (codes "Authorization") prepared.headers ≡ b
      → contains_header
          (codes "Authorization")
          (if b && not c
            then record prepared {
              headers = remove_header (codes "Authorization") prepared.headers;
            }
            else prepared).headers
        ≡ (b && c)
  drop_auth-tests true true prepared e = e
  drop_auth-tests true false prepared e = contains-remove (codes "Authorization") prepared.headers
  drop_auth-tests false true prepared e = e
  drop_auth-tests false false prepared e = e

  drop_auth-contains :
      (prepared : Request Jar) (url : Bytes)
      → contains_header (codes "Authorization") (drop_auth py prepared url).headers ≡ (
          contains_header (codes "Authorization") prepared.headers
          && hostname_eq (py.urlparse url).hostname (py.urlparse prepared.url).hostname)
  unfolding drop_auth
  drop_auth-contains prepared url =
      drop_auth-tests (contains_header (codes "Authorization") prepared.headers)
        (hostname_eq (py.urlparse url).hostname (py.urlparse prepared.url).hostname) prepared refl

  -- Where netrc has no credentials for the new URL, a redirected request has an Authorization header just
  -- where it had one and the host is the same, whatever the schemes and the ports are.
  pub rebuild_auth-contains :
      (session : Session Jar) (prepared : Request Jar) (response : Response Jar)
      → py.get_netrc_auth prepared.url ≡ none
      → contains_header (codes "Authorization") (rebuild_auth py session prepared response).headers
        ≡ (contains_header (codes "Authorization") prepared.headers
            && hostname_eq
                (py.urlparse response.request.url).hostname
                (py.urlparse prepared.url).hostname)
  unfolding rebuild_auth
  rebuild_auth-contains session prepared response n =
      let d = drop_auth-contains prepared response.request.url in
      elim (Bool-cases session.trust_env) [ inl e ↦ rw (e, n) d | inr e ↦ rw e d ]

  -- Where netrc has no credentials for the new URL, and the host changes, or the scheme and the port that is
  -- meant stay or go from http to https at the default ports: a redirected request has an Authorization
  -- header exactly where it had one and `should_strip_auth` does not strip it.
  pub rebuild_auth-should_strip_auth :
      (session : Session Jar) (prepared : Request Jar) (response : Response Jar)
      → py.get_netrc_auth prepared.url ≡ none
      → (hostname_eq (py.urlparse response.request.url).hostname (py.urlparse prepared.url).hostname
          ≡ false)
        ⊎ (is_kept (py.urlparse response.request.url) (py.urlparse prepared.url) ≡ true)
      → contains_header (codes "Authorization") (rebuild_auth py session prepared response).headers
        ≡ (contains_header (codes "Authorization") prepared.headers
            && not
                (should_strip_auth (py.urlparse response.request.url) (py.urlparse prepared.url)))
  rebuild_auth-should_strip_auth session prepared response n k =
      let old = py.urlparse response.request.url in
      let new = py.urlparse prepared.url in
      rebuild_auth-contains session prepared response n
      ∙ ap (λ b. contains_header (codes "Authorization") prepared.headers && b)
          (strips_host old new k)
