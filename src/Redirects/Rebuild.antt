-- ===== src/Redirects/Rebuild.antt =====
-- How a redirect rebuilds a request, in crates/requests-python/src/sessions.rs.
use requests_native.Prelude.{not, ◌&&◌, Option, none, some, if◌then◌else◌, Bytes, codes}
use requests_native.Redirects.{
  Headers, contains_header, remove_header, set_header, ParsedUrl, Request, Response, rebuild_method,
  hostname_eq, purge, is_rewindable,
}
use requests_native.Redirects.Python.{
  CursorState, Proxies, Python, Session, find_proxy, is_filled, is_https, is_network_path,
  is_redirect_status, network_url,
}

module _ {Jar Auth : Type 0} (py : Python Jar Auth) where
  -- `redirect_target_value`: `is_redirect` asks for a location and a status.
  unfoldable pub redirect_target : Response Jar → Option Bytes
  redirect_target r = elim r.location [
    | none ↦ none
    | some location ↦
        if is_redirect_status r.status_code then some (py.decode_location location) else none
  ]

  -- `rebuild_auth_value`.
  unfoldable pub drop_auth : Request Jar → Bytes → Request Jar
  unfolding contains_header remove_header
  drop_auth prepared original_url =
      if contains_header (codes "Authorization") prepared.headers
        && not (hostname_eq (py.urlparse original_url).hostname (py.urlparse prepared.url).hostname)
      then record prepared { headers = remove_header (codes "Authorization") prepared.headers }
      else prepared

  unfoldable pub rebuild_auth : Session Jar → Request Jar → Response Jar → Request Jar
  unfolding drop_auth
  rebuild_auth session prepared response =
      let kept = drop_auth prepared response.request.url in
      if session.trust_env
      then elim (py.get_netrc_auth prepared.url) [
        | none ↦ kept
        | some auth ↦ py.prepare_auth auth kept
      ]
      else kept

  -- `rebuild_proxies_value`.
  unfoldable pub proxy_authorization : Bytes → Option Bytes → Headers → Headers
  unfolding set_header
  proxy_authorization scheme none headers = headers
  proxy_authorization scheme (some proxy) headers =
      let (username, password) = py.get_auth_from_url proxy in
      if not (is_https scheme) && is_filled username && is_filled password
      then set_header (codes "Proxy-Authorization") (py.basic_auth_str username password) headers
      else headers

  unfoldable pub rebuild_proxies : Session Jar → Request Jar → Proxies → Proxies × Request Jar
  unfolding proxy_authorization remove_header
  rebuild_proxies session prepared proxies =
      let scheme = (py.urlparse prepared.url).scheme in
      let new_proxies = py.resolve_proxies prepared proxies session.trust_env in
      (
        new_proxies,
        record prepared {
          headers =
              proxy_authorization scheme (find_proxy scheme new_proxies)
                (remove_header (codes "Proxy-Authorization") prepared.headers);
        },
      )

  -- The URL that is parsed: one without a scheme takes that of the response.
  unfoldable pub with_scheme : Response Jar → Bytes → Bytes
  with_scheme response url =
      if is_network_path url then network_url (py.urlparse response.url).scheme url else url

  -- The parsed URL takes the previous fragment where it has none, and else gives the next one.
  unfoldable pub with_fragment : ParsedUrl → Bytes → ParsedUrl × Bytes
  with_fragment parsed previous =
      if is_filled parsed.fragment
      then (parsed, parsed.fragment)
      else if is_filled previous
      then (record parsed { fragment = previous }, previous)
      else (parsed, previous)

  unfoldable pub absolute_url : Response Jar → ParsedUrl → Bytes
  absolute_url response parsed =
      if is_filled parsed.netloc
      then py.requote_uri (py.geturl parsed)
      else py.urljoin response.url (py.requote_uri (py.geturl parsed))

  -- The request for a URL, up to its cookies.
  unfoldable pub retarget : CursorState Jar → Bytes → Request Jar
  unfolding rebuild_method purge remove_header
  retarget s url =
      let prepared = record s.request {
        url = url;
        method = rebuild_method s.request.method s.response.status_code;
      } in
      let purged = purge prepared s.response.status_code in
      let bare = record purged { headers = remove_header (codes "Cookie") purged.headers } in
      let jar =
        py.merge_cookies (py.extract_cookies bare.jar s.request s.response) s.session.cookies in
      py.prepare_cookies jar (record bare { jar = jar })

  -- The request as it is sent, with the proxies of that moment.
  unfoldable pub reauthorize : CursorState Jar → Request Jar → Proxies × Request Jar
  unfolding rebuild_proxies rebuild_auth
  reauthorize s prepared =
      let (proxies, proxied) = rebuild_proxies s.session prepared s.proxies in
      (proxies, rebuild_auth s.session proxied s.response)

  unfoldable pub rewound : Request Jar → Option (Request Jar)
  unfolding is_rewindable
  rewound prepared = if is_rewindable prepared then py.rewind_body prepared else some prepared
