-- ===== src/Redirects/Advance.antt =====
-- One step of the redirect cursor of crates/requests-python/src/sessions.rs.
use requests_native.Prelude.{
  Bool, true, false, not, ◌&&◌, Option, none, some, [], ◌∷◌, ◌++◌, leb, if◌then◌else◌, length,
  Bytes,
}
use requests_native.Redirects.{Request, Response}
use requests_native.Redirects.Python.{
  Advance, CursorState, Python, Session, content_caught, content_raised, content_read, done, fails,
  is_some, new_cursor, read_failure, rewind_failure, send_failure, too_many_redirects,
  yields_request, yields_response,
}
use requests_native.Redirects.Rebuild.{
  absolute_url, reauthorize, redirect_target, retarget, rewound, with_fragment, with_scheme,
}

module _ {Jar Auth : Type 0} (py : Python Jar Auth) where
  unfoldable pub accept : Session Jar → Request Jar → Response Jar → Session Jar
  accept session request response = record session {
    cookies = py.extract_cookies session.cookies request response;
  }

  -- `content_or_fallback`.
  unfoldable pub reads_content : Response Jar → Bool
  reads_content response = elim (py.content response) [
    | content_read ↦ true
    | content_caught ↦ py.raw_read response
    | content_raised ↦ false
  ]

  -- The response takes the history before it and joins it.
  unfoldable pub enter : CursorState Jar → CursorState Jar
  enter s = record s {
    histories = (s.response.id, s.history) ∷ s.histories;
    history = s.history ++ s.response.id ∷ [];
  }

  unfoldable pub close_response : CursorState Jar → CursorState Jar
  close_response s = record s { closed = s.closed ++ s.response.id ∷ [] }

  -- The first step looks for the target and the fragment.
  unfoldable pub begin : CursorState Jar → CursorState Jar
  unfolding redirect_target
  begin s =
      if s.created
      then record s {
        url = redirect_target py s.response;
        previous_fragment = (py.urlparse s.request.url).fragment;
        created = false;
      }
      else s

  -- What a closed response leads to: the state, the URL and the request, where its body is rewound.
  unfoldable pub redirected :
      CursorState Jar → Bytes → CursorState Jar × Bytes × Option (Request Jar)
  unfolding with_scheme with_fragment absolute_url retarget reauthorize rewound
  redirected s url =
      let (parsed, fragment) =
        with_fragment py (py.urlparse (with_scheme py s.response url)) s.previous_fragment in
      let target = absolute_url py s.response parsed in
      let (proxies, prepared) = reauthorize py s (retarget py s target) in
      (record s { proxies = proxies; previous_fragment = fragment }, target, rewound py prepared)

  -- Whether a cursor that hands out its requests stops or yields one, and does not raise.
  unfoldable pub gives_next : CursorState Jar → Option Bytes → Bool
  unfolding redirected reads_content enter close_response
  gives_next s none = true
  gives_next s (some []) = true
  gives_next s (some (c ∷ url)) =
      let (s', target, prepared) = redirected (close_response (enter s)) (c ∷ url) in
      reads_content s.response
      && (not (leb s.session.max_redirects (length s.history)) && is_some prepared)

  -- Whether `content` is read without an error, where the answer is not streamed.
  unfoldable pub is_loaded : Bool → Response Jar → Bool
  is_loaded stream response = elim (py.content response) [
    | content_read ↦ true
    | content_caught ↦ stream
    | content_raised ↦ stream
  ]

  -- The nested `send`, which follows no redirects: it looks for the next request all the same.
  unfoldable pub nested_answer : CursorState Jar → Option (Response Jar) → Option (Response Jar)
  unfolding accept begin gives_next is_loaded
  nested_answer s none = none
  nested_answer s (some response) =
      let cursor = begin (
        new_cursor (accept s.session s.request response) response s.request s.proxies s.stream
          true) in
      if gives_next cursor cursor.url && is_loaded s.stream response then some response else none

  unfoldable pub nested_send : CursorState Jar → Option (Response Jar)
  unfolding nested_answer
  nested_send s = nested_answer s (py.adapter_send (length s.history) s.request)

  -- The answer to the request: its cookies go to the session, once in the nested `send` and once behind
  -- it, and its target is the next URL.
  unfoldable pub answered : CursorState Jar → Option (Response Jar) → Advance Jar
  unfolding redirect_target accept
  answered s none = fails send_failure s
  answered s (some response) = yields_response response (record s {
    session = accept (accept s.session s.request response) s.request response;
    response = response;
    url = redirect_target py response;
  })

  unfoldable pub follow : CursorState Jar → Advance Jar
  unfolding answered nested_send
  follow s = answered s (nested_send s)

  -- From the rewound request on.
  unfoldable pub dispatch : CursorState Jar → Bytes → Option (Request Jar) → Advance Jar
  unfolding follow
  dispatch s url none = fails rewind_failure s
  dispatch s url (some prepared) =
      let s' = record s { request = prepared; url = some url } in
      if s.yield_requests then yields_request prepared s' else follow s'

  -- From the closed response on.
  unfoldable pub redirect : CursorState Jar → Bytes → Advance Jar
  unfolding redirected dispatch
  redirect s url = let (s', target, prepared) = redirected s url in dispatch s' target prepared

  -- A step with a URL to go to.
  unfoldable pub advance_url : CursorState Jar → Bytes → Advance Jar
  unfolding reads_content enter close_response redirect
  advance_url s url =
      if not (reads_content s.response)
      then fails read_failure (enter s)
      else if leb s.session.max_redirects (length s.history)
      then fails (too_many_redirects s.response.id) (enter s)
      else redirect (close_response (enter s)) url

  unfoldable pub advance_from : CursorState Jar → Option Bytes → Advance Jar
  unfolding advance_url
  advance_from s none = done s
  advance_from s (some []) = done (record s { url = none })
  advance_from s (some (c ∷ url)) = advance_url s (c ∷ url)

  -- `advance_state`.
  unfoldable pub advance_state : CursorState Jar → Advance Jar
  unfolding begin advance_from
  advance_state s = let s' = begin s in advance_from s' s'.url
