-- ===== src/Redirects/Limit.antt =====
-- A server that redirects without end, for the cursor of crates/requests-python/src/sessions.rs.
use requests_native.Prelude.{
  ℕ, zero, suc, ◌+◌, ◌≤◌, ◌<◌, ◌≡◌, refl, ap, ◌∙◌, inl, inr, Bool, true, false, Option, none, some,
  List, [], ◌∷◌, arith, leb, if◌then◌else◌, Bool-cases, length, length-append, Bytes,
}
use requests_native.Redirects.{Request, Response, is_rewindable}
use requests_native.Redirects.Python.{
  Advance, CursorState, Proxies, Python, Session, content_read, fails, new_cursor,
  too_many_redirects, yields_request, yields_response,
}
use requests_native.Redirects.Rebuild.{
  absolute_url, reauthorize, retarget, rewound, with_fragment, with_scheme,
}
use requests_native.Redirects.Advance.{
  accept, advance_from, advance_state, advance_url, answered, begin, close_response, dispatch,
  enter, follow, gives_next, is_loaded, nested_answer, nested_send, reads_content, redirect,
  redirected,
}
use requests_native.Redirects.Send.{
  raised, collected, split_last, drain, raises, finish, send_answer, session_send,
}
use requests_native.Redirects.Steps.{after, begin_lem, advance_state-yields}
use requests_native.Redirects.Outcomes.{new_cursor-IsFresh}
use requests_native.Redirects.History.{is_redirected, leads, IsFresh, IsFresh-started}

unreached : (m n : ℕ) → n < m → leb m n ≡ false
unreached m n h = ground arith

reached : (m n : ℕ) → m ≤ n → leb m n ≡ true
reached m n h = ground arith

module _ {Jar Auth : Type 0} (py : Python Jar Auth)
    (answers : (n : ℕ) (p : Request Jar)
      → (r : Response Jar) × (py.adapter_send n p ≡ some r) × (is_redirected py r ≡ true))
    (contents : (r : Response Jar) → py.content r ≡ content_read)
    (rewinds : (p : Request Jar) → (q : Request Jar) × (py.rewind_body p ≡ some q)) where
  rewound-some : (p : Request Jar) → (q : Request Jar) × (rewound py p ≡ some q)
  unfolding rewound
  rewound-some p = elim (Bool-cases (is_rewindable p)) [
    | inl e ↦ rw e (rewinds p)
    | inr e ↦ rw e (p, refl)
  ]

  reads_content-true : (r : Response Jar) → reads_content py r ≡ true
  unfolding reads_content
  reads_content-true r = rw (contents r, reads_content) refl

  is_loaded-true : (b : Bool) (r : Response Jar) → is_loaded py b r ≡ true
  unfolding is_loaded
  is_loaded-true b r = rw (contents r, is_loaded) refl

  redirected-some :
      (s : CursorState Jar) (url : Bytes) → (q : Request Jar) × ((redirected py s url).2 ≡ some q)
  unfolding redirected
  redirected-some s url =
      let (parsed, fragment) =
        with_fragment py (py.urlparse (with_scheme py s.response url)) s.previous_fragment in
      rewound-some (reauthorize py s (retarget py s (absolute_url py s.response parsed))).1

  gives_next-true :
      (s : CursorState Jar) (url : Option Bytes)
      → length s.history < s.session.max_redirects
      → gives_next py s url ≡ true
  unfolding gives_next
  gives_next-true s none h = refl
  gives_next-true s (some []) h = refl
  gives_next-true s (some (c ∷ url)) h =
      let (q, e) = redirected-some (close_response py (enter py s)) (c ∷ url) in
      let r = reads_content-true s.response in
      let m = unreached s.session.max_redirects (length s.history) h in rw (r, m, e) refl

  nested_answer-some :
      (s : CursorState Jar) (r : Response Jar)
      → 0 < s.session.max_redirects
      → nested_answer py s (some r) ≡ some r
  unfolding nested_answer accept new_cursor
  nested_answer-some s r h =
      let cursor =
        new_cursor (accept py s.session s.request r) r s.request s.proxies s.stream true in
      let (c, i, j, k, l, m, n) = begin_lem py cursor in
      let a = ap length i in
      let b = ap (λ x. x.max_redirects) m in
      let g = gives_next-true (begin py cursor) (begin py cursor).url (ground (arith, h, a, b)) in
      rw (g, is_loaded-true s.stream r) refl

  nested_send-some :
      (s : CursorState Jar)
      → 0 < s.session.max_redirects
      → (r : Response Jar) × (nested_send py s ≡ some r) × (is_redirected py r ≡ true)
  unfolding nested_send
  nested_send-some s h =
      let (r, e, f) = answers (length s.history) s.request in
      (r, ap (nested_answer py s) e ∙ nested_answer-some s r h, f)

  answered-some :
      (s : CursorState Jar) (o : Option (Response Jar)) (r : Response Jar)
      → o ≡ some r
      → (s' : CursorState Jar) × (answered py s o ≡ yields_response r s')
  unfolding answered accept
  answered-some s o r e = (after py s r, ap (answered py s) e)

  chosen-some :
      (b : Bool) (p : Request Jar) (s : CursorState Jar) (a : Advance Jar)
      → b ≡ false
      → (if b then yields_request p s else a) ≡ a
  chosen-some b p s a h = rw h refl

  dispatch-some :
      (s : CursorState Jar) (url : Bytes) (o : Option (Request Jar)) (p : Request Jar)
      → o ≡ some p
      → s.yield_requests ≡ false
      → 0 < s.session.max_redirects
      → (r : Response Jar) × (s' : CursorState Jar) × (dispatch py s url o ≡ yields_response r s')
        × (is_redirected py r ≡ true)
  unfolding dispatch follow
  dispatch-some s url none p e m h = cc
  dispatch-some s url (some q) p e m h =
      let t = record s { request = q; url = some url } in
      let (r, f, g) = nested_send-some t h in
      let (s', k) = answered-some t (nested_send py t) r f in
      (r, s', chosen-some s.yield_requests q t _ m ∙ k, g)

  -- Below the limit such a response is followed by another.
  advance_url-some :
      (s : CursorState Jar) (url : Bytes)
      → s.yield_requests ≡ false
      → length s.history < s.session.max_redirects
      → (r : Response Jar) × (s' : CursorState Jar) × (advance_url py s url ≡ yields_response r s')
        × (is_redirected py r ≡ true)
  unfolding advance_url redirect enter close_response redirected
  advance_url-some s url m h =
      let c = close_response py (enter py s) in
      let (p, e) = redirected-some c url in
      let (t, target, o) = redirected py c url in
      let (r, s', k, g) = dispatch-some t target o p e m (ground (arith, h)) in
      (
        r,
        s',
        rw (reads_content-true s.response, unreached s.session.max_redirects (length s.history) h)
            k,
        g,
      )

  -- At the limit it ends the iteration.
  advance_url-limit :
      (s : CursorState Jar) (url : Bytes)
      → s.session.max_redirects ≤ length s.history
      → (s' : CursorState Jar) × (advance_url py s url
          ≡ fails (too_many_redirects s.response.id) s')
  unfolding advance_url
  advance_url-limit s url h = (
    enter py s,
    rw (reads_content-true s.response, reached s.session.max_redirects (length s.history) h) refl,
  )

  -- The URL of a redirected response.
  leads-some :
      (url : Option Bytes) → leads url ≡ true → (c : ℕ) × (u : Bytes) × (url ≡ some (c ∷ u))
  leads-some none h = cc
  leads-some (some []) h = cc
  leads-some (some (c ∷ u)) h = (c, u, refl)

  begin-url :
      (s : CursorState Jar)
      → IsFresh py s
      → is_redirected py s.response ≡ true
      → (c : ℕ) × (u : Bytes) × ((begin py s).url ≡ some (c ∷ u))
  unfolding IsFresh
  begin-url s f h = leads-some (begin py s).url (ap leads f ∙ h)

  advance_state-some :
      (s : CursorState Jar)
      → s.yield_requests ≡ false
      → IsFresh py s
      → is_redirected py s.response ≡ true
      → length s.history < s.session.max_redirects
      → (r : Response Jar) × (s' : CursorState Jar) × (advance_state py s ≡ yields_response r s')
        × (is_redirected py r ≡ true)
  unfolding advance_state advance_from
  advance_state-some s m f g h =
      let (c, u, e) = begin-url s f g in
      let (k, i, j, l, o, p, q) = begin_lem py s in
      let a = ap length i in
      let b = ap (λ x. x.max_redirects) p in
      let (r, s', x, y) = advance_url-some (begin py s) (c ∷ u) (q ∙ m) (ground (arith, h, a, b)) in
      (r, s', ap (advance_from py (begin py s)) e ∙ x, y)

  advance_state-limit :
      (s : CursorState Jar)
      → IsFresh py s
      → is_redirected py s.response ≡ true
      → s.session.max_redirects ≤ length s.history
      → (s' : CursorState Jar) × (advance_state py s ≡ fails (too_many_redirects s.response.id) s')
  unfolding advance_state advance_from
  advance_state-limit s f g h =
      let (c, u, e) = begin-url s f g in
      let (k, i, j, l, o, p, q) = begin_lem py s in
      let a = ap length i in
      let b = ap (λ x. x.max_redirects) p in
      let (s', x) = advance_url-limit (begin py s) (c ∷ u) (ground (arith, h, a, b)) in
      (
        s',
        ap (advance_from py (begin py s)) e
            ∙ x
            ∙ ap (λ (r : Response Jar). fails (too_many_redirects r.id) s') o,
      )

  drain-yields :
      (n : ℕ) (s t : CursorState Jar) (r : Response Jar)
      → advance_state py s ≡ yields_response r t
      → drain py (suc n) s ≡ collected r (drain py n t)
  unfolding drain
  drain-yields n s t r h = rw (h, drain) refl

  -- The loop gets as many responses as the limit leaves, and then raises for the last of them.
  drain-limit :
      (k n : ℕ) (s : CursorState Jar)
      → k + length s.history ≡ s.session.max_redirects
      → k < n
      → s.yield_requests ≡ false
      → IsFresh py s
      → is_redirected py s.response ≡ true
      → (rs : List (Response Jar)) × (drain py n s
          ≡ raised (too_many_redirects (split_last s.response rs).1.id) rs)
        × (length rs ≡ k)
  unfolding drain split_last
  drain-limit k zero s e l m f g = ground arith
  drain-limit zero (suc n) s e l m f g =
      let (s', h) = advance_state-limit s f g (omega (arith, e)) in ([], rw (h, drain) refl, refl)
  drain-limit (suc k) (suc n) s e l m f g =
      let (r, t, h, i) = advance_state-some s m f g (omega (arith, e)) in
      let w = advance_state-yields py s t r h in
      let j = ap length w.history ∙ length-append s.history (s.response.id ∷ []) in
      let d = ap (is_redirected py) w.response ∙ i in
      let (rs, x, y) =
        drain-limit k n t (ground (arith, e, j, w.limit)) (omega (arith, l)) w.mode
          (IsFresh-started py s t r w) d in
      (
        r ∷ rs,
        drain-yields n s t r h
            ∙ ap (collected r) x
            ∙ ap (λ q. raised (too_many_redirects (split_last q rs).1.id) (r ∷ rs)) w.response,
        ap suc y,
      )

  send_answer-limit :
      (fuel : ℕ) (session : Session Jar) (request : Request Jar) (proxies : Proxies) (stream : Bool)
      (r : Response Jar)
      → session.max_redirects < fuel
      → is_redirected py r ≡ true
      → (i : ℕ) × (send_answer py fuel session request proxies stream true (some r)
          ≡ raises (too_many_redirects i))
  unfolding send_answer new_cursor accept finish
  send_answer-limit fuel session request proxies stream r h g =
      let session' = accept py session request r in
      let s = new_cursor session' r request proxies stream false in
      let f = new_cursor-IsFresh py session' r request proxies stream false in
      let (rs, x, y) = drain-limit session.max_redirects fuel s (omega arith) h refl f g in
      (_, ap (finish py stream r) x)

  -- Where the server redirects whatever it is sent, contents are read and bodies are rewound, a `send`
  -- that follows redirects raises for too many redirects, given more fuel than `max_redirects`.
  pub session_send-limit :
      (fuel sent : ℕ) (session : Session Jar) (request : Request Jar) (proxies : Proxies)
      (stream : Bool)
      → session.max_redirects < fuel
      → (i : ℕ) × (session_send py fuel sent session request proxies stream true
          ≡ raises (too_many_redirects i))
  unfolding session_send
  session_send-limit fuel sent session request proxies stream h =
      let (r, e, g) = answers sent request in
      let (i, x) = send_answer-limit fuel session request proxies stream r h g in
      (i, ap (send_answer py fuel session request proxies stream true) e ∙ x)
