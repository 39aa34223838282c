-- ===== src/Redirects/Nested.antt =====
-- The nested `send` of a redirect, in crates/requests-python/src/sessions.rs.
use requests_native.Prelude.{
  ℕ, ◌≡◌, refl, sym, inl, inr, Bool, true, false, not, ◌&&◌, Option, none, some, List, [], ◌∷◌, leb,
  if◌then◌else◌, Bool-cases, length, Bytes,
}
use requests_native.Redirects.{Request, Response}
use requests_native.Redirects.Python.{
  Advance, CursorState, Failure, Python, fails, is_some, new_cursor, read_failure,
  too_many_redirects,
}
use requests_native.Redirects.Advance.{
  accept, advance_from, advance_state, advance_url, begin, close_response, dispatch, enter,
  gives_next, is_loaded, nested_answer, nested_send, reads_content, redirect, redirected,
}
use requests_native.Redirects.Send.{load, set_next, send_answer, session_send}
use requests_native.Redirects.Steps.{begin_lem}
use requests_native.Redirects.Outcomes.{answer_of}

module _ {Jar Auth : Type 0} (py : Python Jar Auth) where
  answer-load :
      (stream : Bool) (r : Response Jar) (h : List ℕ) (n : Option (Request Jar))
      → answer_of (load py stream r h n) ≡ (if is_loaded py stream r then some r else none)
  unfolding load
  answer-load stream r h n = elim (Bool-cases (is_loaded py stream r)) [
    | inl e ↦ rw e refl
    | inr e ↦ rw e refl
  ]

  dispatch-gives :
      (s : CursorState Jar) (url : Bytes) (o : Option (Request Jar)) (stream : Bool)
      (r : Response Jar)
      → s.yield_requests ≡ true
      → answer_of (set_next py stream r (dispatch py s url o))
        ≡ (if is_some o && is_loaded py stream r then some r else none)
  unfolding dispatch set_next
  dispatch-gives s url none stream r m = refl
  dispatch-gives s url (some p) stream r m = rw m (answer-load stream r [] (some p))

  failed-gives :
      (b x l : Bool) (e : Failure) (s : CursorState Jar) (a : Advance Jar) (stream : Bool)
      (r : Response Jar)
      → answer_of (set_next py stream r a) ≡ (if x && l then some r else none)
      → answer_of (set_next py stream r (if b then fails e s else a))
        ≡ (if (not b && x) && l then some r else none)
  unfolding set_next
  failed-gives true x l e s a stream r h = refl
  failed-gives false x l e s a stream r h = h

  unread-gives :
      (b x l : Bool) (e : Failure) (s : CursorState Jar) (a : Advance Jar) (stream : Bool)
      (r : Response Jar)
      → answer_of (set_next py stream r a) ≡ (if x && l then some r else none)
      → answer_of (set_next py stream r (if not b then fails e s else a))
        ≡ (if (b && x) && l then some r else none)
  unfolding set_next
  unread-gives true x l e s a stream r h = h
  unread-gives false x l e s a stream r h = refl

  -- What a cursor that hands out its requests does on its first step, and whether it raises.
  advance_from-gives :
      (s : CursorState Jar) (url : Option Bytes) (stream : Bool) (r : Response Jar)
      → s.yield_requests ≡ true
      → answer_of (set_next py stream r (advance_from py s url))
        ≡ (if gives_next py s url && is_loaded py stream r then some r else none)
  unfolding advance_from advance_url gives_next set_next redirect redirected enter close_response
  advance_from-gives s none stream r m = answer-load stream r [] none
  advance_from-gives s (some []) stream r m = answer-load stream r [] none
  advance_from-gives s (some (c ∷ url)) stream r m =
      let (t, target, o) = redirected py (close_response py (enter py s)) (c ∷ url) in
      let d = dispatch-gives t target o stream r m in
      let l = is_loaded py stream r in
      let f =
        failed-gives (leb s.session.max_redirects (length s.history)) (is_some o) l
          (too_many_redirects s.response.id) (enter py s) _ stream r d in
      unread-gives (reads_content py s.response) _ l read_failure (enter py s) _ stream r f

  begin-mode : (s : CursorState Jar) → (begin py s).yield_requests ≡ s.yield_requests
  begin-mode s = (begin_lem py s).6

  nested_answer-set_next :
      (s : CursorState Jar) (o : Option (Response Jar)) (fuel : ℕ)
      → nested_answer py s o
        ≡ answer_of (send_answer py fuel s.session s.request s.proxies s.stream false o)
  unfolding nested_answer send_answer advance_state
  nested_answer-set_next s none fuel = refl
  nested_answer-set_next s (some r) fuel =
      let cursor =
        new_cursor (accept py s.session s.request r) r s.request s.proxies s.stream true in
      sym
        (advance_from-gives (begin py cursor) (begin py cursor).url s.stream r (begin-mode cursor))

  -- What a redirect takes for the answer to its request is what `send` returns for it without redirects.
  nested_send-session_send :
      (s : CursorState Jar) (fuel : ℕ)
      → nested_send py s
        ≡ answer_of
            (session_send py fuel (length s.history) s.session s.request s.proxies s.stream false)
  unfolding nested_send session_send
  nested_send-session_send s fuel =
      nested_answer-set_next s (py.adapter_send (length s.history) s.request) fuel
