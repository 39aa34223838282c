-- ===== src/Redirects/Modes.antt =====
-- The two modes of the redirect cursor of crates/requests-python/src/sessions.rs: it sends the requests, or
-- hands them out.
use requests_native.Prelude.{
  ◌≡◌, refl, inl, inr, Bool, true, false, not, Option, none, some, [], ◌∷◌, leb, if◌then◌else◌,
  Bool-cases, length, Bytes,
}
use requests_native.Redirects.{Request}
use requests_native.Redirects.Python.{
  Advance, CursorState, Failure, Python, done, fails, read_failure, too_many_redirects,
  yields_request, yields_response,
}
use requests_native.Redirects.Rebuild.{reauthorize, retarget}
use requests_native.Redirects.Advance.{
  advance_from, advance_state, advance_url, begin, close_response, dispatch, enter, follow,
  reads_content, redirect, redirected,
}

module _ {Jar : Type 0} where
  abbrev pub in_mode : Bool → CursorState Jar → CursorState Jar
  in_mode b s = record s { yield_requests = b }

module _ {Jar Auth : Type 0} (py : Python Jar Auth) where
  -- What following makes of a step that hands out its request: that request is sent.
  abbrev pub sent_on : Advance Jar → Advance Jar
  unfolding follow
  sent_on (yields_request p s) = follow py (in_mode false (record s { request = p }))
  sent_on (yields_response r s) = yields_response r (in_mode false s)
  sent_on (done s) = done (in_mode false s)
  sent_on (fails e s) = fails e (in_mode false s)

  dispatch-modes :
      (s : CursorState Jar) (url : Bytes) (o : Option (Request Jar))
      → dispatch py (in_mode false s) url o ≡ sent_on (dispatch py (in_mode true s) url o)
  unfolding dispatch follow
  dispatch-modes s url none = refl
  dispatch-modes s url (some p) = refl

  unfailed-modes :
      (b : Bool) (e : Failure) (s : CursorState Jar) (a₁ a₂ : Advance Jar)
      → a₁ ≡ sent_on a₂
      → (if b then fails e (in_mode false s) else a₁)
        ≡ sent_on (if b then fails e (in_mode true s) else a₂)
  unfolding follow
  unfailed-modes true e s a₁ a₂ h = refl
  unfailed-modes false e s a₁ a₂ h = h

  redirect-modes :
      (s : CursorState Jar) (url : Bytes)
      → redirect py (in_mode false s) url ≡ sent_on (redirect py (in_mode true s) url)
  unfolding redirect redirected retarget reauthorize
  redirect-modes s url =
      let (s', target, prepared) = redirected py s url in dispatch-modes s' target prepared

  advance_from-modes :
      (s : CursorState Jar) (url : Option Bytes)
      → advance_from py (in_mode false s) url ≡ sent_on (advance_from py (in_mode true s) url)
  unfolding advance_from advance_url enter close_response follow
  advance_from-modes s none = refl
  advance_from-modes s (some []) = refl
  advance_from-modes s (some (c ∷ url)) =
      unfailed-modes (not (reads_content py s.response)) read_failure (enter py s) _ _ (
        unfailed-modes (leb s.session.max_redirects (length s.history))
          (too_many_redirects s.response.id) (enter py s) _ _
          (redirect-modes (close_response py (enter py s)) (c ∷ url)))

  begin-modes : (b : Bool) (s : CursorState Jar) → begin py (in_mode b s) ≡ in_mode b (begin py s)
  unfolding begin
  begin-modes b s = elim (Bool-cases s.created) [ inl e ↦ simp e refl | inr e ↦ simp e refl ]

  -- A step of a cursor that follows does what a step that hands out its request does, where the request
  -- that it handed out is sent then.
  pub advance_state-modes :
      (s : CursorState Jar)
      → advance_state py (in_mode false s) ≡ sent_on (advance_state py (in_mode true s))
  unfolding advance_state
  advance_state-modes s =
      rw (begin-modes false s, begin-modes true s)
        (advance_from-modes (begin py s) (begin py s).url)
