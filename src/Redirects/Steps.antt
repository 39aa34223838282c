-- ===== src/Redirects/Steps.antt =====
-- What a step of the redirect cursor of crates/requests-python/src/sessions.rs does to its state.
use requests_native.Prelude.{
  ℕ, ◌<◌, ◌≡◌, refl, sym, ap, ◌∙◌, inl, inr, Bool, true, false, not, Option, none, some, [], ◌∷◌,
  ◌++◌, arith, leb, if◌then◌else◌, Bool-cases, length, Bytes,
}
use requests_native.Redirects.{Request, Response}
use requests_native.Redirects.Python.{
  Advance, CursorState, Failure, Python, fails, read_failure, yields_request, yields_response,
}
use requests_native.Redirects.Rebuild.{redirect_target}
use requests_native.Redirects.Advance.{
  accept, advance_from, advance_state, advance_url, answered, begin, close_response, dispatch,
  enter, follow, nested_send, reads_content, redirect, redirected,
}

-- What a step that yields a response does to the state.
pub record Followed {Jar Auth : Type 0} (py : Python Jar Auth) (s : CursorState Jar)
    (r : Response Jar) (s' : CursorState Jar) : Type 0 where
  pub history : s'.history ≡ s.history ++ s.response.id ∷ []
  pub histories : s'.histories ≡ (s.response.id, s.history) ∷ s.histories
  pub closed : s'.closed ≡ s.closed ++ s.response.id ∷ []
  pub response : s'.response ≡ r
  pub url : s'.url ≡ redirect_target py r
  pub answered : nested_send py (record s' { session = s.session }) ≡ some r
  pub below : length s.history < s.session.max_redirects
  pub limit : s'.session.max_redirects ≡ s.session.max_redirects
  pub mode : s'.yield_requests ≡ false
  pub started : s'.created ≡ false

module _ {Jar Auth : Type 0} (py : Python Jar Auth) where
  -- The state behind an answer.
  abbrev pub after : CursorState Jar → Response Jar → CursorState Jar
  after s r = record s {
    session = accept py (accept py s.session s.request r) s.request r;
    response = r;
    url = redirect_target py r;
  }

  answered-yields :
      (s s' : CursorState Jar) (o : Option (Response Jar)) (r : Response Jar)
      → answered py s o ≡ yields_response r s'
      → (o ≡ some r) × (s' ≡ after s r)
  unfolding answered accept
  answered-yields s s' none r h = cc
  answered-yields s s' (some q) r h = ground arith

  -- Where a test decides between a request and another step.
  chosen-yields :
      (b : Bool) (p : Request Jar) (s s' : CursorState Jar) (a : Advance Jar) (r : Response Jar)
      → (if b then yields_request p s else a) ≡ yields_response r s'
      → (b ≡ false) × (a ≡ yields_response r s')
  chosen-yields true p s s' a r h = cc
  chosen-yields false p s s' a r h = (refl, h)

  -- Where a test decides between a failure and another step.
  unfailed-yields :
      (b : Bool) (e : Failure) (s s' : CursorState Jar) (a : Advance Jar) (r : Response Jar)
      → (if b then fails e s else a) ≡ yields_response r s'
      → (b ≡ false) × (a ≡ yields_response r s')
  unfailed-yields true e s s' a r h = cc
  unfailed-yields false e s s' a r h = (refl, h)

  -- What a dispatch that yields a response makes of its state.
  dispatch-yields :
      (s s' : CursorState Jar) (url : Bytes) (o : Option (Request Jar)) (r : Response Jar)
      → dispatch py s url o ≡ yields_response r s'
      → (s.yield_requests ≡ false)
        × (nested_send py (record s' { session = s.session }) ≡ some r)
        × ((prepared : Request Jar) × (s'
              ≡ after (record s { request = prepared; url = some url }) r))
  unfolding dispatch follow nested_send
  dispatch-yields s s' url none r h = cc
  dispatch-yields s s' url (some prepared) r h =
      let (e, g) = chosen-yields s.yield_requests prepared _ s' _ r h in
      let (q, p) = answered-yields (record s { request = prepared; url = some url }) s' _ r g in
      (e, rw p q, (prepared, p))

  unreached : (m n : ℕ) → leb m n ≡ false → n < m
  unreached m n h = ground arith

  redirect-yields :
      (s s' : CursorState Jar) (url : Bytes) (r : Response Jar)
      → redirect py s url ≡ yields_response r s'
      → (s.yield_requests ≡ false)
        × (nested_send py (record s' { session = s.session }) ≡ some r)
        × ((t : CursorState Jar) × (s' ≡ after t r)
            × ((t.history ≡ s.history)
                × (t.histories ≡ s.histories)
                × (t.closed ≡ s.closed)
                × (t.session ≡ s.session)
                × (t.yield_requests ≡ s.yield_requests)
                × (t.created ≡ s.created)))
  unfolding redirect redirected
  redirect-yields s s' url r h =
      let (t, target, o) = redirected py s url in
      let (e, q, (prepared, p)) = dispatch-yields t s' target o r h in
      (
        e,
        q,
        (
          record t { request = prepared; url = some target },
          p,
          (refl, refl, refl, refl, refl, refl),
        ),
      )

  advance_url-yields :
      (s s' : CursorState Jar) (url : Bytes) (r : Response Jar)
      → s.created ≡ false
      → advance_url py s url ≡ yields_response r s'
      → Followed py s r s'
  unfolding advance_url enter close_response accept
  advance_url-yields s s' url r c h =
      let (e, g) = unfailed-yields (not (reads_content py s.response)) read_failure _ s' _ r h in
      let (k, l) = unfailed-yields (leb s.session.max_redirects (length s.history)) _ _ s' _ r g in
      let (m, q, (t, p, (h₁, h₂, h₃, h₄, h₅, h₆))) =
        redirect-yields (close_response py (enter py s)) s' url r l in
      record {
        history = ap (λ x. x.history) p ∙ h₁;
        histories = ap (λ x. x.histories) p ∙ h₂;
        closed = ap (λ x. x.closed) p ∙ h₃;
        response = ap (λ x. x.response) p;
        url = ap (λ x. x.url) p;
        answered = q;
        below = unreached s.session.max_redirects (length s.history) k;
        limit = ap (λ x. x.session.max_redirects) p ∙ ap (λ x. x.max_redirects) h₄;
        mode = ap (λ x. x.yield_requests) p ∙ h₅ ∙ m;
        started = ap (λ x. x.created) p ∙ h₆ ∙ c;
      }

  advance_from-yields :
      (s s' : CursorState Jar) (url : Option Bytes) (r : Response Jar)
      → s.created ≡ false
      → advance_from py s url ≡ yields_response r s'
      → Followed py s r s'
  unfolding advance_from
  advance_from-yields s s' none r c h = cc
  advance_from-yields s s' (some []) r c h = cc
  advance_from-yields s s' (some (x ∷ url)) r c h = advance_url-yields s s' (x ∷ url) r c h

  -- A state that has its first URL.
  pub begin_lem :
      (s : CursorState Jar)
      → ((begin py s).created ≡ false)
        × ((begin py s).history ≡ s.history)
        × ((begin py s).histories ≡ s.histories)
        × ((begin py s).closed ≡ s.closed)
        × ((begin py s).response ≡ s.response)
        × ((begin py s).session ≡ s.session)
        × ((begin py s).yield_requests ≡ s.yield_requests)
  unfolding begin
  begin_lem s = elim (Bool-cases s.created) [
    | inl e ↦ simp e (refl, refl, refl, refl, refl, refl, refl)
    | inr e ↦ simp e (refl, refl, refl, refl, refl, refl, refl)
  ]

  -- A step that yields a response follows the URL of the response before it, below the limit.
  pub advance_state-yields :
      (s s' : CursorState Jar) (r : Response Jar)
      → advance_state py s ≡ yields_response r s'
      → Followed py s r s'
  unfolding advance_state
  advance_state-yields s s' r h =
      let (c, i, j, k, l, m, n) = begin_lem s in
      let f = advance_from-yields (begin py s) s' (begin py s).url r c h in
      record {
        history = cc f.history;
        histories = cc f.histories;
        closed = cc f.closed;
        response = f.response;
        url = f.url;
        answered = sym (ap (λ x. nested_send py (record s' { session = x })) m) ∙ f.answered;
        below = ground (arith, f.below, i, m);
        limit = cc f.limit;
        mode = f.mode;
        started = f.started;
      }
