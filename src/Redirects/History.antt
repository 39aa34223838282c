-- ===== src/Redirects/History.antt =====
-- What the loop of `send` leaves in the responses of a redirect cursor, in
-- crates/requests-python/src/sessions.rs.
use requests_native.Prelude.{
  ℕ, zero, suc, ◌≡◌, refl, sym, ap, ap₂, ◌∙◌, ◌≢◌, inl, inr, Bool, true, false, not, ◌&&◌, Option,
  none, some, List, [], ◌∷◌, ◌++◌, map, append_assoc, append-nil, arith, leb, if◌then◌else◌, length,
  all, Bytes,
}
use requests_native.Redirects.{Request, Response}
use requests_native.Redirects.Python.{
  Advance, CursorState, Failure, Python, done, fails, yields_request, yields_response,
}
use requests_native.Redirects.Rebuild.{redirect_target}
use requests_native.Redirects.Advance.{
  advance_from, advance_state, advance_url, answered, begin, close_response, dispatch, enter,
  follow, reads_content, redirect, redirected,
}
use requests_native.Redirects.Steps.{Followed, begin_lem, advance_state-yields}
use requests_native.Redirects.Send.{
  Drained, drained, raised, out_of_fuel, collected, split_last, drain,
}
use requests_native.Redirects.Loop.{drain-cases, yielded}

-- Whether a target is gone to.
abbrev pub leads : Option Bytes → Bool
leads none = false
leads (some []) = false
leads (some (c ∷ url)) = true

module _ {Jar : Type 0} where
  abbrev pub ids : List (Response Jar) → List ℕ
  ids rs = map (λ r. r.id) rs

  abbrev end_of : CursorState Jar → Drained Jar → CursorState Jar
  end_of t (drained rs s) = s
  end_of t (raised e rs) = t
  end_of t out_of_fuel = t

  collected-drained :
      (r : Response Jar) (d : Drained Jar) (rs : List (Response Jar)) (s : CursorState Jar)
      → collected r d ≡ drained rs s
      → (qs : List (Response Jar)) × (d ≡ drained qs s) × (rs ≡ r ∷ qs)
  collected-drained r (drained qs t) rs s h = (qs, ground arith, ground arith)
  collected-drained r (raised x qs) rs s h = cc
  collected-drained r out_of_fuel rs s h = cc

  -- The histories that responses are given in turn, the latest first.
  abbrev pub recorded :
      List ℕ → Response Jar → List (Response Jar) → List (ℕ × List ℕ) → List (ℕ × List ℕ)
  recorded h r [] acc = acc
  recorded h r (q ∷ qs) acc = recorded (h ++ r.id ∷ []) q qs ((r.id, h) ∷ acc)

module _ {Jar Auth : Type 0} (py : Python Jar Auth) where
  -- Whether a response is redirected.
  abbrev pub is_redirected : Response Jar → Bool
  is_redirected r = leads (redirect_target py r)

  -- A state whose URL is that of its response.
  unfoldable pub IsFresh : CursorState Jar → Type 0
  IsFresh s = (begin py s).url ≡ redirect_target py s.response

  answered-done : (s s' : CursorState Jar) (o : Option (Response Jar)) → answered py s o ≢ done s'
  unfolding answered
  answered-done s s' none = λ e. cc
  answered-done s s' (some r) = λ e. cc

  dispatch-done :
      (b : Bool) (p : Request Jar) (s t s' : CursorState Jar) (o : Option (Response Jar))
      → (if b then yields_request p s else answered py t o) ≢ done s'
  dispatch-done true p s t s' o = λ e. cc
  dispatch-done false p s t s' o = answered-done t s' o

  dispatched-done :
      (s s' : CursorState Jar) (url : Bytes) (o : Option (Request Jar))
      → dispatch py s url o ≢ done s'
  unfolding dispatch follow
  dispatched-done s s' url none = λ e. cc
  dispatched-done s s' url (some p) = dispatch-done s.yield_requests p _ _ s' _

  redirect-done : (s s' : CursorState Jar) (url : Bytes) → redirect py s url ≢ done s'
  unfolding redirect
  redirect-done s s' url = let (t, target, o) = redirected py s url in dispatched-done t s' target o

  unfailed-done :
      (b : Bool) (e : Failure) (s s' : CursorState Jar) (a : Advance Jar)
      → a ≢ done s'
      → (if b then fails e s else a) ≢ done s'
  unfailed-done true e s s' a h = λ g. cc
  unfailed-done false e s s' a h = h

  advance_url-done : (s s' : CursorState Jar) (url : Bytes) → advance_url py s url ≢ done s'
  unfolding advance_url
  advance_url-done s s' url = unfailed-done (not (reads_content py s.response)) _ _ s' _ (
      unfailed-done (leb s.session.max_redirects (length s.history)) _ _ s' _
        (redirect-done (close_response py (enter py s)) s' url))

  advance_from-done :
      (s s' : CursorState Jar) (url : Option Bytes)
      → advance_from py s url ≡ done s'
      → (leads url ≡ false)
        × (s'.response ≡ s.response)
        × (s'.history ≡ s.history)
        × (s'.closed ≡ s.closed)
        × (s'.histories ≡ s.histories)
  unfolding advance_from
  advance_from-done s s' none h = ground arith
  advance_from-done s s' (some []) h = ground arith
  advance_from-done s s' (some (c ∷ url)) h = elim (advance_url-done s s' (c ∷ url) h) [ ]

  advance_from-leads :
      (s s' : CursorState Jar) (url : Option Bytes) (r : Response Jar)
      → advance_from py s url ≡ yields_response r s'
      → leads url ≡ true
  unfolding advance_from
  advance_from-leads s s' none r h = cc
  advance_from-leads s s' (some []) r h = cc
  advance_from-leads s s' (some (c ∷ url)) r h = refl

  -- The iteration stops at a response that leads nowhere.
  advance_state-done :
      (s s' : CursorState Jar)
      → advance_state py s ≡ done s'
      → (leads (begin py s).url ≡ false)
        × (s'.response ≡ s.response)
        × (s'.history ≡ s.history)
        × (s'.closed ≡ s.closed)
        × (s'.histories ≡ s.histories)
  unfolding advance_state
  advance_state-done s s' h =
      let (u, r, i, c, j) = advance_from-done (begin py s) s' (begin py s).url h in
      let (c', i', j', d', r', m', n') = begin_lem py s in (u, r ∙ r', i ∙ i', c ∙ d', j ∙ j')

  advance_state-leads :
      (s s' : CursorState Jar) (r : Response Jar)
      → advance_state py s ≡ yields_response r s'
      → leads (begin py s).url ≡ true
  unfolding advance_state
  advance_state-leads s s' r h = advance_from-leads (begin py s) s' (begin py s).url r h

  -- What a loop that yielded these responses leaves: the history is that of all but the last, each was
  -- closed and has the history before it, and each but the last is redirected.
  pub record Left (s : CursorState Jar) (rs : List (Response Jar)) (s' : CursorState Jar)
      : Type 0 where
    pub history : s'.history ≡ s.history ++ ids (split_last s.response rs).0
    pub closed : s'.closed ≡ s.closed ++ ids (split_last s.response rs).0
    pub histories : s'.histories ≡ recorded s.history s.response rs s.histories
    pub response : s'.response ≡ (split_last s.response rs).1
    pub redirected : all is_redirected (split_last s.response rs).0 ≡ true
    pub settled : is_redirected s'.response ≡ false

  Left-further :
      (s t s' : CursorState Jar) (r : Response Jar) (rs : List (Response Jar))
      → Followed py s r t
      → is_redirected s.response ≡ true
      → Left t rs s'
      → Left s (r ∷ rs) s'
  unfolding split_last
  Left-further s t s' r rs f h l =
      let earlier = ids (split_last r rs).0 in
      record {
        history =
            l.history
            ∙ ap₂ (λ x y. x ++ ids (split_last y rs).0) f.history f.response
            ∙ append_assoc s.history (s.response.id ∷ []) earlier;
        closed =
            l.closed
            ∙ ap₂ (λ x y. x ++ ids (split_last y rs).0) f.closed f.response
            ∙ append_assoc s.closed (s.response.id ∷ []) earlier;
        histories =
            l.histories
            ∙ ap (λ x. recorded x t.response rs t.histories) f.history
            ∙ ap (λ x. recorded (s.history ++ s.response.id ∷ []) x rs t.histories) f.response
            ∙ ap (λ x. recorded (s.history ++ s.response.id ∷ []) r rs x) f.histories;
        response = l.response ∙ ap (λ x. (split_last x rs).1) f.response;
        redirected =
            ap₂ (λ x y. x && y) h
              (ap (λ x. all is_redirected (split_last x rs).0) (sym f.response) ∙ l.redirected);
        settled = l.settled;
      }

  pub IsFresh-started : (s t : CursorState Jar) (r : Response Jar) → Followed py s r t → IsFresh t
  unfolding IsFresh begin
  IsFresh-started s t r f = rw f.started (f.url ∙ ap (redirect_target py) (sym f.response))

  Left-yielded :
      (s s' : CursorState Jar) (rs qs : List (Response Jar)) → rs ≡ qs → Left s qs s' → Left s rs s'
  Left-yielded s s' rs qs k l = rw k l

  Left-done : (s t : CursorState Jar) → IsFresh s → advance_state py s ≡ done t → Left s [] t
  unfolding split_last IsFresh
  Left-done s t i h =
      let (u, r, j, c, k) = advance_state-done s t h in
      record {
        history = j ∙ sym (append-nil s.history);
        closed = c ∙ sym (append-nil s.closed);
        histories = k;
        response = r;
        redirected = refl;
        settled = ap is_redirected r ∙ sym (ap leads i) ∙ u;
      }

  Left-ended :
      (s t s' : CursorState Jar) (rs : List (Response Jar))
      → IsFresh s
      → advance_state py s ≡ done t
      → drained [] t ≡ drained rs s'
      → Left s rs s'
  Left-ended s t s' rs i e h =
      Left-yielded s s' rs [] (ap yielded (sym h))
        (Left-done s s' i (e ∙ ap done (ap (end_of t) h)))

  -- Where the loop over a cursor that follows, and whose URL is that of its response, stops, the history is
  -- that of all responses but the last, in order; each of these was closed, was redirected and was given
  -- the history before it, and the last is not redirected.
  pub drain-history :
      (n : ℕ) (s s' : CursorState Jar) (rs : List (Response Jar))
      → s.yield_requests ≡ false
      → IsFresh s
      → drain py n s ≡ drained rs s'
      → Left s rs s'
  unfolding drain IsFresh
  drain-history zero s s' rs m i h = cc
  drain-history (suc n) s s' rs m i h = elim (drain-cases py n s m) [
    | inl (r, t, e, q) ↦
        let f = advance_state-yields py s t r e in
        let (qs, g, k) = collected-drained r (drain py n t) rs s' (sym q ∙ h) in
        let l = drain-history n t s' qs f.mode (IsFresh-started s t r f) g in
        let d = sym (ap leads i) ∙ advance_state-leads s t r e in
        Left-yielded s s' rs (r ∷ qs) k (Left-further s t s' r qs f d l)
    | inr (inl (t, e, q)) ↦ Left-ended s t s' rs i e (sym q ∙ h)
    | inr (inr (e, q)) ↦ cc
  ]
