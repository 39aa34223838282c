-- ===== src/Redirects/Loop.antt =====
-- The loop of `send` over a redirect cursor that follows, in crates/requests-python/src/sessions.rs: how
-- it ends, and what it leaves.
use requests_native.Prelude.{
  ℕ, zero, suc, ◌+◌, ◌-◌, ◌≤◌, ◌<◌, ◌≡◌, refl, sym, ap, ◌∙◌, ◌≢◌, ◌⊎◌, inl, inr, true, false,
  Option, none, some, List, [], ◌∷◌, arith, length, length-append,
}
use requests_native.Redirects.{Request, Response}
use requests_native.Redirects.Python.{
  Advance, CursorState, Failure, Python, done, fails, yields_request, yields_response,
}
use requests_native.Redirects.Advance.{advance_state, answered, follow}
use requests_native.Redirects.Steps.{advance_state-yields}
use requests_native.Redirects.Modes.{in_mode, sent_on, advance_state-modes}
use requests_native.Redirects.Send.{Drained, drained, raised, out_of_fuel, collected, drain}

module _ {Jar : Type 0} where
  -- The responses that the loop got.
  abbrev pub yielded : Drained Jar → List (Response Jar)
  yielded (drained rs s) = rs
  yielded (raised e rs) = rs
  yielded out_of_fuel = []

  Advance-cases :
      (a : Advance Jar)
      → ((r : Response Jar) × (s : CursorState Jar) × (a ≡ yields_response r s))
        ⊎ ((p : Request Jar) × (s : CursorState Jar) × (a ≡ yields_request p s))
        ⊎ ((s : CursorState Jar) × (a ≡ done s))
        ⊎ ((e : Failure) × (s : CursorState Jar) × (a ≡ fails e s))
  Advance-cases (yields_response r s) = inl (r, s, refl)
  Advance-cases (yields_request p s) = inr (inl (p, s, refl))
  Advance-cases (done s) = inr (inr (inl (s, refl)))
  Advance-cases (fails e s) = inr (inr (inr (e, s, refl)))

  length-yielded-collected :
      (r : Response Jar) (d : Drained Jar)
      → length (yielded (collected r d)) ≤ suc (length (yielded d))
  length-yielded-collected r (drained rs s) = ground arith
  length-yielded-collected r (raised e rs) = ground arith
  length-yielded-collected r out_of_fuel = ground arith

  collected-ends :
      (r : Response Jar) (d : Drained Jar) → d ≢ out_of_fuel → collected r d ≢ out_of_fuel
  collected-ends r (drained rs s) h = λ e. cc
  collected-ends r (raised x rs) h = λ e. cc
  collected-ends r out_of_fuel h = λ e. h refl

module _ {Jar Auth : Type 0} (py : Python Jar Auth) where
  answered-requests :
      (s s' : CursorState Jar) (o : Option (Response Jar)) (p : Request Jar)
      → answered py s o ≢ yields_request p s'
  unfolding answered
  answered-requests s s' none p = λ e. cc
  answered-requests s s' (some r) p = λ e. cc

  sent_on-requests :
      (a : Advance Jar) (p : Request Jar) (s' : CursorState Jar)
      → sent_on py a ≢ yields_request p s'
  unfolding follow
  sent_on-requests (yields_response r s) p s' = λ e. cc
  sent_on-requests (yields_request q s) p s' =
      answered-requests (in_mode false (record s { request = q })) s' _ p
  sent_on-requests (done s) p s' = λ e. cc
  sent_on-requests (fails x s) p s' = λ e. cc

  -- A cursor that follows hands out no request.
  follows-requests :
      (s s' : CursorState Jar) (p : Request Jar)
      → s.yield_requests ≡ false
      → advance_state py s ≢ yields_request p s'
  follows-requests s s' p h =
      let q = ap (λ b. advance_state py (in_mode b s)) h ∙ advance_state-modes py s in
      λ e. sent_on-requests (advance_state py (in_mode true s)) p s' (sym q ∙ e)

  -- The three ways of a step of the loop.
  pub drain-cases :
      (n : ℕ) (s : CursorState Jar)
      → s.yield_requests ≡ false
      → ((r : Response Jar) × (s' : CursorState Jar) × (advance_state py s ≡ yields_response r s')
          × (drain py (suc n) s ≡ collected r (drain py n s')))
        ⊎ ((s' : CursorState Jar) × (advance_state py s ≡ done s')
            × (drain py (suc n) s ≡ drained [] s'))
        ⊎ ((e : Failure) × (drain py (suc n) s ≡ raised e []))
  unfolding drain
  drain-cases n s h = elim (Advance-cases (advance_state py s)) [
    | inl (r, s', e) ↦ inl (r, s', e, rw (e, drain) refl)
    | inr (inl (p, s', e)) ↦ elim (follows-requests s s' p h e) [ ]
    | inr (inr (inl (s', e))) ↦ inr (inl (s', e, rw (e, drain) refl))
    | inr (inr (inr (e, s', q))) ↦ inr (inr (e, rw (q, drain) refl))
  ]

  -- The loop yields no more responses than the limit leaves.
  pub drain-bound :
      (n : ℕ) (s : CursorState Jar)
      → s.yield_requests ≡ false
      → length (yielded (drain py n s)) ≤ s.session.max_redirects - length s.history
  unfolding drain
  drain-bound zero s h = ground arith
  drain-bound (suc n) s h = elim (drain-cases n s h) [
    | inl (r, s', e, q) ↦
        let f = advance_state-yields py s s' r e in
        let i = drain-bound n s' f.mode in
        let l = length-yielded-collected r (drain py n s') in
        let k = ap length f.history in
        let m = length-append s.history (s.response.id ∷ []) in
        rw q (ground (arith, i, l, k, m, f.below, f.limit))
    | inr (inl (s', e, q)) ↦ rw q (ground arith)
    | inr (inr (e, q)) ↦ rw q (ground arith)
  ]

  -- With fuel above what the limit leaves, the loop ends.
  pub drain-ends :
      (n : ℕ) (s : CursorState Jar)
      → s.yield_requests ≡ false
      → s.session.max_redirects < n + length s.history
      → 0 < n
      → drain py n s ≢ out_of_fuel
  unfolding drain
  drain-ends zero s h l k = ground arith
  drain-ends (suc n) s h l k = elim (drain-cases n s h) [
    | inl (r, s', e, q) ↦
        let f = advance_state-yields py s s' r e in
        let j = ap length f.history ∙ length-append s.history (s.response.id ∷ []) in
        let i =
          drain-ends n s' f.mode (ground (arith, j, l, f.limit)) (ground (arith, l, f.below)) in
        rw q (collected-ends r (drain py n s') i)
    | inr (inl (s', e, q)) ↦ rw q (λ x. cc)
    | inr (inr (e, q)) ↦ rw q (λ x. cc)
  ]
