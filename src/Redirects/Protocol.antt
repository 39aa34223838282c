-- ===== src/Redirects/Protocol.antt =====
-- What holds of a redirect cursor of crates/requests-python/src/sessions.rs, whoever calls it in whatever
-- order.
use requests_native.Prelude.{
  ℕ, ◌≡◌, refl, sym, ap, ◌∙◌, ◌≢◌, inl, inr, true, false, Option, none, some, List, [], ◌∷◌, arith,
  ◌==◌, Option-cases, Result, ok, err, ◌>>=◌,
}
use requests_native.Redirects.Python.{
  Advance, CursorState, done, fails, is_some, yields_request, yields_response,
}
use requests_native.Redirects.Cursor.{
  is_closed, CursorError, Cursor, Holder, executes, releasing, live_terminal, fresh_cursor,
  validate_token, claim, start, conclude, begin_terminate, end_terminate, Step, claims, starts,
  concludes, closes, releases, Steps, unchanged, further,
}

bind-ok {ℓ κ} :
    {A : Type ℓ} {B : Type κ} (r : Result CursorError A) (f : A → Result CursorError B) (b : B)
    → (r >>= f) ≡ ok b
    → (a : A) × (r ≡ ok a) × (f a ≡ ok b)
bind-ok (ok a) f b h = (a, refl, h)
bind-ok (err e) f b h = cc

pub unequal : (m n : ℕ) → m ≢ n → (m == n) ≡ false
unequal m n h = ground arith

pub equal : (n : ℕ) → (n == n) ≡ true
equal n = ground arith

module _ {Jar : Type 0} where
  -- A cursor at rest has its state just where it is live, and no holder; one that runs has lent its state to
  -- its one holder, and is live where that executes and closed where it releases.
  unfoldable pub IsSound : Cursor Jar → List (Holder Jar) → Type 0
  unfolding live_terminal
  IsSound c [] = (c.running ≡ false) × (is_some c.state ≡ live_terminal c.terminal)
  IsSound c (executes s ∷ []) =
      (c.running ≡ true) × (c.state ≡ none) × (live_terminal c.terminal ≡ true)
  IsSound c (releasing o ∷ []) = (c.running ≡ true) × (c.state ≡ none) × (c.terminal ≡ is_closed)
  IsSound c (x ∷ y ∷ h) = ⊥

  pub claim-ok :
      (c c' : Cursor Jar) (token : ℕ)
      → claim c token ≡ ok c'
      → (c' ≡ record c { claimed_token = some token })
        × (c.claimed_token ≡ none)
        × (live_terminal c.terminal ≡ true)
        × (is_some c.state ≡ true)
  unfolding claim
  claim-ok c c' token h = ground arith

  validate-ok : (c c' : Cursor Jar) (token : ℕ) → validate_token c token ≡ ok c' → c' ≡ c
  unfolding validate_token
  validate-ok c c' token h = elim (Option-cases c.claimed_token) [
    | inl e ↦ ground arith
    | inr (t, e) ↦ ground arith
  ]

  start-ok :
      (c c' : Cursor Jar) (s : CursorState Jar)
      → start c ≡ ok (c', s)
      → (c.running ≡ false) × (c.state ≡ some s) × (c' ≡ record c { running = true; state = none })
  unfolding start
  start-ok c c' s h = elim (Option-cases c.state) [
    | inl e ↦ ground arith
    | inr (t, e) ↦ ground arith
  ]

  pub starts-ok :
      (c c' : Cursor Jar) (s : CursorState Jar) (token : ℕ)
      → (validate_token c token >>= start) ≡ ok (c', s)
      → (c.running ≡ false) × (c.state ≡ some s) × (c' ≡ record c { running = true; state = none })
  starts-ok c c' s token h =
      let (d, e, f) = bind-ok (validate_token c token) start (c', s) h in
      start-ok c c' s (sym (ap start (validate-ok c d token e)) ∙ f)

  pub close-ok :
      (c c' : Cursor Jar) (o : Option (CursorState Jar)) (token : ℕ)
      → begin_terminate c token is_closed ≡ ok (c', o)
      → (c.running ≡ false) × (c' ≡ record c { running = true; state = none; terminal = is_closed })
  unfolding begin_terminate
  close-ok c c' o token h =
      let (d, e, f) = bind-ok (validate_token c token) _ (c', o) h in
      let k = validate-ok c d token e in ground (arith, f, k)

  -- A cursor that does not run is at rest.
  at_rest :
      (c : Cursor Jar) (h : List (Holder Jar))
      → IsSound c h
      → c.running ≡ false
      → (h ≡ []) × (is_some c.state ≡ live_terminal c.terminal)
  unfolding IsSound
  at_rest c [] (k, l) e = (refl, l)
  at_rest c (executes s ∷ []) (k, l, m) e = cc
  at_rest c (releasing o ∷ []) (k, l, m) e = cc
  at_rest c (x ∷ y ∷ h) i e = absurd i

  claimed-IsSound :
      (c : Cursor Jar) (h : List (Holder Jar)) (token : ℕ)
      → IsSound c h
      → IsSound (record c { claimed_token = some token }) h
  unfolding IsSound
  claimed-IsSound c [] token i = i
  claimed-IsSound c (executes s ∷ []) token i = i
  claimed-IsSound c (releasing o ∷ []) token i = i
  claimed-IsSound c (x ∷ y ∷ h) token i = i

  conclude-IsSound :
      (c : Cursor Jar) (s : CursorState Jar) (h : List (Holder Jar)) (a : Advance Jar)
      → IsSound c (executes s ∷ h)
      → IsSound (conclude c a).0 h
  unfolding IsSound conclude
  conclude-IsSound c s [] (yields_response r s') (k, l, m) = (refl, refl)
  conclude-IsSound c s [] (yields_request p s') (k, l, m) = (refl, refl)
  conclude-IsSound c s [] (done s') (k, l, m) = (refl, rw l refl)
  conclude-IsSound c s [] (fails e s') (k, l, m) = (refl, rw l refl)
  conclude-IsSound c s (x ∷ h) a i = absurd i

  releases-IsSound :
      (c : Cursor Jar) (o : Option (CursorState Jar)) (h : List (Holder Jar))
      → IsSound c (releasing o ∷ h)
      → IsSound (end_terminate c) h
  unfolding IsSound end_terminate
  releases-IsSound c o [] (k, l, m) = (refl, rw (l, m) refl)
  releases-IsSound c o (x ∷ h) i = absurd i

  -- A step of anyone keeps the cursor sound.
  Step-IsSound :
      (c c' : Cursor Jar) (h h' : List (Holder Jar)) → Step c h c' h' → IsSound c h → IsSound c' h'
  unfolding IsSound
  Step-IsSound c c' h h' (claims token e) i =
      let (p, q, r, s) = claim-ok c c' token e in rw p (claimed-IsSound c h token i)
  Step-IsSound c c' h h' (starts token e) i =
      let (p, q, r) = starts-ok c c' _ token e in
      let (k, l) = at_rest c h i p in rw (k, r) (refl, refl, sym l ∙ ap is_some q)
  Step-IsSound c c' h h' (concludes lent a) i = conclude-IsSound c lent h' a i
  Step-IsSound c c' h h' (closes token e) i =
      let (p, r) = close-ok c c' _ token e in
      let (k, l) = at_rest c h i p in rw (k, r) (refl, refl, refl)
  Step-IsSound c c' h h' (releases o) i = releases-IsSound c o h' i

  Steps-IsSound :
      (c c' : Cursor Jar) (h h' : List (Holder Jar)) → Steps c h c' h' → IsSound c h → IsSound c' h'
  Steps-IsSound c c' h h' unchanged i = i
  Steps-IsSound c c' h h' (further s r) i = Steps-IsSound _ c' _ h' r (Step-IsSound c _ h _ s i)

  fresh_cursor-IsSound :
      (s : CursorState Jar) (generation : ℕ) → IsSound (fresh_cursor s generation) []
  unfolding fresh_cursor IsSound
  fresh_cursor-IsSound s generation = (refl, refl)

  -- Whatever callers do with a new cursor, in whatever order, at most one step executes or end releases at a
  -- time; the cursor runs just where one does and has then no state, is live where a step executes and closed
  -- where an end releases, and at rest it has a state just where it is live.
  pub fresh_cursor-Steps :
      (s : CursorState Jar) (generation : ℕ) (c : Cursor Jar) (h : List (Holder Jar))
      → Steps (fresh_cursor s generation) [] c h
      → IsSound c h
  fresh_cursor-Steps s generation c h r =
      Steps-IsSound (fresh_cursor s generation) c [] h r (fresh_cursor-IsSound s generation)
