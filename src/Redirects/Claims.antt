-- ===== src/Redirects/Claims.antt =====
-- What the token of a redirect cursor of crates/requests-python/src/sessions.rs keeps, and what its end
-- does.
use requests_native.Prelude.{
  ℕ, ◌≡◌, refl, ap, ◌∙◌, ◌≢◌, ◌⊎◌, inl, inr, Bool, true, false, none, some, List, [], ◌∷◌, ◌==◌,
  if◌then◌else◌, Bool-cases, ok, err, ◌>>=◌,
}
use requests_native.Redirects.Python.{Python, done, fails, yields_request, yields_response}
use requests_native.Redirects.Cursor.{
  already_executing, stop_iteration, wrong_handle, terminated, Cursor, Holder, executes, releasing,
  live_terminal, validate_token, claim, start, conclude, begin_terminate, end_terminate, terminate,
  close, frame, next, Step, claims, starts, concludes, closes, releases, Steps, unchanged, further,
}
use requests_native.Redirects.Protocol.{unequal, equal, claim-ok, starts-ok, close-ok}
use requests_native.Redirects.Advance.{advance_state}

module _ {Jar : Type 0} where
  Step-claimed :
      (c c' : Cursor Jar) (h h' : List (Holder Jar)) (token : ℕ)
      → Step c h c' h'
      → c.claimed_token ≡ some token
      → c'.claimed_token ≡ some token
  unfolding conclude end_terminate
  Step-claimed c c' h h' token (claims t e) k = let (p, q, r, s) = claim-ok c c' t e in cc
  Step-claimed c c' h h' token (starts t e) k = let (p, q, r) = starts-ok c c' _ t e in rw r k
  Step-claimed c c' h h' token (concludes lent_state (yields_response r s)) k = k
  Step-claimed c c' h h' token (concludes lent_state (yields_request r s)) k = k
  Step-claimed c c' h h' token (concludes lent_state (done s)) k = k
  Step-claimed c c' h h' token (concludes lent_state (fails x s)) k = k
  Step-claimed c c' h h' token (closes t e) k = let (p, q) = close-ok c c' _ t e in rw q k
  Step-claimed c c' h h' token (releases o) k = k

  -- The token of a claimed cursor is its token for good.
  Steps-claimed :
      (c c' : Cursor Jar) (h h' : List (Holder Jar)) (token : ℕ)
      → Steps c h c' h'
      → c.claimed_token ≡ some token
      → c'.claimed_token ≡ some token
  Steps-claimed c c' h h' token unchanged k = k
  Steps-claimed c c' h h' token (further s r) k =
      Steps-claimed _ c' _ h' token r (Step-claimed c _ h _ token s k)

  abbrev none_executes : List (Holder Jar) → Bool
  none_executes [] = true
  none_executes (executes s ∷ h) = false
  none_executes (releasing o ∷ h) = none_executes h

  -- A cursor that ended, or whose end releases what it took.
  unfoldable pub IsEnded : Cursor Jar → List (Holder Jar) → Type 0
  unfolding live_terminal
  IsEnded c h = (c.state ≡ none) × (live_terminal c.terminal ≡ false) × (none_executes h ≡ true)

  Step-IsEnded :
      (c c' : Cursor Jar) (h h' : List (Holder Jar)) → Step c h c' h' → IsEnded c h → IsEnded c' h'
  unfolding IsEnded live_terminal end_terminate
  Step-IsEnded c c' h h' (claims t e) (l, m, n) = let (p, q, r, s) = claim-ok c c' t e in cc
  Step-IsEnded c c' h h' (starts t e) (l, m, n) = let (p, q, r) = starts-ok c c' _ t e in cc
  Step-IsEnded c c' h h' (concludes lent a) (l, m, n) = cc
  Step-IsEnded c c' h h' (closes t e) (l, m, n) =
      let (p, q) = close-ok c c' _ t e in rw q (refl, refl, n)
  Step-IsEnded c c' h h' (releases o) i = i

  Steps-IsEnded :
      (c c' : Cursor Jar) (h h' : List (Holder Jar)) → Steps c h c' h' → IsEnded c h → IsEnded c' h'
  Steps-IsEnded c c' h h' unchanged i = i
  Steps-IsEnded c c' h h' (further s r) i = Steps-IsEnded _ c' _ h' r (Step-IsEnded c _ h _ s i)

  -- A claimed cursor, which a generation of zero answers for.
  unfoldable pub IsClaimed : ℕ → Cursor Jar → Type 0
  IsClaimed token c = (c.generation ≡ 0) × (c.claimed_token ≡ some token)

  Step-generation :
      (c c' : Cursor Jar) (h h' : List (Holder Jar)) → Step c h c' h' → c'.generation ≡ c.generation
  unfolding conclude end_terminate
  Step-generation c c' h h' (claims t e) = let (p, q, r, s) = claim-ok c c' t e in cc
  Step-generation c c' h h' (starts t e) = let (p, q, r) = starts-ok c c' _ t e in rw r refl
  Step-generation c c' h h' (concludes lent_state (yields_response r s)) = refl
  Step-generation c c' h h' (concludes lent_state (yields_request r s)) = refl
  Step-generation c c' h h' (concludes lent_state (done s)) = refl
  Step-generation c c' h h' (concludes lent_state (fails x s)) = refl
  Step-generation c c' h h' (closes t e) = let (p, q) = close-ok c c' _ t e in rw q refl
  Step-generation c c' h h' (releases o) = refl

  Steps-IsClaimed :
      (c c' : Cursor Jar) (h h' : List (Holder Jar)) (token : ℕ)
      → Steps c h c' h'
      → IsClaimed token c
      → IsClaimed token c'
  unfolding IsClaimed
  Steps-IsClaimed c c' h h' token unchanged i = i
  Steps-IsClaimed c c' h h' token (further s r) (g, k) =
      Steps-IsClaimed _ c' _ h' token r
        (Step-generation c _ h _ s ∙ g, Step-claimed c _ h _ token s k)

  IsClaimed-validate :
      (c : Cursor Jar) (token other : ℕ)
      → IsClaimed token c
      → validate_token c other ≡ (if token == other then ok c else err wrong_handle)
  unfolding IsClaimed validate_token
  IsClaimed-validate c token other (g, k) = rw (g, k) refl

  claim-claimed :
      (c : Cursor Jar) (token other : ℕ) (c' : Cursor Jar)
      → IsClaimed token c
      → claim c other ≢ ok c'
  unfolding IsClaimed
  claim-claimed c token other c' (g, k) = λ e. let (p, q, r, s) = claim-ok c c' other e in cc

module _ {Jar Auth : Type 0} (py : Python Jar Auth) where
  -- From its claim on, a cursor of generation zero answers another token with an error whatever happens to it,
  -- and no other claim succeeds.
  pub Steps-wrong_handle :
      (c c' c'' : Cursor Jar) (h h' : List (Holder Jar)) (token other : ℕ)
      → IsClaimed token c
      → Steps c h c' h'
      → token ≢ other
      → (next py c' other ≡ err wrong_handle)
        × (close c' other ≡ err wrong_handle)
        × (frame c' other ≡ err wrong_handle)
        × (claim c' other ≢ ok c'')
  unfolding next close terminate begin_terminate frame
  Steps-wrong_handle c c' c'' h h' token other i r n =
      let j = Steps-IsClaimed c c' h h' token r i in
      let k = unequal token other n in
      let v =
        IsClaimed-validate c' token other j ∙ ap (λ b. if b then ok c' else err wrong_handle) k in
      (rw v refl, rw v refl, rw v refl, claim-claimed c' token other c'' j)

  -- A claimed cursor of generation zero that ended stops for good, whatever happens in between: `next` ends
  -- the iteration, or fails while an end still releases, there is no frame, and a claim fails.
  pub Steps-stopped :
      (c c' : Cursor Jar) (h h' : List (Holder Jar)) (token : ℕ)
      → IsClaimed token c
      → IsEnded c h
      → Steps c h c' h'
      → (next py c' token ≡ err (if c'.running then already_executing else stop_iteration))
        × (frame c' token ≡ ok false)
        × (claim c' token ≡ err terminated)
  unfolding next start frame claim IsEnded
  Steps-stopped c c' h h' token i e r =
      let j = Steps-IsClaimed c c' h h' token r i in
      let (l, m, n) = Steps-IsEnded c c' h h' r e in
      let v =
        IsClaimed-validate c' token token j
        ∙ ap (λ b. if b then ok c' else err wrong_handle) (equal token) in
      (rw v (stops_at (Bool-cases c'.running) l), rw (v, m) refl, rw (m) refl)
    where
      stops_at :
          (c'.running ≡ true) ⊎ (c'.running ≡ false)
          → c'.state ≡ none
          → (start c' >>= λ (d, s). ok (conclude d (advance_state py s)))
            ≡ err (if c'.running then already_executing else stop_iteration)
      stops_at (inl q) l = rw (q, start) refl
      stops_at (inr q) l = rw (q, l, start) refl
