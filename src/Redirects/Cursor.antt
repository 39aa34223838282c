-- ===== src/Redirects/Cursor.antt =====
-- `SessionRedirectCursor` of crates/requests-python/src/sessions.rs: one holder, one step at a time. A
-- token is known by its number. Python code that a step calls may come back to the cursor, and so may the
-- finalizers of the references that an end drops: a step and an end are each a start and a finish, and in
-- between stand the holders of the states that they took.
use requests_native.Prelude.{
  ℕ, ◌≡◌, Bool, true, false, not, ◌&&◌, ◌||◌, Option, none, some, List, ◌∷◌, ◌==◌, if◌then◌else◌,
  Result, ok, err, ◌>>=◌,
}
use requests_native.Redirects.{Request, Response}
use requests_native.Redirects.Python.{
  Advance, CursorState, Failure, Python, done, fails, is_some, yields_request, yields_response,
}
use requests_native.Redirects.Advance.{advance_state}

pub data Terminal : Type 0 where
  is_live is_done is_errored is_closed : Terminal

pub data CursorError : Type 0 where
  stale_generation unclaimed wrong_handle terminated already_claimed already_executing : CursorError
  stop_iteration : CursorError

pub record Cursor (Jar : Type 0) : Type 0 where
  pub running : Bool
  pub state : Option (CursorState Jar)
  pub terminal : Terminal
  pub claimed_token : Option ℕ
  pub generation : ℕ

-- What `next` gives its caller.
pub data Answer (Jar : Type 0) : Type 0 where
  gives_response : Response Jar → Answer Jar
  gives_request : Request Jar → Answer Jar
  stops : Answer Jar
  raises_failure : Failure → Answer Jar

unfoldable pub live_terminal : Terminal → Bool
live_terminal is_live = true
live_terminal is_done = false
live_terminal is_errored = false
live_terminal is_closed = false

abbrev pub check : {A : Type 0} → Option ℕ → ℕ → A → Result CursorError A
check none token a = err unclaimed
check (some claimed) token a = if claimed == token then ok a else err wrong_handle

module _ {Jar : Type 0} where
  -- `from_invocation`, with the state that it makes.
  unfoldable pub fresh_cursor : CursorState Jar → ℕ → Cursor Jar
  fresh_cursor s generation = record {
    running = false;
    state = some s;
    terminal = is_live;
    claimed_token = none;
    generation = generation;
  }

  unfoldable pub validate_token : Cursor Jar → ℕ → Result CursorError (Cursor Jar)
  validate_token c token =
      if not (c.generation == 0) then err stale_generation else check c.claimed_token token c

  -- An error leaves the cursor as it was.
  unfoldable pub claim : Cursor Jar → ℕ → Result CursorError (Cursor Jar)
  unfolding live_terminal
  claim c token =
      if not (live_terminal c.terminal) || not (is_some c.state)
      then err terminated
      else if is_some c.claimed_token
      then err already_claimed
      else ok (record c { claimed_token = some token })

  abbrev pub take_state :
      Cursor Jar → Option (CursorState Jar) → Result CursorError (Cursor Jar × CursorState Jar)
  take_state c none = err stop_iteration
  take_state c (some s) = ok (record c { running = true; state = none }, s)

  -- `advance` up to its step: where there is no state, `running` is set and reset.
  unfoldable pub start : Cursor Jar → Result CursorError (Cursor Jar × CursorState Jar)
  start c = if c.running then err already_executing else take_state c c.state

  -- `advance` behind its step.
  unfoldable pub conclude : Cursor Jar → Advance Jar → Cursor Jar × Answer Jar
  conclude c (yields_response r s) =
      (record c { running = false; state = some s; terminal = is_live }, gives_response r)
  conclude c (yields_request p s) =
      (record c { running = false; state = some s; terminal = is_live }, gives_request p)
  conclude c (done s) = (record c { running = false; terminal = is_done }, stops)
  conclude c (fails e s) = (record c { running = false; terminal = is_errored }, raises_failure e)

  -- `terminate` up to `release_state`, with the state that it takes.
  unfoldable pub begin_terminate :
      Cursor Jar → ℕ → Terminal → Result CursorError (Cursor Jar × Option (CursorState Jar))
  unfolding validate_token
  begin_terminate c token terminal = validate_token c token >>= λ c'.
      if c'.running
      then err already_executing
      else ok (record c' { running = true; state = none; terminal = terminal }, c'.state)

  -- `terminate` behind `release_state`.
  unfoldable pub end_terminate : Cursor Jar → Cursor Jar
  end_terminate c = record c { running = false }

  -- `terminate` where nothing comes back to the cursor.
  unfoldable pub terminate : Cursor Jar → ℕ → Terminal → Result CursorError (Cursor Jar)
  unfolding begin_terminate end_terminate
  terminate c token terminal = begin_terminate c token terminal >>= λ (c', o). ok (end_terminate c')

  -- Close and drop.
  unfoldable pub close : Cursor Jar → ℕ → Result CursorError (Cursor Jar)
  unfolding terminate
  close c token = terminate c token is_closed

  -- Whether the cursor has a frame.
  unfoldable pub frame : Cursor Jar → ℕ → Result CursorError Bool
  unfolding validate_token live_terminal
  frame c token = validate_token c token >>= λ c'.
      ok (live_terminal c'.terminal && (is_some c'.state || c'.running))

module _ {Jar Auth : Type 0} (py : Python Jar Auth) where
  -- `next` where nothing comes back to the cursor.
  unfoldable pub next : Cursor Jar → ℕ → Result CursorError (Cursor Jar × Answer Jar)
  unfolding validate_token start conclude
  next c token =
      validate_token c token >>= start >>= λ (c', s). ok (conclude c' (advance_state py s))

-- Who holds the state of a cursor that runs: a frame that executes a step, or an end that releases what it
-- took.
pub data Holder (Jar : Type 0) : Type 0 where
  executes : CursorState Jar → Holder Jar
  releasing : Option (CursorState Jar) → Holder Jar

-- What can happen to a cursor and its holders, the innermost first: a claim, the start of a step, the
-- finish of one with whatever it gave, the start of an end, and its finish.
pub data Step {Jar : Type 0}
    : Cursor Jar → List (Holder Jar) → Cursor Jar → List (Holder Jar) → Type 0 where
  claims :
      {c c' : Cursor Jar} {h : List (Holder Jar)} (token : ℕ)
      → claim c token ≡ ok c'
      → Step c h c' h
  starts :
      {c c' : Cursor Jar} {s : CursorState Jar} {h : List (Holder Jar)} (token : ℕ)
      → (validate_token c token >>= start) ≡ ok (c', s)
      → Step c h c' (executes s ∷ h)
  concludes :
      {c : Cursor Jar} {h : List (Holder Jar)} (s : CursorState Jar) (a : Advance Jar)
      → Step c (executes s ∷ h) (conclude c a).0 h
  closes :
      {c c' : Cursor Jar} {o : Option (CursorState Jar)} {h : List (Holder Jar)} (token : ℕ)
      → begin_terminate c token is_closed ≡ ok (c', o)
      → Step c h c' (releasing o ∷ h)
  releases :
      {c : Cursor Jar} {h : List (Holder Jar)} (o : Option (CursorState Jar))
      → Step c (releasing o ∷ h) (end_terminate c) h

-- Any number of steps.
pub data Steps {Jar : Type 0}
    : Cursor Jar → List (Holder Jar) → Cursor Jar → List (Holder Jar) → Type 0 where
  unchanged : {c : Cursor Jar} {h : List (Holder Jar)} → Steps c h c h
  further :
      {c c' c'' : Cursor Jar} {h h' h'' : List (Holder Jar)}
      → Step c h c' h'
      → Steps c' h' c'' h''
      → Steps c h c'' h''
