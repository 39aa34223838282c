-- ===== src/Redirects/Outcomes.antt =====
-- What `session_send_with_builtins` of crates/requests-python/src/sessions.rs returns.
use requests_native.Prelude.{
  ℕ, suc, ◌≤◌, ◌<◌, ◌≡◌, refl, sym, ap, ◌∙◌, ◌≢◌, inl, inr, Bool, true, false, Option, none, some,
  List, [], ◌∷◌, arith, Bool-cases, length,
}
use requests_native.Redirects.{Request, Response}
use requests_native.Redirects.Python.{
  Advance, CursorState, Proxies, Python, Session, done, fails, new_cursor, yields_request,
  yields_response,
}
use requests_native.Redirects.Advance.{accept, begin, is_loaded}
use requests_native.Redirects.Send.{
  Drained, drained, raised, out_of_fuel, split_last, drain, Outcome, returned, raises, unfinished,
  load, finish, set_next, send_answer, session_send,
}
use requests_native.Redirects.Loop.{yielded, drain-bound, drain-ends}
use requests_native.Redirects.History.{drain-history, IsFresh, is_redirected, ids}

module _ {Jar : Type 0} where
  length-split_last :
      (r : Response Jar) (rs : List (Response Jar)) → length (split_last r rs).0 ≡ length rs
  unfolding split_last
  length-split_last r [] = refl
  length-split_last r (q ∷ qs) = ap suc (length-split_last q qs)

  length-ids : (rs : List (Response Jar)) → length (ids rs) ≡ length rs
  length-ids [] = refl
  length-ids (r ∷ rs) = ap suc (length-ids rs)

  -- The response that `send` gives its caller.
  abbrev pub answer_of : Outcome Jar → Option (Response Jar)
  answer_of (returned r h n) = some r
  answer_of (raises e) = none
  answer_of unfinished = none

module _ {Jar Auth : Type 0} (py : Python Jar Auth) where
  load-finished :
      (stream : Bool) (r : Response Jar) (h : List ℕ) (n : Option (Request Jar))
      → load py stream r h n ≢ unfinished
  unfolding load
  load-finished stream r h n = elim (Bool-cases (is_loaded py stream r)) [
    | inl e ↦ rw e (λ x. cc)
    | inr e ↦ rw e (λ x. cc)
  ]

  load-returned :
      (stream : Bool) (r q : Response Jar) (h g : List ℕ) (n m : Option (Request Jar))
      → load py stream r h n ≡ returned q g m
      → (q ≡ r) × (g ≡ h) × (m ≡ n)
  unfolding load
  load-returned stream r q h g n m e = ground arith

  finish-finished :
      (stream : Bool) (r : Response Jar) (d : Drained Jar)
      → d ≢ out_of_fuel
      → finish py stream r d ≢ unfinished
  unfolding finish
  finish-finished stream r (drained rs s) h = load-finished stream _ _ none
  finish-finished stream r (raised e rs) h = λ x. cc
  finish-finished stream r out_of_fuel h = λ x. h refl

  set_next-finished :
      (stream : Bool) (r : Response Jar) (a : Advance Jar) → set_next py stream r a ≢ unfinished
  unfolding set_next
  set_next-finished stream r (yields_request p s) = load-finished stream r [] (some p)
  set_next-finished stream r (yields_response q s) = load-finished stream r [] none
  set_next-finished stream r (done s) = load-finished stream r [] none
  set_next-finished stream r (fails e s) = λ x. cc

  send_answer-finished :
      (fuel : ℕ) (session : Session Jar) (request : Request Jar) (proxies : Proxies)
      (stream allow : Bool) (o : Option (Response Jar))
      → session.max_redirects < fuel
      → send_answer py fuel session request proxies stream allow o ≢ unfinished
  unfolding send_answer new_cursor accept
  send_answer-finished fuel session request proxies stream allow none h = λ x. cc
  send_answer-finished fuel session request proxies stream false (some r) h =
      set_next-finished stream r _
  send_answer-finished fuel session request proxies stream true (some r) h =
      finish-finished stream r _ (
        drain-ends py fuel (new_cursor (accept py session request r) r request proxies stream false)
          refl (omega (arith, h)) (omega (arith, h)))

  -- With more fuel than the session's limit on redirects, `send` returns or raises, whatever the server
  -- answers.
  pub session_send-finished :
      (fuel sent : ℕ) (session : Session Jar) (request : Request Jar) (proxies : Proxies)
      (stream allow : Bool)
      → session.max_redirects < fuel
      → session_send py fuel sent session request proxies stream allow ≢ unfinished
  unfolding session_send
  session_send-finished fuel sent session request proxies stream allow =
      send_answer-finished fuel session request proxies stream allow (py.adapter_send sent request)

  finish-returned :
      (stream : Bool) (first r : Response Jar) (d : Drained Jar) (h : List ℕ)
      (n : Option (Request Jar))
      → finish py stream first d ≡ returned r h n
      → (rs : List (Response Jar)) × (s : CursorState Jar) × (d ≡ drained rs s)
        × (r ≡ (split_last first rs).1)
        × (h ≡ ids (split_last first rs).0)
        × (n ≡ none)
  unfolding finish
  finish-returned stream first r (drained rs s) h n e =
      let (q, g, m) =
        load-returned stream (split_last first rs).1 r (ids (split_last first rs).0) h none n e in
      (rs, s, refl, q, g, m)
  finish-returned stream first r (raised x rs) h n e = cc
  finish-returned stream first r out_of_fuel h n e = cc

  followed-settled :
      (fuel : ℕ) (s : CursorState Jar) (first r : Response Jar) (stream : Bool) (h : List ℕ)
      (n : Option (Request Jar))
      → s.response ≡ first
      → s.history ≡ []
      → s.yield_requests ≡ false
      → IsFresh py s
      → finish py stream first (drain py fuel s) ≡ returned r h n
      → (is_redirected py r ≡ false) × (length h ≤ s.session.max_redirects) × (n ≡ none)
  followed-settled fuel s first r stream h n i j m f e =
      let (rs, t, d, q, g, k) = finish-returned stream first r (drain py fuel s) h n e in
      let l = drain-history py fuel s t rs m f d in
      let b = drain-bound py fuel s m in
      let c = ap length g ∙ length-ids (split_last first rs).0 ∙ length-split_last first rs in
      let y = ap (λ x. length (yielded x)) d in
      let z = ap length j in
      (
        ap (is_redirected py) (q ∙ ap (λ x. (split_last x rs).1) (sym i) ∙ sym l.response)
            ∙ l.settled,
        ground (arith, c, y, z, b),
        k,
      )

  pub new_cursor-IsFresh :
      (session : Session Jar) (response : Response Jar) (request : Request Jar) (proxies : Proxies)
      (stream yields : Bool)
      → IsFresh py (new_cursor session response request proxies stream yields)
  unfolding IsFresh new_cursor begin
  new_cursor-IsFresh session response request proxies stream yields = refl

  send_answer-settled :
      (fuel : ℕ) (session : Session Jar) (request : Request Jar) (proxies : Proxies) (stream : Bool)
      (o : Option (Response Jar)) (r : Response Jar) (h : List ℕ) (n : Option (Request Jar))
      → send_answer py fuel session request proxies stream true o ≡ returned r h n
      → (is_redirected py r ≡ false) × (length h ≤ session.max_redirects) × (n ≡ none)
  unfolding send_answer new_cursor accept
  send_answer-settled fuel session request proxies stream none r h n e = cc
  send_answer-settled fuel session request proxies stream (some first) r h n e =
      let session' = accept py session request first in
      followed-settled fuel (new_cursor session' first request proxies stream false) first r stream
        h n refl refl refl (new_cursor-IsFresh session' first request proxies stream false) e

  -- A `send` that follows redirects returns a response that is not redirected itself, without a next
  -- request, behind no more responses than the session's limit.
  pub session_send-settled :
      (fuel sent : ℕ) (session : Session Jar) (request : Request Jar) (proxies : Proxies)
      (stream : Bool) (r : Response Jar) (h : List ℕ) (n : Option (Request Jar))
      → session_send py fuel sent session request proxies stream true ≡ returned r h n
      → (is_redirected py r ≡ false) × (length h ≤ session.max_redirects) × (n ≡ none)
  unfolding session_send
  session_send-settled fuel sent session request proxies stream r h n =
      send_answer-settled fuel session request proxies stream (py.adapter_send sent request) r h n
