-- ===== src/Redirects/Send.antt =====
-- How `send` follows the redirects of a response in crates/requests-python/src/sessions.rs.
use requests_native.Prelude.{
  ℕ, zero, suc, Bool, not, Option, none, some, List, [], ◌∷◌, map, if◌then◌else◌,
}
use requests_native.Redirects.{Request, Response}
use requests_native.Redirects.Python.{
  Advance, CursorState, Failure, Proxies, Python, Session, done, fails, new_cursor, read_failure,
  send_failure, yields_request, yields_response,
}
use requests_native.Redirects.Advance.{accept, advance_state, is_loaded}

-- What the loop over a cursor collects.
pub data Drained (Jar : Type 0) : Type 0 where
  drained : List (Response Jar) → CursorState Jar → Drained Jar
  raised : Failure → List (Response Jar) → Drained Jar
  out_of_fuel : Drained Jar

-- What `send` returns, with the response's `history` and `_next`, or the exception it raises.
pub data Outcome (Jar : Type 0) : Type 0 where
  returned : Response Jar → List ℕ → Option (Request Jar) → Outcome Jar
  raises : Failure → Outcome Jar
  unfinished : Outcome Jar

module _ {Jar : Type 0} where
  abbrev pub collected : Response Jar → Drained Jar → Drained Jar
  collected r (drained rs s) = drained (r ∷ rs) s
  collected r (raised e rs) = raised e (r ∷ rs)
  collected r out_of_fuel = out_of_fuel

  -- `history.insert(0, response)` and `history.pop()`: all responses but the last, and the last.
  unfoldable pub split_last :
      Response Jar → List (Response Jar) → List (Response Jar) × Response Jar
  split_last r [] = ([], r)
  split_last r (q ∷ qs) = let (rest, last) = split_last q qs in (r ∷ rest, last)

module _ {Jar Auth : Type 0} (py : Python Jar Auth) where
  -- The loop until the iteration stops. A cursor that follows redirects yields responses only; where it
  -- yields a request the loop would hold that, and go on.
  unfoldable pub drain : ℕ → CursorState Jar → Drained Jar
  unfolding advance_state
  drain zero s = out_of_fuel
  drain (suc n) s = elim (advance_state py s) [
    | done s' ↦ drained [] s'
    | fails e s' ↦ raised e []
    | yields_request p s' ↦ drain n s'
    | yields_response r s' ↦ collected r (drain n s')
  ]

  -- The content is read at the end where the answer is not streamed.
  unfoldable pub load : Bool → Response Jar → List ℕ → Option (Request Jar) → Outcome Jar
  unfolding is_loaded
  load stream response history next =
      if is_loaded py stream response then returned response history next else raises read_failure

  -- The last response takes the history of the others.
  unfoldable pub finish : Bool → Response Jar → Drained Jar → Outcome Jar
  unfolding split_last load
  finish stream first (drained rs s) =
      let (earlier, last) = split_last first rs in load stream last (map (λ r. r.id) earlier) none
  finish stream first (raised e rs) = raises e
  finish stream first out_of_fuel = unfinished

  -- The request that a cursor hands out first becomes `_next`; such a cursor yields no response.
  unfoldable pub set_next : Bool → Response Jar → Advance Jar → Outcome Jar
  unfolding load
  set_next stream first (yields_request p s) = load stream first [] (some p)
  set_next stream first (yields_response r s) = load stream first [] none
  set_next stream first (done s) = load stream first [] none
  set_next stream first (fails e s) = raises e

  unfoldable pub send_answer :
      ℕ → Session Jar → Request Jar → Proxies → Bool → Bool → Option (Response Jar) → Outcome Jar
  unfolding accept new_cursor drain finish set_next
  send_answer fuel session request proxies stream allow none = raises send_failure
  send_answer fuel session request proxies stream allow (some response) =
      let cursor =
        new_cursor (accept py session request response) response request proxies stream
          (not allow) in
      if allow
      then finish stream response (drain fuel cursor)
      else set_next stream response (advance_state py cursor)

  -- `session_send_with_builtins` for a prepared request, sent after so many others.
  unfoldable pub session_send :
      ℕ → ℕ → Session Jar → Request Jar → Proxies → Bool → Bool → Outcome Jar
  unfolding send_answer
  session_send fuel sent session request proxies stream allow =
      send_answer fuel session request proxies stream allow (py.adapter_send sent request)
