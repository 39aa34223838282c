-- ===== src/Redirects/Examples.antt =====
-- A server that redirects once, and one that redirects without end.
use requests_native.Prelude.{
  ℕ, zero, suc, ◌≤◌, ◌≡◌, refl, ◌≢◌, inr, true, false, not, ◌&&◌, ◌||◌, Option, none, some, [], ◌∷◌,
  ◌++◌, arith, if◌then◌else◌, length, Bytes, codes, bytes_eq, ok, err, ◌>>=◌,
}
use requests_native.Redirects.{
  Headers, ParsedUrl, Request, Response, hostname_eq, option_eq, should_strip_auth, contains_header,
  is_default, default_port,
}
use requests_native.Redirects.Python.{
  CursorState, Python, Session, content_read, new_cursor, too_many_redirects, yields_response,
}
use requests_native.Redirects.Rebuild.{rebuild_auth, redirect_target}
use requests_native.Redirects.Advance.{advance_state}
use requests_native.Redirects.Send.{drain, drained, returned, raises, unfinished, session_send}
use requests_native.Redirects.Cursor.{
  Cursor, fresh_cursor, claim, close, claims, starts, unchanged, further, is_live, is_closed,
  validate_token, start, conclude, next, frame, wrong_handle, stop_iteration, terminated,
  already_executing, begin_terminate, executes, releasing, concludes, closes, Steps,
}
use requests_native.Redirects.Outcomes.{
  new_cursor-IsFresh, session_send-finished, session_send-settled,
}
use requests_native.Redirects.Limit.{session_send-limit}
use requests_native.Redirects.Loop.{drain-bound, yielded}
use requests_native.Redirects.History.{drain-history, Left, is_redirected}
use requests_native.Redirects.Modes.{advance_state-modes, in_mode, sent_on}
use requests_native.Redirects.Auth.{
  effective_port, is_upgrade, should_strip_auth-kept, rebuild_auth-contains,
  rebuild_auth-should_strip_auth,
}
use requests_native.Redirects.Protocol.{IsSound, fresh_cursor-Steps}
use requests_native.Redirects.Claims.{IsClaimed, IsEnded, Steps-wrong_handle, Steps-stopped}

abbrev plain_url : Bytes
plain_url = codes "http://a"

abbrev tls_url : Bytes
tls_url = codes "https://a"

abbrev parse : Bytes → ParsedUrl
parse url = record {
  scheme = if bytes_eq url plain_url then codes "http" else codes "https";
  netloc = codes "a";
  hostname = some (codes "a");
  port = none;
  fragment = [];
  other = url;
}

-- Cookies are counted, and a parsed URL is written as it was.
abbrev python : (ℕ → Request ℕ → Option (Response ℕ)) → Python ℕ ℕ
python answer = record {
  urlparse = parse;
  geturl = λ u. u.other;
  urljoin = λ base url. url;
  requote_uri = λ url. url;
  decode_location = λ location. location;
  resolve_proxies = λ request proxies trust_env. proxies;
  get_auth_from_url = λ url. ([], []);
  basic_auth_str = λ username password. username ++ password;
  get_netrc_auth = λ url. none;
  prepare_auth = λ auth request. request;
  extract_cookies = λ jar request response. suc jar;
  merge_cookies = λ jar other. jar;
  prepare_cookies = λ jar request. request;
  rewind_body = λ request. some request;
  content = λ response. content_read;
  raw_read = λ response. true;
  adapter_send = answer;
}

abbrev answer : ℕ → ℕ → Option Bytes → Request ℕ → Response ℕ
answer id status location request = record {
  id = id;
  request = request;
  url = request.url;
  status_code = status;
  location = location;
}

abbrev redirects_once : ℕ → Request ℕ → Option (Response ℕ)
redirects_once zero request = some (answer 0 302 (some plain_url) request)
redirects_once (suc n) request = some (answer (suc n) 200 none request)

abbrev redirects_ever : ℕ → Request ℕ → Option (Response ℕ)
redirects_ever n request = some (answer n 302 (some plain_url) request)

abbrev headers : Headers
headers = (codes "Authorization", codes "secret") ∷ []

abbrev ever_answer : ℕ → Request ℕ → Response ℕ
ever_answer n request = answer n 302 (some plain_url) request

abbrev request : Request ℕ
request = record {
  method = codes "POST";
  url = tls_url;
  headers = headers;
  body = none;
  body_position = none;
  jar = 0;
}

abbrev session : Session ℕ
session = record { max_redirects = 2; trust_env = false; cookies = 0 }

abbrev first : Response ℕ
first = answer 0 302 (some plain_url) request

abbrev cursor : CursorState ℕ
cursor = new_cursor session first request [] false false

-- What is sent behind the redirect: it is in plain text, and keeps the credentials.
abbrev second : Request ℕ
second = record {
  method = codes "GET";
  url = plain_url;
  headers = headers;
  body = none;
  body_position = none;
  jar = 1;
}

abbrev last : Response ℕ
last = answer 1 200 none second

once :
    session_send (python redirects_once) 3 0 session request [] false true
    ≡ returned last (0 ∷ []) none
unfolding session_send hostname_eq
once = refl

abbrev nothing : Option (Request ℕ)
nothing = none

session_send-settled_example :
    (is_redirected (python redirects_once) last ≡ false) × (1 ≤ 2) × (nothing ≡ none)
session_send-settled_example =
    session_send-settled (python redirects_once) 3 0 session request [] false last (0 ∷ []) none
      once

session_send-finished_example :
    session_send (python redirects_ever) 3 0 session request [] false true ≢ unfinished
session_send-finished_example =
    session_send-finished (python redirects_ever) 3 0 session request [] false true (omega arith)

ever-redirected :
    (n : ℕ) (p : Request ℕ) → is_redirected (python redirects_ever) (ever_answer n p) ≡ true
unfolding redirect_target
ever-redirected n p = refl

session_send-limit_example :
    (i : ℕ) × (session_send (python redirects_ever) 3 0 session request [] false true
      ≡ raises (too_many_redirects i))
session_send-limit_example =
    session_send-limit (python redirects_ever) (λ n p. (ever_answer n p, refl, ever-redirected n p))
      (λ r. refl) (λ p. (p, refl)) 3 0 session request [] false (omega arith)

drain-bound_example : length (yielded (drain (python redirects_ever) 9 cursor)) ≤ 2
unfolding new_cursor
drain-bound_example = drain-bound (python redirects_ever) 9 cursor refl

should_strip_auth-kept_test :
    should_strip_auth (parse tls_url) (parse plain_url)
    ≡ not (
        hostname_eq (parse tls_url).hostname (parse plain_url).hostname
        && (is_upgrade (parse tls_url) (parse plain_url)
            || bytes_eq (parse tls_url).scheme (parse plain_url).scheme
              && option_eq (effective_port (parse tls_url)) (effective_port (parse plain_url))))
should_strip_auth-kept_test = should_strip_auth-kept (parse tls_url) (parse plain_url)

-- The redirect from encrypted to plain text: `should_strip_auth` strips, and the cursor keeps.
stripped : should_strip_auth (parse tls_url) (parse plain_url) ≡ true
unfolding should_strip_auth
stripped = refl

rebuild_auth-contains_test :
    contains_header
      (codes "Authorization")
      (rebuild_auth (python redirects_once) session second first).headers
    ≡ (contains_header (codes "Authorization") headers
        && hostname_eq (parse tls_url).hostname (parse plain_url).hostname)
rebuild_auth-contains_test = rebuild_auth-contains (python redirects_once) session second first refl

-- A redirect at the same host, scheme and port.
rebuild_auth-should_strip_auth_example :
    contains_header
      (codes "Authorization")
      (rebuild_auth (python redirects_once) session second last).headers
    ≡ (contains_header (codes "Authorization") headers
        && not (should_strip_auth (parse plain_url) (parse plain_url)))
unfolding is_default default_port option_eq
rebuild_auth-should_strip_auth_example =
    rebuild_auth-should_strip_auth (python redirects_once) session second last refl (inr refl)

advance_state-modes_example :
    advance_state (python redirects_once) (in_mode false cursor)
    ≡ sent_on (python redirects_once) (advance_state (python redirects_once) (in_mode true cursor))
advance_state-modes_example = advance_state-modes (python redirects_once) cursor

abbrev at_end : CursorState ℕ
at_end = record {
  session = record { max_redirects = 2; trust_env = false; cookies = 2 };
  response = last;
  request = second;
  proxies = [];
  history = 0 ∷ [];
  histories = (0, []) ∷ [];
  closed = 0 ∷ [];
  url = none;
  previous_fragment = [];
  stream = false;
  yield_requests = false;
  created = false;
}

drained_once : drain (python redirects_once) 3 cursor ≡ drained (last ∷ []) at_end
unfolding drain hostname_eq new_cursor
drained_once = refl

drain-history_example : Left (python redirects_once) cursor (last ∷ []) at_end
unfolding new_cursor
drain-history_example =
    drain-history (python redirects_once) 3 cursor at_end (last ∷ []) refl
      (new_cursor-IsFresh (python redirects_once) session first request [] false false) drained_once

-- A cursor that is claimed, and one that was closed after its first step.
abbrev claimed : Cursor ℕ
claimed = record {
  running = false;
  state = some cursor;
  terminal = is_live;
  claimed_token = some 7;
  generation = 0;
}

abbrev executing : Cursor ℕ
executing = record claimed { running = true; state = none }

-- While the close drops what it took, and behind it.
abbrev closing_cursor : Cursor ℕ
closing_cursor = record claimed { running = true; state = none; terminal = is_closed }

abbrev closed_cursor : Cursor ℕ
closed_cursor = record claimed { state = none; terminal = is_closed }

claimed-lem : claim (fresh_cursor cursor 0) 7 ≡ ok claimed
unfolding claim fresh_cursor
claimed-lem = refl

executing-lem : (validate_token claimed 7 >>= start) ≡ ok (executing, cursor)
unfolding validate_token start
executing-lem = refl

closing-lem : begin_terminate claimed 7 is_closed ≡ ok (closing_cursor, some cursor)
unfolding begin_terminate
closing-lem = refl

closed-lem : close claimed 7 ≡ ok closed_cursor
unfolding close
closed-lem = refl

-- A finalizer that comes back to the cursor is refused.
closing-refuses :
    (next (python redirects_once) closing_cursor 7 ≡ err already_executing)
    × (close closing_cursor 7 ≡ err already_executing)
    × (frame closing_cursor 7 ≡ ok false)
unfolding next close frame
closing-refuses = (refl, refl, refl)

concluded-lem : (conclude executing (yields_response last cursor)).0 ≡ claimed
unfolding conclude
concluded-lem = refl

-- A claim, a step, and a close up to the drop of the references.
closing : Steps (fresh_cursor cursor 0) [] closing_cursor (releasing (some cursor) ∷ [])
unfolding conclude
closing = further (claims 7 claimed-lem) (
    further (starts 7 executing-lem) (
      further (concludes cursor (yields_response last cursor))
        (further (closes 7 closing-lem) unchanged)))

fresh_cursor-Steps_example : IsSound closing_cursor (releasing (some cursor) ∷ [])
fresh_cursor-Steps_example =
    fresh_cursor-Steps cursor 0 closing_cursor (releasing (some cursor) ∷ []) closing

Steps-wrong_handle_test :
    (next (python redirects_once) executing 8 ≡ err wrong_handle)
    × (close executing 8 ≡ err wrong_handle)
    × (frame executing 8 ≡ err wrong_handle)
    × (claim executing 8 ≢ ok claimed)
unfolding IsClaimed
Steps-wrong_handle_test =
    Steps-wrong_handle (python redirects_once) claimed executing claimed [] (executes cursor ∷ []) 7
      8 (refl, refl) (further (starts 7 executing-lem) unchanged) (λ e. omega (arith, e))

Steps-stopped_test :
    (next (python redirects_once) closed_cursor 7 ≡ err stop_iteration)
    × (frame closed_cursor 7 ≡ ok false)
    × (claim closed_cursor 7 ≡ err terminated)
unfolding IsClaimed IsEnded
Steps-stopped_test =
    Steps-stopped (python redirects_once) closed_cursor closed_cursor [] [] 7 (refl, refl)
      (refl, refl, refl) unchanged
