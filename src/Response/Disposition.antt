-- ===== src/Response/Disposition.antt =====
-- The disposition of crates/requests/src/response.rs over any sequence of events.
use requests_native.Prelude.{
  ℕ, ◌≡◌, refl, ◌≢◌, Bool, true, false, Option, none, some, List, [], ◌∷◌, arith, if◌then◌else◌,
}
use requests_native.Response.{
  ResponseEvent, partial_read, clean_eof, python_exact, ResponseDisposition, open_state,
  partial_state, reusable_state, close_dirty_state, python_exact_state, ResponseDecision, reusable,
  close_dirty, ResponseDispositionState, initial, apply,
}

pub apply_all : ResponseDispositionState → List ResponseEvent → ResponseDispositionState
apply_all s [] = s
apply_all s (e ∷ es) = apply_all (apply s e) es

-- What decides: the first event that is no partial read, and whether one came before it.
abbrev pub outcome : Bool → List ResponseEvent → ResponseDisposition
outcome started [] = if started then partial_state else open_state
outcome started (partial_read ∷ es) = outcome true es
outcome started (clean_eof ∷ es) = reusable_state
outcome started (python_exact ∷ es) = if started then close_dirty_state else python_exact_state
outcome started (e ∷ es) = close_dirty_state

-- The decision that goes with a state, and how many decisions were made.
abbrev pub decision_of : ResponseDisposition → Option ResponseDecision
decision_of reusable_state = some reusable
decision_of close_dirty_state = some close_dirty
decision_of _ = none

abbrev pub decisions_of : ResponseDisposition → ℕ
decisions_of reusable_state = 1
decisions_of close_dirty_state = 1
decisions_of _ = 0

abbrev IsDecided : ResponseDispositionState → ResponseDisposition → Type 0
IsDecided s d = (s.state ≡ d) × (s.decision ≡ decision_of d) × (s.decision_count ≡ decisions_of d)

abbrev live : Bool → ResponseDisposition
live started = if started then partial_state else open_state

apply_final :
    (s : ResponseDispositionState) (e : ResponseEvent) (d : ResponseDisposition)
    → d ≢ open_state
    → d ≢ partial_state
    → s.state ≡ d
    → apply s e ≡ s
unfolding apply
apply_final s e d n m h = ground arith

apply_all_final :
    (s : ResponseDispositionState) (es : List ResponseEvent) (d : ResponseDisposition)
    → d ≢ open_state
    → d ≢ partial_state
    → s.state ≡ d
    → apply_all s es ≡ s
unfolding apply_all
apply_all_final s [] d n m h = refl
apply_all_final s (e ∷ es) d n m h = rw (apply_final s e d n m h) (apply_all_final s es d n m h)

-- The disposition after one event.
abbrev after : Bool → ResponseEvent → ResponseDisposition
after started e = outcome started (e ∷ [])

apply_live :
    (s : ResponseDispositionState) (e : ResponseEvent) (started : Bool)
    → IsDecided s (live started)
    → IsDecided (apply s e) (after started e)
unfolding apply
apply_live s python_exact started h = ground arith
apply_live s partial_read started h = ground arith
apply_live s e started h = ground arith

apply_all_live :
    (s : ResponseDispositionState) (es : List ResponseEvent) (started : Bool)
    → IsDecided s (live started)
    → IsDecided (apply_all s es) (outcome started es)
unfolding apply_all
apply_all_live s [] started h = h
apply_all_live s (partial_read ∷ es) started h =
    apply_all_live (apply s partial_read) es true (apply_live s partial_read started h)
apply_all_live s (python_exact ∷ es) started h =
    let k = apply_live s python_exact started h in
    rw (apply_all_final (apply s python_exact) es _ (ground arith) (ground arith) k.0) k
apply_all_live s (e ∷ es) started h =
    let k = apply_live s e started h in
    rw (apply_all_final (apply s e) es _ (ground arith) (ground arith) k.0) k

-- After any events a fresh response has the state that the first event other than a partial read
-- decides, with the decision that belongs to it, made at most once: reusable exactly where that event
-- is a clean end, left to the Python side where it is the very first, and dirty otherwise.
pub apply_all-outcome :
    (es : List ResponseEvent)
    → ((apply_all initial es).state ≡ outcome false es)
      × ((apply_all initial es).decision ≡ decision_of (outcome false es))
      × ((apply_all initial es).decision_count ≡ decisions_of (outcome false es))
apply_all-outcome es = apply_all_live initial es false (refl, refl, refl)
