-- ===== src/Response.antt =====
-- The disposition of a response in crates/requests/src/response.rs: whether its connection may be
-- used again.
pub mod Disposition
pub mod Body
pub mod Poll
pub mod Safety
pub mod Operations
pub mod Run
pub mod Reading
mod Examples
use requests_native.Prelude.{
  ℕ, zero, suc, ◌+◌, ◌-◌, ◌*◌, ◌/◌, ◌%◌, ◌^◌, ◌≤◌, ◌<◌, min, ◌≡◌, refl, sym, ap, ap₂, ◌∙◌, ◌≢◌, ◌↔◌,
  ◌⊎◌, inl, inr, Bool, true, false, not, ◌&&◌, ◌||◌, Option, none, some, List, [], ◌∷◌, ◌++◌, map,
  append_assoc, append-nil, arith, ltb, leb, ◌==◌, if◌then◌else◌, ltb→lt, lt→ltb, leb→le, le→leb,
  ==_iff, Bool-cases, Option-cases, length, take, drop, length-append, take-append-drop, any, all,
  All, All-append, Bytes, IsByte, codes, bytes_eq, bytes_eq_iff, contains_byte, is_ascii_digit,
  is_ascii_uppercase, is_ascii_lowercase, is_ascii_alphanumeric, is_ascii_hexdigit,
  to_ascii_uppercase, to_ascii_lowercase, Result, ok, err, ◌>>=◌, ok_or,
}

pub data ResponseContent : Type 0 where
  streaming exhausted_uncached cached empty_none : ResponseContent

pub data ResponseCache : Type 0 where
  false_sentinel empty_none cached : ResponseCache

pub from_python_fields : ResponseCache → Bool → ResponseContent
from_python_fields false_sentinel false = streaming
from_python_fields false_sentinel true = exhausted_uncached
from_python_fields ResponseCache.empty_none content_consumed = ResponseContent.empty_none
from_python_fields ResponseCache.cached content_consumed = ResponseContent.cached

pub data ResponseEvent : Type 0 where
  partial_read clean_eof close drop_event read_error decode_error protocol_error cancel :
      ResponseEvent
  action_disconnect reply_disconnect python_exact : ResponseEvent

pub data ResponseDisposition : Type 0 where
  open_state partial_state reusable_state close_dirty_state python_exact_state : ResponseDisposition

pub data ResponseDecision : Type 0 where
  reusable close_dirty : ResponseDecision

pub record ResponseDispositionState : Type 0 where
  pub state : ResponseDisposition
  pub decision : Option ResponseDecision
  pub decision_count : ℕ
  pub native_lease : Bool

-- `ResponseDispositionState::default`.
abbrev pub initial : ResponseDispositionState
initial = record { state = open_state; decision = none; decision_count = 0; native_lease = true }

pub decided_state : ResponseDecision → ResponseDisposition
decided_state reusable = reusable_state
decided_state close_dirty = close_dirty_state

-- `decision_count` is a `u8`.
unfoldable pub decide : ResponseDispositionState → ResponseDecision → ResponseDispositionState
unfolding decided_state
decide s d = record s {
  decision = some d;
  decision_count = (s.decision_count + 1) % 2 ^ 8;
  state = decided_state d;
}

-- `apply` in a state that is open or partial.
unfoldable pub apply_open : ResponseDispositionState → ResponseEvent → ResponseDispositionState
unfolding decide
apply_open s python_exact = elim s.state [
  | open_state ↦ record s { state = python_exact_state; native_lease = false }
  | _ ↦ decide s close_dirty
]
apply_open s partial_read = record s { state = partial_state }
apply_open s clean_eof = decide s reusable
apply_open s event = decide s close_dirty

unfoldable pub apply : ResponseDispositionState → ResponseEvent → ResponseDispositionState
unfolding apply_open
apply s event = elim s.state [
  | open_state ↦ apply_open s event
  | partial_state ↦ apply_open s event
  | reusable_state ↦ s
  | close_dirty_state ↦ s
  | python_exact_state ↦ s
]
