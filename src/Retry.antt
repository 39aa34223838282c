-- ===== src/Retry.antt =====
-- crates/requests/src/retry.rs: the retry policy, its counters and the history of attempts. Strings
-- are their bytes. A floating-point number is a value of a type `F`; the one operation that computes
-- with such numbers, `backoff`, takes them with their operations from a `Float`.
mod Sets
pub mod Budget
pub mod Attempts
mod Examples
pub use Sets.{OrderedSet}
use mathlib.Core.List.{reverse}
use requests_native.Prelude.{
  ℕ, zero, suc, ◌+◌, ◌-◌, ◌*◌, ◌/◌, ◌%◌, ◌^◌, ◌≤◌, ◌<◌, min, ◌≡◌, refl, sym, ap, ap₂, ◌∙◌, ◌≢◌, ◌↔◌,
  ◌⊎◌, inl, inr, Bool, true, false, not, ◌&&◌, ◌||◌, Option, none, some, List, [], ◌∷◌, ◌++◌, map,
  append_assoc, append-nil, arith, ltb, leb, ◌==◌, if◌then◌else◌, ltb→lt, lt→ltb, leb→le, le→leb,
  ==_iff, Bool-cases, Option-cases, length, take, drop, length-append, take-append-drop, any, all,
  All, All-append, Bytes, IsByte, codes, bytes_eq, bytes_eq_iff, contains_byte, is_ascii_digit,
  is_ascii_uppercase, is_ascii_lowercase, is_ascii_alphanumeric, is_ascii_hexdigit,
  to_ascii_uppercase, to_ascii_lowercase, Result, ok, err, ◌>>=◌, ok_or,
}
use Sets.{collect, holds, bytes_lt}

pub data RetryCount : Type 0 where
  unlimited : RetryCount
  boolean : Bool → RetryCount
  limited : ℕ → RetryCount

pub decrement : RetryCount → Option RetryCount
decrement unlimited = some unlimited
decrement (boolean true) = some (limited 0)
decrement (boolean false) = none
decrement (limited zero) = none
decrement (limited (suc remaining)) = some (limited remaining)

pub is_truthy : RetryCount → Bool
is_truthy unlimited = false
is_truthy (boolean b) = b
is_truthy (limited zero) = false
is_truthy (limited (suc n)) = true

pub record MethodSet : Type 0 where
  pub methods : OrderedSet Bytes

pub method_set : List Bytes → MethodSet
unfolding collect bytes_lt
method_set methods = record { methods = collect bytes_lt methods }

pub is_empty : {A : Type 0} → List A → Bool
is_empty [] = true
is_empty (x ∷ xs) = false

-- `MethodSet::allows`; `to_ascii_uppercase` works byte by byte.
pub allows : MethodSet → Bytes → Bool
unfolding holds bytes_lt is_empty to_ascii_uppercase
allows set method =
    is_empty set.methods || holds bytes_lt (map to_ascii_uppercase method) set.methods

pub record StatusSet : Type 0 where
  pub statuses : OrderedSet ℕ

pub status_set : List ℕ → StatusSet
unfolding collect
status_set statuses = record { statuses = collect ltb statuses }

pub contains_status : StatusSet → ℕ → Bool
unfolding holds
contains_status set status = holds ltb status set.statuses

pub record BackoffPolicy (F : Type 0) : Type 0 where
  pub factor : F
  pub maximum : Option F
  pub jitter : F

pub record RetryPolicy (F : Type 0) : Type 0 where
  pub total : RetryCount
  pub connect : RetryCount
  pub read : RetryCount
  pub status : RetryCount
  pub redirect : RetryCount
  pub other : RetryCount
  pub allowed_methods : Option MethodSet
  pub status_forcelist : StatusSet
  pub backoff : BackoffPolicy F
  pub respect_retry_after : Bool
  pub raise_on_status : Bool
  pub raise_on_redirect : Bool

pub data RetryReason : Type 0 where
  connect : RetryReason
  read : RetryReason
  status : ℕ → RetryReason
  redirect : ℕ → RetryReason
  other : RetryReason

pub record RetryHistory : Type 0 where
  pub reason : RetryReason
  pub method : Bytes
  pub url : Bytes
  pub redirect_location : Option Bytes

pub data RetryFailure : Type 0 where
  exhausted : RetryReason → RetryFailure

pub record RetryState (F : Type 0) : Type 0 where
  pub remaining : RetryPolicy F
  pub history : List RetryHistory

-- `matches!(status, 301 | 302 | 303 | 307 | 308)`.
pub is_redirect_status : ℕ → Bool
is_redirect_status s = s == 301 || s == 302 || s == 303 || s == 307 || s == 308

pub is_redirect : RetryReason → Bool
is_redirect (redirect s) = true
is_redirect _ = false

-- A status with the address to go to is charged as a redirect.
pub consumed_reason : RetryReason → Option Bytes → RetryReason
unfolding is_redirect_status
consumed_reason (status s) (some []) = status s
consumed_reason (status s) (some (c ∷ location)) =
    if is_redirect_status s then redirect s else status s
consumed_reason reason location = reason

module _ {F : Type 0} where
  pub new : RetryPolicy F → RetryState F
  new policy = record { remaining = policy; history = [] }

  pub with_history : RetryPolicy F → List RetryHistory → RetryState F
  with_history policy history = record { remaining = policy; history = history }

  pub allows_method : RetryState F → Bytes → Bool
  unfolding allows
  allows_method s method = elim s.remaining.allowed_methods [
    | none ↦ true
    | some methods ↦ allows methods method
  ]

  pub is_retry : RetryState F → Bytes → ℕ → Bool → Bool
  unfolding allows_method contains_status is_truthy
  is_retry s method code has_retry_after =
      allows_method s method
      && (contains_status s.remaining.status_forcelist code
          || (s.remaining.respect_retry_after
              && is_truthy s.remaining.total
              && has_retry_after
              && (code == 413 || code == 429 || code == 503)))

  -- The counter that a reason is charged to.
  pub counter : RetryReason → RetryPolicy F → RetryCount
  counter connect p = p.connect
  counter read p = p.read
  counter (status s) p = p.status
  counter (redirect s) p = p.redirect
  counter other p = p.other

  pub set_counter : RetryReason → RetryPolicy F → RetryCount → RetryPolicy F
  set_counter connect p c = record p { connect = c }
  set_counter read p c = record p { read = c }
  set_counter (status s) p c = record p { status = c }
  set_counter (redirect s) p c = record p { redirect = c }
  set_counter other p c = record p { other = c }

  -- `total` is charged first, then the counter of the reason.
  pub charge : RetryReason → RetryPolicy F → Result RetryFailure (RetryPolicy F)
  unfolding decrement counter set_counter
  charge reason policy = do
    total ← ok_or (decrement policy.total) (exhausted reason)
    count ← ok_or (decrement (counter reason policy)) (exhausted reason)
    ok (set_counter reason (record policy { total = total }) count)

  pub increment :
      RetryState F → RetryReason → Bytes → Bytes → Option Bytes → Result RetryFailure (RetryState F)
  unfolding charge consumed_reason
  increment s reason method url location = do
    remaining ← charge (consumed_reason reason location) s.remaining
    ok (record { remaining = remaining; history = s.history ++ entry ∷ [] })
    where
      entry : RetryHistory
      entry = record {
        reason = consumed_reason reason location;
        method = method;
        url = url;
        redirect_location = location;
      }

-- `take_while(..).count()` over the history, latest entry first.
pub errors_before_redirect : List RetryHistory → ℕ
errors_before_redirect [] = 0
errors_before_redirect (h ∷ hs) =
    if is_redirect h.reason then 0 else suc (errors_before_redirect hs)

pub consecutive_errors : {F : Type 0} → RetryState F → ℕ
unfolding errors_before_redirect is_redirect
consecutive_errors s = errors_before_redirect (reverse s.history)

-- The operations on `f64` that `backoff` uses.
pub record Float : Type 1 where
  pub F : Type 0
  pub zero_float : F
  pub add : F → F → F
  pub mul : F → F → F
  -- `2_f64.powi(exponent)`.
  pub power_of_two : ℕ → F
  pub min_float : F → F → F
  pub max_float : F → F → F
  pub lt_float : F → F → Bool

abbrev pub i32_max : ℕ
i32_max = 2 ^ 31 - 1

module _ (f : Float) where
  open f use {F, zero_float, add, mul, power_of_two, min_float, max_float, lt_float}

  -- `maximum.map_or(backoff, |maximum| backoff.min(maximum))`.
  pub capped : Option F → F → F
  capped none delay = delay
  capped (some maximum) delay = min_float delay maximum

  pub backoff : RetryState F → F → F
  unfolding consecutive_errors capped
  backoff s random_unit =
      if leb (consecutive_errors s) 1
      then zero_float
      else let policy = s.remaining.backoff in
        let exponent = min (consecutive_errors s - 1) i32_max in
        let delay =
          add (mul policy.factor (power_of_two exponent)) (mul policy.jitter random_unit) in
        max_float (capped policy.maximum delay) zero_float

  pub should_observe_random : RetryState F → Bool
  unfolding consecutive_errors
  should_observe_random s =
      ltb 1 (consecutive_errors s) && lt_float zero_float s.remaining.backoff.jitter
