-- ===== src/Response/Safety.antt =====
-- What every operation on a body of crates/requests/src/response.rs keeps, and when its connection
-- goes back to the pool.
use requests_native.Prelude.{
  ℕ, ◌<◌, ◌≡◌, refl, sym, ap, ◌∙◌, ◌⊎◌, inl, inr, Bool, true, false, not, ◌&&◌, Option, none, some,
  arith, Bool-cases,
}
use requests_native.Pool.Leases.{ConnectionLease, active}
use requests_native.Pool.{Pool}
use requests_native.Pool.Invariant.{Inv}
use requests_native.Pool.Count.{idle_count}
use requests_native.Transport.Endings.{
  finishes, finishes_incomplete_body, end_lease, end_lease-Inv, end_lease-stores,
}
use requests_native.Response.{
  ResponseEvent, partial_read, python_exact, ResponseDisposition, open_state, partial_state,
  reusable_state, close_dirty_state, ResponseDispositionState, apply,
}
use requests_native.Response.Disposition.{decision_of}
use requests_native.Response.Body.{
  ResponseBody, State, begin_terminal, is_reusable, finish_driver, finish, is_clean, is_short,
}

-- The states that a body reaches when it ends.
abbrev pub is_final : ResponseDisposition → Bool
is_final reusable_state = true
is_final close_dirty_state = true
is_final _ = false

-- The states that a body has before.
abbrev pub is_live : ResponseDisposition → Bool
is_live open_state = true
is_live partial_state = true
is_live _ = false

abbrev pub IsActive : Option ConnectionLease → Type 0
IsActive none = Unit
IsActive (some lease) = lease.terminal ≡ active

abbrev pub is_none {ℓ} : {A : Type ℓ} → Option A → Bool
is_none none = true
is_none (some a) = false

-- A body that has ended has made its decision and given up its lease; one that has not has made none,
-- and its lease is active.
pub record IsSound (s : State) : Type 0 where
  pub final : is_final s.0.disposition.state ≡ s.0.terminal
  pub live : is_live s.0.disposition.state ≡ not s.0.terminal
  pub decided : s.0.disposition.decision ≡ decision_of s.0.disposition.state
  pub given_up : (s.0.driver ≡ none) ⊎ (s.0.terminal ≡ false)
  pub held : IsActive s.0.driver
  pub inv : Inv s.1

-- An event that ends a body.
abbrev pub is_ending : ResponseEvent → Bool
is_ending partial_read = false
is_ending python_exact = false
is_ending _ = true

apply-ending :
    (d : ResponseDispositionState) (e : ResponseEvent)
    → is_live d.state ≡ true
    → is_ending e ≡ true
    → (is_final (apply d e).state ≡ true)
      × ((apply d e).decision ≡ decision_of (apply d e).state)
      × (is_live (apply d e).state ≡ false)
unfolding apply
apply-ending d e l h = ground arith

finish_driver-Inv :
    (pool : Pool) (driver : Option ConnectionLease) (clean incomplete : Bool)
    → Inv pool
    → Inv (finish_driver pool driver clean incomplete)
unfolding finish_driver
finish_driver-Inv pool none clean incomplete v = v
finish_driver-Inv pool (some lease) clean true v =
    unfold end_lease in end_lease-Inv finishes_incomplete_body pool lease v
finish_driver-Inv pool (some lease) clean false v =
    unfold end_lease in end_lease-Inv (finishes clean) pool lease v

-- The body that an event ends.
abbrev pub ended_by : ResponseBody → ResponseEvent → ResponseBody
ended_by b e = record b {
  terminal = true;
  source = none;
  read_deadline = none;
  total_deadline = none;
  disposition = apply b.disposition e;
  driver = none;
}

pub finish-ended :
    (b : ResponseBody) (pool : Pool) (e : ResponseEvent)
    → b.terminal ≡ true
    → finish (b, pool) e ≡ (b, pool)
unfolding finish begin_terminal finish_driver
finish-ended b pool e t = rw t

pub finish-live :
    (b : ResponseBody) (pool : Pool) (e : ResponseEvent)
    → b.terminal ≡ false
    → finish (b, pool) e ≡ (
      ended_by b e,
      finish_driver pool b.driver
          (is_reusable (apply b.disposition e).decision)
          (not (is_clean e) && is_short b.expected_content_length b.received_body_bytes),
    )
unfolding finish begin_terminal
finish-live b pool e t = rw t

-- An ended body is sound if the event that ended it is an ending one.
pub ended_by-IsSound :
    (b : ResponseBody) (pool pool' : Pool) (e : ResponseEvent)
    → is_ending e ≡ true
    → b.terminal ≡ false
    → IsSound (b, pool)
    → Inv pool'
    → IsSound (ended_by b e, pool')
ended_by-IsSound b pool pool' e k t x v =
    let (f, d, l) = apply-ending b.disposition e (x.live ∙ ap not t) k in
    record { final = f; live = l; decided = d; given_up = inl refl; held = tt; inv = v }

-- An ending event leaves an ended body; on one that has ended already nothing happens.
pub finish-IsSound :
    (b : ResponseBody) (pool : Pool) (e : ResponseEvent)
    → is_ending e ≡ true
    → IsSound (b, pool)
    → IsSound (finish (b, pool) e) × ((finish (b, pool) e).0.terminal ≡ true)
finish-IsSound b pool e k x = elim (Bool-cases b.terminal) [
  | inl t ↦ rw (finish-ended b pool e t) (x, t)
  | inr t ↦
      rw (finish-live b pool e t)
        (ended_by-IsSound b pool _ e k t x (finish_driver-Inv pool b.driver _ _ x.inv), refl)
]

finish_driver-stores :
    (pool : Pool) (driver : Option ConnectionLease) (clean incomplete : Bool) (i : ℕ)
    → Inv pool
    → IsActive driver
    → idle_count i pool.generations
      < idle_count i (finish_driver pool driver clean incomplete).generations
    → (clean ≡ true) × (incomplete ≡ false)
unfolding finish_driver
finish_driver-stores pool none clean incomplete i v a h = absurd (omega arith)
finish_driver-stores pool (some lease) clean true i v a h =
    let k = end_lease-stores finishes_incomplete_body pool lease i v a (unfold end_lease in h) in
    cc (k.0)
finish_driver-stores pool (some lease) clean false i v a h =
    let k = end_lease-stores (finishes clean) pool lease i v a (unfold end_lease in h) in
    (cc (k.0), refl)

reusable_decision :
    (d : ResponseDisposition) → is_reusable (decision_of d) ≡ true → d ≡ reusable_state
reusable_decision d h = ground arith

-- Finishing adds a connection to the pool only where it decides that the response is reusable.
pub finish-stores :
    (b : ResponseBody) (pool : Pool) (e : ResponseEvent) (i : ℕ)
    → is_ending e ≡ true
    → IsSound (b, pool)
    → idle_count i pool.generations < idle_count i (finish (b, pool) e).1.generations
    → (finish (b, pool) e).0.disposition.state ≡ reusable_state
finish-stores b pool e i k x h = elim (Bool-cases b.terminal) [
  | inl t ↦ absurd (omega (arith, rw (finish-ended b pool e t) at h))
  | inr t ↦
      let h' = rw (finish-live b pool e t) at h in
      let (f, d, l) = apply-ending b.disposition e (x.live ∙ ap not t) k in
      let (c, n) = finish_driver-stores pool b.driver _ _ i x.inv x.held h' in
      rw (finish-live b pool e t) (reusable_decision _ (ap is_reusable (sym d) ∙ c))
]
