-- ===== src/Response/Run.antt =====
-- Any sequence of operations on a body of crates/requests/src/response.rs.
use requests_native.Prelude.{
  ℕ, ◌<◌, ◌≡◌, refl, sym, ap, ◌∙◌, inl, inr, Bool, true, false, not, ◌&&◌, ◌||◌, Option, none, some,
  List, [], ◌∷◌, arith, ltb, ltb→lt, Bool-cases,
}
use requests_native.Pool.{Pool}
use requests_native.Pool.Leases.{ConnectionLease, active}
use requests_native.Pool.Count.{idle_count}
use requests_native.Transport.{abort_and_wait}
use requests_native.Transport.Endings.{aborts, end_lease, end_lease-Inv, end_lease-stores}
use requests_native.Response.{clean_eof, close, drop_event, reusable_state}
use requests_native.Response.Body.{
  ResponseBody, State, begin_terminal, close_body, drop_body, finish_declared_length, is_declared,
}
use requests_native.Response.Poll.{Moment, poll_next}
use requests_native.Response.Safety.{
  is_final, IsActive, IsSound, ended_by, ended_by-IsSound, finish-ended,
}
use requests_native.Response.Operations.{finish-IsSafe, poll_next-IsSafe, poll_next-terminal}

-- What the owner of a body may do with it.
pub data Operation : Type 0 where
  polls : Moment → Operation
  finishes_declared : Bool → Operation
  closes drops : Operation

unfoldable pub operate : State → Operation → State
unfolding poll_next finish_declared_length close_body drop_body
operate s (polls m) = (poll_next s m).1
operate s (finishes_declared allow) = finish_declared_length s allow
operate s closes = close_body s
operate s drops = drop_body s

unfoldable pub run : State → List Operation → State
unfolding operate
run s [] = s
run s (o ∷ os) = run (operate s o) os

-- A step between states: sound, and more idle connections only for a reusable response.
abbrev Keeps : ℕ → Pool → State → Type 0
Keeps i pool s =
    IsSound s
    × (idle_count i pool.generations < idle_count i s.1.generations
        → s.0.disposition.state ≡ reusable_state)

close_body-terminal :
    (b : ResponseBody) (pool : Pool) → b.terminal ≡ true → close_body (b, pool) ≡ (b, pool)
unfolding close_body begin_terminal
close_body-terminal b pool t = simp t

close_body-live :
    (b : ResponseBody) (pool : Pool)
    → b.terminal ≡ false
    → close_body (b, pool)
      ≡ (ended_by b close, elim b.driver [ none ↦ pool | some lease ↦ abort_and_wait pool lease ])
unfolding close_body begin_terminal
close_body-live b pool t = simp t

module _ (i : ℕ) (b : ResponseBody) (pool : Pool) (x : IsSound (b, pool)) where
  aborted :
      (lease : ConnectionLease)
      → lease.terminal ≡ active
      → idle_count i pool.generations < idle_count i (end_lease aborts pool lease).generations
      → (ended_by b close).disposition.state ≡ reusable_state
  aborted lease a h = cc ((end_lease-stores aborts pool lease i x.inv a h).0)

  closed :
      (driver : Option ConnectionLease)
      → b.terminal ≡ false
      → IsActive driver
      → Keeps i pool
          (ended_by b close, elim driver [ none ↦ pool | some lease ↦ abort_and_wait pool lease ])
  closed none t a = (ended_by-IsSound b pool pool close refl t x x.inv, λ h. absurd (omega arith))
  closed (some lease) t a = (
    ended_by-IsSound b pool _ close refl t x
        (unfold end_lease in end_lease-Inv aborts pool lease x.inv),
    λ h. aborted lease a (unfold end_lease in h),
  )

  close_body-Keeps : Keeps i pool (close_body (b, pool))
  close_body-Keeps = elim (Bool-cases b.terminal) [
    | inl t ↦ rw (close_body-terminal b pool t) (x, λ h. absurd (omega arith))
    | inr t ↦ rw (close_body-live b pool t) (closed b.driver t x.held)
  ]

  drop_body-Keeps : Keeps i pool (drop_body (b, pool))
  drop_body-Keeps =
      let s = finish-IsSafe i pool b drop_event refl x in unfold drop_body in (s.sound, s.stores)

  finish_declared_length-Keeps :
      (allow : Bool) → Keeps i pool (finish_declared_length (b, pool) allow)
  unfolding finish_declared_length
  finish_declared_length-Keeps allow =
      elim (Bool-cases (
        not b.terminal
        && (not b.encoded_completion || allow)
        && is_declared b.declared_completion_length b.received_body_bytes)) [
          | inr e ↦ rw (e, finish_declared_length) (x, λ h. absurd (omega arith))
          | inl e ↦
              let s =
                finish-IsSafe i pool (record b { remainder_wait = none }) clean_eof refl
                  (record {
                    final = x.final;
                    live = x.live;
                    decided = x.decided;
                    given_up = x.given_up;
                    held = x.held;
                    inv = x.inv;
                  }) in
              rw (e, finish_declared_length) (s.sound, s.stores)
        ]

  operate-Keeps : (o : Operation) → Keeps i pool (operate (b, pool) o)
  unfolding operate
  operate-Keeps (polls m) = let s = poll_next-IsSafe i pool b m x in (s.sound, s.stores)
  operate-Keeps (finishes_declared allow) = finish_declared_length-Keeps allow
  operate-Keeps closes = close_body-Keeps
  operate-Keeps drops = drop_body-Keeps

-- A body that has ended is changed by no operation, nor is the pool.
operate-terminal :
    (b : ResponseBody) (pool : Pool) (o : Operation)
    → b.terminal ≡ true
    → operate (b, pool) o ≡ (b, pool)
unfolding operate
operate-terminal b pool (polls m) t = ap (λ r. r.1) (poll_next-terminal b pool m t)
operate-terminal b pool (finishes_declared allow) t = unfold finish_declared_length in simp t
operate-terminal b pool closes t = close_body-terminal b pool t
operate-terminal b pool drops t = unfold drop_body in finish-ended b pool drop_event t

-- Whatever is done with a body that has ended, in any order, changes neither the body nor the pool.
pub run-terminal :
    (b : ResponseBody) (pool : Pool) (os : List Operation)
    → b.terminal ≡ true
    → run (b, pool) os ≡ (b, pool)
unfolding run
run-terminal b pool [] t = refl
run-terminal b pool (o ∷ os) t = rw (operate-terminal b pool o t) (run-terminal b pool os t)

still : (a c d : ℕ) → a < d → ltb a c ≡ false → c < d
still a c d h e = ground arith

run-Keeps :
    (i : ℕ) (b : ResponseBody) (pool : Pool) (os : List Operation)
    → IsSound (b, pool)
    → Keeps i pool (run (b, pool) os)
unfolding run
run-Keeps i b pool [] x = (x, λ h. absurd (omega arith))
run-Keeps i b pool (o ∷ os) x =
    let (y, k) = operate-Keeps i b pool x o in
    let (b', pool') = operate (b, pool) o in
    let (z, l) = run-Keeps i b' pool' os y in
    (
      z,
      λ h.
          elim (Bool-cases (ltb (idle_count i pool.generations) (idle_count i pool'.generations))) [
            | inl e ↦ stays b' pool' y (k (ltb→lt _ _ e))
            | inr e ↦ l (still _ _ _ h e)
          ],
    )
  where
    stays :
        (b' : ResponseBody) (pool' : Pool)
        → IsSound (b', pool')
        → b'.disposition.state ≡ reusable_state
        → (run (b', pool') os).0.disposition.state ≡ reusable_state
    stays b' pool' y e = rw (run-terminal b' pool' os (sym y.final ∙ ap is_final e)) e

-- Whatever is done with a sound body, in any order, it stays sound: it has made its decision exactly
-- where it has ended, it has given up its lease then, and the pool keeps its invariant.
pub run-IsSound :
    (b : ResponseBody) (pool : Pool) (os : List Operation)
    → IsSound (b, pool)
    → IsSound (run (b, pool) os)
run-IsSound b pool os x = (run-Keeps 0 b pool os x).0

-- Whatever is done with a sound body, in any order: if the connection of a number is idle in the pool
-- afterwards more often than before, the response has ended as reusable.
pub run-stores :
    (i : ℕ) (b : ResponseBody) (pool : Pool) (os : List Operation)
    → IsSound (b, pool)
    → idle_count i pool.generations < idle_count i (run (b, pool) os).1.generations
    → (run (b, pool) os).0.disposition.state ≡ reusable_state
run-stores i b pool os x = (run-Keeps i b pool os x).1
