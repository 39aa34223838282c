-- ===== src/Response/Operations.antt =====
-- Polls and other operations on a body of crates/requests/src/response.rs, in any order.
use requests_native.Prelude.{
  ℕ, ◌<◌, ◌≡◌, refl, ◌∙◌, inl, inr, true, false, ◌&&◌, Option, none, some, arith, Bool-cases,
  Option-cases, Bytes, Result, ok, err,
}
use requests_native.Errors.{ErrorKind, Error}
use requests_native.Pool.{Pool}
use requests_native.Pool.Count.{idle_count}
use requests_native.Response.{ResponseEvent, clean_eof, read_error, reusable_state, apply}
use requests_native.Response.Body.{
  ResponseBody, ResponseBodySource, State, finish, poll_source, poll_frames, poll_decoded, incoming,
  decoded, SourcePoll, item, failed, ended, waiting,
}
use requests_native.Response.Poll.{
  Poll, pending, ready, Answer, Moment, poll_timeout, finish_error, receive, event_of, await_more,
  set_read_deadline, poll_driver, poll_waiting, has_driver, poll_with, poll_next,
}
use requests_native.Response.Safety.{IsSound, is_ending, finish-IsSound, finish-stores}

-- What an answer says of the body that is left: after the end and after an error it has ended.
abbrev pub Closes : Answer → ResponseBody → Type 0
Closes pending b = Unit
Closes (ready none) b = b.terminal ≡ true
Closes (ready (some (ok bytes))) b = Unit
Closes (ready (some (err e))) b = b.terminal ≡ true

-- A step from a body with this pool: the body that is left is sound, the connection of a number is
-- idle more often only if the response is reusable, and the answer is true of the body.
pub record IsSafe (i : ℕ) (pool : Pool) (r : Answer × State) : Type 0 where
  pub sound : IsSound r.1
  pub stores :
      idle_count i pool.generations < idle_count i r.1.1.generations
      → r.1.0.disposition.state ≡ reusable_state
  pub closes : Closes r.0 r.1.0

event_of-ending : (k : ErrorKind) → is_ending (event_of k) ≡ true
unfolding event_of
event_of-ending k = ground arith

set_read_deadline_lem :
    (b : ResponseBody) (m : Moment)
    → (d : Option ℕ) × (set_read_deadline b m ≡ record b { read_deadline = d })
unfolding set_read_deadline
set_read_deadline_lem b m = ((set_read_deadline b m).read_deadline, ground arith)

poll_source_lem :
    (b : ResponseBody)
    → (source : Option ResponseBodySource) × ((poll_source b).1 ≡ record b { source = source })
unfolding poll_source
poll_source_lem b = elim (Option-cases b.source) [
  | inl e ↦ (none, ground arith)
  | inr (incoming frames, e) ↦ (some (incoming (poll_frames b frames).1), rw (e, poll_source))
  | inr (decoded polls, e) ↦ (some (decoded (poll_decoded polls).1), rw (e, poll_source))
]

pub poll_next-terminal :
    (b : ResponseBody) (pool : Pool) (m : Moment)
    → b.terminal ≡ true
    → poll_next (b, pool) m ≡ (ready none, (b, pool))
unfolding poll_next
poll_next-terminal b pool m t = simp t

poll_next-running :
    (b : ResponseBody) (pool : Pool) (m : Moment)
    → b.terminal ≡ false
    → poll_next (b, pool) m ≡ elim (poll_timeout b m.now) [
      | some e ↦ finish_error (b, pool) read_error e
      | none ↦ poll_with (poll_source b).0 ((poll_source b).1, pool) m
    ]
unfolding poll_next
poll_next-running b pool m t = simp t

poll_next-timeout :
    (b : ResponseBody) (pool : Pool) (m : Moment) (e : Error)
    → b.terminal ≡ false
    → poll_timeout b m.now ≡ some e
    → poll_next (b, pool) m ≡ finish_error (b, pool) read_error e
poll_next-timeout b pool m e t q = poll_next-running b pool m t ∙ rw q

pub poll_next-live :
    (b : ResponseBody) (pool : Pool) (m : Moment)
    → b.terminal ≡ false
    → poll_timeout b m.now ≡ none
    → poll_next (b, pool) m ≡ poll_with (poll_source b).0 ((poll_source b).1, pool) m
unfolding poll_next
poll_next-live b pool m t q = simp t (rw (q, poll_next))

module _ (i : ℕ) (pool : Pool) where
  -- A step that leaves the pool alone.
  pub idle-IsSafe :
      (b : ResponseBody) (a : Answer)
      → IsSound (b, pool)
      → Closes a b
      → IsSafe i pool (a, (b, pool))
  idle-IsSafe b a x c = record { sound = x; stores = λ h. absurd (omega arith); closes = c }

  pub finish-IsSafe :
      (b : ResponseBody) (e : ResponseEvent)
      → is_ending e ≡ true
      → IsSound (b, pool)
      → IsSafe i pool (ready none, finish (b, pool) e)
  finish-IsSafe b e k x =
      let (s, t) = finish-IsSound b pool e k x in
      record { sound = s; stores = finish-stores b pool e i k x; closes = t }

  finish_error-IsSafe :
      (b : ResponseBody) (e : ResponseEvent) (error : Error)
      → is_ending e ≡ true
      → IsSound (b, pool)
      → IsSafe i pool (finish_error (b, pool) e error)
  unfolding finish_error
  finish_error-IsSafe b e error k x =
      let s = finish-IsSafe b e k x in
      record { sound = s.sound; stores = s.stores; closes = s.closes }

  receive-IsSound :
      (b : ResponseBody) (bytes : Bytes)
      → b.terminal ≡ false
      → IsSound (b, pool)
      → IsSound (receive b bytes, pool)
  unfolding receive apply
  receive-IsSound b bytes t x = record {
    final = ground (arith, x.final, x.live);
    live = ground (arith, x.final, x.live);
    decided = ground (arith, x.final, x.live, x.decided);
    given_up = x.given_up;
    held = x.held;
    inv = x.inv;
  }

  set_read_deadline-IsSound :
      (b : ResponseBody) (m : Moment) → IsSound (b, pool) → IsSound (set_read_deadline b m, pool)
  set_read_deadline-IsSound b m x =
      let (d, e) = set_read_deadline_lem b m in
      rw e (record {
        final = x.final;
        live = x.live;
        decided = x.decided;
        given_up = x.given_up;
        held = x.held;
        inv = x.inv;
      })

  poll_source-IsSound : (b : ResponseBody) → IsSound (b, pool) → IsSound ((poll_source b).1, pool)
  poll_source-IsSound b x =
      let (source, e) = poll_source_lem b in
      rw e (record {
        final = x.final;
        live = x.live;
        decided = x.decided;
        given_up = x.given_up;
        held = x.held;
        inv = x.inv;
      })

  poll_driver-IsSafe :
      (b : ResponseBody) (r : Poll (Result Error (Unit {0})))
      → IsSound (b, pool)
      → IsSafe i pool (poll_driver (b, pool) r)
  unfolding poll_driver
  poll_driver-IsSafe b r x = elim (Option-cases b.driver) [
    | inl e ↦ rw (e, poll_driver) (idle-IsSafe b pending x tt)
    | inr (lease, e) ↦ rw (e, poll_driver) (said r)
  ]
    where
      said :
          (r : Poll (Result Error (Unit {0})))
          → IsSafe i pool (elim r [
            | ready q ↦ elim q [
              | err e ↦ finish_error (b, pool) read_error e
              | ok u ↦ (pending, (b, pool))
            ]
            | pending ↦ (pending, (b, pool))
          ])
      said pending = idle-IsSafe b pending x tt
      said (ready (ok u)) = idle-IsSafe b pending x tt
      said (ready (err e)) = finish_error-IsSafe b read_error e refl x

  poll_waiting-IsSafe :
      (b : ResponseBody) (m : Moment) → IsSound (b, pool) → IsSafe i pool (poll_waiting (b, pool) m)
  unfolding poll_waiting
  poll_waiting-IsSafe b m x =
      let b' = set_read_deadline b m in
      let y = set_read_deadline-IsSound b m x in
      elim (Option-cases (poll_timeout b' m.later)) [
        | inl e ↦ rw (e, poll_waiting) (poll_driver-IsSafe b' m.driver_result y)
        | inr (t, e) ↦ rw (e, poll_waiting) (finish_error-IsSafe b' read_error t refl y)
      ]

  poll_with-IsSafe :
      (result : SourcePoll) (b : ResponseBody) (m : Moment)
      → b.terminal ≡ false
      → IsSound (b, pool)
      → IsSafe i pool (poll_with result (b, pool) m)
  unfolding poll_with await_more
  poll_with-IsSafe (item bytes) b m t x =
      idle-IsSafe (receive b bytes) _ (receive-IsSound b bytes t x) tt
  poll_with-IsSafe (failed e) b m t x = finish_error-IsSafe b _ e (event_of-ending e.kind) x
  poll_with-IsSafe ended b m t x =
      finish-IsSafe (record b { remainder_wait = none }) clean_eof refl
        (record {
          final = x.final;
          live = x.live;
          decided = x.decided;
          given_up = x.given_up;
          held = x.held;
          inv = x.inv;
        })
  poll_with-IsSafe (waiting progress) b m t x =
      elim (Bool-cases (has_driver b' && m.gate_pending)) [
        | inl e ↦ rw (e, poll_with) (idle-IsSafe b' pending y tt)
        | inr e ↦ rw (e, poll_with) (poll_waiting-IsSafe b' m y)
      ]
    where
      b' : ResponseBody
      b' = await_more b progress

      y : IsSound (b', pool)
      y = record {
        final = x.final;
        live = x.live;
        decided = x.decided;
        given_up = x.given_up;
        held = x.held;
        inv = x.inv;
      }

  -- A poll of any sound body.
  pub poll_next-IsSafe :
      (b : ResponseBody) (m : Moment) → IsSound (b, pool) → IsSafe i pool (poll_next (b, pool) m)
  poll_next-IsSafe b m x = elim (Bool-cases b.terminal) [
    | inl t ↦ rw (poll_next-terminal b pool m t) (idle-IsSafe b (ready none) x t)
    | inr t ↦ elim (Option-cases (poll_timeout b m.now)) [
      | inr (e, q) ↦
          rw (poll_next-timeout b pool m e t q) (finish_error-IsSafe b read_error e refl x)
      | inl q ↦
          let (source, e) = poll_source_lem b in
          rw (poll_next-live b pool m t q) (
            poll_with-IsSafe (poll_source b).0 (poll_source b).1 m (rw e t)
              (poll_source-IsSound b x))
    ]
  ]

-- A poll leaves a sound body sound, and it answers truly: after the end of the body and after an error
-- the body has ended.
pub poll_next-Closes :
    (b : ResponseBody) (pool : Pool) (m : Moment)
    → IsSound (b, pool)
    → IsSound (poll_next (b, pool) m).1
      × Closes (poll_next (b, pool) m).0 (poll_next (b, pool) m).1.0
poll_next-Closes b pool m x = let s = poll_next-IsSafe 0 pool b m x in (s.sound, s.closes)
