-- ===== src/Pool/Completion.antt =====
-- The completion of a lease in crates/requests/src/transport/pool.rs: the first one decides.
use requests_native.Prelude.{◌≡◌, refl, ◌≢◌, false, none, some, List, [], ◌∷◌, arith}
use requests_native.Pool.Leases.{
  ConnectionLease, LeaseTerminal, active, clean_eof, dirty, DirtyLeaseCause, complete,
  complete_dirty, complete_from, complete_dirty_from,
}
use requests_native.Pool.{Pool, release, reusable}

-- A call that completes a lease.
pub data Completion : Type 0 where
  completes : LeaseTerminal → Completion
  dirties : DirtyLeaseCause → Completion

pub apply : ConnectionLease → Completion → ConnectionLease
unfolding complete complete_dirty
apply lease (completes terminal) = complete lease terminal
apply lease (dirties cause) = complete_dirty lease cause

pub apply_all : ConnectionLease → List Completion → ConnectionLease
unfolding apply
apply_all lease [] = lease
apply_all lease (c ∷ cs) = apply_all (apply lease c) cs

apply-completed :
    (lease : ConnectionLease) (c : Completion) → lease.terminal ≢ active → apply lease c ≡ lease
unfolding apply complete complete_from complete_dirty complete_dirty_from
apply-completed lease c h = ground arith

apply_all-completed :
    (lease : ConnectionLease) (cs : List Completion)
    → lease.terminal ≢ active
    → apply_all lease cs ≡ lease
unfolding apply_all
apply_all-completed lease [] h = refl
apply_all-completed lease (c ∷ cs) h =
    rw (apply-completed lease c h, apply_all-completed lease cs h)

-- A lease that is first completed as dirty stays so, whatever completes it afterwards, and no pool
-- ever takes its connection: the lease is handed back and the pool stays as it was.
pub release-dirty :
    (pool : Pool) (lease : ConnectionLease) (cause : DirtyLeaseCause) (cs : List Completion)
    → lease.terminal ≡ active
    → release pool (apply_all (complete_dirty lease cause) cs)
      ≡ (some (complete_dirty lease cause), pool)
release-dirty pool lease cause cs h =
    rw (apply_all-completed (complete_dirty lease cause) cs (λ e. cc (completed h)))
      (unfold release reusable in rw (refused h, release))
  where
    completed : lease.terminal ≡ active → (complete_dirty lease cause).terminal ≡ dirty
    completed e = unfold complete_dirty complete_dirty_from in ground arith

    refused : lease.terminal ≡ active → reusable pool (complete_dirty lease cause) ≡ false
    refused e = unfold reusable complete_dirty complete_dirty_from in ground arith

-- A lease that is first completed as clean stays so, and is no dirty lease afterwards.
pub complete-clean :
    (lease : ConnectionLease) (cs : List Completion)
    → lease.terminal ≡ active
    → lease.dirty_identity ≡ none
    → ((apply_all (complete lease clean_eof) cs).terminal ≡ clean_eof)
      × ((apply_all (complete lease clean_eof) cs).dirty_identity ≡ none)
complete-clean lease cs h d =
    rw (apply_all-completed (complete lease clean_eof) cs (λ e. cc (completed h)))
      (completed h, unfold complete complete_from in ground arith)
  where
    completed : lease.terminal ≡ active → (complete lease clean_eof).terminal ≡ clean_eof
    completed e = unfold complete complete_from in ground arith
