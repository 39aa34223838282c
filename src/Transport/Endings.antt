-- ===== src/Transport/Endings.antt =====
-- How the owner of a lease gives it up (crates/requests/src/transport/mod.rs).
use requests_native.Prelude.{
  ℕ, ◌+◌, ◌≤◌, ◌<◌, ◌≡◌, refl, ap, ◌∙◌, inl, inr, Bool, true, false, ◌&&◌, arith, Bool-cases,
}
use requests_native.Pool.Leases.{
  ConnectionLease, LeaseTerminal, active, clean_eof, DirtyLeaseCause, cancellation, incomplete_body,
  upload, is_live, peer_is_open, complete, complete_dirty, complete_from, complete_dirty_from,
}
use requests_native.Pool.{Pool, release, reusable}
use requests_native.Pool.Invariant.{Inv, release-Inv}
use requests_native.Pool.Count.{count_option, idle_count, release-count}
use requests_native.Transport.{
  release_lease, finish_now, finish_incomplete_body_now, abort_and_wait, abort_upload_and_wait,
  drop_lease, shut_down_lease,
}

-- The ways in which the owner of a lease gives it up.
pub data Ending : Type 0 where
  finishes : Bool → Ending
  finishes_incomplete_body aborts aborts_upload drops : Ending

unfoldable pub end_lease : Ending → Pool → ConnectionLease → Pool
unfolding finish_now finish_incomplete_body_now abort_and_wait abort_upload_and_wait drop_lease
end_lease (finishes reusable) pool lease = finish_now pool lease reusable
end_lease finishes_incomplete_body pool lease = finish_incomplete_body_now pool lease
end_lease aborts pool lease = abort_and_wait pool lease
end_lease aborts_upload pool lease = abort_upload_and_wait pool lease
end_lease drops pool lease = drop_lease pool lease

-- What ending a lease does to the pool: it releases a lease of the same connection.
data Ends (pool : Pool) (lease : ConnectionLease) (pool' : Pool) : Type 0 where
  ends :
      (lease' : ConnectionLease)
      → ((i : ℕ) → count_option i lease'.connection ≡ count_option i lease.connection)
      → pool' ≡ (release pool lease').1
      → Ends pool lease pool'

complete_same :
    (lease : ConnectionLease) (t : LeaseTerminal) → (complete lease t).connection ≡ lease.connection
unfolding complete complete_from
complete_same lease t = ground arith

complete_dirty_same :
    (lease : ConnectionLease) (cause : DirtyLeaseCause)
    → (complete_dirty lease cause).connection ≡ lease.connection
unfolding complete_dirty complete_dirty_from
complete_dirty_same lease cause = ground arith

shut_down_same :
    (i : ℕ) (lease : ConnectionLease)
    → count_option i (shut_down_lease lease).connection ≡ count_option i lease.connection
unfolding shut_down_lease
shut_down_same i lease = ground arith

release_lease-Ends :
    (pool : Pool) (lease : ConnectionLease) (reusable : Bool) (cause : DirtyLeaseCause)
    → Ends pool lease (release_lease pool lease reusable cause)
unfolding release_lease
release_lease-Ends pool lease reusable cause =
    elim (Bool-cases (reusable && is_live lease && peer_is_open lease)) [
      | inl e ↦
          ends (complete lease clean_eof) (λ i. ap (count_option i) (complete_same lease clean_eof))
            (rw (e, release_lease))
      | inr e ↦
          ends (complete_dirty lease cause)
            (λ i. ap (count_option i) (complete_dirty_same lease cause)) (rw (e, release_lease))
    ]

shut-Ends :
    (pool pool' : Pool) (lease : ConnectionLease)
    → Ends pool (shut_down_lease lease) pool'
    → Ends pool lease pool'
shut-Ends pool pool' lease (ends lease' same e) =
    ends lease' (λ i. same i ∙ shut_down_same i lease) e

end_lease-Ends :
    (how : Ending) (pool : Pool) (lease : ConnectionLease)
    → Ends pool lease (end_lease how pool lease)
unfolding end_lease
end_lease-Ends (finishes true) pool lease = release_lease-Ends pool lease true _
end_lease-Ends (finishes false) pool lease =
    shut-Ends pool _ lease (release_lease-Ends pool (shut_down_lease lease) false _)
end_lease-Ends finishes_incomplete_body pool lease =
    shut-Ends pool _ lease (release_lease-Ends pool (shut_down_lease lease) false _)
end_lease-Ends aborts pool lease =
    shut-Ends pool _ lease (release_lease-Ends pool (shut_down_lease lease) false _)
end_lease-Ends aborts_upload pool lease =
    shut-Ends pool _ lease (release_lease-Ends pool (shut_down_lease lease) false _)
end_lease-Ends drops pool lease = shut-Ends pool _ lease (
    ends (complete_dirty (shut_down_lease lease) cancellation)
      (λ i. ap (count_option i) (complete_dirty_same (shut_down_lease lease) cancellation)) refl)

pub end_lease-Inv :
    (how : Ending) (pool : Pool) (lease : ConnectionLease)
    → Inv pool
    → Inv (end_lease how pool lease)
end_lease-Inv how pool lease v = kept (end_lease-Ends how pool lease)
  where
    kept : {pool' : Pool} → Ends pool lease pool' → Inv pool'
    kept (ends lease' same e) = rw e (release-Inv pool lease' v)

pub end_lease-count :
    (i : ℕ) (how : Ending) (pool : Pool) (lease : ConnectionLease)
    → Inv pool
    → idle_count i (end_lease how pool lease).generations
      ≤ idle_count i pool.generations + count_option i lease.connection
end_lease-count i how pool lease v = bounded (end_lease-Ends how pool lease)
  where
    bounded :
        {pool' : Pool}
        → Ends pool lease pool'
        → idle_count i pool'.generations
          ≤ idle_count i pool.generations + count_option i lease.connection
    bounded (ends lease' same e) = rw e (omega (arith, release-count i pool lease' v, same i))

still :
    (lease : ConnectionLease) → lease.terminal ≡ active → (shut_down_lease lease).terminal ≡ active
unfolding shut_down_lease
still lease h = h

dirty_refused :
    (pool : Pool) (lease : ConnectionLease) (cause : DirtyLeaseCause)
    → lease.terminal ≡ active
    → reusable pool (complete_dirty lease cause) ≡ false
unfolding reusable complete_dirty complete_dirty_from
dirty_refused pool lease cause h = ground arith

-- A lease that is completed as dirty adds nothing.
dirty_adds_nothing :
    (pool : Pool) (lease : ConnectionLease) (cause : DirtyLeaseCause) (i : ℕ)
    → Inv pool
    → lease.terminal ≡ active
    → idle_count i (release pool (complete_dirty lease cause)).1.generations
      ≡ idle_count i pool.generations
dirty_adds_nothing pool lease cause i v h =
    ground
      (arith, release-count i pool (complete_dirty lease cause) v, dirty_refused pool lease cause h)

unusable_adds_nothing :
    (pool : Pool) (lease : ConnectionLease) (cause : DirtyLeaseCause) (i : ℕ)
    → Inv pool
    → lease.terminal ≡ active
    → idle_count i (release_lease pool lease false cause).generations
      ≡ idle_count i pool.generations
unfolding release_lease
unusable_adds_nothing pool lease cause i v h = dirty_adds_nothing pool lease cause i v h

clean_generation :
    (pool : Pool) (lease : ConnectionLease)
    → reusable pool (complete lease clean_eof) ≡ true
    → lease.generation ≡ pool.generation_number
unfolding reusable complete complete_from
clean_generation pool lease h = ground arith

finish-stores :
    (pool : Pool) (lease : ConnectionLease) (i : ℕ)
    → Inv pool
    → lease.terminal ≡ active
    → idle_count i pool.generations
      < idle_count i (release_lease pool lease true cancellation).generations
    → (lease.generation ≡ pool.generation_number)
      × (is_live lease ≡ true)
      × (peer_is_open lease ≡ true)
unfolding release_lease
finish-stores pool lease i v a h = elim (Bool-cases (is_live lease && peer_is_open lease)) [
  | inl e ↦
      let h' = rw (e, release_lease) at h in
      let g = clean_generation pool lease in
      ground (arith, release-count i pool (complete lease clean_eof) v)
  | inr e ↦
      let h' = rw (e, release_lease) at h in
      absurd (omega (arith, dirty_adds_nothing pool lease cancellation i v a))
]

-- Ending the lease of an exchange adds a connection to the pool only by `finish_now(true)`, and only
-- where the lease is of the current generation, its connection is alive and its peer is open.
pub end_lease-stores :
    (how : Ending) (pool : Pool) (lease : ConnectionLease) (i : ℕ)
    → Inv pool
    → lease.terminal ≡ active
    → idle_count i pool.generations < idle_count i (end_lease how pool lease).generations
    → (how ≡ finishes true)
      × (lease.generation ≡ pool.generation_number)
      × (is_live lease ≡ true)
      × (peer_is_open lease ≡ true)
unfolding end_lease
end_lease-stores (finishes true) pool lease i v a h =
    let (g, l, o) = finish-stores pool lease i v a h in (refl, g, l, o)
end_lease-stores (finishes false) pool lease i v a h = absurd (
    omega
      (arith, unusable_adds_nothing pool (shut_down_lease lease) cancellation i v (still lease a)))
end_lease-stores finishes_incomplete_body pool lease i v a h = absurd (
    omega (
      arith,
      unusable_adds_nothing pool (shut_down_lease lease) incomplete_body i v (still lease a),
    ))
end_lease-stores aborts pool lease i v a h = absurd (
    omega
      (arith, unusable_adds_nothing pool (shut_down_lease lease) cancellation i v (still lease a)))
end_lease-stores aborts_upload pool lease i v a h =
    absurd
      (omega (arith, unusable_adds_nothing pool (shut_down_lease lease) upload i v (still lease a)))
end_lease-stores drops pool lease i v a h = absurd (
    omega (arith, dirty_adds_nothing pool (shut_down_lease lease) cancellation i v (still lease a)))
