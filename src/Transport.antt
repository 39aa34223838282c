-- ===== src/Transport.antt =====
-- Deadlines and the owner of a lease in crates/requests/src/transport/mod.rs. The checkpoints of the
-- session runtime are left out. An instant is a number.
pub mod Deadlines
pub mod Endings
pub mod Ownership
mod Examples
use requests_native.Prelude.{
  ℕ, zero, suc, ◌+◌, ◌-◌, ◌*◌, ◌/◌, ◌%◌, ◌^◌, ◌≤◌, ◌<◌, min, ◌≡◌, refl, sym, ap, ap₂, ◌∙◌, ◌≢◌, ◌↔◌,
  ◌⊎◌, inl, inr, Bool, true, false, not, ◌&&◌, ◌||◌, Option, none, some, List, [], ◌∷◌, ◌++◌, map,
  append_assoc, append-nil, arith, ltb, leb, ◌==◌, if◌then◌else◌, ltb→lt, lt→ltb, leb→le, le→leb,
  ==_iff, Bool-cases, Option-cases, length, take, drop, length-append, take-append-drop, any, all,
  All, All-append, Bytes, IsByte, codes, bytes_eq, bytes_eq_iff, contains_byte, is_ascii_digit,
  is_ascii_uppercase, is_ascii_lowercase, is_ascii_alphanumeric, is_ascii_hexdigit,
  to_ascii_uppercase, to_ascii_lowercase, Result, ok, err, ◌>>=◌, ok_or,
}
use requests_native.Pool.Leases.{
  IdleConnection, ConnectionLease, LeaseTerminal, clean_eof, DirtyLeaseCause, cancellation,
  incomplete_body, upload, is_live, peer_is_open, complete, complete_dirty,
}
use requests_native.Pool.{Pool, release}

pub data DeadlineSource : Type 0 where
  read total : DeadlineSource

unfoldable pub select_deadline_source : Option ℕ → Option ℕ → Option DeadlineSource
select_deadline_source (some r) (some t) = if leb r t then some read else some total
select_deadline_source (some r) none = some read
select_deadline_source none (some t) = some total
select_deadline_source none none = none

pub deadline_for : Option DeadlineSource → Option ℕ → Option ℕ → Option ℕ
deadline_for (some read) r t = r
deadline_for (some total) r t = t
deadline_for none r t = none

-- `ConnectionDriver::shutdown_now` takes the task and the socket, so the driver is neither reusable
-- nor open from then on.
pub shutdown_now : IdleConnection → IdleConnection
shutdown_now c = record c { driver_reusable = false; driver_peer_open = false }

unfoldable pub shut_down_lease : ConnectionLease → ConnectionLease
unfolding shutdown_now
shut_down_lease lease = record lease {
  connection = elim lease.connection [ none ↦ none | some c ↦ some (shutdown_now c) ];
}

-- `TransportLease::release` for a lease that is still owned. What the pool hands back is dropped.
unfoldable pub release_lease : Pool → ConnectionLease → Bool → DirtyLeaseCause → Pool
unfolding release complete complete_dirty is_live peer_is_open
release_lease pool lease reusable cause =
    let completed =
      if reusable && is_live lease && peer_is_open lease
      then complete lease clean_eof
      else complete_dirty lease cause in
    (release pool completed).1

-- `TransportLease::finish_now`.
unfoldable pub finish_now : Pool → ConnectionLease → Bool → Pool
unfolding release_lease shut_down_lease
finish_now pool lease reusable =
    release_lease pool (if reusable then lease else shut_down_lease lease) reusable cancellation

-- `TransportLease::finish_incomplete_body_now`.
unfoldable pub finish_incomplete_body_now : Pool → ConnectionLease → Pool
unfolding release_lease shut_down_lease
finish_incomplete_body_now pool lease =
    release_lease pool (shut_down_lease lease) false incomplete_body

-- `TransportLease::abort_and_wait` and `abort_upload_and_wait`, without the task's result.
unfoldable pub abort_and_wait : Pool → ConnectionLease → Pool
unfolding release_lease shut_down_lease
abort_and_wait pool lease = release_lease pool (shut_down_lease lease) false cancellation

unfoldable pub abort_upload_and_wait : Pool → ConnectionLease → Pool
unfolding release_lease shut_down_lease
abort_upload_and_wait pool lease = release_lease pool (shut_down_lease lease) false upload

-- `Drop for TransportLease`, for a lease that is still owned.
unfoldable pub drop_lease : Pool → ConnectionLease → Pool
unfolding release complete_dirty shut_down_lease
drop_lease pool lease = (release pool (complete_dirty (shut_down_lease lease) cancellation)).1
