-- ===== src/Transport/Deadlines.antt =====
-- The deadline that crates/requests/src/transport/mod.rs waits for.
use requests_native.Prelude.{ℕ, ◌≤◌, ◌≡◌, ◌↔◌, ◌⊎◌, Option, none, some, arith}
use requests_native.Transport.{select_deadline_source, deadline_for}

-- A deadline is no earlier than an optional bound.
abbrev pub NotAfter : ℕ → Option ℕ → Type 0
NotAfter d none = Unit
NotAfter d (some t) = d ≤ t

-- The deadline that is waited for is the one of the two that is set and no later than the other; there
-- is none only when neither is set.
pub deadline_for-select_deadline_source :
    (r t : Option ℕ) (d : ℕ)
    → (deadline_for (select_deadline_source r t) r t ≡ some d)
      ↔ (NotAfter d r × NotAfter d t × ((r ≡ some d) ⊎ (t ≡ some d)))
unfolding select_deadline_source deadline_for
deadline_for-select_deadline_source none none d = ground arith
deadline_for-select_deadline_source none (some t) d = ground arith
deadline_for-select_deadline_source (some r) none d = ground arith
deadline_for-select_deadline_source (some r) (some t) d = ground arith
