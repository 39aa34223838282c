-- ===== src/Session/Identities.antt =====
-- Which identities of crates/requests/src/session_runtime.rs differ.
use requests_native.Prelude.{ℕ, zero, suc, ◌+◌, ◌*◌, ◌%◌, ◌^◌, ◌<◌, ◌≡◌, refl, ◌∙◌, ◌≢◌, arith}
use requests_native.Session.{Process, next_process_identity}

-- The process after a number of identities was taken.
abbrev pub taken : ℕ → Process → Process
taken zero p = p
taken (suc n) p = (next_process_identity (taken n p)).1

next_process_identity_lem :
    (p : Process)
    → ((next_process_identity p).0 ≡ p.pid * 2 ^ 32 + p.next_identity % 2 ^ 32)
      × ((next_process_identity p).1.pid ≡ p.pid)
      × ((next_process_identity p).1.next_identity ≡ (p.next_identity + 1) % 2 ^ 64)
unfolding next_process_identity
next_process_identity_lem p = (refl, refl, refl)

taken_lem :
    (n : ℕ) (p : Process)
    → ((taken n p).pid ≡ p.pid)
      × ((taken n p).next_identity % 2 ^ 32 ≡ (p.next_identity + n) % 2 ^ 32)
taken_lem zero p = (refl, omega arith)
taken_lem (suc n) p =
    let (i, a, b) = next_process_identity_lem (taken n p) in
    let (c, d) = taken_lem n p in (a ∙ c, omega (arith, b, d))

-- The identities of a process differ, if fewer than 2 ^ 32 are taken between them.
pub next_process_identity-taken :
    (p : Process) (i k : ℕ)
    → 0 < k
    → k < 2 ^ 32
    → (next_process_identity (taken i p)).0 ≢ (next_process_identity (taken (i + k) p)).0
next_process_identity-taken p i k h l e =
    let (x, a, b) = next_process_identity_lem (taken i p) in
    let (y, c, d) = next_process_identity_lem (taken (i + k) p) in
    let (m, n) = taken_lem i p in
    let (q, r) = taken_lem (i + k) p in omega (arith, e, x, y, m, n, q, r)
