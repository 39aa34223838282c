-- ===== src/Auth/Steps.antt =====
-- `Digest401Machine` of crates/requests/src/auth.rs.
use requests_native.Prelude.{ℕ, zero, suc, ◌+◌, Option, none, some, List, [], ◌∷◌}

-- `Digest401Machine`: the steps that follow a 401 response.
pub data Digest401Step : Type 0 where
  seek challenge increment parse consume close copy extract_cookies prepare_cookies prepared_parts
        update_nonce_count ctime random update_last_nonce set_header send append_history
        replace_request :
      Digest401Step

abbrev pub steps : List Digest401Step
steps =
    seek ∷ challenge ∷ increment ∷ parse ∷ consume ∷ close ∷ copy ∷ extract_cookies
    ∷ prepare_cookies ∷ prepared_parts ∷ update_nonce_count ∷ ctime ∷ random ∷ update_last_nonce
    ∷ set_header ∷ send ∷ append_history ∷ replace_request ∷ []

pub record Digest401Machine : Type 0 where
  pub index : ℕ

abbrev step_at : ℕ → List Digest401Step → Option Digest401Step
step_at i [] = none
step_at zero (step ∷ rest) = some step
step_at (suc i) (step ∷ rest) = step_at i rest

unfoldable pub next : Digest401Machine → Digest401Machine × Option Digest401Step
next machine =
    let step = step_at machine.index steps in
    (record { index = machine.index + elim step [ none ↦ 0 | some s ↦ 1 ] }, step)
