-- ===== src/Retry/Budget.antt =====
-- How many attempts the counters of crates/requests/src/retry.rs allow.
use requests_native.Prelude.{
  ℕ, zero, suc, ◌≤◌, ◌≡◌, ◌↔◌, ◌⊎◌, inl, inr, Bool, true, false, Option, none, some, List, [], ◌∷◌,
  arith, if◌then◌else◌, Bool-cases, length, Bytes, Result, ok, err, ◌>>=◌,
}
use requests_native.Retry.{
  RetryCount, unlimited, boolean, limited, decrement, RetryPolicy, RetryReason, connect, read,
  status, redirect, other, RetryHistory, RetryFailure, exhausted, RetryState, consumed_reason,
  counter, set_counter, charge, increment,
}

-- A count allows `n` attempts.
abbrev pub Fits : RetryCount → ℕ → Type 0
Fits unlimited n = Unit
Fits (boolean true) n = n ≤ 1
Fits (boolean false) n = n ≤ 0
Fits (limited r) n = n ≤ r

-- What a caller of `increment` passes.
pub record Attempt : Type 0 where
  pub reason : RetryReason
  pub method : Bytes
  pub url : Bytes
  pub location : Option Bytes

abbrev pub consumed : Attempt → RetryReason
consumed a = consumed_reason a.reason a.location

abbrev pub entry : Attempt → RetryHistory
entry a = record {
  reason = consumed a;
  method = a.method;
  url = a.url;
  redirect_location = a.location;
}

-- Whether two reasons are charged to one counter.
abbrev pub same_counter : RetryReason → RetryReason → Bool
same_counter connect connect = true
same_counter read read = true
same_counter (status s) (status t) = true
same_counter (redirect s) (redirect t) = true
same_counter other other = true
same_counter _ _ = false

-- How many of the attempts are charged to the counter of a reason.
abbrev pub charges : RetryReason → List Attempt → ℕ
charges r [] = 0
charges r (a ∷ as_) = if same_counter r (consumed a) then suc (charges r as_) else charges r as_

module _ {F : Type 0} where
  -- A run of attempts: each starts from the state that the one before it left.
  unfoldable pub attempts : RetryState F → List Attempt → Result RetryFailure (RetryState F)
  attempts s [] = ok s
  attempts s (a ∷ as_) = do s' ← increment s a.reason a.method a.url a.location; attempts s' as_

  -- The counters allow all of the attempts.
  abbrev pub Allows : RetryPolicy F → List Attempt → Type 0
  Allows p as_ =
      Fits p.total (length as_) × ((r : RetryReason) → Fits (counter r p) (charges r as_))

-- A count that gives up an attempt allowed one more than what is left of it.
decrement-Fits :
    (c : RetryCount) {c' : RetryCount} (n : ℕ) → decrement c ≡ some c' → Fits c (suc n) ↔ Fits c' n
unfolding decrement
decrement-Fits unlimited n e = ground arith
decrement-Fits (boolean b) n e = ground arith
decrement-Fits (limited zero) n e = cc
decrement-Fits (limited (suc r)) n e = ground arith

decrement-not_Fits : (c : RetryCount) (n : ℕ) → decrement c ≡ none → ¬ Fits c (suc n)
unfolding decrement
decrement-not_Fits c n e h = ground arith

same_counter_refl : (q : RetryReason) → same_counter q q ≡ true
same_counter_refl q = ground arith

module _ {F : Type 0} where
  counter-set_counter :
      (r q : RetryReason) (p : RetryPolicy F) (t c : RetryCount)
      → counter r (set_counter q (record p { total = t }) c)
        ≡ (if same_counter r q then c else counter r p)
  unfolding counter set_counter
  counter-set_counter r q p t c = ground arith

  total-set_counter :
      (q : RetryReason) (p : RetryPolicy F) (t c : RetryCount)
      → (set_counter q (record p { total = t }) c).total ≡ t
  unfolding set_counter
  total-set_counter q p t c = ground arith

  counter-same :
      (r q : RetryReason) (p : RetryPolicy F) → same_counter r q ≡ true → counter r p ≡ counter q p
  unfolding counter
  counter-same r q p h = ground arith

  module _ (p : RetryPolicy F) (a : Attempt) (as_ : List Attempt) {t c : RetryCount}
      (dt : decrement p.total ≡ some t) (dc : decrement (counter (consumed a) p) ≡ some c) where
    -- The policy that is left behind the attempt.
    abbrev pub left : RetryPolicy F
    left = set_counter (consumed a) (record p { total = t }) c

    counter-left :
        (r : RetryReason)
        → Fits (counter r p) (charges r (a ∷ as_)) ↔ Fits (counter r left) (charges r as_)
    counter-left r = elim (Bool-cases (same_counter r (consumed a))) [
      | inl e ↦
          rw (counter-set_counter r (consumed a) p t c, e, counter-same r (consumed a) p e)
            (decrement-Fits _ (charges r as_) dc)
      | inr e ↦ rw (counter-set_counter r (consumed a) p t c, e) ((λ h. h), (λ h. h))
    ]

    -- The attempt and what follows it are allowed if what follows is allowed by what is left.
    pub charge-Allows : Allows p (a ∷ as_) ↔ Allows left as_
    charge-Allows =
        let total_left = total-set_counter (consumed a) p t c in
        (
          (λ h. (
            rw total_left ((decrement-Fits p.total (length as_) dt).0 h.0),
            λ r. (counter-left r).0 (h.1 r),
          )),
          (λ h. (
            (decrement-Fits p.total (length as_) dt).1 (rw total_left at h.0),
            λ r. (counter-left r).1 (h.1 r),
          )),
        )

    pub charge-left : charge (consumed a) p ≡ ok left
    unfolding charge
    charge-left = rw (dt, dc)

  pub charge_full :
      (p : RetryPolicy F) (q : RetryReason)
      → (decrement p.total ≡ none) ⊎ (decrement (counter q p) ≡ none)
      → charge q p ≡ err (exhausted q)
  unfolding charge
  charge_full p q h = ground arith

  -- An attempt that finds no room is not allowed.
  pub full-not_Allows :
      (p : RetryPolicy F) (a : Attempt) (as_ : List Attempt)
      → (decrement p.total ≡ none) ⊎ (decrement (counter (consumed a) p) ≡ none)
      → ¬ Allows p (a ∷ as_)
  full-not_Allows p a as_ (inl e) h = decrement-not_Fits p.total (length as_) e h.0
  full-not_Allows p a as_ (inr e) h =
      decrement-not_Fits (counter (consumed a) p) (charges (consumed a) as_) e
        (rw (same_counter_refl (consumed a)) at (h.1 (consumed a)))
