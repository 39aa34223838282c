-- ===== src/Retry/Attempts.antt =====
-- Runs of attempts against the counters of crates/requests/src/retry.rs.
use requests_native.Prelude.{
  ◌≡◌, refl, sym, ap, ◌∙◌, ◌↔◌, ◌⊎◌, inl, inr, none, List, [], ◌∷◌, ◌++◌, map, append_assoc,
  append-nil, arith, Option-cases, ok, err,
}
use requests_native.Retry.{
  decrement, RetryCount, RetryFailure, exhausted, RetryState, counter, increment,
}
use requests_native.Retry.Budget.{
  Fits, Attempt, consumed, entry, attempts, Allows, left, charge-Allows, charge-left, charge_full,
  full-not_Allows,
}

-- What `increment` does: it fails for want of room, or it charges the attempt and records it.
data Outcome {F : Type 0} (s : RetryState F) (a : Attempt) : Type 0 where
  full :
      (decrement s.remaining.total ≡ none) ⊎ (decrement (counter (consumed a) s.remaining) ≡ none)
      → increment s a.reason a.method a.url a.location ≡ err (exhausted (consumed a))
      → Outcome s a
  charged :
      (t : RetryState F)
      → t.history ≡ s.history ++ entry a ∷ []
      → ((as_ : List Attempt) → Allows s.remaining (a ∷ as_) ↔ Allows t.remaining as_)
      → increment s a.reason a.method a.url a.location ≡ ok t
      → Outcome s a

Fits-zero : (c : RetryCount) → Fits c 0
Fits-zero c = ground arith

module _ {F : Type 0} where
  outcome : (s : RetryState F) (a : Attempt) → Outcome s a
  unfolding increment
  outcome s a = elim (Option-cases (decrement s.remaining.total)) [
    | inl e ↦ full (inl e) (rw (charge_full s.remaining (consumed a) (inl e)))
    | inr (t, dt) ↦ elim (Option-cases (decrement (counter (consumed a) s.remaining))) [
      | inl e ↦ full (inr e) (rw (charge_full s.remaining (consumed a) (inr e)))
      | inr (c, dc) ↦
          charged
            (record {
              remaining = left s.remaining a [] dt dc;
              history = s.history ++ entry a ∷ [];
            })
            refl (λ as_. charge-Allows s.remaining a as_ dt dc)
            (rw (charge-left s.remaining a [] dt dc))
    ]
  ]

  attempts-ok :
      (s t : RetryState F) (a : Attempt) (as_ : List Attempt)
      → increment s a.reason a.method a.url a.location ≡ ok t
      → attempts s (a ∷ as_) ≡ attempts t as_
  unfolding attempts
  attempts-ok s t a as_ e = rw e

  attempts-err :
      (s : RetryState F) (a : Attempt) (as_ : List Attempt) (f : RetryFailure)
      → increment s a.reason a.method a.url a.location ≡ err f
      → attempts s (a ∷ as_) ≡ err f
  unfolding attempts
  attempts-err s a as_ f e = rw e

  attempts_sound :
      (s s' : RetryState F) (as_ : List Attempt) → attempts s as_ ≡ ok s' → Allows s.remaining as_
  attempts_sound s s' [] e = (Fits-zero _, λ r. Fits-zero _)
  attempts_sound s s' (a ∷ as_) e = elim (outcome s a) [
    | full h p ↦ cc (attempts-err s a as_ _ p)
    | charged t q ch p ↦ (ch as_).1 (attempts_sound t s' as_ (sym (attempts-ok s t a as_ p) ∙ e))
  ]

  attempts_complete :
      (s : RetryState F) (as_ : List Attempt)
      → Allows s.remaining as_
      → (s' : RetryState F) × (attempts s as_ ≡ ok s')
  attempts_complete s [] h = (s, unfold attempts in refl)
  attempts_complete s (a ∷ as_) h = elim (outcome s a) [
    | full f p ↦ absurd (full-not_Allows s.remaining a as_ f h)
    | charged t q ch p ↦
        let (s', e) = attempts_complete t as_ ((ch as_).0 h) in (s', attempts-ok s t a as_ p ∙ e)
  ]

  -- A run of attempts goes through exactly when `total` allows their number and each counter the
  -- number of those that are charged to it: no attempt beyond, and none refused before.
  pub attempts_iff :
      (s : RetryState F) (as_ : List Attempt)
      → ((s' : RetryState F) × (attempts s as_ ≡ ok s')) ↔ Allows s.remaining as_
  attempts_iff s as_ = ((λ r. attempts_sound s r.0 as_ r.1), attempts_complete s as_)

  -- The first attempt that the counters do not allow ends the run, with the reason that it is
  -- charged to, whatever would have followed.
  pub attempts_exhausted :
      (s : RetryState F) (as_ : List Attempt) (a : Attempt) (rest : List Attempt)
      → Allows s.remaining as_
      → ¬ Allows s.remaining (as_ ++ a ∷ [])
      → attempts s (as_ ++ a ∷ rest) ≡ err (exhausted (consumed a))
  attempts_exhausted s [] a rest h k = elim (outcome s a) [
    | full f p ↦ attempts-err s a rest _ p
    | charged t q ch p ↦ absurd (k ((ch []).1 (Fits-zero _, λ r. Fits-zero _)))
  ]
  attempts_exhausted s (b ∷ as_) a rest h k = elim (outcome s b) [
    | full f p ↦ absurd (full-not_Allows s.remaining b as_ f h)
    | charged t q ch p ↦
        attempts-ok s t b (as_ ++ a ∷ rest) p
        ∙ attempts_exhausted t as_ a rest ((ch as_).0 h) (λ g. k ((ch (as_ ++ a ∷ [])).1 g))
  ]

  -- A run that goes through has recorded its attempts behind the history, in order, each with the
  -- reason that it was charged to.
  pub history-attempts :
      (s s' : RetryState F) (as_ : List Attempt)
      → attempts s as_ ≡ ok s'
      → s'.history ≡ s.history ++ map entry as_
  unfolding attempts
  history-attempts s s' [] e = rw append-nil (cc)
  history-attempts s s' (a ∷ as_) e = elim (outcome s a) [
    | full h p ↦ cc (attempts-err s a as_ _ p)
    | charged t q ch p ↦
        history-attempts t s' as_ (sym (attempts-ok s t a as_ p) ∙ e)
        ∙ ap (λ h. h ++ map entry as_) q
        ∙ append_assoc s.history (entry a ∷ []) (map entry as_)
  ]
