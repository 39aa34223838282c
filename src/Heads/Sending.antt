-- ===== src/Heads/Sending.antt =====
-- What `ResponseHeadIo` of crates/requests/src/transport/mod.rs sends of what is written to it.
use requests_native.Prelude.{
  ℕ, zero, suc, ◌+◌, ◌≤◌, ◌<◌, ◌≡◌, refl, sym, ap, ap₂, ◌∙◌, ◌≢◌, ◌⊎◌, inl, inr, true, false, List,
  [], ◌∷◌, ◌++◌, append_assoc, arith, ltb, ◌==◌, Bool-cases, length, take, drop, take-append-drop,
  Bytes,
}
use requests_native.Heads.Invariant.{if-lem}
use requests_native.Heads.Io.{
  InnerWrite, takes, write_fails, write_pends, ResponseHeadIo, Polled, ready, failed, write_zero,
  pending, with_writes, unsent, cleared, advanced, drain,
}

drop-past : {A : Type 0} (n : ℕ) (xs : List A) → length xs ≤ n → drop n xs ≡ []
drop-past zero [] h = refl
drop-past zero (x ∷ xs) h = absurd (omega (arith, h))
drop-past (suc n) [] h = refl
drop-past (suc n) (x ∷ xs) h = drop-past n xs (omega (arith, h))

module _ {A : Type 0} where
  drop-nil : (n : ℕ) → drop {A = A} n [] ≡ []
  drop-nil zero = refl
  drop-nil (suc n) = refl

  take-nil : (n : ℕ) → take {A = A} n [] ≡ []
  take-nil zero = refl
  take-nil (suc n) = refl

  -- Dropping in two steps what stands there.
  take-drop : (m n : ℕ) (xs : List A) → take n (drop m xs) ++ drop (m + n) xs ≡ drop m xs
  take-drop zero n xs = ap (λ k. take n xs ++ drop k xs) (omega arith) ∙ take-append-drop n xs
  take-drop (suc m) n [] = ap₂ (λ x y. x ++ y) (take-nil n) (drop-nil (suc m + n))
  take-drop (suc m) n (x ∷ xs) =
      let e : suc m + n ≡ suc (m + n) = omega arith in
      ap (λ k. take n (drop m xs) ++ drop k (x ∷ xs)) e ∙ take-drop m n xs

-- What was sent and what is left to send.
unfoldable pub sequence : ResponseHeadIo → Bytes
sequence io = io.inner.sent ++ drop io.outgoing_offset io.outgoing

-- Either nothing of `outgoing` is sent yet, or some of it is left.
abbrev pub IsIdle : ResponseHeadIo → Type 0
IsIdle io = (io.outgoing_offset ≡ 0) ⊎ (io.outgoing_offset < length io.outgoing)

-- What draining leaves of a stream.
pub record Drained (io : ResponseHeadIo) (r : ResponseHeadIo × Polled Unit) : Type 0 where
  pub in_order : sequence r.0 ≡ sequence io
  pub idle : IsIdle r.0
  pub empty : r.1 ≡ ready tt → (r.0.outgoing ≡ []) × (r.0.outgoing_offset ≡ 0)
  pub same : (r.0.observation ≡ io.observation) × (r.0.generation ≡ io.generation)
  pub complete : r.0.outgoing_head_complete ≡ io.outgoing_head_complete

module _ (io : ResponseHeadIo) where
  cleared-Drained :
      (writes : List InnerWrite)
      → ltb io.outgoing_offset (length io.outgoing) ≡ false
      → Drained io (cleared io writes, ready tt)
  unfolding sequence
  cleared-Drained writes h = record {
    in_order =
        ap (λ x. io.inner.sent ++ x)
          (sym (drop-past io.outgoing_offset io.outgoing (ground (arith, h))));
    idle = inl refl;
    empty = λ e. (refl, refl);
    same = (refl, refl);
    complete = refl;
  }

  stuck-Drained :
      (writes : List InnerWrite) (polled : Polled Unit)
      → ltb io.outgoing_offset (length io.outgoing) ≡ true
      → polled ≢ ready tt
      → Drained io (with_writes io writes io.inner.sent, polled)
  unfolding sequence
  stuck-Drained writes polled h k = record {
    in_order = refl;
    idle = inr (ground (arith, h));
    empty = λ e. absurd (k e);
    same = (refl, refl);
    complete = refl;
  }

  advanced-Drained :
      (writes : List InnerWrite) (n : ℕ) (r : ResponseHeadIo × Polled Unit)
      → Drained (advanced io writes n) r
      → Drained io r
  unfolding sequence
  advanced-Drained writes n r d = record {
    in_order =
        d.in_order
        ∙ append_assoc io.inner.sent (take n (unsent io)) _
        ∙ ap (λ x. io.inner.sent ++ x) (take-drop io.outgoing_offset n io.outgoing);
    idle = d.idle;
    empty = d.empty;
    same = d.same;
    complete = d.complete;
  }

pub drain-Drained : (writes : List InnerWrite) (io : ResponseHeadIo) → Drained io (drain io writes)
unfolding drain
drain-Drained [] io =
    if-lem (Drained io) (ltb io.outgoing_offset (length io.outgoing))
      (λ h. stuck-Drained io [] (pending false) h (λ e. cc)) (cleared-Drained io [])
drain-Drained (write_pends ∷ writes) io =
    elim (Bool-cases (ltb io.outgoing_offset (length io.outgoing))) [
      | inl e ↦ rw (e, drain) (stuck-Drained io writes (pending false) e (λ h. cc))
      | inr e ↦ rw (e, drain) (cleared-Drained io (write_pends ∷ writes) e)
    ]
drain-Drained (write_fails error ∷ writes) io =
    elim (Bool-cases (ltb io.outgoing_offset (length io.outgoing))) [
      | inl e ↦ rw (e, drain) (stuck-Drained io writes (failed error) e (λ h. cc))
      | inr e ↦ rw (e, drain) (cleared-Drained io (write_fails error ∷ writes) e)
    ]
drain-Drained (takes n ∷ writes) io =
    elim (Bool-cases (ltb io.outgoing_offset (length io.outgoing))) [
      | inl e ↦ elim (Bool-cases (n == 0)) [
        | inl f ↦ rw (e, f, drain) (stuck-Drained io writes write_zero e (λ h. cc))
        | inr f ↦
            rw (e, f, drain)
              (advanced-Drained io writes n _ (drain-Drained writes (advanced io writes n)))
      ]
      | inr e ↦ rw (e, drain) (cleared-Drained io (takes n ∷ writes) e)
    ]
