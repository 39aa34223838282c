-- ===== src/Heads/Inspection.antt =====
-- What `inspect_complete_response_head` of crates/requests/src/transport/mod.rs finds in the captured bytes.
use requests_native.Prelude.{
  ℕ, suc, ◌+◌, ◌≤◌, ◌≡◌, refl, ◌⊎◌, inl, inr, true, false, Option, none, some, arith, Bool-cases,
  Option-cases, length, Bytes,
}
use requests_native.Heads.{Head, ParsedResponseHead}
use requests_native.Heads.Observation.{
  ResponseHeadState, max_response_head_bytes, take_normalized_python_response, final_head,
  inspect_complete_response_head,
}
use requests_native.Heads.Capture.{IsParser, IsValid, final_head_inside}

abbrev pub found_head : ResponseHeadState → ℕ → ParsedResponseHead → ResponseHeadState
found_head state start parsed = record state {
  final_head_start = start;
  final_head_consumed = parsed.consumed;
  content_length_normalization = parsed.content_length_normalization;
  conflicting_content_length = parsed.conflicting_content_length;
  raw_headers = parsed.raw_headers;
  active = false;
}

module _ (parse : Bytes → Option Head) (lossy : Bytes → Bytes) where
  abbrev pub in_captured : ResponseHeadState → Option (ℕ × ParsedResponseHead)
  in_captured state = final_head parse lossy (suc (length state.captured)) 0 state.captured

  pub inspect-cases :
      (state : ResponseHeadState)
      → ((in_captured state ≡ none) × (inspect_complete_response_head parse lossy state ≡ state))
        ⊎ ((at : ℕ) × ((parsed : ParsedResponseHead) × ((in_captured state ≡ some (at, parsed))
                × (inspect_complete_response_head parse lossy state ≡ found_head state at parsed))))
  unfolding inspect_complete_response_head
  inspect-cases state = elim (Option-cases (in_captured state)) [
    | inl e ↦ inl (e, rw (e, inspect_complete_response_head) refl)
    | inr ((at, parsed), e) ↦ inr (at, (parsed, (e, rw (e, inspect_complete_response_head) refl)))
  ]

  pub take-IsValid :
      (state : ResponseHeadState)
      → (state.active ≡ true → IsValid parse lossy state)
      → IsValid parse lossy (take_normalized_python_response state).0
  unfolding take_normalized_python_response
  take-IsValid state v = elim (Bool-cases state.active) [
    | inl e ↦ simp e (v e)
    | inr e ↦ rw e record {
      bounded = omega arith;
      unseen = λ h. absurd (cc);
      waiting = λ h. absurd (cc);
      inside = λ h. inl refl;
    }
  ]

  module _ (p : IsParser parse) where
    pub inspect-IsValid :
        (state : ResponseHeadState)
        → state.active ≡ true
        → length state.captured ≤ max_response_head_bytes
        → state.final_head_start + state.final_head_consumed ≡ 0
        → IsValid parse lossy (inspect_complete_response_head parse lossy state)
    inspect-IsValid state a l w = elim (inspect-cases state) [
      | inl (e, f) ↦
          rw f record { bounded = l; unseen = λ h. e; waiting = λ h. w; inside = λ h. absurd cc }
      | inr (at, (parsed, (e, f))) ↦ rw f record {
        bounded = l;
        unseen = λ h. absurd cc;
        waiting = λ h. absurd cc;
        inside = λ h. inr (
            omega (
              arith,
              final_head_inside parse lossy p (suc (length state.captured)) 0 state.captured at
                  parsed e,
            ));
      }
    ]

  pub inspect-inactive :
      (state : ResponseHeadState)
      → state.active ≡ false
      → (inspect_complete_response_head parse lossy state).active ≡ false
  inspect-inactive state a = elim (inspect-cases state) [
    | inl (e, f) ↦ rw f a
    | inr (at, (parsed, (e, f))) ↦ rw f refl
  ]
