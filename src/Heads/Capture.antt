-- ===== src/Heads/Capture.antt =====
-- What `ResponseHeadState` of crates/requests/src/transport/mod.rs keeps true of the bytes it captures.
use requests_native.Prelude.{
  ℕ, zero, suc, ◌+◌, ◌-◌, ◌≤◌, ◌<◌, ◌≡◌, sym, ap, ◌⊎◌, inl, inr, true, false, Option, none, some,
  List, [], ◌∷◌, arith, Bool-cases, Option-cases, length, drop, Bytes,
}
use requests_native.Prelude.{none-some, some_injective}
use requests_native.Heads.{Head, ParsedResponseHead, parsed_head, parsed_response_head}
use requests_native.Heads.Observation.{
  ResponseHeadState, max_response_head_bytes, is_interim, final_head,
}

-- What httparse documents: a complete head is not empty and stands in the bytes.
abbrev pub IsParser : (Bytes → Option Head) → Type 0
IsParser parse =
    (bytes : Bytes) (head : Head)
    → parse bytes ≡ some head
    → (0 < head.consumed) × (head.consumed ≤ length bytes)

pub length-drop : {A : Type 0} (n : ℕ) (xs : List A) → length (drop n xs) ≡ length xs - n
length-drop zero xs = omega arith
length-drop (suc n) [] = omega arith
length-drop (suc n) (x ∷ xs) = omega (arith, length-drop n xs)

module _ (parse : Bytes → Option Head) (lossy : Bytes → Bytes) where
  -- No complete head is unseen while the state is active, no more is captured than allowed, and a final head
  -- stands in what is captured.
  pub record IsValid (state : ResponseHeadState) : Type 0 where
    pub bounded : length state.captured ≤ max_response_head_bytes
    pub unseen :
        state.active ≡ true
        → final_head parse lossy (suc (length state.captured)) 0 state.captured ≡ none
    pub waiting : state.active ≡ true → state.final_head_start + state.final_head_consumed ≡ 0
    pub inside :
        state.active ≡ false
        → (state.captured ≡ [])
          ⊎ (state.final_head_start + state.final_head_consumed ≤ length state.captured)

module _ (parse : Bytes → Option Head) (lossy : Bytes → Bytes) (p : IsParser parse) where
  parsed_response_head_bounds :
      (bytes : Bytes) (parsed : ParsedResponseHead)
      → parsed_response_head parse lossy bytes ≡ some parsed
      → (0 < parsed.consumed) × (parsed.consumed ≤ length bytes)
  unfolding parsed_response_head parsed_head
  parsed_response_head_bounds bytes parsed e = elim (Option-cases (parse bytes)) [
    | inl h ↦ absurd (none-some (sym (rw (h, parsed_response_head) at e)))
    | inr (head, h) ↦
        let k = ap (λ x. x.consumed) (some_injective (rw (h, parsed_response_head) at e)) in
        rw (sym k) (p bytes head h)
  ]

  pub final_head_inside :
      (fuel start : ℕ) (bytes : Bytes) (at : ℕ) (parsed : ParsedResponseHead)
      → final_head parse lossy fuel start bytes ≡ some (at, parsed)
      → (start ≤ at) × ((0 < parsed.consumed) × (at + parsed.consumed ≤ start + length bytes))
  unfolding final_head
  final_head_inside zero start bytes at parsed e = absurd (none-some (sym e))
  final_head_inside (suc fuel) start bytes at parsed e =
      elim (Option-cases (parsed_response_head parse lossy bytes)) [
        | inl h ↦ absurd (none-some (sym (rw (h, final_head) at e)))
        | inr (q, h) ↦
            let b = parsed_response_head_bounds bytes q h in
            elim (Bool-cases (is_interim q.status)) [
              | inl i ↦
                  let r =
                    final_head_inside fuel (start + q.consumed) (drop q.consumed bytes) at parsed
                      (rw (h, i, final_head) at e) in
                  omega (arith, r, b, length-drop q.consumed bytes)
              | inr i ↦
                  let k = some_injective (rw (h, i, final_head) at e) in
                  let k0 : start ≡ at = ap (λ x. x.0) k in
                  let k1 : q.consumed ≡ parsed.consumed = ap (λ x. x.1.consumed) k in
                  omega (arith, k0, k1, b)
            ]
      ]

-- The loop over the heads, as it runs in the source: it stops where no head is complete, skips an interim
-- head, and finds the first other one.
pub data Scans (parse : Bytes → Option Head) (lossy : Bytes → Bytes)
    : ℕ → Bytes → Option (ℕ × ParsedResponseHead) → Type 0 where
  stops :
      {start : ℕ} {bytes : Bytes}
      → parsed_response_head parse lossy bytes ≡ none
      → Scans parse lossy start bytes none
  skips :
      {start : ℕ} {bytes : Bytes} {parsed : ParsedResponseHead}
      {found : Option (ℕ × ParsedResponseHead)}
      → parsed_response_head parse lossy bytes ≡ some parsed
      → is_interim parsed.status ≡ true
      → Scans parse lossy (start + parsed.consumed) (drop parsed.consumed bytes) found
      → Scans parse lossy start bytes found
  finds :
      {start : ℕ} {bytes : Bytes} {parsed : ParsedResponseHead}
      → parsed_response_head parse lossy bytes ≡ some parsed
      → is_interim parsed.status ≡ false
      → Scans parse lossy start bytes (some (start, parsed))

-- With more fuel than there are bytes the loop over the heads ends by itself.
pub final_head-Scans :
    (parse : Bytes → Option Head) (lossy : Bytes → Bytes)
    → IsParser parse
    → (fuel start : ℕ) (bytes : Bytes) → length bytes < fuel
    → Scans parse lossy start bytes (final_head parse lossy fuel start bytes)
unfolding final_head
final_head-Scans parse lossy p zero start bytes l = absurd (omega (arith, l))
final_head-Scans parse lossy p (suc fuel) start bytes l =
    elim (Option-cases (parsed_response_head parse lossy bytes)) [
      | inl h ↦ rw (h, final_head) (stops h)
      | inr (q, h) ↦
          let b = parsed_response_head_bounds parse lossy p bytes q h in
          elim (Bool-cases (is_interim q.status)) [
            | inl i ↦
                let r =
                  final_head-Scans parse lossy p fuel (start + q.consumed) (drop q.consumed bytes)
                    (omega (arith, l, b, length-drop q.consumed bytes)) in
                rw (h, i, final_head) (skips h i r)
            | inr i ↦ rw (h, i, final_head) (finds h i)
          ]
    ]
