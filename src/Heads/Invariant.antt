-- ===== src/Heads/Invariant.antt =====
-- The invariant of `ResponseHeadObservation` of crates/requests/src/transport/mod.rs over its operations.
use requests_native.Prelude.{
  ℕ, zero, suc, ◌+◌, ◌-◌, ◌≤◌, min, ◌≡◌, refl, sym, ap, ◌∙◌, ◌≢◌, inl, inr, Bool, true, false, not,
  ◌||◌, Option, none, List, [], ◌∷◌, ◌++◌, arith, ltb, if◌then◌else◌, Bool-cases, Option-cases,
  length, take, length-append, Bytes,
}
use requests_native.Heads.{Head, is_empty, parsed_response_head}
use requests_native.Heads.Observation.{
  ResponseHeadState, max_response_head_bytes, default_state, begin, suffix, is_interim,
  take_normalized_python_response, inspect_complete_response_head, observe,
  buffer_python_response_bytes, complete_python_response_on_eof, complete_on_eof, take_raw_headers,
}
use requests_native.Heads.Capture.{IsParser, IsValid, final_head_inside}
use requests_native.Heads.Inspection.{in_captured, take-IsValid, inspect-IsValid, inspect-inactive}

-- The operations that change the state.
pub data Operation : Type 0 where
  begins : Option (List Bytes) → Operation
  observes : Bytes → Operation
  buffers : Bytes → Operation
  completes completes_python takes : Operation

module _ (parse : Bytes → Option Head) (lossy : Bytes → Bytes) where
  unfoldable pub operate : Operation → ResponseHeadState → ResponseHeadState
  unfolding begin observe buffer_python_response_bytes complete_on_eof
      complete_python_response_on_eof take_raw_headers
  operate (begins names) state = begin state names
  operate (observes bytes) state = observe parse lossy state bytes
  operate (buffers bytes) state = (buffer_python_response_bytes parse lossy state bytes).0
  operate completes state = (complete_on_eof parse lossy state).0
  operate completes_python state = (complete_python_response_on_eof parse lossy state).0
  operate takes state = (take_raw_headers state).0

  unfoldable pub operations : List Operation → ResponseHeadState → ResponseHeadState
  unfolding operate
  operations [] state = state
  operations (op ∷ ops) state = operations ops (operate op state)

length-take_le : {A : Type 0} (n : ℕ) (xs : List A) → length (take n xs) ≤ n
length-take_le zero xs = omega arith
length-take_le (suc n) [] = omega arith
length-take_le (suc n) (x ∷ xs) = omega (arith, length-take_le n xs)

pub if-lem :
    {A : Type 0} (P : A → Type 0) {x y : A} (b : Bool)
    → (b ≡ true → P x)
    → (b ≡ false → P y)
    → P (if b then x else y)
if-lem P true h k = h refl
if-lem P false h k = k refl

pub true-false : true ≢ false
true-false e = cc

module _ (parse : Bytes → Option Head) (lossy : Bytes → Bytes) (p : IsParser parse) where
  empty_unseen :
      (state : ResponseHeadState) → state.captured ≡ [] → in_captured parse lossy state ≡ none
  empty_unseen state e = elim (Option-cases (in_captured parse lossy state)) [
    | inl h ↦ h
    | inr ((at, parsed), h) ↦
        let i =
          final_head_inside parse lossy p (suc (length state.captured)) 0 state.captured at parsed
            h in
        let l : length state.captured ≡ 0 = ap length e in absurd (omega (arith, i, l))
  ]

  empty-IsValid :
      (state : ResponseHeadState)
      → state.captured ≡ []
      → (state.active ≡ true → state.final_head_start + state.final_head_consumed ≡ 0)
      → IsValid parse lossy state
  empty-IsValid state e w = record {
    bounded = rw e (omega arith);
    unseen = λ h. empty_unseen state e;
    waiting = w;
    inside = λ h. inl e;
  }

  released-IsValid :
      (state : ResponseHeadState)
      → length state.captured ≤ max_response_head_bytes
      → (state.active ≡ true → state.final_head_start + state.final_head_consumed ≡ 0)
      → IsValid parse lossy
          (take_normalized_python_response (inspect_complete_response_head parse lossy state)).0
  released-IsValid state l w = take-IsValid parse lossy _ (λ h. elim (Bool-cases state.active) [
    | inl e ↦ inspect-IsValid parse lossy p state e l (w e)
    | inr e ↦ absurd (true-false (sym h ∙ inspect-inactive parse lossy state e))
  ])

  observe-IsValid :
      (state : ResponseHeadState) (bytes : Bytes)
      → IsValid parse lossy state
      → IsValid parse lossy (observe parse lossy state bytes)
  unfolding observe
  observe-IsValid state bytes v =
      if-lem (IsValid parse lossy) (not state.active) (λ h. v)
        (λ h.
          let n = min (length bytes) (max_response_head_bytes - length state.captured) in
          let l = length-append state.captured (take n bytes) in
          let t = length-take_le n bytes in
          inspect-IsValid parse lossy p _ (ground (arith, h)) (omega (arith, l, t, v.bounded))
            (v.waiting (ground (arith, h))))

  buffer-IsValid :
      (state : ResponseHeadState) (bytes : Bytes)
      → IsValid parse lossy state
      → IsValid parse lossy (buffer_python_response_bytes parse lossy state bytes).0
  unfolding buffer_python_response_bytes
  buffer-IsValid state bytes v =
      let l = length-append state.captured bytes in
      let b = v.bounded in
      if-lem (λ (r : ResponseHeadState × Option Bytes). IsValid parse lossy r.0)
        (ltb (max_response_head_bytes - length state.captured) (length bytes))
        (λ h. empty-IsValid _ refl (λ h. absurd cc))
        (λ h. released-IsValid _ (ground (arith, l, b, h)) v.waiting)

  complete_python-IsValid :
      (state : ResponseHeadState)
      → IsValid parse lossy state
      → IsValid parse lossy (complete_python_response_on_eof parse lossy state).0
  unfolding complete_python_response_on_eof
  complete_python-IsValid state v =
      if-lem (λ (r : ResponseHeadState × Option Bytes). IsValid parse lossy r.0)
        (not state.active
          || is_empty state.captured
          || ltb max_response_head_bytes (length (state.captured ++ suffix state.captured)))
        (λ h. v) (λ h. released-IsValid _ (ground (arith, h)) v.waiting)

  complete-IsValid :
      (state : ResponseHeadState)
      → IsValid parse lossy state
      → IsValid parse lossy (complete_on_eof parse lossy state).0
  unfolding complete_on_eof
  complete-IsValid state v =
      let completed = state.captured ++ suffix state.captured in
      let l = length-append state.captured (suffix state.captured) in
      if-lem (λ (r : ResponseHeadState × Option Bytes). IsValid parse lossy r.0)
        (not state.active
          || is_empty state.captured
          || ltb max_response_head_bytes (length completed))
        (λ h. v)
        (λ h. elim (Option-cases (parsed_response_head parse lossy completed)) [
          | inl e ↦ rw e v
          | inr (parsed, e) ↦ rw e (
              if-lem (λ (r : ResponseHeadState × Option Bytes). IsValid parse lossy r.0)
                (is_interim parsed.status) (λ i. v)
                (λ i. record {
                  bounded = v.bounded;
                  unseen = λ k. absurd (true-false (sym k));
                  waiting = λ k. absurd (true-false (sym k));
                  inside = λ k. inr (omega (arith, v.waiting (ground (arith, h))));
                }))
        ])

  operate-IsValid :
      (op : Operation) (state : ResponseHeadState)
      → IsValid parse lossy state
      → IsValid parse lossy (operate parse lossy op state)
  unfolding operate begin take_raw_headers
  operate-IsValid (begins names) state v = empty-IsValid _ refl (λ h. refl)
  operate-IsValid (observes bytes) state v = observe-IsValid state bytes v
  operate-IsValid (buffers bytes) state v = buffer-IsValid state bytes v
  operate-IsValid completes state v = complete-IsValid state v
  operate-IsValid completes_python state v = complete_python-IsValid state v
  operate-IsValid takes state v = empty-IsValid _ refl v.waiting

  operations-IsValid-from :
      (ops : List Operation) (state : ResponseHeadState)
      → IsValid parse lossy state
      → IsValid parse lossy (operations parse lossy ops state)
  unfolding operations
  operations-IsValid-from [] state v = v
  operations-IsValid-from (op ∷ ops) state v =
      operations-IsValid-from ops (operate parse lossy op state) (operate-IsValid op state v)

-- Whatever operations follow on the default state, what is captured stays within the limit, no complete head
-- is left unseen while the state is active, and a final head that was found stands in the captured bytes.
pub operations-IsValid :
    (parse : Bytes → Option Head) (lossy : Bytes → Bytes)
    → IsParser parse
    → (ops : List Operation) → IsValid parse lossy (operations parse lossy ops default_state)
operations-IsValid parse lossy p ops =
    operations-IsValid-from parse lossy p ops default_state
      (empty-IsValid parse lossy p _ refl (λ h. refl))
