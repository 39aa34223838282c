-- ===== src/Heads/Withheld.antt =====
-- The bytes of a response that `ResponseHeadObservation` of crates/requests/src/transport/mod.rs holds back,
-- and those it lets go.
use requests_native.Prelude.{
  ◌-◌, ◌≡◌, refl, sym, ap, ◌∙◌, ◌≢◌, inl, inr, true, false, Option, none, some, List, [], ◌∷◌, ◌++◌,
  append-nil, ltb, if◌then◌else◌, Bool-cases, Option-cases, length, Bytes,
}
use requests_native.Heads.{Head, unchanged}
use requests_native.Heads.Observation.{
  ResponseHeadState, max_response_head_bytes, take_normalized_python_response,
  inspect_complete_response_head, buffer_python_response_bytes, buffers_python_response_head,
}
use requests_native.Heads.Inspection.{inspect-cases}
use requests_native.Heads.Invariant.{true-false}
use requests_native.Heads.Io.{InnerRead, bytes_read, read_fails, read_pends, ResponseHeadIo}

-- What further polls of the connection give to read.
unfoldable pub unread : List InnerRead → Bytes
unread [] = []
unread (bytes_read bytes ∷ reads) = bytes ++ unread reads
unread (read_fails error ∷ reads) = unread reads
unread (read_pends ∷ reads) = unread reads

-- The bytes that are held back.
unfoldable pub held : ResponseHeadState → Bytes
unfolding buffers_python_response_head
held state = if buffers_python_response_head state then state.captured else []

-- What the reader still has to come.
unfoldable pub backlog : ResponseHeadIo → Bytes
unfolding unread held
backlog io = io.injected ++ (held io.observation ++ unread io.inner.reads)

abbrev pub IsOpen : InnerRead → Type 0
IsOpen (bytes_read bytes) = bytes ≢ []
IsOpen (read_fails error) = Unit
IsOpen read_pends = Unit

abbrev pub released : Option Bytes → Bytes
released none = []
released (some bytes) = bytes

released-take :
    (state : ResponseHeadState) (names : List (Bytes × Bytes))
    → state.python_header_names ≡ some names
    → state.content_length_normalization ≡ unchanged
    → released (take_normalized_python_response state).1
        ++ held (take_normalized_python_response state).0
      ≡ state.captured
unfolding take_normalized_python_response held buffers_python_response_head
released-take state names b n = elim (Bool-cases state.active) [
  | inl e ↦ simp (e, b) refl
  | inr e ↦ simp (e, n) (append-nil state.captured)
]

pub held-inactive : (state : ResponseHeadState) → state.active ≡ false → held state ≡ []
unfolding held buffers_python_response_head
held-inactive state e = simp e refl

pub buffers-nameless :
    (state : ResponseHeadState)
    → state.python_header_names ≡ none
    → buffers_python_response_head state ≡ false
unfolding buffers_python_response_head
buffers-nameless state e = elim (Bool-cases state.active) [
  | inl f ↦ simp (e, f) refl
  | inr f ↦ simp f refl
]

normalization-take :
    (state : ResponseHeadState)
    → (take_normalized_python_response state).0.content_length_normalization
      ≡ state.content_length_normalization
unfolding take_normalized_python_response
normalization-take state = elim (Bool-cases state.active) [
  | inl e ↦ simp e refl
  | inr e ↦ simp e refl
]

module _ (parse : Bytes → Option Head) (lossy : Bytes → Bytes) where
  pub names-inspect :
      (state : ResponseHeadState)
      → (inspect_complete_response_head parse lossy state).python_header_names
        ≡ state.python_header_names
  names-inspect state = elim (inspect-cases parse lossy state) [
    | inl (e, f) ↦ rw f refl
    | inr (at, (q, (e, f))) ↦ rw f refl
  ]

  captured-inspect :
      (state : ResponseHeadState)
      → (inspect_complete_response_head parse lossy state).captured ≡ state.captured
  captured-inspect state = elim (inspect-cases parse lossy state) [
    | inl (e, f) ↦ rw f refl
    | inr (at, (q, (e, f))) ↦ rw f refl
  ]

  -- While a head is awaited its bytes are held back, and from then on none are.
  pub released-buffer :
      (state : ResponseHeadState) (bytes : Bytes)
      → buffers_python_response_head state ≡ true
      → (buffer_python_response_bytes parse lossy state bytes).0.content_length_normalization
        ≡ unchanged
      → released (buffer_python_response_bytes parse lossy state bytes).1
          ++ held (buffer_python_response_bytes parse lossy state bytes).0
        ≡ state.captured ++ bytes
  unfolding buffer_python_response_bytes
  released-buffer state bytes b n = elim (Option-cases state.python_header_names) [
    | inl e ↦ absurd (true-false (sym b ∙ buffers-nameless state e))
    | inr (names, e) ↦
        let s =
          inspect_complete_response_head parse lossy
            (record state { captured = state.captured ++ bytes }) in
        let c = captured-inspect (record state { captured = state.captured ++ bytes }) in
        let m = names-inspect (record state { captured = state.captured ++ bytes }) in
        elim (Bool-cases (ltb (max_response_head_bytes - length state.captured) (length bytes))) [
          | inl f ↦ rw f (
              ap (λ x. (state.captured ++ bytes) ++ x) (held-inactive _ refl)
              ∙ append-nil (state.captured ++ bytes))
          | inr f ↦
              rw f (released-take s names (m ∙ e) (sym (normalization-take s) ∙ rw f at n) ∙ c)
        ]
  ]
