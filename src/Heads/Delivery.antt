-- ===== src/Heads/Delivery.antt =====
-- What `ResponseHeadIo` of crates/requests/src/transport/mod.rs gives to its reader.
use requests_native.Prelude.{
  ℕ, ◌-◌, min, ◌≡◌, refl, sym, ap, ap₂, ◌∙◌, inl, inr, true, false, not, Option, none, some, List,
  [], ◌∷◌, ◌++◌, append_assoc, Bool-cases, Option-cases, length, take, drop, take-append-drop, All,
  Bytes,
}
use requests_native.Heads.{Head, unchanged, is_empty}
use requests_native.Heads.Observation.{
  ResponseHeadState, max_response_head_bytes, observe, buffer_python_response_bytes,
  buffers_python_response_head,
}
use requests_native.Heads.Invariant.{if-lem, true-false}
use requests_native.Heads.Io.{
  InnerRead, bytes_read, read_fails, read_pends, ResponseHeadIo, Polled, pending, fill_injected,
  deliver, with_reads, read_buffered, read_through,
}
use requests_native.Heads.Withheld.{
  unread, held, backlog, IsOpen, released, released-buffer, buffers-nameless, names-inspect,
}

pub fill_injected-backlog :
    (io : ResponseHeadIo) (room : ℕ)
    → (fill_injected io room).1 ++ backlog (fill_injected io room).0 ≡ backlog io
unfolding fill_injected backlog
fill_injected-backlog io room =
    let n = min room (length io.injected) in
    sym (append_assoc (take n io.injected) (drop n io.injected) _)
    ∙ ap (λ x. x ++ (held io.observation ++ unread io.inner.reads)) (take-append-drop n io.injected)

pub deliver-observation :
    (io : ResponseHeadIo) (room : ℕ) (polled : Polled Unit) (out : Option Bytes)
    → (deliver io room polled out).0.observation ≡ io.observation
unfolding deliver fill_injected
deliver-observation io room polled none = refl
deliver-observation io room polled (some bytes) = refl

pub deliver-inner :
    (io : ResponseHeadIo) (room : ℕ) (polled : Polled Unit) (out : Option Bytes)
    → (deliver io room polled out).0.inner ≡ io.inner
unfolding deliver fill_injected
deliver-inner io room polled none = refl
deliver-inner io room polled (some bytes) = refl

deliver-backlog :
    (io : ResponseHeadIo) (room : ℕ) (polled : Polled Unit) (out : Option Bytes)
    → (deliver io room polled out).1.1 ++ backlog (deliver io room polled out).0
      ≡ io.injected ++ (released out ++ (held io.observation ++ unread io.inner.reads))
unfolding deliver backlog
deliver-backlog io room polled none = refl
deliver-backlog io room polled (some bytes) =
    fill_injected-backlog (record io { injected = io.injected ++ bytes }) room
    ∙ append_assoc io.injected bytes _

held-buffers :
    (state : ResponseHeadState)
    → buffers_python_response_head state ≡ true
    → held state ≡ state.captured
unfolding held
held-buffers state b = rw b refl

held-free :
    (state : ResponseHeadState) → buffers_python_response_head state ≡ false → held state ≡ []
unfolding held
held-free state b = rw b refl

buffers-named :
    (state : ResponseHeadState) (names : List (Bytes × Bytes))
    → state.active ≡ true
    → state.python_header_names ≡ some names
    → buffers_python_response_head state ≡ true
unfolding buffers_python_response_head
buffers-named state names e f = simp (e, f) refl

held-observe :
    (parse : Bytes → Option Head) (lossy : Bytes → Bytes) (state : ResponseHeadState)
    (bytes : Bytes)
    → buffers_python_response_head state ≡ false
    → held (observe parse lossy state bytes) ≡ []
unfolding observe
held-observe parse lossy state bytes b = elim (Bool-cases state.active) [
  | inl e ↦ elim (Option-cases state.python_header_names) [
    | inl f ↦
        let n = min (length bytes) (max_response_head_bytes - length state.captured) in
        let st = record state { captured = state.captured ++ take n bytes } in
        if-lem (λ s. held s ≡ []) (not state.active) (λ h. held-free state b)
          (λ h. held-free _ (buffers-nameless _ (names-inspect parse lossy st ∙ f)))
    | inr (names, f) ↦ absurd (true-false (sym (buffers-named state names e f) ∙ b))
  ]
  | inr e ↦
      if-lem (λ s. held s ≡ []) (not state.active) (λ h. held-free state b)
        (λ h. absurd (true-false (sym (ap not e) ∙ h)))
]

module _ (parse : Bytes → Option Head) (lossy : Bytes → Bytes) (io : ResponseHeadIo)
    (room : ℕ) where
  pub read_buffered-backlog :
      (reads : List InnerRead)
      → io.inner.reads ≡ reads
      → All IsOpen reads
      → buffers_python_response_head io.observation ≡ true
      → (read_buffered parse lossy io room reads).0.observation.content_length_normalization
        ≡ unchanged
      → (read_buffered parse lossy io room reads).1.1
          ++ backlog (read_buffered parse lossy io room reads).0
        ≡ backlog io
  unfolding read_buffered backlog unread
  read_buffered-backlog [] r a b n = refl
  read_buffered-backlog (read_pends ∷ reads) r a b n = rw r refl
  read_buffered-backlog (read_fails error ∷ reads) r a b n = rw r refl
  read_buffered-backlog (bytes_read [] ∷ reads) r a b n = absurd (a.0 refl)
  read_buffered-backlog (bytes_read (c ∷ cs) ∷ reads) r a b n =
      let st = io.observation in
      let after = buffer_python_response_bytes parse lossy st (c ∷ cs) in
      let io1 = record (with_reads io reads) { observation = after.0 } in
      let d = deliver-backlog io1 room (pending true) after.1 in
      let m = deliver-observation io1 room (pending true) after.1 in
      let k =
        released-buffer parse lossy st (c ∷ cs) b
          (ap (λ (x : ResponseHeadState). x.content_length_normalization) (sym m) ∙ n) in
      let e =
        sym (append_assoc (released after.1) (held after.0) (unread reads))
        ∙ ap (λ x. x ++ unread reads) k
        ∙ append_assoc st.captured (c ∷ cs) (unread reads) in
      d
      ∙ ap (λ x. io.injected ++ x)
          (e ∙ ap₂ (λ x y. x ++ y) (sym (held-buffers st b)) (sym (ap unread r)))

  pub read_through-backlog :
      (reads : List InnerRead)
      → io.inner.reads ≡ reads
      → All IsOpen reads
      → io.injected ≡ []
      → buffers_python_response_head io.observation ≡ false
      → (read_through parse lossy io room reads).1.1
          ++ backlog (read_through parse lossy io room reads).0
        ≡ backlog io
  unfolding read_through backlog unread
  read_through-backlog [] r a i b = refl
  read_through-backlog (read_pends ∷ reads) r a i b = rw r refl
  read_through-backlog (read_fails error ∷ reads) r a i b = rw r refl
  read_through-backlog (bytes_read [] ∷ reads) r a i b = absurd (a.0 refl)
  read_through-backlog (bytes_read (c ∷ cs) ∷ reads) r a i b =
      let h = held-observe parse lossy io.observation (c ∷ cs) b in
      let f = held-free io.observation b in
      ap₂ (λ x y. (c ∷ cs) ++ (x ++ (y ++ unread reads))) i h
      ∙ sym (ap₂ (λ x y. x ++ y) i (ap₂ (λ x y. x ++ y) f (ap unread r)))

pub empty-nil : (bytes : Bytes) → not (is_empty bytes) ≡ false → bytes ≡ []
empty-nil [] e = refl
empty-nil (b ∷ bs) e = cc
