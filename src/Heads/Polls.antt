-- ===== src/Heads/Polls.antt =====
-- Polls of `ResponseHeadIo` of crates/requests/src/transport/mod.rs, one after another.
use requests_native.Prelude.{ℕ, ◌≡◌, refl, true, not, Option, List, [], ◌∷◌, ◌++◌, ◌==◌, All, Bytes}
use requests_native.Heads.{Head, unchanged, is_empty}
use requests_native.Heads.Observation.{
  ResponseHeadState, observe, buffer_python_response_bytes, buffers_python_response_head,
}
use requests_native.Heads.Invariant.{if-lem}
use requests_native.Heads.Io.{
  InnerRead, bytes_read, read_fails, read_pends, ResponseHeadIo, Polled, pending, fill_injected,
  follow_generation, renewed, read_buffered, read_through, poll_followed, poll_read,
}
use requests_native.Heads.Withheld.{backlog, IsOpen}
use requests_native.Heads.Delivery.{
  fill_injected-backlog, read_buffered-backlog, read_through-backlog, empty-nil,
  deliver-observation, deliver-inner,
}

abbrev pub Answer : Type 0
Answer = ResponseHeadIo × (Polled Unit × Bytes)

follow-lem :
    (P : ResponseHeadIo → Type 0) (io : ResponseHeadIo)
    → P io
    → P (renewed io)
    → P (follow_generation io)
unfolding follow_generation
follow-lem P io p q = if-lem P (io.observation.generation == io.generation) (λ h. p) (λ h. q)

module _ (parse : Bytes → Option Head) (lossy : Bytes → Bytes) where
  abbrev Keeps : ResponseHeadIo → Answer → Type 0
  Keeps io r =
      r.0.observation.content_length_normalization ≡ unchanged → r.1.1 ++ backlog r.0 ≡ backlog io

  followed-backlog :
      (io : ResponseHeadIo) (room : ℕ)
      → All IsOpen io.inner.reads
      → Keeps io (poll_followed parse lossy io room)
  unfolding poll_followed
  followed-backlog io room a =
      if-lem (Keeps io) (not (is_empty io.injected)) (λ h n. fill_injected-backlog io room)
        (λ h.
          if-lem (Keeps io) (buffers_python_response_head io.observation)
            (λ k n. read_buffered-backlog parse lossy io room io.inner.reads refl a k n)
            (λ k n.
              read_through-backlog parse lossy io room io.inner.reads refl a (empty-nil _ h) k))

  pub poll_read-backlog :
      (io : ResponseHeadIo) (room : ℕ)
      → All IsOpen io.inner.reads
      → (poll_read parse lossy io room).0.observation.content_length_normalization ≡ unchanged
      → (poll_read parse lossy io room).1.1 ++ backlog (poll_read parse lossy io room).0
        ≡ backlog io
  unfolding poll_read backlog
  poll_read-backlog io room a =
      follow-lem (λ x. Keeps io (poll_followed parse lossy x room)) io (followed-backlog io room a)
        (followed-backlog (renewed io) room a)

  -- What holds of the state before a poll and behind each operation that the poll may do, holds behind it.
  module _ (P : ResponseHeadState → Type 0) (io : ResponseHeadIo) (room : ℕ) where
    read_buffered-keeps :
        (reads : List InnerRead)
        → io.inner.reads ≡ reads
        → All IsOpen reads
        → P io.observation
        → ((bytes : Bytes) → P (buffer_python_response_bytes parse lossy io.observation bytes).0)
        → P (read_buffered parse lossy io room reads).0.observation
          × All IsOpen (read_buffered parse lossy io room reads).0.inner.reads
    unfolding read_buffered
    read_buffered-keeps [] r a p h = (p, rw r tt)
    read_buffered-keeps (read_pends ∷ reads) r a p h = (p, a.1)
    read_buffered-keeps (read_fails error ∷ reads) r a p h = (p, a.1)
    read_buffered-keeps (bytes_read [] ∷ reads) r a p h = absurd (a.0 refl)
    read_buffered-keeps (bytes_read (c ∷ cs) ∷ reads) r a p h = (
      rw (deliver-observation _ room (pending true) _) (h (c ∷ cs)),
      rw (deliver-inner _ room (pending true) _) a.1,
    )

    read_through-keeps :
        (reads : List InnerRead)
        → io.inner.reads ≡ reads
        → All IsOpen reads
        → P io.observation
        → ((bytes : Bytes) → P (observe parse lossy io.observation bytes))
        → P (read_through parse lossy io room reads).0.observation
          × All IsOpen (read_through parse lossy io room reads).0.inner.reads
    unfolding read_through
    read_through-keeps [] r a p h = (p, rw r tt)
    read_through-keeps (read_pends ∷ reads) r a p h = (p, a.1)
    read_through-keeps (read_fails error ∷ reads) r a p h = (p, a.1)
    read_through-keeps (bytes_read [] ∷ reads) r a p h = absurd (a.0 refl)
    read_through-keeps (bytes_read (c ∷ cs) ∷ reads) r a p h = (h (c ∷ cs), a.1)

    followed-keeps :
        All IsOpen io.inner.reads
        → P io.observation
        → ((bytes : Bytes)
            → buffers_python_response_head io.observation ≡ true
            → P (buffer_python_response_bytes parse lossy io.observation bytes).0)
        → ((bytes : Bytes) → P (observe parse lossy io.observation bytes))
        → P (poll_followed parse lossy io room).0.observation
          × All IsOpen (poll_followed parse lossy io room).0.inner.reads
    unfolding poll_followed fill_injected
    followed-keeps a p h k =
        let Q : Answer → Type 0 = λ r. P r.0.observation × All IsOpen r.0.inner.reads in
        if-lem Q (not (is_empty io.injected)) (λ e. (p, a))
          (λ e.
            if-lem Q (buffers_python_response_head io.observation)
              (λ f. read_buffered-keeps io.inner.reads refl a p (λ bytes. h bytes f))
              (λ f. read_through-keeps io.inner.reads refl a p k))

  pub poll_read-keeps :
      (P : ResponseHeadState → Type 0) (io : ResponseHeadIo) (room : ℕ)
      → All IsOpen io.inner.reads
      → P io.observation
      → ((bytes : Bytes)
          → buffers_python_response_head io.observation ≡ true
          → P (buffer_python_response_bytes parse lossy io.observation bytes).0)
      → ((bytes : Bytes) → P (observe parse lossy io.observation bytes))
      → P (poll_read parse lossy io room).0.observation
        × All IsOpen (poll_read parse lossy io room).0.inner.reads
  unfolding poll_read
  poll_read-keeps P io room a p h k =
      follow-lem
        (λ x.
          P (poll_followed parse lossy x room).0.observation
          × All IsOpen (poll_followed parse lossy x room).0.inner.reads)
        io (followed-keeps P io room a p h k) (followed-keeps P (renewed io) room a p h k)
