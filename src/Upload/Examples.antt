-- ===== src/Upload/Examples.antt =====
-- Bodies that are sent out, of crates/requests/src/transport/mod.rs, at concrete inputs.
use requests_native.Prelude.{◌≡◌, refl, ◌≢◌, true, none, some, [], ◌∷◌, ◌++◌, codes}
use requests_native.Upload.{
  BodySource, stream, gives, pends, new, mark_complete, mark_progress, frame_of, poll_frame,
}
use requests_native.Upload.Progress.{content, given, polls, completed_at, polls-content}

abbrev upload : BodySource
upload = stream none (gives (codes "ab") ∷ pends ∷ gives (codes "c") ∷ [])

polls_test :
    (completed_at (polls (1 ∷ 2 ∷ 3 ∷ []) (new upload true 0)).0 ≡ none)
    × ((completed_at (polls (1 ∷ 2 ∷ 3 ∷ 4 ∷ 5 ∷ []) (new upload true 0)).0 ≡ some 4)
        × ((polls (1 ∷ 2 ∷ 3 ∷ 4 ∷ 5 ∷ []) (new upload true 0)).1 ≡ codes "abc"))
unfolding polls new poll_frame frame_of mark_complete mark_progress given
polls_test = (refl, (refl, refl))

polls-content_example :
    ((polls (1 ∷ 2 ∷ []) (new upload true 0)).1
        ++ content (polls (1 ∷ 2 ∷ []) (new upload true 0)).0.source
      ≡ content upload)
    × (completed_at (polls (1 ∷ 2 ∷ []) (new upload true 0)).0 ≢ none
        → content (polls (1 ∷ 2 ∷ []) (new upload true 0)).0.source ≡ [])
polls-content_example = polls-content upload true 0 (1 ∷ 2 ∷ [])
