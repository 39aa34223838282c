-- ===== src/Heads/Observation.antt =====
-- `ResponseHeadObservation` of crates/requests/src/transport/mod.rs: the bytes of a response are watched
-- until its head is complete, and held back where its header lines may have to be changed. The lock is
-- left out: each operation holds it from its first step to its last.
use requests_native.Prelude.{
  ℕ, zero, suc, ◌+◌, ◌-◌, ◌*◌, ◌%◌, ◌^◌, min, Bool, true, false, not, ◌&&◌, ◌||◌, Option, none,
  some, List, [], ◌∷◌, ◌++◌, map, ltb, leb, ◌==◌, if◌then◌else◌, length, take, drop, Bytes, codes,
  to_ascii_lowercase,
}
use requests_native.Heads.{
  Head, ContentLengthNormalization, unchanged, ignore, overflow, ParsedResponseHead,
  is_content_length, parsed_response_head, is_empty,
}

pub record ResponseHeadState : Type 0 where
  pub generation : ℕ
  pub active : Bool
  pub captured : Bytes
  pub final_head_start : ℕ
  pub final_head_consumed : ℕ
  pub content_length_normalization : ContentLengthNormalization
  pub conflicting_content_length : Option Bytes
  pub raw_headers : List (Bytes × Bytes)
  pub python_header_names : Option (List (Bytes × Bytes))

abbrev pub max_response_head_bytes : ℕ
max_response_head_bytes = 8192 + 4096 * 100

-- `ResponseHeadState::default()`.
abbrev pub default_state : ResponseHeadState
default_state = record {
  generation = 0;
  active = false;
  captured = [];
  final_head_start = 0;
  final_head_consumed = 0;
  content_length_normalization = unchanged;
  conflicting_content_length = none;
  raw_headers = [];
  python_header_names = none;
}

-- The entries that become a `HashMap`, in order: the last with a key is the one it holds.
abbrev pub header_names : List Bytes → List (Bytes × Bytes)
header_names [] = []
header_names (name ∷ names) = (map to_ascii_lowercase name, name) ∷ header_names names

unfoldable pub begin : ResponseHeadState → Option (List Bytes) → ResponseHeadState
begin state python_header_names = record {
  generation = (state.generation + 1) % 2 ^ 64;
  active = true;
  captured = [];
  final_head_start = 0;
  final_head_consumed = 0;
  content_length_normalization = unchanged;
  conflicting_content_length = none;
  raw_headers = [];
  python_header_names = elim python_header_names [
    | none ↦ none
    | some names ↦ some (header_names names)
  ];
}

-- An interim response but for 101.
abbrev pub is_interim : ℕ → Bool
is_interim status = leb 100 status && ltb status 200 && not (status == 101)

abbrev pub crlf : Bytes
crlf = 13 ∷ 10 ∷ []

unfoldable pub ends_with_crlf : Bytes → Bool
ends_with_crlf [] = false
ends_with_crlf (a ∷ []) = false
ends_with_crlf (a ∷ b ∷ []) = a == 13 && b == 10
ends_with_crlf (a ∷ b ∷ c ∷ bs) = ends_with_crlf (b ∷ c ∷ bs)

-- What ends a head that the peer has closed on.
abbrev pub suffix : Bytes → Bytes
unfolding ends_with_crlf
suffix captured = if ends_with_crlf captured then crlf else crlf ++ crlf

-- The first position of a line break.
unfoldable pub crlf_position : Bytes → Option ℕ
crlf_position [] = none
crlf_position (a ∷ []) = none
crlf_position (a ∷ b ∷ bs) =
    let rest = crlf_position (b ∷ bs) in
    if a == 13 && b == 10 then some 0 else elim rest [ none ↦ none | some n ↦ some (suc n) ]

abbrev pub header_line : Bytes → Bytes → Bytes
header_line name value = name ++ codes ": " ++ value ++ crlf

-- The line that stands for a length that is too large.
abbrev pub overflow_line : Bytes
overflow_line = codes "Content-Length: 9223372036854775807" ++ crlf

abbrev pub is_overflow : ContentLengthNormalization → Bool
is_overflow unchanged = false
is_overflow ignore = false
is_overflow overflow = true

-- The header lines of a head that is normalized; `wrote_overflow` says whether its length is written.
unfoldable pub normalized_lines : ContentLengthNormalization → Bool → List (Bytes × Bytes) → Bytes
normalized_lines normalization wrote_overflow [] = []
normalized_lines normalization wrote_overflow ((name, value) ∷ headers) =
    let rest = normalized_lines normalization wrote_overflow headers in
    let after = normalized_lines normalization true headers in
    if is_content_length name
    then if is_overflow normalization && not wrote_overflow then overflow_line ++ after else rest
    else header_line name value ++ rest

-- The captured bytes with the header lines of the final head written anew.
unfoldable pub normalized : ContentLengthNormalization → ResponseHeadState → Option Bytes
unfolding crlf_position normalized_lines
normalized normalization state =
    let start = state.final_head_start in
    let end = start + state.final_head_consumed in
    let final_head = take state.final_head_consumed (drop start state.captured) in
    elim (crlf_position final_head) [
      | none ↦ none
      | some first_line_end ↦ some (
          take start state.captured
          ++ take (first_line_end + 2) final_head
          ++ normalized_lines normalization false state.raw_headers
          ++ crlf
          ++ drop end state.captured)
    ]

unfoldable pub take_normalized_python_response :
    ResponseHeadState → ResponseHeadState × Option Bytes
unfolding normalized
take_normalized_python_response state = if state.active then (state, none) else (
  record state { captured = [] },
  elim state.content_length_normalization [
    | unchanged ↦ some state.captured
    | ignore ↦ normalized ignore state
    | overflow ↦ normalized overflow state
  ],
)

module _ (parse : Bytes → Option Head) (lossy : Bytes → Bytes) where
  -- Where the first head that is not interim starts in the bytes, of which those behind `start` are left,
  -- and what it says. The fuel bounds the interim heads in front of it.
  unfoldable pub final_head : ℕ → ℕ → Bytes → Option (ℕ × ParsedResponseHead)
  unfolding parsed_response_head
  final_head zero start bytes = none
  final_head (suc fuel) start bytes = elim (parsed_response_head parse lossy bytes) [
    | none ↦ none
    | some parsed ↦ elim (is_interim parsed.status) [
      | true ↦ final_head fuel (start + parsed.consumed) (drop parsed.consumed bytes)
      | false ↦ some (start, parsed)
    ]
  ]

  unfoldable pub inspect_complete_response_head : ResponseHeadState → ResponseHeadState
  unfolding final_head
  inspect_complete_response_head state =
      elim (final_head (suc (length state.captured)) 0 state.captured) [
        | none ↦ state
        | some (start, parsed) ↦ record state {
          final_head_start = start;
          final_head_consumed = parsed.consumed;
          content_length_normalization = parsed.content_length_normalization;
          conflicting_content_length = parsed.conflicting_content_length;
          raw_headers = parsed.raw_headers;
          active = false;
        }
      ]

  unfoldable pub observe : ResponseHeadState → Bytes → ResponseHeadState
  unfolding inspect_complete_response_head
  observe state bytes =
      if not state.active
      then state
      else (let remaining = max_response_head_bytes - length state.captured in
          inspect_complete_response_head (record state {
            captured = state.captured ++ take (min (length bytes) remaining) bytes;
          }))

  unfoldable pub buffer_python_response_bytes :
      ResponseHeadState → Bytes → ResponseHeadState × Option Bytes
  unfolding inspect_complete_response_head take_normalized_python_response
  buffer_python_response_bytes state bytes =
      let remaining = max_response_head_bytes - length state.captured in
      if ltb remaining (length bytes)
      then (
        record state { captured = []; active = false; python_header_names = none },
        some (state.captured ++ bytes),
      )
      else take_normalized_python_response
          (inspect_complete_response_head (record state { captured = state.captured ++ bytes }))

  unfoldable pub complete_python_response_on_eof :
      ResponseHeadState → ResponseHeadState × Option Bytes
  unfolding inspect_complete_response_head take_normalized_python_response ends_with_crlf
  complete_python_response_on_eof state =
      let completed = state.captured ++ suffix state.captured in
      if not state.active
        || is_empty state.captured
        || ltb max_response_head_bytes (length completed)
      then (state, none)
      else take_normalized_python_response
          (inspect_complete_response_head (record state { captured = completed }))

  unfoldable pub complete_on_eof : ResponseHeadState → ResponseHeadState × Option Bytes
  unfolding parsed_response_head ends_with_crlf
  complete_on_eof state =
      let completed = state.captured ++ suffix state.captured in
      if not state.active
        || is_empty state.captured
        || ltb max_response_head_bytes (length completed)
      then (state, none)
      else elim (parsed_response_head parse lossy completed) [
        | none ↦ (state, none)
        | some parsed ↦ if is_interim parsed.status then (state, none) else (
          record state {
            conflicting_content_length = parsed.conflicting_content_length;
            raw_headers = parsed.raw_headers;
            active = false;
          },
          some (suffix state.captured),
        )
      ]

unfoldable pub buffers_python_response_head : ResponseHeadState → Bool
buffers_python_response_head state =
    state.active && elim state.python_header_names [ none ↦ false | some names ↦ true ]

unfoldable pub take_raw_headers : ResponseHeadState → ResponseHeadState × List (Bytes × Bytes)
take_raw_headers state = (
  record state { captured = []; python_header_names = none; raw_headers = [] },
  state.raw_headers,
)
