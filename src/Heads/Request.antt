-- ===== src/Heads/Request.antt =====
-- The head of a request as Python spells it: `rewrite_python_request_head` of
-- crates/requests/src/transport/mod.rs. Lossy UTF-8 is a parameter.
use requests_native.Prelude.{
  ℕ, zero, suc, ◌+◌, ◌-◌, Bool, true, false, ◌&&◌, Option, none, some, List, [], ◌∷◌, ◌++◌, map,
  leb, ◌==◌, if◌then◌else◌, length, take, drop, Bytes, codes, bytes_eq, to_ascii_uppercase,
  to_ascii_lowercase,
}
use requests_native.Heads.Observation.{ResponseHeadState, crlf, crlf_position}

-- The first position of an empty line's break, behind a line's.
unfoldable pub head_end_position : Bytes → Option ℕ
head_end_position (a ∷ b ∷ c ∷ d ∷ bs) =
    let rest = head_end_position (b ∷ c ∷ d ∷ bs) in
    if a == 13 && b == 10 && c == 13 && d == 10
    then some 0
    else elim rest [ none ↦ none | some n ↦ some (suc n) ]
head_end_position bytes = none

unfoldable pub has_head_end : Bytes → Bool
unfolding head_end_position
has_head_end bytes = elim (head_end_position bytes) [ none ↦ false | some n ↦ true ]

unfoldable pub colon_position : Bytes → Option ℕ
colon_position [] = none
colon_position (b ∷ bs) =
    let rest = colon_position bs in
    if b == 58 then some 0 else elim rest [ none ↦ none | some n ↦ some (suc n) ]

-- The last entry with a key.
unfoldable pub get_name : List (Bytes × Bytes) → Bytes → Option Bytes
unfolding bytes_eq
get_name [] key = none
get_name ((lower, name) ∷ names) key = elim (get_name names key) [
  | some later ↦ some later
  | none ↦ if bytes_eq lower key then some name else none
]

-- Each part between dashes with its first letter in upper case; `first` says whether a part starts.
unfoldable pub spelled : Bool → Bytes → Bytes
spelled first [] = []
spelled first (b ∷ bs) =
    let rest = spelled (b == 45) bs in if first then to_ascii_uppercase b ∷ rest else b ∷ rest

unfoldable pub python_default_header_spelling : Bytes → Bytes
unfolding spelled
python_default_header_spelling lower = spelled true lower

abbrev is_missing : Option Bytes → Bool
is_missing none = true
is_missing (some name) = false

module _ (lossy : Bytes → Bytes) where
  -- A line as it is spelled, and whether it is a Host that the caller has not named.
  unfoldable pub spelled_line : List (Bytes × Bytes) → Bytes → Bool × Bytes
  unfolding colon_position get_name python_default_header_spelling
  spelled_line names line = elim (colon_position line) [
    | none ↦ (false, line)
    | some colon ↦
        let lower = map to_ascii_lowercase (lossy (take colon line)) in
        let named = get_name names (codes "host") in
        let host = bytes_eq lower (codes "host") && is_missing named in
        let spelling : Bytes = elim (get_name names lower) [
          | some name ↦ name
          | none ↦ python_default_header_spelling lower
        ] in
        (host, if length spelling == colon then spelling ++ drop colon line else line)
  ]

  -- The loop over the lines between the first line and the empty one, with the breaks behind them. The fuel
  -- bounds their number.
  unfoldable pub spelled_lines : ℕ → List (Bytes × Bytes) → Bytes → List (Bool × Bytes)
  unfolding crlf_position spelled_line
  spelled_lines zero names section = []
  spelled_lines (suc fuel) names section = elim (leb (length section) 2) [
    | true ↦ []
    | false ↦ elim (crlf_position section) [
      | none ↦ []
      | some n ↦
          spelled_line names (take n section) ∷ spelled_lines fuel names (drop (n + 2) section)
    ]
  ]

  -- The lines that are a Host of this kind, or are not.
  unfoldable pub lines_of : Bool → List (Bool × Bytes) → List Bytes
  lines_of host [] = []
  lines_of host ((h, line) ∷ headers) =
      let rest = lines_of host headers in
      if h then if host then line ∷ rest else rest else if host then rest else line ∷ rest

  abbrev pub with_breaks : List Bytes → Bytes
  with_breaks [] = []
  with_breaks (line ∷ lines) = line ++ crlf ++ with_breaks lines

  unfoldable pub rewrite_head : List (Bytes × Bytes) → Bytes → Option Bytes
  unfolding head_end_position crlf_position spelled_lines lines_of
  rewrite_head names bytes = elim (head_end_position bytes) [
    | none ↦ none
    | some head_end ↦ elim (crlf_position (take head_end bytes)) [
      | none ↦ none
      | some first_line_end ↦
          let start = first_line_end + 2 in
          let section = take (head_end + 2 - start) (drop start bytes) in
          let headers = spelled_lines (length section) names section in
          some (
            take first_line_end bytes
            ++ crlf
            ++ with_breaks (lines_of true headers)
            ++ with_breaks (lines_of false headers)
            ++ crlf
            ++ drop (head_end + 4) bytes)
    ]
  ]

  unfoldable pub rewrite_python_request_head : ResponseHeadState → Bytes → Bytes
  unfolding rewrite_head
  rewrite_python_request_head state bytes = elim state.python_header_names [
    | none ↦ bytes
    | some names ↦ elim (rewrite_head names bytes) [ none ↦ bytes | some rewritten ↦ rewritten ]
  ]
