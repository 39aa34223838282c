-- ===== src/Auth/Target.antt =====
-- `digest_request_target` of crates/requests/src/auth.rs: the target of a request as a digest names it.
use requests_native.Prelude.{
  ℕ, ◌+◌, ◌-◌, Bool, true, false, ◌&&◌, ◌||◌, Option, none, some, [], ◌∷◌, ◌++◌, ◌==◌,
  if◌then◌else◌, length, take, any, Bytes, codes, bytes_eq,
}

-- What `Url::parse` gives.
pub record ParsedUrl : Type 0 where
  pub scheme : Bytes
  pub has_host : Bool
  pub path : Bytes
  pub query : Option Bytes

unfoldable pub strip_prefix : Bytes → Bytes → Option Bytes
strip_prefix [] text = some text
strip_prefix (p ∷ prefix) [] = none
strip_prefix (p ∷ prefix) (b ∷ text) =
    let rest = strip_prefix prefix text in if p == b then rest else none

abbrev pub is_boundary : ℕ → Bool
is_boundary b = b == b'/' || b == b'?' || b == b'#'

-- What stands before the first byte of a kind, and from it on.
module _ (p : ℕ → Bool) where
  unfoldable pub before : Bytes → Bytes
  before [] = []
  before (b ∷ bs) = let rest = before bs in if p b then [] else b ∷ rest

  unfoldable pub from : Bytes → Bytes
  from [] = []
  from (b ∷ bs) = let rest = from bs in if p b then b ∷ bs else rest

abbrev pub is_empty : Bytes → Bool
is_empty [] = true
is_empty (b ∷ bs) = false

-- The target as the text of the URL has it.
unfoldable pub lexical_target : Bytes → Bytes
unfolding before
lexical_target suffix = elim (before (λ b. b == b'#') suffix) [
  | [] ↦ codes "/"
  | b ∷ bs ↦ if b == b'?' then b'/' ∷ b ∷ bs else b ∷ bs
]

-- The target as the parser has it.
unfoldable pub parsed_target : ParsedUrl → Bytes
parsed_target parsed =
    (if is_empty parsed.path then codes "/" else parsed.path)
    ++ elim parsed.query [ none ↦ [] | some query ↦ b'?' ∷ query ]

-- What stands behind the last slash.
unfoldable pub final_segment : Bytes → Bytes
final_segment [] = []
final_segment (b ∷ bs) =
    let rest = final_segment bs in if any (λ c. c == b'/') (b ∷ bs) then rest else b ∷ bs

-- A path without the parameters of its last segment.
unfoldable pub without_params : Bytes → Bytes
unfolding final_segment before
without_params path =
    let segment = final_segment path in
    if any (λ b. b == b';') segment
    then take (length path - length segment + length (before (λ b. b == b';') segment)) path
    else path

abbrev pub or_root : Bytes → Bytes
or_root [] = codes "/"
or_root (b ∷ bs) = b ∷ bs

-- A path with what stands from its question mark on, but for an empty query.
abbrev pub with_query : Bytes → Bytes → Bytes
with_query path [] = path
with_query path (mark ∷ query) = if is_empty query then path else path ++ b'?' ∷ query

-- A target without parameters, and without an empty query.
unfoldable pub trimmed_target : Bytes → Bytes
unfolding before from without_params
trimmed_target target =
    with_query (without_params (or_root (before (λ b. b == b'?') target)))
      (from (λ b. b == b'?') target)

-- Whether the parser has the target that the text has.
unfoldable pub same_target : ParsedUrl → Bytes → Bool
unfolding bytes_eq parsed_target
same_target parsed target =
    (bytes_eq parsed.scheme (codes "http") || bytes_eq parsed.scheme (codes "https"))
    && parsed.has_host
    && bytes_eq (parsed_target parsed) target

module _ (parse : Bytes → Option ParsedUrl) where
  -- `digest_request_target` of what stands behind the scheme.
  unfoldable pub target_of : Bytes → Bytes → Option Bytes
  unfolding before from lexical_target same_target trimmed_target
  target_of url remainder =
      let target = lexical_target (from is_boundary remainder) in
      if is_empty (before is_boundary remainder) then none else elim (parse url) [
        | none ↦ none
        | some parsed ↦ if same_target parsed target then some (trimmed_target target) else none
      ]

  unfoldable pub digest_request_target : Bytes → Option Bytes
  unfolding strip_prefix target_of
  digest_request_target url = elim (strip_prefix (codes "http://") url) [
    | some remainder ↦ target_of url remainder
    | none ↦ elim (strip_prefix (codes "https://") url) [
      | some remainder ↦ target_of url remainder
      | none ↦ none
    ]
  ]
