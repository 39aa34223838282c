-- ===== src/Heads/Examples.antt =====
-- Response heads of crates/requests/src/transport/mod.rs at concrete inputs.
use requests_native.Prelude.{
  ℕ, ◌^◌, ◌<◌, ◌≡◌, refl, sym, ap, inl, inr, false, ◌&&◌, Option, none, some, List, [], ◌∷◌, ◌++◌,
  arith, ◌==◌, if◌then◌else◌, Bool-cases, All, Bytes, codes, bytes_eq, is_ascii_digit,
  is_ascii_uppercase, is_ascii_lowercase, to_ascii_uppercase, to_ascii_lowercase,
}
use requests_native.Heads.{
  Head, unchanged, overflow, parsed_head, parsed_response_head, is_content_length, scan_headers,
  scan_header, scan_tokens, scan_token, is_conflicting, normalization, split_commas, trim_ascii,
  trim_start, trim_end, trim_leading_ascii_zeroes, fails_u64, value_from, has_other,
}
use requests_native.Client.{eq_ignore_ascii_case}
use requests_native.Heads.Lengths.{declared, declares_chunked, values}
use requests_native.Heads.Framing.{
  conflicts, framing, is_some, parsed_head-framing, parsed_head-agreement,
}
use requests_native.Heads.Observation.{
  ResponseHeadState, default_state, begin, final_head, buffer_python_response_bytes,
  inspect_complete_response_head, take_normalized_python_response, observe,
  buffers_python_response_head, crlf_position, normalized, normalized_lines, is_overflow, crlf,
}
use requests_native.Prelude.{some_injective, none-some}
use requests_native.Heads.Capture.{IsParser, IsValid, Scans, final_head-Scans}
use requests_native.Heads.Invariant.{
  Operation, begins, observes, buffers, completes, takes, operations, operations-IsValid,
}
use requests_native.Heads.Settled.{lines, others, has_length, normalized_lines-settles}
use requests_native.Heads.Request.{
  has_head_end, head_end_position, rewrite_python_request_head, rewrite_head, spelled_lines,
  spelled_line, colon_position, get_name, python_default_header_spelling, spelled, lines_of,
}
use requests_native.Heads.Io.{
  poll_write, write_followed, poll_drain_outgoing, poll_drained, drain, write_after, write_drained,
  InnerRead, bytes_read, read_pends, takes as takes_bytes, write_pends, ResponseHeadIo, new, ready,
  poll_read, poll_followed, follow_generation, fill_injected, read_buffered, read_through, deliver,
}
use requests_native.Heads.Withheld.{unread, backlog}
use requests_native.Heads.Stream.{polls, polls-backlog}
use requests_native.Heads.Sending.{sequence}
use requests_native.Heads.Writing.{Action, write_buffer, drain_with, acts, acts-sequence}

abbrev same_text : Bytes → Bytes
same_text bytes = bytes

-- A head of one status byte and a break: `I` is interim and `F` is final.
abbrev small_parse : Bytes → Option Head
small_parse [] = none
small_parse (a ∷ []) = none
small_parse (a ∷ b ∷ bs) =
    if b == 10
    then some record { consumed = 2; status = if a == b'I' then 100 else 200; headers = [] }
    else none

break_head :
    (a b : ℕ) (bs : Bytes) (head : Head) → small_parse (a ∷ b ∷ bs) ≡ some head → head.consumed ≡ 2
break_head a b bs head e = elim (Bool-cases (b == 10)) [
  | inl h ↦ ap (λ (x : Head). x.consumed) (sym (some_injective (rw h at e)))
  | inr h ↦ absurd (none-some (sym (rw h at e)))
]

small_parse-IsParser : IsParser small_parse
small_parse-IsParser [] head e = cc
small_parse-IsParser (a ∷ []) head e = cc
small_parse-IsParser (a ∷ b ∷ bs) head e =
    let h = break_head a b bs head e in (rw h (omega arith), rw h (omega arith))

abbrev twice : Head
twice = record {
  consumed = 9;
  status = 200;
  headers = (codes "Content-Length", codes "7, 07") ∷ (codes "content-length", codes " 007") ∷ [];
}

abbrev large_headers : List (Bytes × Bytes)
large_headers =
    (codes "Content-Length", codes "18446744073709551616")
    ∷ (codes "Server", codes "x")
    ∷ (codes "content-length", codes "18446744073709551616")
    ∷ []

parsed_head-framing_example :
    (is_some (parsed_head same_text twice).conflicting_content_length ≡ conflicts twice.headers)
    × ((parsed_head same_text twice).content_length_normalization ≡ framing twice.headers)
parsed_head-framing_example = parsed_head-framing same_text twice

agreed_test :
    ((parsed_head same_text twice).conflicting_content_length ≡ none)
    × ((parsed_head same_text twice).content_length_normalization ≡ unchanged)
unfolding parsed_head scan_headers scan_header scan_tokens scan_token is_conflicting normalization
    is_content_length eq_ignore_ascii_case to_ascii_lowercase is_ascii_uppercase split_commas
    trim_ascii trim_start trim_end trim_leading_ascii_zeroes fails_u64 value_from has_other bytes_eq
    is_ascii_digit
agreed_test = (refl, refl)

twice_test : declares_chunked twice.headers ≡ false
unfolding declares_chunked is_content_length eq_ignore_ascii_case to_ascii_lowercase
    is_ascii_uppercase
twice_test = refl

parsed_head-agreement_test :
    (n : ℕ) × ((n < 2 ^ 64) × All (λ m. m ≡ n) (values (declared twice.headers)))
parsed_head-agreement_test =
    parsed_head-agreement same_text twice agreed_test.0 agreed_test.1 twice_test

abbrev chunks : Bytes
chunks = b'I' ∷ 10 ∷ b'F' ∷ 10 ∷ b'x' ∷ []

final_head-Scans_example :
    Scans small_parse same_text 0 chunks (final_head small_parse same_text 6 0 chunks)
final_head-Scans_example =
    final_head-Scans small_parse same_text small_parse-IsParser 6 0 chunks (omega arith)

abbrev some_operations : List Operation
some_operations = begins none ∷ observes (b'I' ∷ []) ∷ buffers chunks ∷ completes ∷ takes ∷ []

operations-IsValid_example :
    IsValid small_parse same_text (operations small_parse same_text some_operations default_state)
operations-IsValid_example =
    operations-IsValid small_parse same_text small_parse-IsParser some_operations

normalized_lines-settles_example :
    (again : List (Bytes × Bytes)) × ((normalized_lines overflow false large_headers ≡ lines again)
      × ((others again ≡ others large_headers)
          × ((declared again ≡ (
                if is_overflow overflow && has_length large_headers
                then codes "9223372036854775807" ∷ []
                else []))
              × ((declares_chunked again ≡ declares_chunked large_headers)
                  × ((conflicts again ≡ false) × (framing again ≡ unchanged))))))
normalized_lines-settles_example = normalized_lines-settles overflow large_headers

abbrev some_reads : List InnerRead
some_reads =
    bytes_read (b'I' ∷ [])
    ∷ read_pends
    ∷ bytes_read (10 ∷ b'F' ∷ [])
    ∷ bytes_read (10 ∷ b'x' ∷ [])
    ∷ []

abbrev reading : ResponseHeadIo
reading = new record { reads = some_reads; writes = []; sent = [] } (begin default_state (some []))

polled_test :
    (polls small_parse same_text
      (3 ∷ 3 ∷ 3 ∷ 3 ∷ 3 ∷ [])
      reading).0.observation.content_length_normalization
    ≡ unchanged
unfolding polls poll_read poll_followed follow_generation fill_injected buffers_python_response_head
    read_buffered read_through deliver begin buffer_python_response_bytes
    inspect_complete_response_head take_normalized_python_response final_head parsed_response_head
    parsed_head scan_headers normalization observe
polled_test = refl

polls-backlog_example :
    (polls small_parse same_text (3 ∷ 3 ∷ 3 ∷ 3 ∷ 3 ∷ []) reading).1
      ++ backlog (polls small_parse same_text (3 ∷ 3 ∷ 3 ∷ 3 ∷ 3 ∷ []) reading).0
    ≡ unread some_reads
polls-backlog_example =
    polls-backlog small_parse same_text default_state (some []) reading (3 ∷ 3 ∷ 3 ∷ 3 ∷ 3 ∷ [])
      refl refl ((λ e. cc), (tt, ((λ e. cc), ((λ e. cc), tt)))) polled_test

abbrev writing : ResponseHeadIo
writing =
    new record { reads = []; writes = takes_bytes 2 ∷ write_pends ∷ takes_bytes 9 ∷ []; sent = [] }
      default_state

abbrev some_actions : List Action
some_actions =
    write_buffer (codes "GET /" ++ crlf ++ crlf)
    ∷ drain_with (ready tt)
    ∷ write_buffer (codes "body")
    ∷ []

acts-sequence_example :
    sequence (acts same_text some_actions writing).0
    ≡ sequence writing ++ (acts same_text some_actions writing).1
acts-sequence_example = acts-sequence same_text some_actions writing (inl refl) refl

abbrev bare_parse : Bytes → Option Head
bare_parse [] = none
bare_parse (b ∷ bs) =
    some record { consumed = 1; status = 200; headers = (codes "Content-Length", codes "x") ∷ [] }

-- A head that needs its lengths normalized and has no line break of two bytes is dropped.
lost_test :
    let r =
      buffer_python_response_bytes bare_parse same_text
        (begin default_state (some []))
        (b'F' ∷ 10 ∷ []) in
    (r.1 ≡ none) × ((r.0.captured ≡ []) × (r.0.active ≡ false))
unfolding buffer_python_response_bytes inspect_complete_response_head
    take_normalized_python_response begin final_head parsed_response_head parsed_head scan_headers
    scan_header scan_tokens scan_token is_conflicting normalization is_content_length
    eq_ignore_ascii_case to_ascii_lowercase is_ascii_uppercase split_commas trim_ascii trim_start
    trim_end trim_leading_ascii_zeroes fails_u64 value_from has_other bytes_eq is_ascii_digit
    crlf_position normalized
lost_test = (refl, (refl, refl))

abbrev named : ResponseHeadState
named = record default_state { python_header_names = some [] }

-- A head in one write is spelled, and a head in two is not.
whole_test :
    (acts same_text
      (write_buffer (codes "G" ++ crlf ++ codes "a:b" ++ crlf ++ crlf) ∷ [])
      (new record { reads = []; writes = []; sent = [] } named)).0.outgoing
    ≡ codes "G" ++ crlf ++ codes "A:b" ++ crlf ++ crlf
unfolding acts poll_write write_followed poll_drain_outgoing drain write_after write_drained
    follow_generation has_head_end head_end_position rewrite_python_request_head rewrite_head
    crlf_position spelled_lines spelled_line colon_position get_name python_default_header_spelling
    spelled bytes_eq lines_of to_ascii_lowercase to_ascii_uppercase is_ascii_uppercase
    is_ascii_lowercase
whole_test = refl

split_test :
    (acts same_text
      (write_buffer (codes "G" ++ crlf ++ codes "a:b")
        ∷ write_buffer (crlf ++ crlf)
        ∷ drain_with (ready tt)
        ∷ [])
      (new
        record { reads = []; writes = takes_bytes 6 ∷ takes_bytes 4 ∷ []; sent = [] }
        named)).0.inner.sent
    ≡ codes "G" ++ crlf ++ codes "a:b" ++ crlf ++ crlf
unfolding acts poll_write write_followed poll_drain_outgoing poll_drained drain write_after
    write_drained follow_generation has_head_end head_end_position rewrite_python_request_head
    rewrite_head crlf_position spelled_lines spelled_line colon_position get_name
    python_default_header_spelling spelled bytes_eq lines_of to_ascii_lowercase to_ascii_uppercase
    is_ascii_uppercase is_ascii_lowercase
split_test = refl
