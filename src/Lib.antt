-- ===== src/Lib.antt =====
-- Verification library of requests-native, an HTTP client in Rust whose native crate carries the
-- connection pool, the transport, the response body, retries and text preparation for Python's
-- Requests.
--
-- A request takes a connection from the pool, or makes one, and holds it in a lease. The transport
-- gives the lease to the body of the response, which ends it when the body ends: by a clean end, an
-- error, a deadline, `close` or drop. Only a lease that ended cleanly, is of the pool's current
-- generation and is alive goes back. The retry policy counts attempts; URL, header, cookie and proxy
-- texts are prepared beside that.
--
-- The files, and the code that each models:
--   Prelude, Prelude/: shared names of the libraries, tests, lists, bytes, results and integers.
--   Uri: crates/requests/src/utils.rs (`requote_uri`, `unquote_unreserved`, `quote_bytes`,
--     `encode_query_pairs`, `normalize_percent_escape_hex`), and `has_incomplete_percent_escape` of
--     crates/requests/src/models.rs. Uri/Escapes says what an encoded text stands for.
--   Headers: crates/requests/src/utils.rs (`validate_header` and its parts).
--   Hooks: crates/requests/src/hooks.rs. Cookies: crates/requests/src/cookies.rs.
--   Proxy: crates/requests/src/transport/proxy.rs, the texts and the exchanges with the proxy.
--   Retry: crates/requests/src/retry.rs. Client: crates/requests/src/client.rs, the configuration.
--   Session: crates/requests/src/session_runtime.rs, the identities.
--   Pool, Pool/Keys, Pool/Leases: crates/requests/src/transport/pool.rs.
--   Transport: crates/requests/src/transport/mod.rs, the deadlines and the owner of a lease;
--     Transport/Ownership has the steps of the operations that lock the pool, in any order.
--   Errors: crates/requests/src/error.rs. Response, Response/Body, Response/Poll:
--     crates/requests/src/response.rs; Response/Run has any sequence of operations on a body.
--   Redirects: crates/requests-python/src/sessions.rs, how a session follows redirects. Redirects/Python has
--     the state of `SessionRedirectCursor` and the record of what Python supplies, Redirects/Rebuild the
--     request for the next URL, Redirects/Advance `advance_state`, Redirects/Send the loop of
--     `session_send_with_builtins`, Redirects/Cursor claim, `next`, close and frame with the steps of
--     callers in any order, where a step and a close are each a start and a finish with Python between. Its other modules hold the proofs.
--   Mounting: the same file, `mount_active_adapter`, `inline_base_mount` and `select_active_adapter`.
--   Heads: crates/requests/src/transport/mod.rs, the lengths of a response head (`parsed_response_head`).
--     Heads/Observation has `ResponseHeadObservation`, which watches a response for its head and may hold
--     it back, Heads/Request `rewrite_python_request_head`, Heads/Io the stream `ResponseHeadIo` that stands
--     between hyper and a connection. Its other modules hold the proofs.
--   Auth: crates/requests/src/auth.rs, Basic and Digest authentication: the header of a digest; Auth/Target has
--     its request target, Auth/Preparation `prepare_digest`, Auth/Steps `Digest401Machine`.
--   Structures: crates/requests/src/structures.rs, the ordered map of header names, over an interface of the
--     map of the crate `indexmap`. Prepare: crates/requests/src/models.rs, `prepare_headers`.
--   Upload: crates/requests/src/transport/mod.rs, the body that is sent out (`OutgoingBody`).
--   Decode: crates/requests/src/transport/decode.rs, the reader `IncomingReader` that feeds a decoder.
-- Modules called Examples apply the theorems to concrete values.
--
-- State is passed explicitly: an operation takes the pool, the body or the process and returns it. A
-- text is the list of its bytes (of its characters where the code works on `char`). Numbers are
-- natural numbers; sums that saturate or wrap are written out at 64, 32 and 8 bits. Time is a number.
-- What the network, the clock and the peer say is an argument: a source carries the answers that it
-- will give, a poll takes a `Moment`. Functions are structural recursion; some loops take fuel: that
-- over a redirect cursor, for which any above the session's `max_redirects` is enough, `poll_drain`,
-- for which any above the number of bytes to give is, and those over the heads of a response and the
-- lines of a request head, which start with the number of the bytes. Third-party code
-- (`Authority::port_u16`, UTF-8 validation, decimal output, hashes, floating point, the parsers of heads and
-- URLs) is a parameter, and so is
-- what Python supplies to a session. A Python object is its fields, a response is known by its number,
-- and a mapping of headers is the list of its items.
--
-- Not modelled: the Python bindings but for redirects and mounted adapters (methods that a subclass
-- overrides, the clock and further Python exceptions are left out there), the blocking facade,
-- adapters, TLS and sockets, the decoders and what drives them, the preparation of URLs, hooks and the
-- observation queue of the session runtime, and the third-party crates httparse,
-- indexmap and url.
pub mod Prelude
pub mod Uri
pub mod Headers
pub mod Hooks
pub mod Cookies
pub mod Proxy
pub mod Retry
pub mod Auth
pub mod Prepare
pub mod Structures
pub mod Upload
pub mod Client
pub mod Session
pub mod Pool
pub mod Transport
pub mod Errors
pub mod Response
pub mod Redirects
pub mod Mounting
pub mod Decode
pub mod Heads
