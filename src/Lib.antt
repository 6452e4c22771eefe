-- ===== src/Lib.antt =====
-- Verification library of Miakapp Server, the in-memory Go relay of the Miakapp protocol.
--
-- A process holds homes; a home joins coordinators, users and command-line sessions that hold one
-- connection each. A connection is admitted, authenticated, attached to its home, and then sends
-- frames: coordinators declare state, events and functions and set state, users subscribe, publish
-- and call. The home answers by queueing frames on the connections that may see them.
--
-- The parts, with the code that each models:
--   Prelude, GoMap, GoStrings, Text, Sort: tests on numbers, Go's maps and sets as association
--     lists, strings as lists of bytes, what the code uses of strings and strconv, sorting.
--   Config (internal/config/config.go): the configuration, `validate` for Validate; Config.Load:
--     `load` for Load.
--   Auth.Identity (internal/auth/auth.go): identities, `validate_binding` for ValidateBinding.
--   Auth.Platform (internal/auth/platform.go): `verify` for PlatformVerifier.Verify.
--   Auth.Keys (internal/auth/key_cache.go): Hex and Surrogates are the test for unpaired surrogate
--     escapes, Headers the lifetime and the entity tag of a response, Document the streaming decoder
--     of the key set, Fetch the request. Cache is keyCache: `enter` is what load does under its lock
--     before it returns, waits or fetches, `finish` what it does under it after the fetch, with the
--     channel that it closes, and Cache.Callers the steps of callers that interleave between the
--     two.
--   Auth.PlatformConfig (internal/auth/platform_config.go): `validate_platform` for Validate.
--   Relay.Admission (internal/relay/admission.go): `acquire_connection`, `release_connection`,
--     `reserve_queued_bytes`, `release_queued_bytes`.
--   Relay.Opcode, Relay.Frame, Relay.Errors (internal/relay/errors.go): frames as the relay reads
--     and writes them, errors and the frames that report them.
--   Relay.Outbound (internal/relay/connection.go): the outbound queue of a connection.
--   Relay.World: the state. A `Home` has the fields of `home`; a `Session` has what the home's lock
--     guards of a `connection`, a `Link` what the connection's own locks and atomics guard; a
--     `Route` is a callRoute. Connections and routes are numbers into total functions, the heaps.
--   Relay.Connection, Relay.Dispatch (internal/relay/connection.go): leases, failing, stopping,
--     request identifiers, and the rules of a received frame.
--   Relay.Patterns, Relay.Declarations (internal/relay/declarations.go): `handle_declaration` for
--     handleDeclaration, `activate` for activateLocked.
--   Relay.Views, Relay.State (internal/relay/state.go), Relay.Projection
--     (internal/relay/projection.go): what users see, and `apply_state_set` for applyStateSet.
--   Relay.Events (internal/relay/events.go): `subscribe`, `publish_event`, and the routing.
--   Relay.Calls (internal/relay/calls.go): `start_call` to `terminate_calls_for_connection`.
--   Relay.Notices, Relay.Lifecycle (internal/relay/home.go): presence and status notices, `attach`,
--     `detach`, `expire_coordinator`, `close_home`.
--   Relay.Registry (internal/relay/home.go): homeRegistry, `acquire`, `release`, `delete_if_unused`.
--   Relay.Server (internal/relay/server.go): `drain` for Drain, `serve_web_socket` for
--     serveWebSocket, `allocate_session_id` for allocateSessionID, the live connections.
--   Relay.Handshake (internal/relay/connection.go): `handshake` for run up to its loop,
--     `authenticate`.
--   Tests: a concrete home, and the theorems applied to it.
--
-- A handler is a function from a world to a world and the error that it returns, `none` for nil.
-- A home's lock makes each handler one step; a timer's callback (`expire_stage`, `expire_call`,
-- `expire_lease`, `expire_coordinator`) is a step of its own, and the detaching that `fail` starts
-- in parallel is recorded by `detach_requested`. The iteration order of a Go map is the order of the
-- association list.
--
-- Parameters: `Env` holds the configuration, the clock, the protocol library's encoder, opcode
-- numbers and limits, the token verifier with the time that it takes over a replacement token, and
-- the Unicode test; `UrlLibrary` is URL parsing, `KeyLibrary` the contract's token check with the
-- keys that it is given; `Codecs` is the decoder of encoding/json and base64, `Library` adds media
-- types, the UTF-8 test and string trimming to it; `UrlParser` is URL parsing for the verifier,
-- `AddressParser` address parsing, `Environment` the environment of the process. The theorems ask
-- nothing of them.
--
-- Fuel: `allocate_call_id` runs on one more than there are calls in flight, `allocate_session_id` on
-- two rounds, and the loops of the key decoder on one more round than they have members to accept.
-- Results below say that this is enough.
--
-- Not modelled: sockets, the HTTP library and loggers, the process entry
-- (cmd/miakapp-server/main.go), the socket loops of a connection, the programs under test/ and
-- internal/auth/platform_integration.go: they are calls of Go's libraries.
pub mod Prelude
pub mod GoMap
pub mod GoStrings
pub mod Text
pub mod Sort
pub mod Config
pub mod Auth
pub mod Relay
pub mod Tests
