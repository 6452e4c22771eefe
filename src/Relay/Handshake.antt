-- ===== src/Relay/Handshake.antt =====
-- The handshake of internal/relay/connection.go: `run` up to its loop, and `authenticate`. The world
-- is that of the home that the identity names; the registry counts the process's homes.
pub mod Authenticated
use miakapp_server.Prelude.{
  ℕ, Bool, true, false, not, ◌&&◌, ◌||◌, Option, none, some, [], ltb, nat_beq, if◌then◌else◌, ◌!=◌,
  nat_eq,
}
use miakapp_server.Text.{Text, text_eq}
use miakapp_server.Auth.Identity.{
  Role, user, coordinator, cli, other, role_beq, Request, Identity, validate_binding,
}
use miakapp_server.Auth.Platform.{granted, failed}
use miakapp_server.Relay.Opcode
use miakapp_server.Relay.Frame.{opcode, Frame}
use miakapp_server.Relay.Errors.{
  code_unexpected_frame, RelayError, fatal_error, code_unsupported_version, code_unauthenticated,
  code_limit_exceeded, code_unavailable, code_malformed_frame, close_protocol, close_auth,
  close_limit, close_unavailable, close_timeout,
}
use miakapp_server.Relay.World.{Env, World, Handled, set_session}
use miakapp_server.Relay.Connection.{fail, stop}
use miakapp_server.Relay.Dispatch.{authentication_failure}
use miakapp_server.Relay.Registry.{Registry, Acquired, acquired_home, home_capacity, acquire}
use miakapp_server.Relay.Server.{Server, join_home}

-- A result of socket.Read and protocol.DecodeFrame.
pub data Received : Type 0 where
  read_error text_message : Received
  undecodable : RelayError → Received
  binary : Frame → Received

abbrev pub invalid_role : RelayError
invalid_role = fatal_error code_unauthenticated false "authentication role is invalid" close_auth

-- The request that a HELLO asks to verify.
unfoldable pub hello_request : Role → Text → Text → Option Request
hello_request user token context =
    some (record { role = user; token = token; home_id = context; coordinator_name = [] })
hello_request coordinator token context =
    some (record { role = coordinator; token = token; home_id = []; coordinator_name = context })
hello_request cli token context =
    some (record { role = cli; token = token; home_id = []; coordinator_name = [] })
hello_request (other n) token context = none

unfoldable pub acquire_failure : Acquired → RelayError
acquire_failure home_capacity =
    fatal_error code_limit_exceeded true "relay home capacity exceeded" close_limit
acquire_failure _ = fatal_error code_unavailable true "relay is shutting down" close_unavailable

-- The part of `authenticate` from a verified identity on.
unfoldable pub admit_identity :
    Env → Server → Registry → World → ℕ → Option Text → Request → Identity → Registry × Handled
admit_identity env server registry w s epoch request identity =
    elim (validate_binding env.unicode request identity env.now) [
      | some kind ↦ (registry, (w, some (authentication_failure kind)))
      | none ↦
          if role_beq request.role coordinator && identity.id != identity.home_id
          then (
            registry,
            (
              w,
              some (
                  fatal_error code_unauthenticated false "coordinator identity is invalid"
                    close_auth),
            ),
          )
          else let named = set_session w s (record (w.sessions s) { identity = identity }) in
            let (held, outcome) = acquire server.config registry identity.home_id epoch in
            elim outcome [
              | acquired_home p ↦ (held, join_home env server named s)
              | refusal ↦ (held, (named, some (acquire_failure refusal)))
            ]
    ]

-- authenticate, on the fields of a HELLO; `minimum_minor > 0 || maximum_minor < 0` is the test of
-- the minimum, since a field is not negative.
unfoldable pub authenticate :
    Env
    → Server
    → Registry
    → World
    → ℕ
    → Option Text
    → ℕ
    → ℕ
    → Role
    → Text
    → Text
    → Registry × Handled
authenticate env server registry w s epoch major minimum_minor role token context =
    if not (nat_beq major 1) || ltb 0 minimum_minor
    then (
      registry,
      (
        w,
        some (
            fatal_error code_unsupported_version false "protocol version is not supported"
              close_protocol),
      ),
    )
    else elim (hello_request role token context) [
      | none ↦ (registry, (w, some invalid_role))
      | some request ↦ elim (env.verifier request) [
        | failed kind ↦ (registry, (w, some (authentication_failure kind)))
        | granted identity ↦ admit_identity env server registry w s epoch request identity
      ]
    ]

-- `run` up to its loop; the flag says that the loop is entered.
unfoldable pub handshake :
    Env → Server → Registry → World → ℕ → Option Text → Received → Registry × World × Bool
handshake env server registry w s epoch read_error =
    (registry, stop w s close_timeout "hello_timeout", false)
handshake env server registry w s epoch text_message = (
  registry,
  fail env w s none (fatal_error code_malformed_frame false "binary HELLO required" close_protocol),
  false,
)
handshake env server registry w s epoch (undecodable failure) =
    (registry, fail env w s none failure, false)
handshake env server registry w s epoch (binary frame) = elim frame [
  | Frame.hello major minimum_minor maximum_minor role token context ↦
      let (held, (after, failure)) =
        authenticate env server registry w s epoch major minimum_minor role token context in
      elim failure [
        | none ↦ (held, after, true)
        | some reason ↦ (held, fail env after s (some Opcode.hello) reason, false)
      ]
  | first ↦ (
    registry,
    fail env w s (some (opcode first))
        (fatal_error code_unexpected_frame false "HELLO must be the first frame" close_protocol),
    false,
  )
]
