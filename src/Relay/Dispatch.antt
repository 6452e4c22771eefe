-- ===== src/Relay/Dispatch.antt =====
-- The rules of a received frame: which roles may send it (connection.go), and the handler that
-- takes it (home.go).
pub mod Rules
pub mod Readers
use miakapp_server.Relay.Lifecycle.{lease_lost}
use mathlib.Core.Logic.{ite}
use miakapp_server.Prelude.{
  ℕ, zero, suc, ◌+◌, ◌-◌, ◌*◌, ◌/◌, ◌≤◌, ◌<◌, ◌≡◌, refl, sym, ap, subst, ◌∙◌, ◌≢◌, ◌↔◌, ◌⊎◌, inl,
  inr, Bool, true, false, not, ◌&&◌, ◌||◌, Option, none, some, List, [], ◌∷◌, ◌++◌, map, arith, ltb,
  leb, nat_beq, if◌then◌else◌, nat_beq_iff, Bool-cases, Option-cases, Eq, ◌==◌, ◌!=◌, nat_eq,
  length, any, all, All, length-append, String,
}
use miakapp_server.GoMap.{is_some, lookup}
use miakapp_server.Text.{Text, text_eq}
use miakapp_server.Auth.Identity.{
  Role, user, coordinator, cli, other, Request, Identity, ErrorKind, rejected, expired, audience,
  temporary, Unicode, validate_binding, unix_milli,
}
use miakapp_server.Auth.Platform.{Access, granted, failed}
use miakapp_server.Relay.Opcode.{Opcode}
use miakapp_server.Relay.Errors.{
  close_authorization, code_wrong_direction, code_invalid_audience, close_unavailable,
  code_unavailable, close_protocol, close_auth, code_unexpected_frame, code_unauthenticated,
  code_token_expired, RelayError, application_error, fatal_error,
}
use miakapp_server.Relay.World.{draining, closed, Link, World, Env, Handled, Phase, update}
use miakapp_server.Relay.Frame.{
  reauth_ok, frame_correlation, request_identifier, error_frame, Frame, opcode,
}
use miakapp_server.Relay.Frame
use miakapp_server.Relay.Connection.{
  enqueue_request_terminal, fail, begin_request, phase_beq, auth_lease_expired, replace_lease,
  deadline_over, enqueue, reply,
}
use miakapp_server.Relay.Declarations.{
  handle_declaration, opening, slice, acl_slice, event_slice, event_acl_slice, function_slice,
  Opcode-discrete,
}
use miakapp_server.Relay.State.{resync, apply_state_set}
use miakapp_server.Relay.Events.{subscribe, unsubscribe, publish_event}
use miakapp_server.Relay.Calls.{
  start_call, forward_call_result, forward_call_error, cancel_call, credit_call,
}

abbrev pub opcode_beq : Opcode → Opcode → Bool
opcode_beq a b = ite (Opcode-discrete a b) true false

-- isCallFlowOpcode
unfoldable pub is_call_flow_opcode : (Opcode → ℕ) → Opcode → Bool
is_call_flow_opcode number op =
    leb (number Opcode.call) (number op)
    && leb (number op) (number Opcode.call_credit)
    && not (opcode_beq op Opcode.call_dispatch)
    && not (opcode_beq op Opcode.call_accepted)

-- incomingAllowed
unfoldable pub coordinator_opcode : Opcode → Bool
coordinator_opcode Opcode.state_sync = true
coordinator_opcode Opcode.state_set = true
coordinator_opcode Opcode.state_acl_sync = true
coordinator_opcode Opcode.event_sync = true
coordinator_opcode Opcode.event_acl_sync = true
coordinator_opcode Opcode.event = true
coordinator_opcode Opcode.function_sync = true
coordinator_opcode _ = false

unfoldable pub client_opcode : Opcode → Bool
client_opcode Opcode.state_resync = true
client_opcode Opcode.subscribe = true
client_opcode Opcode.unsubscribe = true
client_opcode Opcode.event = true
client_opcode _ = false

unfoldable pub role_opcode : (Opcode → ℕ) → Role → Opcode → Bool
unfolding coordinator_opcode client_opcode is_call_flow_opcode
role_opcode number coordinator op = coordinator_opcode op || is_call_flow_opcode number op
role_opcode number user op = client_opcode op || is_call_flow_opcode number op
role_opcode number cli op = client_opcode op || is_call_flow_opcode number op
role_opcode number (other n) op = false

unfoldable pub incoming_allowed : (Opcode → ℕ) → Role → Opcode → Bool
unfolding role_opcode
incoming_allowed number role op = opcode_beq op Opcode.reauth || role_opcode number role op

-- authenticationFailure
unfoldable pub authentication_failure : ErrorKind → RelayError
authentication_failure expired =
    fatal_error code_token_expired true "access token expired" close_auth
authentication_failure audience =
    fatal_error code_invalid_audience false "access token audience is invalid" close_auth
authentication_failure temporary =
    fatal_error code_unavailable true "authentication service unavailable" close_unavailable
authentication_failure rejected =
    fatal_error code_unauthenticated false "authentication failed" close_auth

abbrev pub lease_over : ℕ → Link → Bool
lease_over now link =
    link.lease_expired || not (is_some link.lease_deadline) || deadline_over now link.lease_deadline

-- The outcome of a verified replacement token: the same principal gets the new lease.
unfoldable pub renew_lease : Env → World → ℕ → ℕ → Request → Option ℕ → Identity → Handled
renew_lease env w s request_id request previous identity =
    let bound = (w.sessions s).identity in
    elim (validate_binding env.unicode request identity env.now) [
      | some kind ↦ (w, some (authentication_failure kind))
      | none ↦
          if identity.id != bound.id
            || identity.client_id != bound.client_id
            || identity.verified_email != bound.verified_email
          then (
            w,
            some (
                fatal_error code_unauthenticated false
                  "reauthentication changed the connection principal" close_auth),
          )
          else let (link, replaced) =
              replace_lease env.now (w.links s) previous identity.expires_at in
            if not replaced
            then (w, some lease_lost)
            else reply (
                enqueue env (record w { links = update w.links s link }) s
                  (reauth_ok request_id (unix_milli identity.expires_at)) true)
    ]

abbrev pub reauth_request : Identity → Text → Request
reauth_request identity token = record {
  role = identity.role;
  token = token;
  home_id = identity.home_id;
  coordinator_name = identity.coordinator_name;
}

-- The clock once a replacement token has been verified.
abbrev pub after_verification : Env → Env
after_verification env = record env { now = env.now + env.verification_time }

-- reauthenticate. The lease is read before the token is verified, and again, by the later clock, if
-- that fails. The connection is left alone meanwhile.
unfoldable pub reauthenticate : Env → World → ℕ → ℕ → Text → Handled
unfolding renew_lease
reauthenticate env w s request_id token =
    let link = w.links s in
    let request = reauth_request (w.sessions s).identity token in
    if lease_over env.now link then (w, some lease_lost) else elim (env.verifier request) [
      | failed kind ↦
          if lease_over (after_verification env).now link
          then (w, some lease_lost)
          else (w, some (authentication_failure kind))
      | granted identity ↦
          renew_lease (after_verification env) w s request_id request link.lease_deadline identity
    ]

abbrev pub unexpected_frame : String → RelayError
unexpected_frame message = application_error code_unexpected_frame false message close_protocol

-- home.handle and the handlers' own dispatch on the opcode; `received` is the clock when the frame
-- was read.
unfoldable pub handle_home : Env → World → ℕ → ℕ → Frame → Handled
handle_home env w s received (Frame.state_sync id entries) =
    handle_declaration env w s id (opening entries)
handle_home env w s received (Frame.state_acl_sync id entries) =
    handle_declaration env w s id (slice (acl_slice entries))
handle_home env w s received (Frame.event_sync id entries) =
    handle_declaration env w s id (slice (event_slice entries))
handle_home env w s received (Frame.event_acl_sync id entries) =
    handle_declaration env w s id (slice (event_acl_slice entries))
handle_home env w s received (Frame.function_sync id names) =
    handle_declaration env w s id (slice (function_slice names))
handle_home env w s received (Frame.state_set id epoch mutations) =
    apply_state_set env w s id epoch mutations
handle_home env w s received (Frame.state_resync id) = resync env w s id
handle_home env w s received (Frame.subscribe id topics) = subscribe env w s id topics
handle_home env w s received (Frame.unsubscribe id topics) = unsubscribe env w s id topics
handle_home env w s received (Frame.event id topic kind target payload) =
    publish_event env w s id topic kind target payload
handle_home env w s received (Frame.call id kind target function timeout key credit arguments) =
    start_call env w s received id (record {
      target_kind = kind;
      target_value = target;
      function_id = function;
      timeout = timeout;
      idempotency_key = key;
      credit = credit;
      call_arguments = arguments;
    })
handle_home env w s received (Frame.call_result id final value) =
    forward_call_result env w s id final value
handle_home env w s received (Frame.call_error id code retryable message details) =
    forward_call_error env w s id code retryable message details
handle_home env w s received (Frame.call_cancel id reason) = cancel_call env w s id reason
handle_home env w s received (Frame.call_credit id additional) = credit_call env w s id additional
handle_home env w s received _ =
    (w, some (unexpected_frame "frame is not implemented by this relay"))

abbrev pub is_terminal_opcode : Opcode → Bool
is_terminal_opcode op = opcode_beq op Opcode.call_result || opcode_beq op Opcode.call_error

-- handle, where the session may send the frame.
unfoldable pub handle_allowed : Env → World → ℕ → ℕ → Frame → Handled
unfolding handle_home reauthenticate
handle_allowed env w s received (Frame.reauth id token) = reauthenticate env w s id token
handle_allowed env w s received frame = handle_home env w s received frame

-- handle (connection.go)
unfoldable pub handle : Env → World → ℕ → ℕ → Frame → Handled
unfolding handle_allowed
handle env w s received frame =
    let link = w.links s in
    let op = opcode frame in
    if phase_beq link.phase closed
    then (w, some (fatal_error code_unavailable true "connection is closing" close_unavailable))
    else if auth_lease_expired env.now link
    then (w, some lease_lost)
    else if phase_beq link.phase draining && not (is_terminal_opcode op)
    then (w, some (unexpected_frame "new requests are forbidden while draining"))
    else if opcode_beq op Opcode.hello || opcode_beq op Opcode.welcome
    then (
      w,
      some (
          fatal_error code_unexpected_frame false "frame is not valid in the active session"
            close_protocol),
    )
    else if not (incoming_allowed env.opcode_number (w.sessions s).identity.role op)
    then (
      w,
      some (
          application_error code_wrong_direction false "frame is not valid for this role"
            close_authorization),
    )
    else handle_allowed env w s received frame

-- The answer to a frame whose handler failed: a fatal failure ends the connection, any other is
-- reported, and a claimed request ends with the report.
unfoldable pub report_failure : Env → World → ℕ → Frame → Option ℕ → RelayError → World
report_failure env w s frame claimed failure =
    let response = error_frame (frame_correlation frame) (some (opcode frame)) failure in
    if failure.is_fatal then fail env w s (some (opcode frame)) failure else elim claimed [
      | none ↦ (enqueue env w s response true).0
      | some id ↦ (enqueue_request_terminal env w s response id true).0
    ]

unfoldable pub process : Env → World → ℕ → ℕ → Frame → Option ℕ → World
unfolding handle report_failure
process env w s received frame claimed =
    let (handled, failure) = handle env w s received frame in
    elim failure [ none ↦ handled | some e ↦ report_failure env handled s frame claimed e ]

-- One round of the reading loop of `run`, after the handshake.
unfoldable pub receive : Env → World → ℕ → ℕ → Frame → World
unfolding process
receive env w s received frame = elim (request_identifier frame) [
  | none ↦ process env w s received frame none
  | some id ↦
      let (link, duplicate) = begin_request (w.links s) id in
      elim duplicate [
        | some failure ↦ (enqueue env w s (error_frame id (some (opcode frame)) failure) true).0
        | none ↦ process env (record w { links = update w.links s link }) s received frame (some id)
      ]
]
