-- ===== src/Relay/Errors.antt =====
-- internal/relay/errors.go: the error catalogue, and the close reasons of connection.go.
use Prim.Native.String.{String}
use miakapp_server.Prelude.{ℕ, Bool, true, false, Option, none, some, if◌then◌else◌, nat_beq}

abbrev pub code_malformed_frame : ℕ
code_malformed_frame = 1000

abbrev pub code_unsupported_version : ℕ
code_unsupported_version = 1001

abbrev pub code_unexpected_frame : ℕ
code_unexpected_frame = 1002

abbrev pub code_frame_too_large : ℕ
code_frame_too_large = 1003

abbrev pub code_limit_exceeded : ℕ
code_limit_exceeded = 1004

abbrev pub code_invalid_value : ℕ
code_invalid_value = 1005

abbrev pub code_unauthenticated : ℕ
code_unauthenticated = 1100

abbrev pub code_token_expired : ℕ
code_token_expired = 1101

abbrev pub code_invalid_audience : ℕ
code_invalid_audience = 1102

abbrev pub code_forbidden : ℕ
code_forbidden = 1200

abbrev pub code_not_enrolled : ℕ
code_not_enrolled = 1201

abbrev pub code_not_declared : ℕ
code_not_declared = 1202

abbrev pub code_wrong_direction : ℕ
code_wrong_direction = 1203

abbrev pub code_conflict : ℕ
code_conflict = 1300

abbrev pub code_duplicate_request : ℕ
code_duplicate_request = 1301

abbrev pub code_ownership_collision : ℕ
code_ownership_collision = 1302

abbrev pub code_stale_epoch : ℕ
code_stale_epoch = 1303

abbrev pub code_generation_replaced : ℕ
code_generation_replaced = 1305

abbrev pub code_unavailable : ℕ
code_unavailable = 1400

abbrev pub code_no_coordinator : ℕ
code_no_coordinator = 1401

abbrev pub code_slow_consumer : ℕ
code_slow_consumer = 1402

abbrev pub code_deadline_exceeded : ℕ
code_deadline_exceeded = 1403

abbrev pub code_outcome_unknown : ℕ
code_outcome_unknown = 1404

abbrev pub code_cancelled : ℕ
code_cancelled = 1405

abbrev pub code_internal : ℕ
code_internal = 1500

abbrev pub close_protocol : ℕ
close_protocol = 4400

abbrev pub close_auth : ℕ
close_auth = 4401

abbrev pub close_authorization : ℕ
close_authorization = 4403

abbrev pub close_timeout : ℕ
close_timeout = 4408

abbrev pub close_conflict : ℕ
close_conflict = 4409

abbrev pub close_limit : ℕ
close_limit = 4429

abbrev pub close_internal : ℕ
close_internal = 4500

abbrev pub close_unavailable : ℕ
close_unavailable = 4503

pub record RelayError : Type 0 where
  pub code : ℕ
  pub retryable : Bool
  pub message : String
  pub close_code : ℕ
  pub is_fatal : Bool

unfoldable pub application_error : ℕ → Bool → String → ℕ → RelayError
application_error code retryable message close_code = record {
  code = code;
  retryable = retryable;
  message = message;
  close_code = close_code;
  is_fatal = false;
}

unfoldable pub fatal_error : ℕ → Bool → String → ℕ → RelayError
unfolding application_error
fatal_error code retryable message close_code =
    record (application_error code retryable message close_code) { is_fatal = true }

-- The kinds of protocol.ProtocolError that the code distinguishes.
pub data ProtocolKind : Type 0 where
  frame_too_large limit invalid_value invalid_frame unknown_opcode malformed : ProtocolKind
  non_canonical other_kind : ProtocolKind

-- `none` is an error that is no protocol error.
unfoldable pub protocol_failure : Option ProtocolKind → RelayError
unfolding fatal_error
protocol_failure none = fatal_error code_internal true "internal relay failure" close_internal
protocol_failure (some frame_too_large) =
    fatal_error code_frame_too_large false "frame exceeds the negotiated limit" close_limit
protocol_failure (some limit) =
    fatal_error code_limit_exceeded false "frame exceeds a protocol limit" close_limit
protocol_failure (some invalid_value) =
    fatal_error code_invalid_value false "frame contains an invalid value" close_protocol
protocol_failure (some invalid_frame) =
    fatal_error code_invalid_value false "frame contains an invalid value" close_protocol
protocol_failure (some _) =
    fatal_error code_malformed_frame false "malformed protocol frame" close_protocol

-- closeReason (connection.go)
unfoldable pub close_reason : ℕ → String
close_reason code =
    if nat_beq code close_auth
    then "authentication_failed"
    else if nat_beq code close_authorization
    then "authorization_failed"
    else if nat_beq code close_timeout
    then "timeout"
    else if nat_beq code close_conflict
    then "conflict"
    else if nat_beq code close_limit
    then "limit_exceeded"
    else if nat_beq code close_unavailable
    then "temporarily_unavailable"
    else if nat_beq code close_internal
    then "internal_failure"
    else "protocol_error"

-- slowConsumer, the failure of every full outbound queue.
abbrev pub slow_consumer : RelayError
slow_consumer = fatal_error code_slow_consumer true "outbound queue limit exceeded" close_limit
