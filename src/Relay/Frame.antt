-- ===== src/Relay/Frame.antt =====
-- The frames that the relay receives and sends. `protocol.DecodeFrame` has validated the shape of a
-- received payload, so a frame is a constructor with typed fields in place of a payload of `any`;
-- `event` and `event_routed` share an opcode. A wire integer is a natural number.
use miakapp_server.Prelude.{ℕ, Bool, true, false, ◌&&◌, Option, none, some, List, nat_beq, String}
use miakapp_server.Text.{Text, text_beq}
use miakapp_server.Auth.Identity.{Role, Principal}
use miakapp_server.Relay.Opcode.{Opcode}
use miakapp_server.Relay.Errors.{RelayError}

-- A dynamic value (Go's `any`) of a payload; a float is its bit pattern.
mutual
  pub data Any : Type 0 where
    nil : Any
    boolean : Bool → Any
    integer : ℕ → Any
    float : ℕ → Any
    string : Text → Any
    binary : Text → Any
    array : Items → Any

  pub data Items : Type 0 where
    end : Items
    item : Any → Items → Items

-- reflect.DeepEqual on such values.
unfoldable mutual
  pub any_equal : Any → Any → Bool
  any_equal nil nil = true
  any_equal (boolean true) (boolean true) = true
  any_equal (boolean false) (boolean false) = true
  any_equal (integer m) (integer n) = nat_beq m n
  any_equal (float m) (float n) = nat_beq m n
  any_equal (string s) (string t) = text_beq s t
  any_equal (binary s) (binary t) = text_beq s t
  any_equal (array xs) (array ys) = items_equal xs ys
  any_equal _ _ = false

  pub items_equal : Items → Items → Bool
  items_equal end end = true
  items_equal (item x xs) (item y ys) = any_equal x y && items_equal xs ys
  items_equal _ _ = false

-- One entry of a STATE_SET: `[path id, operation, value]`; operation 1 deletes.
pub record Mutation : Type 0 where
  pub path_id : ℕ
  pub operation : ℕ
  pub value : Any

-- A dictionary entry `[id, name]`.
abbrev pub Dictionary : Type 0
Dictionary = List (ℕ × Text)

-- A coordinator's entry `[name, generation, status]`.
pub record CoordinatorStatus : Type 0 where
  pub name : Text
  pub generation : ℕ
  pub status : ℕ

pub data Frame : Type 0 where
  hello : (major minimum_minor maximum_minor : ℕ) (role : Role) (token context : Text) → Frame
  welcome :
      (session_id : ℕ) (epoch : Text) (enrolled : Bool) (coordinators : List CoordinatorStatus)
      (limits : List ℕ) (expires_at : ℕ)
      → Frame
  reauth : (request_id : ℕ) (token : Text) → Frame
  reauth_ok : (request_id expires_at : ℕ) → Frame
  error :
      (correlation : ℕ) (source : Option Opcode) (code : ℕ) (retryable : Bool) (message : String)
      → Frame
  fatal : (source : Option Opcode) (code : ℕ) (retryable : Bool) (message : String) → Frame
  goaway : (retry_after reason : ℕ) → Frame
  state_sync : (request_id : ℕ) (slice : List (Text × Any)) → Frame
  state_sync_ok : (request_id : ℕ) (epoch : Text) (revision : ℕ) (ids : Dictionary) → Frame
  state_set : (request_id : ℕ) (epoch : Text) (mutations : List Mutation) → Frame
  state_set_ok : (request_id : ℕ) (epoch : Text) (revision : ℕ) → Frame
  state_acl_sync : (request_id : ℕ) (slice : List (Text × List Text)) → Frame
  state_acl_ok : (request_id policy : ℕ) → Frame
  state_resync : (request_id : ℕ) → Frame
  state_dict : (epoch : Text) (replace : Bool) (ids : Dictionary) → Frame
  state_snapshot : (epoch : Text) (revision : ℕ) (entries : List (ℕ × Any)) → Frame
  state_patch : (epoch : Text) (base revision : ℕ) (mutations : List Mutation) → Frame
  event_sync : (request_id : ℕ) (slice : List (Text × ℕ)) → Frame
  event_sync_ok : (request_id : ℕ) (ids : Dictionary) → Frame
  event_acl_sync : (request_id : ℕ) (slice : List (Text × List Text × List Text)) → Frame
  event_acl_ok : (request_id policy : ℕ) → Frame
  subscribe : (request_id : ℕ) (topics : List ℕ) → Frame
  subscribe_ok : (request_id : ℕ) (topics : List ℕ) → Frame
  unsubscribe : (request_id : ℕ) (topics : List ℕ) → Frame
  unsubscribe_ok : (request_id : ℕ) (topics : List ℕ) → Frame
  event : (event_id topic_id target_kind : ℕ) (target payload : Any) → Frame
  event_routed :
      (event_id topic_id target_kind : ℕ) (target : Any) (sender : Principal) (payload : Any)
      → Frame
  topic_dict : (epoch : Text) (replace : Bool) (ids : Dictionary) → Frame
  function_sync : (request_id : ℕ) (slice : List Text) → Frame
  function_sync_ok : (request_id : ℕ) (ids : Dictionary) → Frame
  function_dict : (epoch : Text) (replace : Bool) (ids : Dictionary) → Frame
  call :
      (call_id target_kind : ℕ) (target : Any) (function_id timeout : ℕ) (idempotency_key : Any)
      (credit : ℕ) (arguments : Any)
      → Frame
  call_dispatch :
      (call_id : ℕ) (caller : Principal) (target_kind : ℕ) (target : Any)
      (function_id remaining : ℕ) (idempotency_key : Any) (credit : ℕ) (arguments : Any)
      → Frame
  call_accepted : (call_id : ℕ) → Frame
  call_result : (call_id : ℕ) (final : Bool) (value : Any) → Frame
  call_error : (call_id code : ℕ) (retryable : Bool) (message : String) (details : Any) → Frame
  call_cancel : (call_id reason : ℕ) → Frame
  call_credit : (call_id additional : ℕ) → Frame
  presence_snapshot : (entries : List (ℕ × Text)) → Frame
  presence_change : (session_id : ℕ) (user_id : Text) (change : ℕ) → Frame
  home_status : (enrolled : Bool) (coordinators : List CoordinatorStatus) → Frame

unfoldable pub opcode : Frame → Opcode
opcode (hello _ _ _ _ _ _) = Opcode.hello
opcode (welcome _ _ _ _ _ _) = Opcode.welcome
opcode (reauth _ _) = Opcode.reauth
opcode (reauth_ok _ _) = Opcode.reauth_ok
opcode (error _ _ _ _ _) = Opcode.error
opcode (fatal _ _ _ _) = Opcode.fatal
opcode (goaway _ _) = Opcode.goaway
opcode (state_sync _ _) = Opcode.state_sync
opcode (state_sync_ok _ _ _ _) = Opcode.state_sync_ok
opcode (state_set _ _ _) = Opcode.state_set
opcode (state_set_ok _ _ _) = Opcode.state_set_ok
opcode (state_acl_sync _ _) = Opcode.state_acl_sync
opcode (state_acl_ok _ _) = Opcode.state_acl_ok
opcode (state_resync _) = Opcode.state_resync
opcode (state_dict _ _ _) = Opcode.state_dict
opcode (state_snapshot _ _ _) = Opcode.state_snapshot
opcode (state_patch _ _ _ _) = Opcode.state_patch
opcode (event_sync _ _) = Opcode.event_sync
opcode (event_sync_ok _ _) = Opcode.event_sync_ok
opcode (event_acl_sync _ _) = Opcode.event_acl_sync
opcode (event_acl_ok _ _) = Opcode.event_acl_ok
opcode (subscribe _ _) = Opcode.subscribe
opcode (subscribe_ok _ _) = Opcode.subscribe_ok
opcode (unsubscribe _ _) = Opcode.unsubscribe
opcode (unsubscribe_ok _ _) = Opcode.unsubscribe_ok
opcode (event _ _ _ _ _) = Opcode.event
opcode (event_routed _ _ _ _ _ _) = Opcode.event
opcode (topic_dict _ _ _) = Opcode.topic_dict
opcode (function_sync _ _) = Opcode.function_sync
opcode (function_sync_ok _ _) = Opcode.function_sync_ok
opcode (function_dict _ _ _) = Opcode.function_dict
opcode (call _ _ _ _ _ _ _ _) = Opcode.call
opcode (call_dispatch _ _ _ _ _ _ _ _ _) = Opcode.call_dispatch
opcode (call_accepted _) = Opcode.call_accepted
opcode (call_result _ _ _) = Opcode.call_result
opcode (call_error _ _ _ _ _) = Opcode.call_error
opcode (call_cancel _ _) = Opcode.call_cancel
opcode (call_credit _ _) = Opcode.call_credit
opcode (presence_snapshot _) = Opcode.presence_snapshot
opcode (presence_change _ _ _) = Opcode.presence_change
opcode (home_status _ _) = Opcode.home_status

-- errorFrame, fatalFrame (errors.go). `none` is the source opcode 0.
unfoldable pub error_frame : ℕ → Option Opcode → RelayError → Frame
error_frame correlation source failure =
    error correlation source failure.code failure.retryable failure.message

unfoldable pub fatal_frame : Option Opcode → RelayError → Frame
fatal_frame source failure = fatal source failure.code failure.retryable failure.message

-- callFailureFrame, whose callers all pass no details.
unfoldable pub call_failure_frame : ℕ → ℕ → Bool → String → Any → Frame
call_failure_frame call_id code retryable message details =
    call_error call_id code retryable message details

-- responseRequestIdentifier (connection.go): the request that a response ends.
unfoldable pub response_request_identifier : Frame → Option ℕ
response_request_identifier (reauth_ok id _) = some id
response_request_identifier (state_sync_ok id _ _ _) = some id
response_request_identifier (state_set_ok id _ _) = some id
response_request_identifier (state_acl_ok id _) = some id
response_request_identifier (event_sync_ok id _) = some id
response_request_identifier (event_acl_ok id _) = some id
response_request_identifier (subscribe_ok id _) = some id
response_request_identifier (unsubscribe_ok id _) = some id
response_request_identifier (function_sync_ok id _) = some id
response_request_identifier _ = none

-- requestIdentifier (connection.go): the identifier that a received request claims.
unfoldable pub request_identifier : Frame → Option ℕ
request_identifier (reauth id _) = some id
request_identifier (state_sync id _) = some id
request_identifier (state_set id _ _) = some id
request_identifier (state_acl_sync id _) = some id
request_identifier (state_resync id) = some id
request_identifier (event_sync id _) = some id
request_identifier (event_acl_sync id _) = some id
request_identifier (subscribe id _) = some id
request_identifier (unsubscribe id _) = some id
request_identifier (function_sync id _) = some id
request_identifier _ = none

-- frameCorrelation (connection.go)
unfoldable pub frame_correlation : Frame → ℕ
frame_correlation (reauth id _) = id
frame_correlation (state_sync id _) = id
frame_correlation (state_set id _ _) = id
frame_correlation (state_acl_sync id _) = id
frame_correlation (state_resync id) = id
frame_correlation (event_sync id _) = id
frame_correlation (event_acl_sync id _) = id
frame_correlation (subscribe id _) = id
frame_correlation (unsubscribe id _) = id
frame_correlation (event id _ _ _ _) = id
frame_correlation (event_routed id _ _ _ _ _) = id
frame_correlation (function_sync id _) = id
frame_correlation (call id _ _ _ _ _ _ _) = id
frame_correlation (call_result id _ _) = id
frame_correlation (call_error id _ _ _ _) = id
frame_correlation (call_cancel id _) = id
frame_correlation (call_credit id _) = id
frame_correlation _ = 0
