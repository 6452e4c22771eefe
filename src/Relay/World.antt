-- ===== src/Relay/World.antt =====
-- The state of one home and of its connections (home.go, connection.go, declarations.go, calls.go).
-- A pointer to a connection is its session id and a pointer to a route is a number; both heaps are
-- total functions, since the code follows no nil pointer. What the home's lock guards of a
-- connection is its `Session`; what the connection's own locks and atomics guard is its `Link`.
use miakapp_server.Prelude.{
  ℕ, Bool, false, Option, List, [], nat_beq, if◌then◌else◌, nat_eq, String,
}
use miakapp_server.GoMap.{Map, Set}
use miakapp_server.Text.{Text}
use miakapp_server.Config.{Config}
use miakapp_server.Auth.Platform.{Access}
use miakapp_server.Auth.Identity.{Request, Unicode, Identity}
use miakapp_server.Relay.Opcode.{Opcode}
use miakapp_server.Relay.Errors.{RelayError}
use miakapp_server.Relay.Frame.{Frame, Any}
use miakapp_server.Relay.Admission.{Admission}
use miakapp_server.Relay.Outbound.{Outbound}

pub data Phase : Type 0 where
  await_hello active draining closed : Phase

pub record EventDeclaration : Type 0 where
  pub flags : ℕ

pub record EventAccess : Type 0 where
  pub publish : List Text
  pub subscribe : List Text

pub record CoordinatorConfig : Type 0 where
  pub owned_state : Set Text
  pub state : Map Text Any
  pub state_acl : Map Text (List Text)
  pub events : Map Text EventDeclaration
  pub event_acl : Map Text EventAccess
  pub functions : Set Text

-- declarationStage; `serial` is its address, which the expiry timer compares, and `timer_armed` says
-- that the timer has not been stopped.
pub record Stage : Type 0 where
  pub serial : ℕ
  pub timer_armed : Bool
  pub expected : Opcode
  pub state : Map Text Any
  pub state_acl : Map Text (List Text)
  pub events : Map Text EventDeclaration
  pub event_acl : Map Text EventAccess
  pub functions : Set Text
  pub path_ids : Map Text ℕ
  pub topic_ids : Map Text ℕ
  pub function_ids : Map Text ℕ

pub record Session : Type 0 where
  pub identity : Identity
  pub generation : ℕ
  pub event_ids : Set ℕ
  pub subscriptions : Set ℕ
  pub stage : Option Stage
  pub calls : Map ℕ ℕ
  pub next_call_id : ℕ
  pub last_state_revision : ℕ

pub record Link : Type 0 where
  pub phase : Phase
  pub bootstrapped : Bool
  pub outbound : Outbound
  pub lease_deadline : Option ℕ
  pub lease_generation : ℕ
  pub lease_expired : Bool
  pub request_ids : Set ℕ
  pub fatal_once : Bool
  pub close_once : Bool
  pub drain_once : Bool
  pub detach_requested : Bool
  pub close_status : ℕ
  pub close_reason : String

pub record Route : Type 0 where
  pub caller : ℕ
  pub callee : ℕ
  pub caller_id : ℕ
  pub callee_id : ℕ
  pub credit : ℕ
  pub accepted : Bool
  pub terminal : Bool
  pub deadline : ℕ

-- coordinatorSlot; its name is its key. `grace` says that the disconnect timer is armed.
pub record Slot : Type 0 where
  pub generation : ℕ
  pub connection : Option ℕ
  pub ready : Bool
  pub active : Option CoordinatorConfig
  pub grace : Bool

-- One dictionary of a home: its two maps and its counter.
pub record Names : Type 0 where
  pub by_name : Map Text ℕ
  pub by_id : Map ℕ Text
  pub next_id : ℕ

pub record Home : Type 0 where
  pub id : Text
  pub epoch : Text
  pub closed : Bool
  pub revision : ℕ
  pub policy : ℕ
  pub connections : Set ℕ
  pub users : Set ℕ
  pub coordinators : Map Text Slot
  pub paths : Names
  pub topics : Names
  pub functions : Names
  pub state_owners : Map Text Text
  pub topic_owners : Map Text Text
  pub function_owners : Map Text Text
  pub state : Map Text Any

-- `next_route` and `next_stage` are the addresses of the next route and stage to be allocated.
pub record World : Type 0 where
  pub home : Home
  pub sessions : ℕ → Session
  pub links : ℕ → Link
  pub routes : ℕ → Route
  pub next_route : ℕ
  pub next_stage : ℕ
  pub admission : Admission

-- What a handler runs under: the configuration, the clock, the protocol library's encoder (the
-- length of the encoded frame, or `none` where it refuses), its opcode numbers and its limits, and
-- the token verifier; `verification_time` is how long the verifier takes over a replacement token.
pub record Env : Type 0 where
  pub config : Config
  pub now : ℕ
  pub encode : Frame → Option ℕ
  pub opcode_number : Opcode → ℕ
  pub verifier : Request → Access
  pub verification_time : ℕ
  pub unicode : Unicode
  pub max_frame_bytes : ℕ
  pub max_inflight_calls : ℕ
  pub max_subscriptions : ℕ
  pub max_stream_credit : ℕ
  pub max_state_paths : ℕ

-- sendAction
pub record SendAction : Type 0 where
  pub connection : ℕ
  pub frame : Frame
  pub priority : Bool

-- The handlers' result: nil, or the error that they return.
abbrev pub Handled : Type 0
Handled = World × Option RelayError

abbrev pub update {ℓ} : {A : Type ℓ} → (ℕ → A) → ℕ → A → ℕ → A
update heap p v q = if nat_beq p q then v else heap q

abbrev pub set_session : World → ℕ → Session → World
set_session w s session = record w { sessions = update w.sessions s session }

abbrev pub set_home : World → Home → World
set_home w h = record w { home = h }

abbrev pub empty_names : Names
empty_names = record { by_name = []; by_id = []; next_id = 1 }

-- newHome, given the random epoch.
unfoldable pub new_home : Text → Text → Home
new_home id epoch = record {
  id = id;
  epoch = epoch;
  closed = false;
  revision = 1;
  policy = 1;
  connections = [];
  users = [];
  coordinators = [];
  paths = empty_names;
  topics = empty_names;
  functions = empty_names;
  state_owners = [];
  topic_owners = [];
  function_owners = [];
  state = [];
}
