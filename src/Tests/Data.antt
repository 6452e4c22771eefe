-- ===== src/Tests/Data.antt =====
-- A home with one coordinator, one user and a second connection of the coordinator.
use miakapp_server.Prelude.{ℕ, true, false, none, some, [], ◌∷◌, nat_beq}
use miakapp_server.Text.{Text, codes, text_eq}
use miakapp_server.Config.{default_config}
use miakapp_server.Auth.Identity.{Role, coordinator, user, Identity, Unicode, rejected}
use miakapp_server.Auth.Platform.{failed}
use miakapp_server.Relay.Opcode.{Opcode}
use miakapp_server.Relay.Frame.{nil}
use miakapp_server.Relay.Admission.{Admission}
use miakapp_server.Relay.Outbound.{Outbound}
use miakapp_server.Relay.World.{
  World, Home, Env, Session, Link, Route, Slot, Names, CoordinatorConfig, active,
}

abbrev pub number : Opcode → ℕ
number Opcode.call = 48
number Opcode.call_dispatch = 49
number Opcode.call_accepted = 50
number Opcode.call_result = 51
number Opcode.call_error = 52
number Opcode.call_cancel = 53
number Opcode.call_credit = 54
number _ = 0

abbrev pub printable : Unicode
printable = record { printable = λ t. true }

abbrev pub env : Env
env = record {
  config = default_config;
  now = 1_000;
  encode = λ f. some 100;
  opcode_number = number;
  verifier = λ r. failed rejected;
  verification_time = 20;
  unicode = printable;
  max_frame_bytes = 1_000;
  max_inflight_calls = 4;
  max_subscriptions = 4;
  max_stream_credit = 8;
  max_state_paths = 16;
}

abbrev pub identity_of : Role → Text → Text → Identity
identity_of role id name = record {
  role = role;
  home_id = codes "h";
  id = id;
  client_id = [];
  coordinator_name = name;
  verified_email = [];
  expires_at = 5_000_000_000;
  scopes = [];
}

abbrev pub session_of : Identity → Session
session_of identity = record {
  identity = identity;
  generation = 1;
  event_ids = [];
  subscriptions = [];
  stage = none;
  calls = [];
  next_call_id = 0;
  last_state_revision = 0;
}

abbrev pub empty_queue : Outbound
empty_queue = record { queue = []; queued_bytes = 0; queue_closed = false; close_queued = false }

abbrev pub open_link : Link
open_link = record {
  phase = active;
  bootstrapped = true;
  outbound = empty_queue;
  lease_deadline = some 5_000_000_000;
  lease_generation = 1;
  lease_expired = false;
  request_ids = [];
  fatal_once = false;
  close_once = false;
  drain_once = false;
  detach_requested = false;
  close_status = 0;
  close_reason = "";
}

abbrev pub config : CoordinatorConfig
config = record {
  owned_state = (codes "p", tt) ∷ [];
  state = (codes "p", nil) ∷ [];
  state_acl = (codes "u", codes "p" ∷ []) ∷ [];
  events = (codes "t", record { flags = 15 }) ∷ [];
  event_acl = (codes "u", record { publish = codes "t" ∷ []; subscribe = codes "t" ∷ [] }) ∷ [];
  functions = (codes "f", tt) ∷ [];
}

abbrev pub slot : Slot
slot = record {
  generation = 1;
  connection = some 1;
  ready = true;
  active = some config;
  grace = false;
}

abbrev pub names_of : Text → Names
names_of name = record { by_name = (name, 1) ∷ []; by_id = (1, name) ∷ []; next_id = 2 }

abbrev pub home : Home
home = record {
  id = codes "h";
  epoch = codes "e";
  closed = false;
  revision = 3;
  policy = 2;
  connections = (1, tt) ∷ (2, tt) ∷ [];
  users = (2, tt) ∷ [];
  coordinators = (codes "c", slot) ∷ [];
  paths = names_of (codes "p");
  topics = names_of (codes "t");
  functions = names_of (codes "f");
  state_owners = (codes "p", codes "c") ∷ [];
  topic_owners = (codes "t", codes "c") ∷ [];
  function_owners = (codes "f", codes "c") ∷ [];
  state = (codes "p", nil) ∷ [];
}

-- A call from the user to the coordinator: 7 on the caller's side and 1 on the callee's.
abbrev pub route : Route
route = record {
  caller = 2;
  callee = 1;
  caller_id = 7;
  callee_id = 1;
  credit = 2;
  accepted = true;
  terminal = false;
  deadline = 9_000;
}

abbrev pub sessions : ℕ → Session
sessions s = elim (nat_beq s 2) [
  | true ↦ record (session_of (identity_of user (codes "u") [])) { calls = (7, 0) ∷ [] }
  | false ↦ record (session_of (identity_of coordinator (codes "k") (codes "c"))) {
    calls = (1, 0) ∷ [];
    next_call_id = 1;
  }
]

abbrev pub admission : Admission
admission = record { sources = []; active_connections = 0; queued_bytes = 0 }

abbrev pub world : World
world = record {
  home = home;
  sessions = sessions;
  links = λ s. open_link;
  routes = λ r. route;
  next_route = 1;
  next_stage = 0;
  admission = admission;
}
