-- ===== src/Relay/Projection.antt =====
-- internal/relay/projection.go: the home as it would be after a change, on which every complete
-- frame that a client needs for recovery is encoded before the change is made.
use miakapp_server.Prelude.{
  ℕ, ◌+◌, Bool, true, false, not, Option, none, some, List, [], ◌∷◌, map, if◌then◌else◌, nat_eq,
  String,
}
use miakapp_server.Text.{Text, text_eq}
use miakapp_server.GoMap.{Map, Set, lookup, insert, erase, keys}
use miakapp_server.Relay.World.{Home, Slot, CoordinatorConfig, Stage, Names, Env, Session}
use miakapp_server.Relay.Frame.{Frame, Any, any_equal}
use miakapp_server.Relay.Errors.{RelayError, application_error, code_limit_exceeded, close_limit}
use miakapp_server.GoMap.{map_equal}
use miakapp_server.Relay.Views.{
  state_dictionary_frame, state_snapshot_frame, topic_dictionary_frame, function_dictionary_frame,
}

-- validateFrame
unfoldable pub validate_frame : Env → Frame → String → Option RelayError
validate_frame env frame message = elim (env.encode frame) [
  | none ↦ some (application_error code_limit_exceeded false message close_limit)
  | some size ↦ none
]

-- validateEncodable
unfoldable pub validate_encodable : Env → Frame → Option RelayError
unfolding validate_frame
validate_encodable env frame =
    validate_frame env frame "update would make a required complete frame unencodable"

-- validateRoutableFrame
unfoldable pub validate_routable_frame : Env → Frame → Option RelayError
unfolding validate_frame
validate_routable_frame env frame =
    validate_frame env frame "forwarded frame would exceed protocol limits"

-- A slot of a projection has its declarations only.
abbrev pub projected_slot : Slot → Slot
projected_slot slot = record {
  generation = 0;
  connection = none;
  ready = false;
  active = slot.active;
  grace = false;
}

-- baseProjectionLocked, which projectionForStateLocked calls. The users, the dictionaries and the
-- owners are those of the home.
unfoldable pub projection_for_state : Home → Map Text Any → ℕ → Home
projection_for_state h state revision = record h {
  state = state;
  revision = revision;
  policy = 0;
  connections = [];
  coordinators = map (λ e. (e.0, projected_slot e.1)) h.coordinators;
}

-- delete(m, key) for each of the keys
unfoldable pub erase_all : {V : Type 0} → List Text → Map Text V → Map Text V
erase_all [] m = m
erase_all (k ∷ ks) m = erase_all ks (erase k m)

-- m[key] = v for each of the keys
unfoldable pub assign_all : {V : Type 0} → List Text → V → Map Text V → Map Text V
assign_all [] v m = m
assign_all (k ∷ ks) v m = assign_all ks v (insert k v m)

-- m[key] = value for each entry
unfoldable pub insert_all : {V : Type 0} → Map Text V → Map Text V → Map Text V
insert_all [] m = m
insert_all ((k, v) ∷ es) m = insert_all es (insert k v m)

-- The reserved identifiers enter the two maps of a dictionary.
unfoldable pub commit_ids : Names → Map Text ℕ → Names
commit_ids names [] = names
commit_ids names ((name, id) ∷ ids) =
    commit_ids
      (record names { by_name = insert name id names.by_name; by_id = insert id name names.by_id })
      ids

-- The names of a configuration leave the owners' maps and the state.
unfoldable pub remove_owned : Option CoordinatorConfig → Home → Home
unfolding erase_all
remove_owned none h = h
remove_owned (some previous) h = record h {
  state_owners = erase_all (keys previous.owned_state) h.state_owners;
  state = erase_all (keys previous.owned_state) h.state;
  topic_owners = erase_all (keys previous.events) h.topic_owners;
  function_owners = erase_all (keys previous.functions) h.function_owners;
}

-- Those of a stage enter them, and its identifiers the dictionaries.
unfoldable pub install_stage : Text → Stage → Home → Home
unfolding commit_ids assign_all insert_all
install_stage name stage h = record h {
  paths = commit_ids h.paths stage.path_ids;
  topics = commit_ids h.topics stage.topic_ids;
  functions = commit_ids h.functions stage.function_ids;
  state_owners = assign_all (keys stage.state) name h.state_owners;
  state = insert_all stage.state h.state;
  topic_owners = assign_all (keys stage.events) name h.topic_owners;
  function_owners = assign_all (keys stage.functions) name h.function_owners;
}

-- The active declarations of a coordinator, if it has any.
abbrev pub active_of_slot : Option Slot → Option CoordinatorConfig
active_of_slot none = none
active_of_slot (some slot) = slot.active

abbrev pub active_declarations : Home → Text → Option CoordinatorConfig
active_declarations h name = active_of_slot (lookup name h.coordinators)

-- `previous == nil || !reflect.DeepEqual(previous.state, next.state)`
abbrev pub state_changed : Option CoordinatorConfig → CoordinatorConfig → Bool
state_changed none next = true
state_changed (some previous) next = not (map_equal any_equal previous.state next.state)

-- projectionForActivationLocked
unfoldable pub projection_for_activation : Home → Text → CoordinatorConfig → Stage → Home
unfolding projection_for_state remove_owned install_stage
projection_for_activation h name next stage =
    let previous = active_declarations h name in
    let revision = if state_changed previous next then h.revision + 1 else h.revision in
    let installed =
      install_stage name stage (remove_owned previous (projection_for_state h h.state revision)) in
    record installed {
      coordinators =
          insert name
            (record {
              generation = 0;
              connection = none;
              ready = false;
              active = some next;
              grace = false;
            })
            installed.coordinators;
    }

-- The first failure among some frames.
unfoldable pub first_unencodable : Env → List Frame → Option RelayError
unfolding validate_encodable
first_unencodable env [] = none
first_unencodable env (frame ∷ frames) = elim (validate_encodable env frame) [
  | some failure ↦ some failure
  | none ↦ first_unencodable env frames
]

-- The users that are connected or that an active declaration names.
unfoldable pub users_named : Map Text Slot → Set Text → Set Text
unfolding assign_all
users_named [] ids = ids
users_named ((name, slot) ∷ slots) ids = users_named slots (elim slot.active [
  | none ↦ ids
  | some config ↦
      assign_all (keys config.event_acl) (tt) (assign_all (keys config.state_acl) (tt) ids)
])

unfoldable pub required_users : Home → (ℕ → Session) → Set Text
unfolding users_named
required_users h sessions =
    users_named h.coordinators
      (assign_all (map (λ s. (sessions s).identity.id) (keys h.users)) (tt) [])

unfoldable pub first_user_failure : Env → Home → List Text → Option RelayError
unfolding first_unencodable
first_user_failure env h [] = none
first_user_failure env h (user ∷ users) =
    elim (first_unencodable env (
      state_dictionary_frame h user true
      ∷ state_snapshot_frame h user
      ∷ topic_dictionary_frame h user true
      ∷ [])) [ some failure ↦ some failure | none ↦ first_user_failure env h users ]

-- validateRequiredFramesLocked
unfoldable pub validate_required_frames : Env → Home → (ℕ → Session) → Option RelayError
unfolding validate_encodable first_user_failure required_users
validate_required_frames env h sessions =
    elim (validate_encodable env (function_dictionary_frame h true)) [
      | some failure ↦ some failure
      | none ↦ first_user_failure env h (keys (required_users h sessions))
    ]
