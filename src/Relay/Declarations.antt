-- ===== src/Relay/Declarations.antt =====
-- internal/relay/declarations.go: the five slices of a coordinator's declaration, staged on its
-- connection and activated together by the last.
pub mod Stages
use mathlib.Core.Logic.{ite}
use miakapp_server.Prelude.{
  ℕ, zero, suc, ◌+◌, ◌-◌, ◌*◌, ◌/◌, ◌≤◌, ◌<◌, ◌≡◌, refl, sym, ap, subst, ◌∙◌, ◌≢◌, ◌↔◌, ◌⊎◌, inl,
  inr, Bool, true, false, not, ◌&&◌, ◌||◌, Option, none, some, List, [], ◌∷◌, ◌++◌, map, arith, ltb,
  leb, nat_beq, if◌then◌else◌, nat_beq_iff, Bool-cases, Option-cases, Eq, ◌==◌, ◌!=◌, nat_eq,
  length, any, all, All, length-append, String,
}
use miakapp_server.Text.{Text, text_eq, text_beq}
use miakapp_server.GoMap.{is_some, Map, Set, lookup, insert, keys, get_or, map_equal, map_within}
use miakapp_server.Sort.{sort}
use miakapp_server.Text.{text_leb}
use miakapp_server.Auth.Identity.{role_beq, coordinator}
use miakapp_server.Relay.Opcode.{Opcode}
use miakapp_server.Relay.Errors.{
  close_unavailable, code_unavailable, close_limit, close_authorization, close_protocol,
  close_timeout, close_conflict, code_wrong_direction, code_ownership_collision,
  code_generation_replaced, code_unexpected_frame, code_deadline_exceeded, code_limit_exceeded,
  RelayError, application_error, fatal_error, slow_consumer,
}
use miakapp_server.Relay.World.{
  World, Home, Slot, Env, Session, SendAction, Stage, Names, Handled, CoordinatorConfig,
  EventAccess, EventDeclaration, set_session, set_home,
}
use miakapp_server.Relay.Frame.{
  Frame, Any, any_equal, Dictionary, state_sync_ok, state_acl_ok, event_sync_ok, event_acl_ok,
  function_sync_ok, error_frame,
}
use miakapp_server.Relay.Connection.{enqueue, dispatch, reply}
use miakapp_server.Relay.Projection.{
  validate_encodable, validate_required_frames, projection_for_activation, active_declarations,
  active_of_slot, remove_owned, install_stage, state_changed, erase_all,
}
use miakapp_server.Relay.Notices.{
  capture_user_views, user_view_actions, prune_subscriptions, home_status_actions, is_session,
}

abbrev pub max_dictionary_entries : ℕ
max_dictionary_entries = 16_384

-- activeCoordinatorLocked (home.go)
unfoldable pub active_coordinator : World → ℕ → Bool → Option RelayError
active_coordinator w s require_ready =
    let session = w.sessions s in
    let replaced = some (
      fatal_error code_generation_replaced true "coordinator generation was replaced"
        close_conflict) in
    elim (lookup session.identity.coordinator_name w.home.coordinators) [
      | none ↦ replaced
      | some slot ↦
          if not (is_session slot.connection s) || not (nat_beq slot.generation session.generation)
          then replaced
          else if require_ready && (not slot.ready || not (is_some slot.active))
          then some (
              application_error code_unavailable true "coordinator declarations are not active"
                close_unavailable)
          else none
    ]

-- The map that a list of decoded entries fills: a later entry replaces an earlier one.
unfoldable pub from_entries : {A V : Type 0} → (A → V) → Map Text V → List (Text × A) → Map Text V
from_entries value m [] = m
from_entries value m ((name, raw) ∷ entries) =
    from_entries value (insert name (value raw) m) entries

unfoldable pub parse_state_slice : List (Text × Any) → Map Text Any
unfolding from_entries
parse_state_slice = from_entries (λ v. v) []

unfoldable pub parse_state_acl : List (Text × List Text) → Map Text (List Text)
unfolding from_entries
parse_state_acl = from_entries (λ v. v) []

unfoldable pub parse_event_slice : List (Text × ℕ) → Map Text EventDeclaration
unfolding from_entries
parse_event_slice = from_entries (λ flags. record { flags = flags }) []

abbrev pub event_access_entry : Text × List Text × List Text → Text × (List Text × List Text)
event_access_entry (user, publish, subscribe) = (user, (publish, subscribe))

unfoldable pub parse_event_acl : List (Text × List Text × List Text) → Map Text EventAccess
unfolding from_entries
parse_event_acl entries =
    from_entries (λ lists. record { publish = lists.0; subscribe = lists.1 }) []
      (map event_access_entry entries)

unfoldable pub parse_function_slice : List Text → Set Text
unfolding from_entries
parse_function_slice names = from_entries (λ v. v) [] (map (λ name. (name, tt)) names)

-- reservePathIDLocked, reserveTopicIDLocked and reserveFunctionIDLocked: the identifier that a name
-- has, or the next one. Nothing but the counter changes.
unfoldable pub reserve_id : Names → Text → Names × ℕ
reserve_id names name =
    let id = get_or name 0 names.by_name in
    if not (nat_beq id 0)
    then (names, id)
    else (record names { next_id = names.next_id + 1 }, names.next_id)

-- The loop that fills the identifiers of a stage.
unfoldable pub reserve_ids : Names → Map Text ℕ → List Text → Names × Map Text ℕ
reserve_ids names ids [] = (names, ids)
reserve_ids names ids (name ∷ rest) =
    let (names', id) = reserve_id names name in reserve_ids names' (insert name id ids) rest

-- dictionaryFromIDs
unfoldable pub dictionary_from_ids : Map Text ℕ → Dictionary
dictionary_from_ids ids = map (λ name. (get_or name 0 ids, name)) (sort text_leb (keys ids))

-- namesAsSet and configFromStage
unfoldable pub config_from_stage : Stage → CoordinatorConfig
config_from_stage stage = record {
  owned_state = map (λ e. (e.0, tt)) stage.state;
  state = stage.state;
  state_acl = stage.state_acl;
  events = stage.events;
  event_acl = stage.event_acl;
  functions = stage.functions;
}

-- aggregateDictionaryCount
unfoldable pub new_names : Map Text ℕ → List Text → ℕ
new_names existing [] = 0
new_names existing (name ∷ names) =
    (if nat_beq (get_or name 0 existing) 0 then 1 else 0) + new_names existing names

unfoldable pub aggregate_dictionary_count : Map Text ℕ → Map Text ℕ → ℕ
unfolding new_names
aggregate_dictionary_count existing staged = length existing + new_names existing (keys staged)

-- A name of the list that another coordinator owns.
unfoldable pub owned_elsewhere : Map Text Text → Text → List Text → Bool
owned_elsewhere owners name =
    any (λ key. let owner = get_or key [] owners in not (owner == []) && not (owner == name))

-- aggregateStateCountLocked, aggregateTopicCountLocked and aggregateFunctionCountLocked. The sum is
-- taken before the difference, which is then exact wherever the limit is exceeded.
unfoldable pub aggregate_count : {V W : Type 0} → Map Text Text → Map Text V → Map Text W → ℕ
aggregate_count owners previous staged = length owners + length staged - length previous

abbrev pub previous_state : Option CoordinatorConfig → Set Text
previous_state none = []
previous_state (some config) = config.owned_state

abbrev pub previous_events : Option CoordinatorConfig → Map Text EventDeclaration
previous_events none = []
previous_events (some config) = config.events

abbrev pub previous_functions : Option CoordinatorConfig → Set Text
previous_functions none = []
previous_functions (some config) = config.functions

abbrev pub ownership_collision : String → RelayError
ownership_collision message =
    application_error code_ownership_collision false message close_conflict

abbrev pub limit_exceeded : String → RelayError
limit_exceeded message = application_error code_limit_exceeded false message close_limit

-- The checks of validateActivationLocked that need no encoding.
unfoldable pub activation_conflict : Env → Home → Text → Stage → Option RelayError
unfolding owned_elsewhere aggregate_count aggregate_dictionary_count
activation_conflict env h name stage =
    let previous = active_declarations h name in
    if owned_elsewhere h.state_owners name (keys stage.state)
    then some (ownership_collision "state path ownership collision")
    else if owned_elsewhere h.topic_owners name (keys stage.events)
    then some (ownership_collision "event topic ownership collision")
    else if owned_elsewhere h.function_owners name (keys stage.functions)
    then some (ownership_collision "function ownership collision")
    else if ltb env.max_state_paths
        (aggregate_count h.state_owners (previous_state previous) stage.state)
    then some (limit_exceeded "home state path limit exceeded")
    else if ltb max_dictionary_entries (aggregate_dictionary_count h.paths.by_name stage.path_ids)
        || ltb max_dictionary_entries (aggregate_dictionary_count h.topics.by_name stage.topic_ids)
        || ltb max_dictionary_entries
            (aggregate_dictionary_count h.functions.by_name stage.function_ids)
    then some (limit_exceeded "home dictionary lifetime limit exceeded")
    else if ltb max_dictionary_entries
          (aggregate_count h.topic_owners (previous_events previous) stage.events)
        || ltb max_dictionary_entries
            (aggregate_count h.function_owners (previous_functions previous) stage.functions)
    then some (limit_exceeded "home dictionary limit exceeded")
    else none

-- validateActivationLocked
unfoldable pub validate_activation :
    Env → World → Text → ℕ → Stage → CoordinatorConfig → Option RelayError
unfolding activation_conflict
validate_activation env w name request stage next =
    elim (activation_conflict env w.home name stage) [
      | some failure ↦ some failure
      | none ↦
          elim (validate_encodable env
            (function_sync_ok request (dictionary_from_ids stage.function_ids))) [
              | some failure ↦ some failure
              | none ↦
                  validate_required_frames env (projection_for_activation w.home name next stage)
                    w.sessions
            ]
    ]

abbrev pub texts_equal : List Text → List Text → Bool
texts_equal [] [] = true
texts_equal (x ∷ xs) (y ∷ ys) = text_beq x y && texts_equal xs ys
texts_equal _ _ = false

abbrev pub access_equal : EventAccess → EventAccess → Bool
access_equal a b = texts_equal a.publish b.publish && texts_equal a.subscribe b.subscribe

-- policyChanged
unfoldable pub policy_changed : Option CoordinatorConfig → CoordinatorConfig → Bool
policy_changed none next = true
policy_changed (some previous) next =
    not (map_equal texts_equal previous.state_acl next.state_acl)
    || not (map_equal (λ a b. nat_beq a.flags b.flags) previous.events next.events)
    || not (map_equal access_equal previous.event_acl next.event_acl)
    || not (map_equal (λ a b. true) previous.functions next.functions)

abbrev pub set_stage : World → ℕ → Option Stage → World
set_stage w s stage = set_session w s (record (w.sessions s) { stage = stage })

-- The home after a valid activation.
unfoldable pub activated_home : Home → Text → Slot → Stage → CoordinatorConfig → Home
activated_home h name slot stage next =
    let installed = install_stage name stage (remove_owned slot.active h) in
    record installed {
      revision = if state_changed slot.active next then h.revision + 1 else h.revision;
      policy = if policy_changed slot.active next then h.policy + 1 else h.policy;
      coordinators =
          insert name (record slot { active = some next; ready = true }) installed.coordinators;
    }

-- What every user is sent after an activation.
unfoldable pub announce_activation : Env → Map ℕ (Map Text Any) → World → World
announce_activation env previous w =
    let (viewed, actions) = user_view_actions env w previous true in
    let sent = dispatch env (prune_subscriptions viewed) actions in
    dispatch env sent (home_status_actions env sent)

-- activateLocked
unfoldable pub activate : Env → World → ℕ → Text → Slot → ℕ → Stage → Handled
activate env w s name slot request stage =
    let next = config_from_stage stage in
    elim (validate_activation env w name request stage next) [
      | some failure ↦ (set_stage w s none, some failure)
      | none ↦
          let (answered, sent) =
            enqueue env w s (function_sync_ok request (dictionary_from_ids stage.function_ids))
              true in
          if not sent
          then (set_stage answered s none, some slow_consumer)
          else let views = capture_user_views answered (keys answered.home.users) in
            let changed =
              set_stage (set_home answered (activated_home answered.home name slot stage next)) s
                none in
            (announce_activation env views changed, none)
    ]

-- stage.timer.Stop() on the stage of a connection, if it has one.
unfoldable pub stop_stage_timer : World → ℕ → World
stop_stage_timer w s = elim (w.sessions s).stage [
  | none ↦ w
  | some old ↦ set_stage w s (some (record old { timer_armed = false }))
]

-- The STATE_SYNC branch: a new stage replaces any other.
unfoldable pub begin_stage : Env → World → ℕ → ℕ → List (Text × Any) → Handled
begin_stage env w s request slice =
    let stopped = stop_stage_timer w s in
    let state = parse_state_slice slice in
    let (paths, ids) = reserve_ids w.home.paths [] (keys state) in
    let reserved = set_home stopped (record w.home { paths = paths }) in
    let response = state_sync_ok request w.home.epoch w.home.revision (dictionary_from_ids ids) in
    elim (validate_encodable env response) [
      | some failure ↦ (reserved, some failure)
      | none ↦
          let stage : Stage = record {
            serial = w.next_stage;
            timer_armed = true;
            expected = Opcode.state_acl_sync;
            state = state;
            state_acl = [];
            events = [];
            event_acl = [];
            functions = [];
            path_ids = ids;
            topic_ids = [];
            function_ids = [];
          } in
          let staged =
            set_stage (record reserved { next_stage = w.next_stage + 1 }) s (some stage) in
          let (answered, sent) = enqueue env staged s response true in
          if sent then (answered, none) else (set_stage answered s none, some slow_consumer)
    ]

pub data Slice : Type 0 where
  acl_slice : List (Text × List Text) → Slice
  event_slice : List (Text × ℕ) → Slice
  event_acl_slice : List (Text × List Text × List Text) → Slice
  function_slice : List Text → Slice

abbrev pub slice_opcode : Slice → Opcode
slice_opcode (acl_slice _) = Opcode.state_acl_sync
slice_opcode (event_slice _) = Opcode.event_sync
slice_opcode (event_acl_slice _) = Opcode.event_acl_sync
slice_opcode (function_slice _) = Opcode.function_sync

pub Opcode-discrete : Discrete Opcode
Opcode-discrete = hlevel

-- The branch of a slice that the stage expects.
unfoldable pub continue_stage : Env → World → ℕ → Text → Slot → ℕ → Stage → Slice → Handled
continue_stage env w s name slot request stage (acl_slice entries) =
    let staged = record stage {
      state_acl = parse_state_acl entries;
      expected = Opcode.event_sync;
    } in
    reply (enqueue env (set_stage w s (some staged)) s (state_acl_ok request w.home.policy) true)
continue_stage env w s name slot request stage (event_slice entries) =
    let events = parse_event_slice entries in
    let (topics, ids) = reserve_ids w.home.topics [] (keys events) in
    let reserved = set_home w (record w.home { topics = topics }) in
    let staged = record stage {
      events = events;
      topic_ids = ids;
      expected = Opcode.event_acl_sync;
    } in
    let response = event_sync_ok request (dictionary_from_ids ids) in
    elim (validate_encodable env response) [
      | some failure ↦ (set_stage reserved s none, some failure)
      | none ↦ reply (enqueue env (set_stage reserved s (some staged)) s response true)
    ]
continue_stage env w s name slot request stage (event_acl_slice entries) =
    let staged = record stage {
      event_acl = parse_event_acl entries;
      expected = Opcode.function_sync;
    } in
    reply (enqueue env (set_stage w s (some staged)) s (event_acl_ok request w.home.policy) true)
continue_stage env w s name slot request stage (function_slice names) =
    let functions = parse_function_slice names in
    let (dictionary, ids) = reserve_ids w.home.functions [] (keys functions) in
    let reserved = set_home w (record w.home { functions = dictionary }) in
    let staged = record stage { functions = functions; function_ids = ids } in
    activate env (set_stage reserved s (some staged)) s name slot request staged

-- The frames of a declaration.
pub data Declaration : Type 0 where
  opening : List (Text × Any) → Declaration
  slice : Slice → Declaration

abbrev pub out_of_order : RelayError
out_of_order =
    application_error code_unexpected_frame false "declaration slices are out of order"
      close_protocol

-- A slice after the first: it must be the one that the stage expects.
unfoldable pub next_slice : Env → World → ℕ → Text → Slot → ℕ → Option Stage → Slice → Handled
unfolding continue_stage
next_slice env w s name slot request none received = (set_stage w s none, some out_of_order)
next_slice env w s name slot request (some stage) received =
    ite (Opcode-discrete stage.expected (slice_opcode received))
      (continue_stage env w s name slot request stage received)
      (set_stage w s none, some out_of_order)

-- handleDeclaration
unfoldable pub handle_declaration : Env → World → ℕ → ℕ → Declaration → Handled
unfolding begin_stage next_slice active_coordinator
handle_declaration env w s request declaration =
    let session = w.sessions s in
    let name = session.identity.coordinator_name in
    if not (role_beq session.identity.role coordinator)
    then (
      w,
      some (
          application_error code_wrong_direction false "only coordinators may declare slices"
            close_authorization),
    )
    else elim (active_coordinator w s false) [
      | some failure ↦ (w, some failure)
      | none ↦ elim (lookup name w.home.coordinators) [
        | none ↦ (w, none)
        | some slot ↦ elim declaration [
          | opening entries ↦ begin_stage env w s request entries
          | slice received ↦ next_slice env w s name slot request session.stage received
        ]
      ]
    ]

-- expireStage, the callback of a stage's timer.
unfoldable pub expire_stage : Env → World → ℕ → ℕ → World
expire_stage env w s serial = elim (w.sessions s).stage [
  | none ↦ w
  | some stage ↦
      if nat_beq stage.serial serial
      then (enqueue env (set_stage w s none) s
          (error_frame 0 none (
            application_error code_deadline_exceeded false "declaration transaction expired"
              close_timeout))
          true).0
      else w
]
