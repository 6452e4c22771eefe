-- ===== src/Relay/Lifecycle.antt =====
-- How connections join and leave a home, and how its coordinators are replaced and expire
-- (internal/relay/home.go).
pub mod Generations
pub mod Departures
use miakapp_server.Prelude.{
  ℕ, zero, suc, ◌+◌, ◌-◌, ◌*◌, ◌/◌, ◌≤◌, ◌<◌, ◌≡◌, refl, sym, ap, subst, ◌∙◌, ◌≢◌, ◌↔◌, ◌⊎◌, inl,
  inr, Bool, true, false, not, ◌&&◌, ◌||◌, Option, none, some, List, [], ◌∷◌, ◌++◌, map, arith, ltb,
  leb, nat_beq, if◌then◌else◌, nat_beq_iff, Bool-cases, Option-cases, Eq, ◌==◌, ◌!=◌, nat_eq,
  length, any, all, All, length-append, String,
}
use miakapp_server.Text.{Text, text_eq}
use miakapp_server.GoMap.{is_some, Map, Set, lookup, insert, erase, get_or, contains, keys}
use miakapp_server.Auth.Identity.{Role, user, coordinator, cli, other, unix_milli}
use miakapp_server.Relay.Errors.{
  close_conflict, close_auth, close_limit, close_unavailable, code_token_expired,
  code_limit_exceeded, code_generation_replaced, code_unavailable, code_unauthenticated, RelayError,
  fatal_error, slow_consumer,
}
use miakapp_server.Relay.World.{
  World, Home, Slot, Env, Session, Handled, SendAction, CoordinatorConfig, set_home, set_session,
  update,
}
use miakapp_server.Relay.Frame.{Frame, CoordinatorStatus, welcome}
use miakapp_server.Relay.Connection.{
  enqueue, dispatch, fail, available, activate_initial_lease, stop,
}
use miakapp_server.Relay.Views.{
  user_enrolled, state_dictionary_frame, state_snapshot_frame, topic_dictionary_frame,
  function_dictionary_frame,
}
use miakapp_server.Relay.Projection.{validate_encodable, remove_owned}
use miakapp_server.Relay.Notices.{
  user_id, with_revision, coordinator_status_including, presence_snapshot_including,
  presence_actions, home_status_actions, capture_user_views, user_view_actions, prune_subscriptions,
  is_session,
}
use miakapp_server.Relay.Declarations.{set_stage}
use miakapp_server.Relay.Calls.{terminate_calls_for_connection}

abbrev pub max_coordinators_per_home : ℕ
max_coordinators_per_home = 64

abbrev pub max_presence_entries : ℕ
max_presence_entries = 4_096

abbrev pub set_users : World → Set ℕ → World
set_users w users = set_home w (record w.home { users = users })

abbrev pub set_connections : World → Set ℕ → World
set_connections w connections = set_home w (record w.home { connections = connections })

abbrev pub set_coordinators : World → Map Text Slot → World
set_coordinators w coordinators = set_home w (record w.home { coordinators = coordinators })

abbrev pub leave : World → ℕ → World
leave w s = set_connections w (erase s w.home.connections)

-- userBootstrapLocked: the four complete frames, and the revision that they show.
unfoldable pub user_bootstrap : World → ℕ → World × List Frame
user_bootstrap w s =
    let id = user_id w s in
    (
      with_revision w s,
      state_dictionary_frame w.home id true
          ∷ state_snapshot_frame w.home id
          ∷ topic_dictionary_frame w.home id true
          ∷ function_dictionary_frame w.home true
          ∷ [],
    )

-- What the role of a new connection prepares: an error, or the frames to bootstrap it with, the
-- connection that it replaces and the notices about that one's calls.
pub data Prepared : Type 0 where
  refused_attach : World → RelayError → Prepared
  prepared : World → Bool → List Frame → Option ℕ → List SendAction → Prepared

abbrev pub presence_limit : RelayError
presence_limit = fatal_error code_limit_exceeded true "home presence limit exceeded" close_limit

unfoldable pub prepare_user : Env → World → ℕ → Prepared
unfolding user_bootstrap
prepare_user env w s =
    if leb max_presence_entries (length w.home.users)
    then refused_attach (leave w s) presence_limit
    else let joined = set_users w (insert s (tt) w.home.users) in
      elim (validate_encodable env (presence_snapshot_including joined (some s))) [
        | some _ ↦ refused_attach (leave (set_users joined (erase s joined.home.users)) s) (
            fatal_error code_limit_exceeded true
              "home presence snapshot would exceed the frame limit" close_limit)
        | none ↦
            let (shown, frames) = user_bootstrap joined s in
            prepared shown (user_enrolled joined.home (user_id joined s)) frames none []
      ]

abbrev pub fresh_slot : Slot
fresh_slot = record {
  generation = 0;
  connection = none;
  ready = false;
  active = none;
  grace = false;
}

-- The routes of the connection that the slot still has are ended.
unfoldable pub end_replaced : World → ℕ → Option ℕ → World × List SendAction
end_replaced w s none = (w, [])
end_replaced w s (some replaced) =
    if nat_beq replaced s then (w, []) else terminate_calls_for_connection w replaced

-- The slot passes to the new connection under the next generation.
unfoldable pub take_slot : World → ℕ → Text → Slot → Prepared
unfolding end_replaced
take_slot w s name slot =
    let (ended, actions) = end_replaced w s slot.connection in
    let generation = slot.generation + 1 in
    let taken = record slot {
      generation = generation;
      connection = some s;
      ready = false;
      grace = false;
    } in
    let held = set_coordinators ended (insert name taken ended.home.coordinators) in
    let known = set_session held s (record (held.sessions s) { generation = generation }) in
    prepared known true (presence_snapshot_including known none ∷ []) slot.connection actions

unfoldable pub prepare_coordinator : World → ℕ → Prepared
unfolding take_slot
prepare_coordinator w s =
    let name = (w.sessions s).identity.coordinator_name in
    elim (lookup name w.home.coordinators) [
      | some slot ↦ take_slot w s name slot
      | none ↦
          if leb max_coordinators_per_home (length w.home.coordinators)
          then refused_attach (leave w s)
              (fatal_error code_limit_exceeded true "home coordinator limit exceeded" close_limit)
          else take_slot w s name fresh_slot
    ]

unfoldable pub prepare : Env → World → ℕ → Role → Prepared
unfolding prepare_user prepare_coordinator
prepare env w s user = prepare_user env w s
prepare env w s coordinator = prepare_coordinator w s
prepare env w s cli = prepared w true [] none []
prepare env w s (other n) =
    refused_attach (leave w s)
      (fatal_error code_unauthenticated false "unsupported authenticated role" close_auth)

-- welcomeFrame (connection.go)
unfoldable pub welcome_frame : Env → World → ℕ → Bool → List CoordinatorStatus → Frame
welcome_frame env w s enrolled coordinators =
    welcome s w.home.epoch enrolled coordinators
      (env.max_frame_bytes ∷ env.max_inflight_calls ∷ env.max_subscriptions
        ∷ env.config.max_queued_bytes ∷ [])
      (unix_milli (w.sessions s).identity.expires_at)

-- The bootstrap frames, up to the first that cannot be queued.
unfoldable pub enqueue_frames : Env → World → ℕ → List Frame → World × Bool
enqueue_frames env w s [] = (w, true)
enqueue_frames env w s (frame ∷ frames) =
    let (w', sent) = enqueue env w s frame false in
    let rest = enqueue_frames env w' s frames in if sent then rest else (w', false)

-- The announcement of a connection whose bootstrap succeeded.
unfoldable pub arrival_actions : Env → World → ℕ → Role → List SendAction
arrival_actions env w s user = presence_actions env w w.home.coordinators s (user_id w s) 1
arrival_actions env w s coordinator = home_status_actions env w
arrival_actions env w s _ = []

abbrev pub lease_lost : RelayError
lease_lost = fatal_error code_token_expired true "access token expired" close_auth

-- WELCOME, the bootstrap frames, and the lease; then the announcement.
unfoldable pub bootstrap :
    Env → World → ℕ → Bool → List Frame → World × Option RelayError × List SendAction
unfolding enqueue_frames arrival_actions
bootstrap env w s enrolled frames =
    let identity = (w.sessions s).identity in
    let statuses = coordinator_status_including env w (some s) in
    let (welcomed, greeted) = enqueue env w s (welcome_frame env w s enrolled statuses) true in
    let (framed, sent) = enqueue_frames env welcomed s frames in
    if not greeted
    then (welcomed, some slow_consumer, [])
    else if not sent
    then (framed, some slow_consumer, [])
    else let (link, leased) = activate_initial_lease env.now (framed.links s) identity.expires_at in
      let installed = record framed { links = update framed.links s link } in
      if not leased
      then (installed, some lease_lost, [])
      else if available env installed s
      then (installed, none, arrival_actions env installed s identity.role)
      else (installed, none, [])

abbrev pub generation_replaced : RelayError
generation_replaced =
    fatal_error code_generation_replaced true "coordinator generation was replaced" close_conflict

unfoldable pub fail_replaced : Env → World → ℕ → Option ℕ → World
fail_replaced env w s none = w
fail_replaced env w s (some replaced) =
    if nat_beq replaced s then w else fail env w replaced none generation_replaced

unfoldable pub finish_attach : Env → ℕ → Prepared → Handled
unfolding bootstrap fail_replaced
finish_attach env s (refused_attach w failure) = (w, some failure)
finish_attach env s (prepared w enrolled frames replaced replacement_actions) =
    let (started, failure, arrival) = bootstrap env w s enrolled frames in
    let told = dispatch env (dispatch env started replacement_actions) arrival in
    (fail_replaced env told s replaced, failure)

-- attach
unfoldable pub attach : Env → World → ℕ → Handled
unfolding finish_attach prepare
attach env w s =
    if w.home.closed
    then (w, some (fatal_error code_unavailable true "relay is shutting down" close_unavailable))
    else let listed = set_connections w (insert s (tt) w.home.connections) in
      finish_attach env s (prepare env listed s (w.sessions s).identity.role)

-- The slot of a coordinator that leaves: it goes, or its disconnect grace starts.
unfoldable pub release_slot : Env → World → ℕ → Bool → Text → Slot → World × List SendAction
release_slot env w s visible name slot =
    if not (is_session slot.connection s) || not (nat_beq slot.generation (w.sessions s).generation)
    then (w, [])
    else if w.home.closed || (not visible && not (is_some slot.active))
    then (set_coordinators w (erase name w.home.coordinators), [])
    else let waiting = set_coordinators w (
        insert name (record slot { connection = none; ready = false; grace = true })
          w.home.coordinators) in
      (waiting, home_status_actions env waiting)

unfoldable pub leave_role : Env → World → ℕ → Bool → Role → World × List SendAction
unfolding release_slot
leave_role env w s visible user =
    let left = set_users w (erase s w.home.users) in
    (
      left,
      if visible && not w.home.closed
          then presence_actions env left left.home.coordinators s (user_id w s) 2
          else [],
    )
leave_role env w s visible coordinator =
    let name = (w.sessions s).identity.coordinator_name in
    elim (lookup name w.home.coordinators) [
      | none ↦ (w, [])
      | some slot ↦ release_slot env w s visible name slot
    ]
leave_role env w s visible _ = (w, [])

-- detach
unfoldable pub detach : Env → World → ℕ → World
unfolding leave_role
detach env w s =
    if not (contains s w.home.connections)
    then w
    else let (ended, actions) = terminate_calls_for_connection (set_stage (leave w s) s none) s in
      let (left, lifecycle) =
        leave_role env ended s (w.links s).bootstrapped (w.sessions s).identity.role in
      dispatch env (dispatch env left actions) lifecycle

-- removeCoordinatorLocked, on a slot with active declarations.
unfoldable pub remove_declarations :
    Env → World → Text → Slot → CoordinatorConfig → World × List SendAction
remove_declarations env w name slot config =
    let views = capture_user_views w (keys w.home.users) in
    let removed = remove_owned (some config) w.home in
    let bumped = record removed {
      coordinators = insert name (record slot { active = none }) removed.coordinators;
      revision = removed.revision + 1;
      policy = removed.policy + 1;
    } in
    user_view_actions env (prune_subscriptions (set_home w bumped)) views true

unfoldable pub remove_coordinator : Env → World → Text → Slot → World × List SendAction
unfolding remove_declarations
remove_coordinator env w name slot = elim slot.active [
  | none ↦ (w, [])
  | some config ↦ remove_declarations env w name slot config
]

-- expireCoordinator on a slot that is still the one that the timer was set for.
unfoldable pub expire_slot : Env → World → Text → Slot → World
unfolding remove_coordinator
expire_slot env w name slot =
    let (removed, actions) = remove_coordinator env w name slot in
    let gone = set_coordinators removed (erase name removed.home.coordinators) in
    let told = dispatch env gone actions in dispatch env told (home_status_actions env told)

-- expireCoordinator, the callback of the disconnect timer.
unfoldable pub expire_coordinator : Env → World → Text → ℕ → World
unfolding expire_slot
expire_coordinator env w name generation = elim (lookup name w.home.coordinators) [
  | none ↦ w
  | some slot ↦
      if not (nat_beq slot.generation generation) || is_some slot.connection
      then w
      else expire_slot env w name slot
]

-- close: the slots with no connection go, and the connections are stopped.
unfoldable pub connected_slots : Map Text Slot → Map Text Slot
connected_slots [] = []
connected_slots ((name, slot) ∷ slots) =
    let rest = connected_slots slots in
    if is_some slot.connection then (name, record slot { grace = false }) ∷ rest else rest

abbrev pub service_restart : ℕ
service_restart = 1012

unfoldable pub stop_all : World → List ℕ → String → World
stop_all w [] reason = w
stop_all w (s ∷ ss) reason = stop_all (stop w s service_restart reason) ss reason

unfoldable pub close_home : World → World
unfolding connected_slots stop_all
close_home w =
    if w.home.closed
    then w
    else stop_all
        (set_home w
          (record w.home { closed = true; coordinators = connected_slots w.home.coordinators }))
        (keys w.home.connections) "service_restart"
