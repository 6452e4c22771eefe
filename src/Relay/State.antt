-- ===== src/Relay/State.antt =====
-- handleState and applyStateSet (internal/relay/state.go).
pub mod Atomic
use miakapp_server.Prelude.{
  ℕ, zero, suc, ◌+◌, ◌-◌, ◌*◌, ◌/◌, ◌≤◌, ◌<◌, ◌≡◌, refl, sym, ap, subst, ◌∙◌, ◌≢◌, ◌↔◌, ◌⊎◌, inl,
  inr, Bool, true, false, not, ◌&&◌, ◌||◌, Option, none, some, List, [], ◌∷◌, ◌++◌, map, arith, ltb,
  leb, nat_beq, if◌then◌else◌, nat_beq_iff, Bool-cases, Option-cases, Eq, ◌==◌, ◌!=◌, nat_eq,
  length, any, all, All, length-append, String,
}
use miakapp_server.Text.{Text, text_eq, text_beq}
use miakapp_server.GoMap.{Map, lookup, insert, erase, get_or, contains, keys}
use miakapp_server.Auth.Identity.{role_beq, coordinator, user}
use miakapp_server.Relay.Errors.{
  close_conflict, code_stale_epoch, close_authorization, code_not_declared, code_forbidden,
  code_wrong_direction, RelayError, application_error, slow_consumer,
}
use miakapp_server.Relay.World.{
  World, Home, Slot, Env, SendAction, Handled, CoordinatorConfig, set_home, set_session,
}
use miakapp_server.Relay.Frame.{Frame, Any, Mutation, state_set_ok, state_patch}
use miakapp_server.Relay.Connection.{enqueue, enqueue_request_terminal, dispatch, available}
use miakapp_server.Relay.Views.{
  state_dictionary_frame, state_snapshot_frame, user_can_see_state, select,
}
use miakapp_server.Relay.Projection.{
  projection_for_state, validate_required_frames, validate_encodable,
}
use miakapp_server.Relay.Notices.{user_id, with_revision}
use miakapp_server.Relay.Declarations.{active_coordinator}

-- The STATE_RESYNC branch: the two frames are queued in order, and the second ends the request.
unfoldable pub resync : Env → World → ℕ → ℕ → Handled
resync env w s request =
    if not (role_beq (w.sessions s).identity.role user)
    then (
      w,
      some (
          application_error code_forbidden false
            "state resynchronization is not available for this role" close_authorization),
    )
    else let id = user_id w s in
      let noted = with_revision w s in
      let (first, sent) = enqueue env noted s (state_dictionary_frame w.home id true) false in
      if not sent
      then (first, some slow_consumer)
      else let (second, ended) =
          enqueue_request_terminal env first s (state_snapshot_frame w.home id) request false in
        (second, if ended then none else some slow_consumer)

pub data Located (A : Type 0) : Type 0 where
  found : A → Located A
  refused_path : String → Located A

-- The path that a mutation names, if the coordinator owns it and its declarations hold it.
unfoldable pub mutation_path : Home → Text → CoordinatorConfig → Mutation → Located Text
mutation_path h name config mutation =
    let path = get_or mutation.path_id [] h.paths.by_id in
    if path == [] || not (get_or path [] h.state_owners == name)
    then refused_path "state mutation references an unowned path"
    else if not (contains path config.owned_state)
    then refused_path "state mutation references an inactive path"
    else found path

abbrev pub prepend : {A : Type 0} → A → Located (List A) → Located (List A)
prepend a (found rest) = found (a ∷ rest)
prepend a (refused_path message) = refused_path message

-- The paths of all mutations, or the message of the first that is refused.
unfoldable pub mutation_paths :
    Home → Text → CoordinatorConfig → List Mutation → Located (List (Text × Mutation))
unfolding mutation_path
mutation_paths h name config [] = found []
mutation_paths h name config (m ∷ ms) = elim (mutation_path h name config m) [
  | refused_path message ↦ refused_path message
  | found path ↦ prepend (path, m) (mutation_paths h name config ms)
]

-- Operation 1 deletes, any other sets.
unfoldable pub mutate : Map Text Any → Text × Mutation → Map Text Any
mutate state (path, m) =
    if nat_beq m.operation 1 then erase path state else insert path m.value state

unfoldable pub mutate_all : Map Text Any → List (Text × Mutation) → Map Text Any
unfolding mutate
mutate_all state [] = state
mutate_all state (m ∷ ms) = mutate_all (mutate state m) ms

-- The patch of one user, or a snapshot of the projection where the patch cannot be encoded.
unfoldable pub patch_frame : Env → World → Home → ℕ → List Mutation → Frame
patch_frame env w projection s visible =
    let last = (w.sessions s).last_state_revision in
    let base = if nat_beq last 0 then w.home.revision else last in
    let patch = state_patch w.home.epoch base projection.revision visible in
    elim (validate_encodable env patch) [
      | none ↦ patch
      | some _ ↦ state_snapshot_frame projection (user_id w s)
    ]

abbrev pub visible_mutations : Home → Text → List (Text × Mutation) → List Mutation
visible_mutations h viewer ms = map (λ e. e.1) (select (λ e. user_can_see_state h viewer e.0) ms)

-- One action for every available user who may see a mutated path.
unfoldable pub patch_actions :
    Env → World → Home → List (Text × Mutation) → List ℕ → List SendAction
unfolding patch_frame
patch_actions env w projection ms [] = []
patch_actions env w projection ms (s ∷ ss) =
    let rest = patch_actions env w projection ms ss in
    let visible = visible_mutations w.home (user_id w s) ms in
    if not (available env w s) || nat_beq (length visible) 0
    then rest
    else record { connection = s; frame = patch_frame env w projection s visible; priority = false }
      ∷ rest

-- The home after the mutations: its state, and the state in the owner's declarations.
unfoldable pub mutated_home : Home → Text → Slot → CoordinatorConfig → List (Text × Mutation) → Home
unfolding mutate_all
mutated_home h name slot config ms = record h {
  state = mutate_all h.state ms;
  revision = h.revision + 1;
  coordinators =
      insert name
        (record slot { active = some (record config { state = mutate_all config.state ms }) })
        h.coordinators;
}

unfoldable pub note_revisions : World → List SendAction → World
note_revisions w [] = w
note_revisions w (action ∷ actions) = note_revisions (with_revision w action.connection) actions

-- The commit: the answer is queued first, and nothing changes if it cannot be.
unfoldable pub commit_mutations :
    Env → World → ℕ → Text → Slot → CoordinatorConfig → ℕ → List (Text × Mutation) → Handled
unfolding mutated_home
commit_mutations env w s name slot config request ms =
    let projection =
      projection_for_state w.home (mutate_all w.home.state ms) (w.home.revision + 1) in
    elim (validate_required_frames env projection w.sessions) [
      | some failure ↦ (w, some failure)
      | none ↦
          let actions = patch_actions env w projection ms (keys w.home.users) in
          let (answered, sent) =
            enqueue env w s (state_set_ok request w.home.epoch (w.home.revision + 1)) true in
          if not sent
          then (answered, some slow_consumer)
          else let changed = set_home answered (mutated_home answered.home name slot config ms) in
            (dispatch env (note_revisions changed actions) actions, none)
    ]

abbrev pub not_declared : String → RelayError
not_declared message = application_error code_not_declared false message close_authorization

-- The slot's declarations, once `active_coordinator` has accepted the sender.
unfoldable pub set_on_slot : Env → World → ℕ → Text → Option Slot → ℕ → List Mutation → Handled
unfolding commit_mutations mutation_paths
set_on_slot env w s name none request ms = (w, none)
set_on_slot env w s name (some slot) request ms = elim slot.active [
  | none ↦ (w, none)
  | some config ↦ elim (mutation_paths w.home name config ms) [
    | refused_path message ↦ (w, some (not_declared message))
    | found located ↦ commit_mutations env w s name slot config request located
  ]
]

abbrev pub only_coordinators_mutate : RelayError
only_coordinators_mutate =
    application_error code_wrong_direction false "only coordinators may mutate state"
      close_authorization

abbrev pub stale_epoch : RelayError
stale_epoch =
    application_error code_stale_epoch true "state mutation uses a stale epoch" close_conflict

-- applyStateSet
unfoldable pub apply_state_set : Env → World → ℕ → ℕ → Text → List Mutation → Handled
unfolding set_on_slot
apply_state_set env w s request epoch ms =
    let identity = (w.sessions s).identity in
    if not (role_beq identity.role coordinator)
    then (w, some only_coordinators_mutate)
    else if not (text_beq epoch w.home.epoch)
    then (w, some stale_epoch)
    else elim (active_coordinator w s true) [
      | some failure ↦ (w, some failure)
      | none ↦
          set_on_slot env w s identity.coordinator_name
            (lookup identity.coordinator_name w.home.coordinators) request ms
    ]
