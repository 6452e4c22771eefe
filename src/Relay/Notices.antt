-- ===== src/Relay/Notices.antt =====
-- The frames that a change of the home sends to its users and coordinators (internal/relay/home.go
-- and state.go), and the pruning of subscriptions (events.go).
use miakapp_server.Prelude.{
  ℕ, Bool, true, false, not, ◌&&◌, ◌||◌, Option, none, some, List, [], ◌∷◌, ◌++◌, map, leb, nat_beq,
  if◌then◌else◌, ◌==◌, nat_eq,
}
use miakapp_server.Text.{Text, text_eq, text_leb}
use miakapp_server.GoMap.{Map, lookup, insert, keys, get_or, map_equal}
use miakapp_server.Sort.{sort}
use miakapp_server.Relay.World.{World, Home, Slot, Env, Session, SendAction, set_session}
use miakapp_server.Relay.Frame.{
  Frame, Any, any_equal, CoordinatorStatus, presence_snapshot, presence_change, home_status,
}
use miakapp_server.Relay.Connection.{available}
use miakapp_server.Relay.Views.{
  visible_state, state_dictionary_frame, state_snapshot_frame, topic_dictionary_frame,
  function_dictionary_frame, user_enrolled, user_can_subscribe_topic, select,
}

abbrev pub user_id : World → ℕ → Text
user_id w s = (w.sessions s).identity.id

abbrev pub is_session : Option ℕ → ℕ → Bool
is_session none s = false
is_session (some t) s = nat_beq t s

abbrev pub status_entry : Text → Slot → ℕ → List CoordinatorStatus
status_entry name slot status =
    record { name = name; generation = slot.generation; status = status } ∷ []

-- One slot's entry; a slot whose connection is not available yet and that has no declarations is
-- left out.
unfoldable pub slot_status : Env → World → Option ℕ → Text → Slot → List CoordinatorStatus
slot_status env w extra name slot = elim slot.connection [
  | none ↦ status_entry name slot 2
  | some s ↦
      if is_session extra s || available env w s
      then status_entry name slot 1
      else elim slot.active [ none ↦ [] | some _ ↦ status_entry name slot 2 ]
]

-- coordinatorStatusIncludingLocked
unfoldable pub coordinator_statuses : Env → World → Option ℕ → List Text → List CoordinatorStatus
unfolding slot_status
coordinator_statuses env w extra [] = []
coordinator_statuses env w extra (name ∷ names) =
    elim (lookup name w.home.coordinators) [
      | none ↦ []
      | some slot ↦ slot_status env w extra name slot
    ]
    ++ coordinator_statuses env w extra names

unfoldable pub coordinator_status_including : Env → World → Option ℕ → List CoordinatorStatus
unfolding coordinator_statuses
coordinator_status_including env w extra =
    coordinator_statuses env w extra (sort text_leb (keys w.home.coordinators))

-- presenceSnapshotIncludingLocked
unfoldable pub presence_snapshot_including : World → Option ℕ → Frame
presence_snapshot_including w extra =
    let ids = select (λ s. is_session extra s || (w.links s).bootstrapped) (keys w.home.users) in
    presence_snapshot (map (λ s. (s, user_id w s)) (sort leb ids))

-- The connection of a slot, if it is available.
abbrev pub available_connection : Env → World → Slot → Option ℕ
available_connection env w slot = elim slot.connection [
  | none ↦ none
  | some s ↦ if available env w s then some s else none
]

-- presenceActionsLocked
unfoldable pub presence_actions : Env → World → Map Text Slot → ℕ → Text → ℕ → List SendAction
presence_actions env w [] s user change = []
presence_actions env w ((name, slot) ∷ slots) s user change =
    let rest = presence_actions env w slots s user change in
    elim (available_connection env w slot) [
      | none ↦ rest
      | some target ↦
          record { connection = target; frame = presence_change s user change; priority = false }
          ∷ rest
    ]

-- homeStatusActionsLocked
unfoldable pub status_actions : Env → World → List CoordinatorStatus → List ℕ → List SendAction
status_actions env w statuses [] = []
status_actions env w statuses (s ∷ ss) =
    let rest = status_actions env w statuses ss in
    if available env w s
    then record {
      connection = s;
      frame = home_status (user_enrolled w.home (user_id w s)) statuses;
      priority = true;
    }
      ∷ rest
    else rest

unfoldable pub home_status_actions : Env → World → List SendAction
unfolding status_actions coordinator_status_including
home_status_actions env w =
    status_actions env w (coordinator_status_including env w none) (keys w.home.users)

-- captureUserViewsLocked
unfoldable pub capture_user_views : World → List ℕ → Map ℕ (Map Text Any)
capture_user_views w [] = []
capture_user_views w (s ∷ ss) =
    insert s (visible_state w.home (user_id w s)) (capture_user_views w ss)

abbrev pub view_frames : Home → Text → List Frame
view_frames h user = state_dictionary_frame h user true ∷ state_snapshot_frame h user ∷ []

abbrev pub capability_frames : Home → Text → List Frame
capability_frames h user =
    topic_dictionary_frame h user true ∷ function_dictionary_frame h true ∷ []

abbrev pub to_connection : ℕ → List Frame → List SendAction
to_connection s = map (λ frame. record { connection = s; frame = frame; priority = false })

-- `!reflect.DeepEqual(previous[sessionID], view)`; a missing view is the nil map.
abbrev pub view_changed : Option (Map Text Any) → Map Text Any → Bool
view_changed none view = true
view_changed (some old) view = not (map_equal any_equal old view)

abbrev pub with_revision : World → ℕ → World
with_revision w s =
    set_session w s (record (w.sessions s) { last_state_revision = w.home.revision })

-- userViewActionsLocked over the users that are left: the world, with the revisions that the users
-- have now been sent, and the frames.
unfoldable pub view_actions :
    Env → Map ℕ (Map Text Any) → Bool → World → List ℕ → World × List SendAction
view_actions env previous capabilities w [] = (w, [])
view_actions env previous capabilities w (s ∷ ss) =
    let user = user_id w s in
    let send = view_changed (lookup s previous) (visible_state w.home user) || capabilities in
    let shown = available env w s && send in
    let (w', rest) =
      view_actions env previous capabilities (if shown then with_revision w s else w) ss in
    (
      w',
      (if shown then to_connection s (view_frames w.home user) else [])
          ++ (if available env w s && capabilities
              then to_connection s (capability_frames w.home user)
              else [])
          ++ rest,
    )

unfoldable pub user_view_actions :
    Env → World → Map ℕ (Map Text Any) → Bool → World × List SendAction
unfolding view_actions
user_view_actions env w previous capabilities =
    view_actions env previous capabilities w (keys w.home.users)

-- A subscription stays while its topic is owned and the user may subscribe to it.
abbrev pub subscription_stands : Home → Text → ℕ → Bool
subscription_stands h user topic_id =
    let topic = get_or topic_id [] h.topics.by_id in
    not (get_or topic [] h.topic_owners == []) && user_can_subscribe_topic h user topic

-- pruneSubscriptionsLocked
unfoldable pub prune_session : Home → Session → Session
prune_session h session = record session {
  subscriptions = select (λ e. subscription_stands h session.identity.id e.0) session.subscriptions;
}

unfoldable pub prune_users : World → List ℕ → World
unfolding prune_session
prune_users w [] = w
prune_users w (s ∷ ss) = prune_users (set_session w s (prune_session w.home (w.sessions s))) ss

unfoldable pub prune_subscriptions : World → World
unfolding prune_users
prune_subscriptions w = prune_users w (keys w.home.users)
