-- ===== src/Relay/Views.antt =====
-- What a user may see and do, and the complete frames that show it (internal/relay/state.go and
-- home.go). Access is the union of what the active coordinators grant.
use miakapp_server.Prelude.{
  ℕ, Bool, false, ◌||◌, none, some, List, [], ◌∷◌, map, leb, if◌then◌else◌, nat_eq, any,
}
use miakapp_server.Text.{text_eq, Text, text_leb}
use miakapp_server.GoMap.{Map, lookup, insert, get_or, contains, keys}
use miakapp_server.Sort.{sort}
use miakapp_server.Relay.Patterns.{matches_any}
use miakapp_server.Relay.World.{Home, Slot, CoordinatorConfig, Names}
use miakapp_server.Relay.Frame.{
  Frame, Any, state_dict, state_snapshot, topic_dict, function_dict, nil,
}

-- `exists` over the coordinators that have active declarations.
abbrev pub active_config : (CoordinatorConfig → Bool) → Text × Slot → Bool
active_config p (name, slot) = elim slot.active [ none ↦ false | some config ↦ p config ]

abbrev pub state_grant : Text → Text → CoordinatorConfig → Bool
state_grant user path config = matches_any (get_or user [] config.state_acl) path

abbrev pub publish_grant : Text → Text → CoordinatorConfig → Bool
publish_grant user topic config = elim (lookup user config.event_acl) [
  | none ↦ false
  | some access ↦ matches_any access.publish topic
]

abbrev pub subscribe_grant : Text → Text → CoordinatorConfig → Bool
subscribe_grant user topic config = elim (lookup user config.event_acl) [
  | none ↦ false
  | some access ↦ matches_any access.subscribe topic
]

-- userCanSeeStateLocked
unfoldable pub user_can_see_state : Home → Text → Text → Bool
user_can_see_state h user path = any (active_config (state_grant user path)) h.coordinators

-- userCanPublishTopicLocked
unfoldable pub user_can_publish_topic : Home → Text → Text → Bool
user_can_publish_topic h user topic = any (active_config (publish_grant user topic)) h.coordinators

-- userCanSubscribeTopicLocked
unfoldable pub user_can_subscribe_topic : Home → Text → Text → Bool
user_can_subscribe_topic h user topic =
    any (active_config (subscribe_grant user topic)) h.coordinators

-- userEnrolledLocked
unfoldable pub user_enrolled : Home → Text → Bool
user_enrolled h user =
    any (active_config (λ config. contains user config.state_acl || contains user config.event_acl))
      h.coordinators

-- The entries of a list that pass a test.
unfoldable pub select {ℓ} : {A : Type ℓ} → (A → Bool) → List A → List A
select p [] = []
select p (x ∷ xs) = if p x then x ∷ select p xs else select p xs

-- visibleStateLocked
unfoldable pub visible_state : Home → Text → Map Text Any
visible_state h user = select (λ e. user_can_see_state h user e.0) h.state

abbrev pub sort_ids : List ℕ → List ℕ
sort_ids = sort leb

-- stateDictionaryFrameLocked
unfoldable pub state_dictionary_frame : Home → Text → Bool → Frame
state_dictionary_frame h user replace =
    let names = sort text_leb (select (user_can_see_state h user) (keys h.state_owners)) in
    state_dict h.epoch replace (map (λ name. (get_or name 0 h.paths.by_name, name)) names)

-- The map from identifier to value that stateSnapshotFrameLocked fills.
unfoldable pub values_by_id : Names → Map Text Any → Map ℕ Any → Map ℕ Any
values_by_id names [] values = values
values_by_id names ((path, value) ∷ view) values =
    values_by_id names view (insert (get_or path 0 names.by_name) value values)

-- stateSnapshotFrameLocked
unfoldable pub state_snapshot_frame : Home → Text → Frame
unfolding values_by_id
state_snapshot_frame h user =
    let view = visible_state h user in
    let ids = map (λ e. get_or e.0 0 h.paths.by_name) view in
    let values = values_by_id h.paths view [] in
    state_snapshot h.epoch h.revision (map (λ id. (id, get_or id nil values)) (sort_ids ids))

-- topicDictionaryFrameLocked
unfoldable pub topic_dictionary_frame : Home → Text → Bool → Frame
topic_dictionary_frame h user replace =
    let visible =
      select (λ topic. user_can_publish_topic h user topic || user_can_subscribe_topic h user topic)
        (keys h.topic_owners) in
    let ids = map (λ topic. get_or topic 0 h.topics.by_name) visible in
    topic_dict h.epoch replace (map (λ id. (id, get_or id [] h.topics.by_id)) (sort_ids ids))

-- functionDictionaryFrameLocked
unfoldable pub function_dictionary_frame : Home → Bool → Frame
function_dictionary_frame h replace =
    let ids = map (λ name. get_or name 0 h.functions.by_name) (keys h.function_owners) in
    function_dict h.epoch replace (map (λ id. (id, get_or id [] h.functions.by_id)) (sort_ids ids))
