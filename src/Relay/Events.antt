-- ===== src/Relay/Events.antt =====
-- internal/relay/events.go: subscriptions and the routing of events.
pub mod Delivery
pub mod Consent
pub mod Unchanged
pub mod Subscriptions
use miakapp_server.Prelude.{
  ◌%◌, ℕ, zero, suc, ◌+◌, ◌-◌, ◌*◌, ◌/◌, ◌≤◌, ◌<◌, ◌≡◌, refl, sym, ap, subst, ◌∙◌, ◌≢◌, ◌↔◌, ◌⊎◌,
  inl, inr, Bool, true, false, not, ◌&&◌, ◌||◌, Option, none, some, List, [], ◌∷◌, ◌++◌, map, arith,
  ltb, leb, nat_beq, if◌then◌else◌, nat_beq_iff, Bool-cases, Option-cases, Eq, ◌==◌, ◌!=◌, nat_eq,
  length, any, all, All, length-append, String,
}
use miakapp_server.Text.{Text, text_eq}
use miakapp_server.GoMap.{Map, Set, lookup, insert, erase, get_or, contains, keys}
use miakapp_server.Sort.{sort}
use miakapp_server.Auth.Identity.{Role, role_beq, coordinator, user, cli, other, principal}
use miakapp_server.Relay.Errors.{
  close_limit, code_limit_exceeded, close_authorization, close_protocol, close_unavailable,
  code_unavailable, code_forbidden, code_no_coordinator, code_invalid_value, code_not_declared,
  code_not_enrolled, code_wrong_direction, RelayError, application_error, slow_consumer,
}
use miakapp_server.Relay.World.{
  World, Home, Slot, Env, Session, Handled, EventDeclaration, set_session,
}
use miakapp_server.Relay.Frame.{
  Frame, Any, nil, integer, string, subscribe_ok, unsubscribe_ok, event_routed,
}
use miakapp_server.Relay.Connection.{enqueue, reply, reply_or, available, claim_event_id}
use miakapp_server.Relay.Views.{user_can_publish_topic, user_can_subscribe_topic, user_enrolled}
use miakapp_server.Relay.Projection.{validate_routable_frame}
use miakapp_server.Relay.Notices.{user_id, is_session, available_connection}
use miakapp_server.Relay.Declarations.{active_coordinator}

-- The bits of an event's flags.
abbrev pub accepts_users : EventDeclaration → Bool
accepts_users d = nat_beq (d.flags % 2) 1

abbrev pub publishes_users : EventDeclaration → Bool
publishes_users d = nat_beq (d.flags / 2 % 2) 1

abbrev pub accepts_coordinators : EventDeclaration → Bool
accepts_coordinators d = nat_beq (d.flags / 4 % 2) 1

abbrev pub publishes_coordinators : EventDeclaration → Bool
publishes_coordinators d = nat_beq (d.flags / 8 % 2) 1

-- The subscribing loop: a refused topic refuses all; `fresh` counts topics not yet subscribed.
unfoldable pub may_subscribe : Home → Text → ℕ → Bool
may_subscribe h id topic_id =
    let topic = get_or topic_id [] h.topics.by_id in
    not (topic == []) && user_can_subscribe_topic h id topic

unfoldable pub fresh_count : Set ℕ → List ℕ → ℕ
fresh_count subscribed [] = 0
fresh_count subscribed (id ∷ ids) =
    (if contains id subscribed then 0 else 1) + fresh_count subscribed ids

unfoldable pub insert_ids : Set ℕ → List ℕ → Set ℕ
insert_ids subscribed [] = subscribed
insert_ids subscribed (id ∷ ids) = insert_ids (insert id (tt) subscribed) ids

unfoldable pub erase_ids : Set ℕ → List ℕ → Set ℕ
erase_ids subscribed [] = subscribed
erase_ids subscribed (id ∷ ids) = erase_ids (erase id subscribed) ids

-- int64SliceValues
unfoldable pub int64_slice_values : List ℕ → List ℕ
int64_slice_values ids = sort leb ids

abbrev pub only_users_subscribe : RelayError
only_users_subscribe =
    application_error code_wrong_direction false "only user sessions subscribe in protocol 1.0"
      close_authorization

abbrev pub not_enrolled : RelayError
not_enrolled = application_error code_not_enrolled false "user is not enrolled" close_authorization

abbrev pub set_subscriptions : World → ℕ → Set ℕ → World
set_subscriptions w s subscriptions =
    set_session w s (record (w.sessions s) { subscriptions = subscriptions })

unfoldable pub subscribe : Env → World → ℕ → ℕ → List ℕ → Handled
unfolding may_subscribe fresh_count insert_ids
subscribe env w s request ids =
    let session = w.sessions s in
    let id = session.identity.id in
    if not (role_beq session.identity.role user)
    then (w, some only_users_subscribe)
    else if not (user_enrolled w.home id)
    then (w, some not_enrolled)
    else if not (all (may_subscribe w.home id) ids)
    then (
      w,
      some (
          application_error code_forbidden false "topic subscription is not authorized"
            close_authorization),
    )
    else if ltb env.max_subscriptions
        (length session.subscriptions + fresh_count session.subscriptions ids)
    then (
      w,
      some (application_error code_limit_exceeded false "subscription limit exceeded" close_limit),
    )
    else reply (
        enqueue env (set_subscriptions w s (insert_ids session.subscriptions ids)) s
          (subscribe_ok request (int64_slice_values ids)) true)

unfoldable pub unsubscribe : Env → World → ℕ → ℕ → List ℕ → Handled
unfolding erase_ids
unsubscribe env w s request ids =
    let session = w.sessions s in
    if not (role_beq session.identity.role user)
    then (w, some only_users_subscribe)
    else if not (all (λ id. contains id session.subscriptions) ids)
    then (
      w,
      some
          (application_error code_not_declared false "topic is not subscribed" close_authorization),
    )
    else reply (
        enqueue env (set_subscriptions w s (erase_ids session.subscriptions ids)) s
          (unsubscribe_ok request (int64_slice_values ids)) true)

-- A user that the broadcast reaches.
unfoldable pub is_recipient : Env → World → Text → ℕ → ℕ → Bool
is_recipient env w topic topic_id s =
    available env w s
    && contains topic_id (w.sessions s).subscriptions
    && user_can_subscribe_topic w.home (user_id w s) topic

-- The broadcast loop; the flag says that some user was reached.
unfoldable pub broadcast : Env → World → Text → ℕ → Frame → Bool → List ℕ → World × Bool
unfolding is_recipient
broadcast env w topic topic_id frame delivered [] = (w, delivered)
broadcast env w topic topic_id frame delivered (s ∷ ss) =
    let (w', sent) = enqueue env w s frame false in
    let reached = is_recipient env w topic topic_id s in
    broadcast env (if reached then w' else w) topic topic_id frame
      (if reached then delivered || sent else delivered) ss

abbrev pub unavailable : String → RelayError
unavailable message = application_error code_unavailable true message close_unavailable

abbrev pub no_coordinator : String → RelayError
no_coordinator message = application_error code_no_coordinator true message close_unavailable

abbrev pub wrong_direction : String → RelayError
wrong_direction message = application_error code_wrong_direction false message close_authorization

abbrev pub forbidden : String → RelayError
forbidden message = application_error code_forbidden false message close_authorization

-- The connection of a slot that is ready, if it is available.
abbrev pub ready_connection : Env → World → Option Slot → Option ℕ
ready_connection env w none = none
ready_connection env w (some slot) = if slot.ready then available_connection env w slot else none

unfoldable pub route_to_subscribers :
    Env → World → EventDeclaration → Text → ℕ → Any → Frame → Handled
unfolding broadcast
route_to_subscribers env w declaration topic topic_id nil frame =
    if not (publishes_users declaration)
    then (w, some (wrong_direction "event is not declared for user delivery"))
    else let (w', delivered) = broadcast env w topic topic_id frame false (keys w.home.users) in
      (w', if delivered then none else some (unavailable "event has no available subscriber"))
route_to_subscribers env w declaration topic topic_id _ frame = (
  w,
  some (
      application_error code_invalid_value false "default event target must be null"
        close_protocol),
)

-- `integer(target)` of a validated session target.
unfoldable pub route_to_user : Env → World → EventDeclaration → Text → ℕ → ℕ → Frame → Handled
route_to_user env w declaration topic topic_id target frame =
    if not (publishes_users declaration)
    then (w, some (wrong_direction "event is not declared for user delivery"))
    else if not (contains target w.home.users) || not (available env w target)
    then (w, some (unavailable "target user session is unavailable"))
    else if not (contains topic_id (w.sessions target).subscriptions)
        || not (user_can_subscribe_topic w.home (user_id w target) topic)
    then (w, some (forbidden "target user is not subscribed"))
    else reply_or (enqueue env w target frame false)
        (unavailable "target user session is unavailable")

unfoldable pub route_to_coordinator : Env → World → ℕ → EventDeclaration → Text → Frame → Handled
route_to_coordinator env w s declaration name frame =
    if not (publishes_coordinators declaration) || not (accepts_coordinators declaration)
    then (w, some (wrong_direction "event is not declared for coordinator routing"))
    else elim (ready_connection env w (lookup name w.home.coordinators)) [
      | none ↦ (w, some (no_coordinator "target coordinator is unavailable"))
      | some target ↦
          if nat_beq target s
          then (w, some (no_coordinator "target coordinator is unavailable"))
          else reply_or (enqueue env w target frame false) (no_coordinator_full)
    ]
  where
    no_coordinator_full : RelayError
    no_coordinator_full = unavailable "target coordinator is unavailable"

-- The number and the text of a target that the protocol has validated for its kind.
abbrev pub target_number : Any → ℕ
target_number (integer n) = n
target_number _ = 0

abbrev pub target_text : Any → Text
target_text (string s) = s
target_text _ = []

-- routeCoordinatorEventLocked
unfoldable pub route_coordinator_event :
    Env → World → ℕ → EventDeclaration → Text → ℕ → ℕ → Any → Frame → Handled
unfolding route_to_subscribers route_to_user route_to_coordinator
route_coordinator_event env w s declaration topic topic_id kind target frame =
    if nat_beq kind 0
    then route_to_subscribers env w declaration topic topic_id target frame
    else if nat_beq kind 1
    then route_to_user env w declaration topic topic_id (target_number target) frame
    else if nat_beq kind 2
    then route_to_coordinator env w s declaration (target_text target) frame
    else (
      w,
      some (application_error code_invalid_value false "event target is invalid" close_protocol),
    )

abbrev pub is_nil : Any → Bool
is_nil nil = true
is_nil _ = false

-- A user's event goes to the owner of its topic.
unfoldable pub route_user_event :
    Env → World → ℕ → EventDeclaration → Slot → Text → ℕ → Any → Frame → Handled
route_user_event env w s declaration owner topic kind target frame =
    let id = user_id w s in
    if not (nat_beq kind 0) || not (is_nil target)
    then (w, some (wrong_direction "users must use the default event target"))
    else if not (user_enrolled w.home id)
    then (w, some not_enrolled)
    else if not (accepts_users declaration) || not (user_can_publish_topic w.home id topic)
    then (w, some (forbidden "event publication is not authorized"))
    else elim (ready_connection env w (some owner)) [
      | none ↦ (w, some (no_coordinator "event owner is unavailable"))
      | some connection ↦
          reply_or (enqueue env w connection frame false)
            (unavailable "event destination is unavailable")
    ]

-- The branch on the sender's role. Slots are told apart by their names.
unfoldable pub route_event :
    Env → World → ℕ → Role → EventDeclaration → Text → Slot → Text → ℕ → ℕ → Any → Frame → Handled
unfolding route_user_event route_coordinator_event
route_event env w s user declaration owner slot topic topic_id kind target frame =
    route_user_event env w s declaration slot topic kind target frame
route_event env w s coordinator declaration owner slot topic topic_id kind target frame =
    if (w.sessions s).identity.coordinator_name == owner
    then route_coordinator_event env w s declaration topic topic_id kind target frame
    else (w, some (forbidden "coordinator does not own this event topic"))
route_event env w s _ declaration owner slot topic topic_id kind target frame =
    (w, some (wrong_direction "role cannot publish events"))

-- The coordinator check that a call or an event makes first.
unfoldable pub sender_failure : World → ℕ → Option RelayError
unfolding active_coordinator
sender_failure w s =
    if role_beq (w.sessions s).identity.role coordinator then active_coordinator w s true else none

abbrev pub no_declaration : EventDeclaration
no_declaration = record { flags = 0 }

-- publishEvent, once the event identifier has been claimed.
unfoldable pub publish_claimed : Env → World → ℕ → ℕ → ℕ → ℕ → Any → Any → Handled
unfolding sender_failure route_event
publish_claimed env w s event_id topic_id kind target payload = elim (sender_failure w s) [
  | some failure ↦ (w, some failure)
  | none ↦
      let topic = get_or topic_id [] w.home.topics.by_id in
      let owner = get_or topic [] w.home.topic_owners in
      let identity = (w.sessions s).identity in
      let frame = event_routed event_id topic_id kind target (principal identity s) payload in
      if topic == [] || owner == []
      then (
        w,
        some (
            application_error code_not_declared false "event topic is not declared"
              close_authorization),
      )
      else elim (lookup owner w.home.coordinators) [
        | none ↦ (w, some (no_coordinator "event owner is unavailable"))
        | some slot ↦ elim slot.active [
          | none ↦ (w, some (no_coordinator "event owner is unavailable"))
          | some config ↦ elim (validate_routable_frame env frame) [
            | some failure ↦ (w, some failure)
            | none ↦
                route_event env w s identity.role (get_or topic no_declaration config.events) owner
                  slot topic topic_id kind target frame
          ]
        ]
      ]
]

-- publishEvent
unfoldable pub publish_event : Env → World → ℕ → ℕ → ℕ → ℕ → Any → Any → Handled
unfolding publish_claimed
publish_event env w s event_id topic_id kind target payload =
    let (session, refusal) = claim_event_id (w.sessions s) event_id in
    elim refusal [
      | some failure ↦ (w, some failure)
      | none ↦ publish_claimed env (set_session w s session) s event_id topic_id kind target payload
    ]
