-- ===== src/Relay/Events/Unchanged.antt =====
-- Subscribing, publishing and resynchronising leave the home as it was (internal/relay/events.go,
-- internal/relay/state.go).
use miakapp_server.Relay.State.{resync}
use miakapp_server.Relay.Events.{
  no_declaration, target_text, ready_connection, target_number, route_to_user, publish_event,
  publish_claimed, route_to_coordinator, route_to_subscribers, route_user_event, route_event,
  route_coordinator_event, unsubscribe, broadcast, subscribe,
}
use miakapp_server.Prelude.{
  ℕ, ◌≡◌, refl, inl, inr, Bool, false, ◌||◌, some, List, [], ◌∷◌, arith, Option-cases, nat_eq,
}
use miakapp_server.Relay.Frame.{event_routed, Frame, Any, nil}
use miakapp_server.Text.{text_eq, Text}
use miakapp_server.Auth.Identity.{cli, principal, user, other, coordinator, Role}
use miakapp_server.GoMap.{lookup, keys, get_or}
use miakapp_server.Relay.World.{set_session, World, Env, Handled, EventDeclaration, Slot}
use miakapp_server.Relay.Connection.{enqueue_request_terminal, claim_event_id, enqueue}
use miakapp_server.Relay.Sending.{enqueue-SameCore}

abbrev pub KeepsHome : World → Handled → Type 0
KeepsHome w r = r.0.home ≡ w.home

pub subscribe_home :
    (env : Env) (w : World) (s id : ℕ) (topics : List ℕ) → KeepsHome w (subscribe env w s id topics)
unfolding subscribe enqueue
subscribe_home env w s id topics = ground arith

pub unsubscribe_home :
    (env : Env) (w : World) (s id : ℕ) (topics : List ℕ)
    → KeepsHome w (unsubscribe env w s id topics)
unfolding unsubscribe enqueue
unsubscribe_home env w s id topics = ground arith

pub resync_home : (env : Env) (w : World) (s id : ℕ) → KeepsHome w (resync env w s id)
unfolding resync enqueue enqueue_request_terminal
resync_home env w s id = ground arith

broadcast_home :
    (env : Env) (w : World) (topic : Text) (topic_id : ℕ) (frame : Frame) (delivered : Bool)
    (ss : List ℕ)
    → (broadcast env w topic topic_id frame delivered ss).0.home ≡ w.home
unfolding broadcast
broadcast_home env w topic topic_id frame delivered [] = refl
broadcast_home env w topic topic_id frame delivered (s ∷ ss) =
    let w' = (enqueue env w s frame false).0 in
    let sent = (enqueue env w s frame false).1 in
    ground (
      arith,
      broadcast_home env w' topic topic_id frame (delivered || sent) ss,
      broadcast_home env w topic topic_id frame delivered ss,
      (enqueue-SameCore env w s frame false).0,
    )

route_to_subscribers_home :
    (env : Env) (w : World) (d : EventDeclaration) (topic : Text) (topic_id : ℕ) (target : Any)
    (frame : Frame)
    → KeepsHome w (route_to_subscribers env w d topic topic_id target frame)
unfolding route_to_subscribers
route_to_subscribers_home env w d topic topic_id nil frame =
    ground (arith, broadcast_home env w topic topic_id frame false (keys w.home.users))
route_to_subscribers_home env w d topic topic_id _ frame = refl

route_to_user_home :
    (env : Env) (w : World) (d : EventDeclaration) (topic : Text) (topic_id target : ℕ)
    (frame : Frame)
    → KeepsHome w (route_to_user env w d topic topic_id target frame)
unfolding route_to_user enqueue
route_to_user_home env w d topic topic_id target frame = ground arith

route_to_coordinator_home :
    (env : Env) (w : World) (s : ℕ) (d : EventDeclaration) (name : Text) (frame : Frame)
    → KeepsHome w (route_to_coordinator env w s d name frame)
unfolding route_to_coordinator enqueue
route_to_coordinator_home env w s d name frame =
    elim (Option-cases (ready_connection env w (lookup name w.home.coordinators))) [
      | inl e ↦ ground (arith, e)
      | inr (t, e) ↦ ground (arith, e)
    ]

route_coordinator_event_home :
    (env : Env) (w : World) (s : ℕ) (d : EventDeclaration) (topic : Text) (topic_id kind : ℕ)
    (target : Any) (frame : Frame)
    → KeepsHome w (route_coordinator_event env w s d topic topic_id kind target frame)
unfolding route_coordinator_event
route_coordinator_event_home env w s d topic topic_id kind target frame = ground (
  arith,
  route_to_subscribers_home env w d topic topic_id target frame,
  route_to_user_home env w d topic topic_id (target_number target) frame,
  route_to_coordinator_home env w s d (target_text target) frame,
)

route_user_event_home :
    (env : Env) (w : World) (s : ℕ) (d : EventDeclaration) (slot : Slot) (topic : Text) (kind : ℕ)
    (target : Any) (frame : Frame)
    → KeepsHome w (route_user_event env w s d slot topic kind target frame)
unfolding route_user_event enqueue
route_user_event_home env w s d slot topic kind target frame =
    elim (Option-cases (ready_connection env w (some slot))) [
      | inl e ↦ ground (arith, e)
      | inr (t, e) ↦ ground (arith, e)
    ]

route_event_home :
    (env : Env) (w : World) (s : ℕ) (role : Role) (d : EventDeclaration) (owner : Text)
    (slot : Slot) (topic : Text) (topic_id kind : ℕ) (target : Any) (frame : Frame)
    → KeepsHome w (route_event env w s role d owner slot topic topic_id kind target frame)
unfolding route_event
route_event_home env w s user d owner slot topic topic_id kind target frame =
    route_user_event_home env w s d slot topic kind target frame
route_event_home env w s coordinator d owner slot topic topic_id kind target frame =
    ground (arith, route_coordinator_event_home env w s d topic topic_id kind target frame)
route_event_home env w s cli d owner slot topic topic_id kind target frame = refl
route_event_home env w s (other n) d owner slot topic topic_id kind target frame = refl

publish_claimed_home :
    (env : Env) (w : World) (s event_id topic_id kind : ℕ) (target payload : Any)
    → KeepsHome w (publish_claimed env w s event_id topic_id kind target payload)
unfolding publish_claimed
publish_claimed_home env w s event_id topic_id kind target payload =
    let topic = get_or topic_id [] w.home.topics.by_id in
    let owner = get_or topic [] w.home.topic_owners in
    let identity = (w.sessions s).identity in
    let frame = event_routed event_id topic_id kind target (principal identity s) payload in
    elim (Option-cases (lookup owner w.home.coordinators)) [
      | inl e ↦ ground (arith, e)
      | inr (slot, e) ↦ elim (Option-cases slot.active) [
        | inl q ↦ ground (arith, e, q)
        | inr (config, q) ↦ ground (
          arith,
          e,
          q,
          route_event_home env w s identity.role (get_or topic no_declaration config.events) owner
              slot topic topic_id kind target frame,
        )
      ]
    ]

pub publish_event_home :
    (env : Env) (w : World) (s event_id topic_id kind : ℕ) (target payload : Any)
    → KeepsHome w (publish_event env w s event_id topic_id kind target payload)
unfolding publish_event
publish_event_home env w s event_id topic_id kind target payload =
    let ready = set_session w s (claim_event_id (w.sessions s) event_id).0 in
    ground (arith, publish_claimed_home env ready s event_id topic_id kind target payload)
