-- ===== src/Relay/Events/Delivery.antt =====
-- Where an event may go: internal/relay/events.go.
use miakapp_server.Auth.Identity.{other, cli, coordinator, principal, user, Role}
use miakapp_server.Relay.Events.{
  no_declaration, target_text, event_routed, set_session, target_number, Role, publish_event,
  route_user_event, route_coordinator_event, route_event, publish_claimed, route_to_subscribers,
  route_to_user, route_to_coordinator, broadcast, is_recipient,
}
use miakapp_server.Prelude.{
  ◌∙◌, ℕ, ◌≡◌, refl, ◌≢◌, inl, inr, Bool, false, ◌||◌, some, List, [], ◌∷◌, arith, Option-cases,
  nat_eq,
}
use miakapp_server.Text.{Text, text_eq}
use miakapp_server.GoMap.{get_or, lookup, keys}
use miakapp_server.Relay.World.{set_session, World, Env, Slot, EventDeclaration, Home}
use miakapp_server.Relay.Frame.{event_routed, nil, Frame, Any}
use miakapp_server.Relay.Connection.{claim_event_id, enqueue}
use miakapp_server.Relay.Sending.{enqueue_other}

is_recipient_after :
    (env : Env) (w : World) (topic : Text) (topic_id s t : ℕ) (frame : Frame)
    → s ≢ t
    → is_recipient env (enqueue env w s frame false).0 topic topic_id t
      ≡ is_recipient env w topic topic_id t
unfolding is_recipient enqueue
is_recipient_after env w topic topic_id s t frame h = ground arith

-- The broadcast leaves a connection that is no recipient alone.
broadcast_other :
    (env : Env) (w : World) (topic : Text) (topic_id : ℕ) (frame : Frame) (delivered : Bool)
    (ss : List ℕ) (t : ℕ)
    → is_recipient env w topic topic_id t ≡ false
    → (broadcast env w topic topic_id frame delivered ss).0.links t ≡ w.links t
unfolding broadcast
broadcast_other env w topic topic_id frame delivered [] t h = refl
broadcast_other env w topic topic_id frame delivered (s ∷ ss) t h =
    let w' = (enqueue env w s frame false).0 in
    let sent = (enqueue env w s frame false).1 in
    ground (
      arith,
      broadcast_other env w' topic topic_id frame (delivered || sent) ss t,
      broadcast_other env w topic topic_id frame delivered ss t,
      is_recipient_after env w topic topic_id s t frame,
      enqueue_other env w s t frame false,
    )

route_to_subscribers_other :
    (env : Env) (w : World) (d : EventDeclaration) (topic : Text) (topic_id : ℕ) (target : Any)
    (frame : Frame) (t : ℕ)
    → is_recipient env w topic topic_id t ≡ false
    → (route_to_subscribers env w d topic topic_id target frame).0.links t ≡ w.links t
unfolding route_to_subscribers
route_to_subscribers_other env w d topic topic_id nil frame t h =
    ground (arith, broadcast_other env w topic topic_id frame false (keys w.home.users) t h)
route_to_subscribers_other env w d topic topic_id _ frame t h = refl

route_to_user_other :
    (env : Env) (w : World) (d : EventDeclaration) (topic : Text) (topic_id target : ℕ)
    (frame : Frame) (t : ℕ)
    → is_recipient env w topic topic_id t ≡ false
    → (route_to_user env w d topic topic_id target frame).0.links t ≡ w.links t
unfolding route_to_user is_recipient
route_to_user_other env w d topic topic_id target frame t h =
    ground (arith, enqueue_other env w target t frame false)

-- No coordinator slot holds the connection.
abbrev pub IsUnslotted : Home → ℕ → Type 0
IsUnslotted home t =
    (name : Text) (slot : Slot)
    → lookup name home.coordinators ≡ some slot
    → slot.connection ≢ some t

route_to_coordinator_other :
    (env : Env) (w : World) (s : ℕ) (d : EventDeclaration) (name : Text) (frame : Frame) (t : ℕ)
    → IsUnslotted w.home t
    → (route_to_coordinator env w s d name frame).0.links t ≡ w.links t
unfolding route_to_coordinator
route_to_coordinator_other env w s d name frame t h =
    elim (Option-cases (lookup name w.home.coordinators)) [
      | inl e ↦ ground (arith, e)
      | inr (slot, e) ↦ elim (Option-cases slot.connection) [
        | inl q ↦ ground (arith, e, q)
        | inr (c, q) ↦ ground (arith, e, q, h name slot e, enqueue_other env w c t frame false)
      ]
    ]

route_user_event_other :
    (env : Env) (w : World) (s : ℕ) (d : EventDeclaration) (slot : Slot) (topic : Text) (kind : ℕ)
    (target : Any) (frame : Frame) (t : ℕ)
    → slot.connection ≢ some t
    → (route_user_event env w s d slot topic kind target frame).0.links t ≡ w.links t
unfolding route_user_event
route_user_event_other env w s d slot topic kind target frame t h =
    elim (Option-cases slot.connection) [
      | inl q ↦ ground (arith, q)
      | inr (c, q) ↦ ground (arith, q, h, enqueue_other env w c t frame false)
    ]

route_coordinator_event_other :
    (env : Env) (w : World) (s : ℕ) (d : EventDeclaration) (topic : Text) (topic_id kind : ℕ)
    (target : Any) (frame : Frame) (t : ℕ)
    → is_recipient env w topic topic_id t ≡ false
    → IsUnslotted w.home t
    → (route_coordinator_event env w s d topic topic_id kind target frame).0.links t ≡ w.links t
unfolding route_coordinator_event
route_coordinator_event_other env w s d topic topic_id kind target frame t h u = ground (
  arith,
  route_to_subscribers_other env w d topic topic_id target frame t h,
  route_to_user_other env w d topic topic_id (target_number target) frame t h,
  route_to_coordinator_other env w s d (target_text target) frame t u,
)

route_event_other :
    (env : Env) (w : World) (s : ℕ) (role : Role) (d : EventDeclaration) (owner : Text)
    (slot : Slot) (topic : Text) (topic_id kind : ℕ) (target : Any) (frame : Frame) (t : ℕ)
    → is_recipient env w topic topic_id t ≡ false
    → IsUnslotted w.home t
    → slot.connection ≢ some t
    → (route_event env w s role d owner slot topic topic_id kind target frame).0.links t ≡ w.links t
unfolding route_event
route_event_other env w s user d owner slot topic topic_id kind target frame t h u n =
    route_user_event_other env w s d slot topic kind target frame t n
route_event_other env w s coordinator d owner slot topic topic_id kind target frame t h u n =
    ground (arith, route_coordinator_event_other env w s d topic topic_id kind target frame t h u)
route_event_other env w s cli d owner slot topic topic_id kind target frame t h u n = refl
route_event_other env w s (other name) d owner slot topic topic_id kind target frame t h u n = refl

-- The topic that an identifier names in a home.
abbrev pub topic_named : Home → ℕ → Text
topic_named home topic_id = get_or topic_id [] home.topics.by_id

publish_claimed_other :
    (env : Env) (w : World) (s event_id topic_id kind : ℕ) (target payload : Any) (t : ℕ)
    → is_recipient env w (topic_named w.home topic_id) topic_id t ≡ false
    → IsUnslotted w.home t
    → (publish_claimed env w s event_id topic_id kind target payload).0.links t ≡ w.links t
unfolding publish_claimed
publish_claimed_other env w s event_id topic_id kind target payload t h u =
    let topic = topic_named w.home topic_id in
    let owner = get_or topic [] w.home.topic_owners in
    let identity = (w.sessions s).identity in
    let frame = event_routed event_id topic_id kind target (principal identity s) payload in
    elim (Option-cases (lookup owner w.home.coordinators)) [
      | inl e ↦ ground (arith, e)
      | inr (slot, e) ↦ elim (Option-cases slot.active) [
        | inl q ↦ ground (arith, e, q)
        | inr (config, q) ↦ ground (
          arith,
          e,
          q,
          route_event_other env w s identity.role (get_or topic no_declaration config.events) owner
              slot topic topic_id kind target frame t h u (u owner slot e),
        )
      ]
    ]

claimed_identity :
    (env : Env) (w : World) (s event_id t : ℕ) (topic : Text) (topic_id : ℕ)
    → is_recipient env (set_session w s (claim_event_id (w.sessions s) event_id).0) topic topic_id t
      ≡ is_recipient env w topic topic_id t
unfolding is_recipient claim_event_id
claimed_identity env w s event_id t topic topic_id = ground arith

-- Publishing an event touches no connection but those it may go to: a connection that holds no
-- coordinator slot and is not, at once, available, subscribed to the topic and permitted by the
-- policy to read it keeps its link, outbound queue included, whoever publishes and however the
-- event is targeted.
pub publish_event_other :
    (env : Env) (w : World) (s event_id topic_id kind : ℕ) (target payload : Any) (t : ℕ)
    → is_recipient env w (topic_named w.home topic_id) topic_id t ≡ false
    → IsUnslotted w.home t
    → (publish_event env w s event_id topic_id kind target payload).0.links t ≡ w.links t
unfolding publish_event
publish_event_other env w s event_id topic_id kind target payload t h u =
    let ready = set_session w s (claim_event_id (w.sessions s) event_id).0 in
    ground (
      arith,
      publish_claimed_other env ready s event_id topic_id kind target payload t
          (claimed_identity env w s event_id t (topic_named w.home topic_id) topic_id ∙ h) u,
    )
