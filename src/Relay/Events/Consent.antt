-- ===== src/Relay/Events/Consent.antt =====
-- What a user's publication of an event needs: internal/relay/events.go.
use miakapp_server.Relay.Events.Delivery.{topic_named}
use miakapp_server.Relay.Projection.{validate_routable_frame}
use miakapp_server.Relay.Notices.{user_id}
use miakapp_server.Relay.Views.{user_can_publish_topic, user_enrolled}
use miakapp_server.Auth.Identity.{principal, user}
use miakapp_server.Relay.Events.{
  no_coordinator, forbidden, not_enrolled, wrong_direction, validate_routable_frame, is_nil,
  accepts_users, user_can_publish_topic, user_id, sender_failure, user_enrolled, no_declaration,
  event_routed, set_session, publish_event, route_user_event, route_event, publish_claimed,
}
use miakapp_server.Prelude.{
  subst, true, none, ℕ, ◌≡◌, ◌≢◌, inl, inr, ◌⊎◌, not, nat_beq, Bool-cases, ◌==◌, false, ◌||◌, some,
  [], arith, Option-cases, nat_eq,
}
use miakapp_server.Text.{Text, text_eq}
use miakapp_server.GoMap.{contains, get_or, lookup}
use miakapp_server.Relay.Errors.{
  close_authorization, code_not_declared, application_error, RelayError,
}
use miakapp_server.Relay.World.{
  Handled, CoordinatorConfig, set_session, World, Env, Slot, EventDeclaration, Home,
}
use miakapp_server.Relay.Frame.{event_routed, Frame, Any}
use miakapp_server.Relay.Connection.{claim_event_id}

-- What a user's publication needs of the home.
abbrev pub IsPermitted : Home → Text → Text → Type 0
IsPermitted home id topic =
    (user_enrolled home id ≡ true)
    × (user_can_publish_topic home id topic ≡ true)
    × ((slot : Slot) × (config : CoordinatorConfig) × (lookup (get_or topic [] home.topic_owners)
            home.coordinators
          ≡ some slot)
        × (slot.active ≡ some config)
        × (accepts_users (get_or topic no_declaration config.events) ≡ true))

-- A user's event that goes on to the owner is permitted; any other leaves the world as it was.
route_user_event_cases :
    (env : Env) (w : World) (s : ℕ) (d : EventDeclaration) (slot : Slot) (topic : Text) (kind : ℕ)
    (target : Any) (frame : Frame)
    → ((user_enrolled w.home (user_id w s) ≡ true)
        × (user_can_publish_topic w.home (user_id w s) topic ≡ true)
        × (accepts_users d ≡ true))
      ⊎ ((failure : RelayError) × (route_user_event env w s d slot topic kind target frame
            ≡ (w, some failure)))
unfolding route_user_event
route_user_event_cases env w s d slot topic kind target frame =
    elim (Bool-cases (not (nat_beq kind 0) || not (is_nil target))) [
      | inl k ↦ inr (wrong_direction "users must use the default event target", ground (arith, k))
      | inr k ↦ elim (Bool-cases (user_enrolled w.home (user_id w s))) [
        | inr e ↦ inr (not_enrolled, ground (arith, k, e))
        | inl e ↦
            elim (Bool-cases
              (not (accepts_users d) || not (user_can_publish_topic w.home (user_id w s) topic))) [
                | inl p ↦
                    inr (forbidden "event publication is not authorized", ground (arith, k, e, p))
                | inr p ↦ inl (e, ground (arith, p), ground (arith, p))
              ]
      ]
    ]

-- What a refused publication is: an error, and the world as it was.
abbrev IsRefused : World → Handled → Type 0
IsRefused w r = (failure : RelayError) × (r ≡ (w, some failure))

publish_claimed_cases :
    (env : Env) (w : World) (s event_id topic_id kind : ℕ) (target payload : Any)
    → (w.sessions s).identity.role ≡ user
    → IsPermitted w.home (user_id w s) (topic_named w.home topic_id)
      ⊎ IsRefused w (publish_claimed env w s event_id topic_id kind target payload)
unfolding publish_claimed route_event sender_failure
publish_claimed_cases env w s event_id topic_id kind target payload r =
    let topic = topic_named w.home topic_id in
    let owner = get_or topic [] w.home.topic_owners in
    let frame =
      event_routed event_id topic_id kind target (principal (w.sessions s).identity s) payload in
    elim (Bool-cases (topic == [] || owner == [])) [
      | inl n ↦ inr (
        application_error code_not_declared false "event topic is not declared" close_authorization,
        ground (arith, r, n),
      )
      | inr n ↦ elim (Option-cases (lookup owner w.home.coordinators)) [
        | inl e ↦ inr (no_coordinator "event owner is unavailable", ground (arith, r, n, e))
        | inr (slot, e) ↦ elim (Option-cases slot.active) [
          | inl q ↦ inr (no_coordinator "event owner is unavailable", ground (arith, r, n, e, q))
          | inr (config, q) ↦ elim (Option-cases (validate_routable_frame env frame)) [
            | inr (failure, f) ↦ inr (failure, ground (arith, r, n, e, q, f))
            | inl f ↦
                let d = get_or topic no_declaration config.events in
                elim (route_user_event_cases env w s d slot topic kind target frame) [
                  | inl p ↦ inl (p.0, p.1, (slot, config, e, q, p.2))
                  | inr (failure, g) ↦ inr (failure, ground (arith, r, n, e, q, f, g))
                ]
          ]
        ]
      ]
    ]

claimed_user_id :
    (w : World) (s event_id : ℕ)
    → user_id (set_session w s (claim_event_id (w.sessions s) event_id).0) s ≡ user_id w s
unfolding claim_event_id
claimed_user_id w s event_id = ground arith

claimed_role :
    (w : World) (s event_id : ℕ)
    → (w.sessions s).identity.role ≡ user
    → ((set_session w s (claim_event_id (w.sessions s) event_id).0).sessions s).identity.role ≡ user
unfolding claim_event_id
claimed_role w s event_id r = ground (arith, r)

-- A user's event goes nowhere without the policy's consent: either its identifier is new, the user
-- is enrolled, the coordinator that owns the topic has declared it open to users and the policy lets
-- this user publish it, or the publication is refused with an error and leaves the link of every
-- connection, outbound queues included, as it was.
pub publish_event-IsPermitted :
    (env : Env) (w : World) (s event_id topic_id kind : ℕ) (target payload : Any)
    → (w.sessions s).identity.role ≡ user
    → ((contains event_id (w.sessions s).event_ids ≡ false)
        × IsPermitted w.home (user_id w s) (topic_named w.home topic_id))
      ⊎ (((publish_event env w s event_id topic_id kind target payload).1 ≢ none)
          × ((publish_event env w s event_id topic_id kind target payload).0.links ≡ w.links))
unfolding publish_event claim_event_id
publish_event-IsPermitted env w s event_id topic_id kind target payload r =
    let ready = set_session w s (claim_event_id (w.sessions s) event_id).0 in
    elim (Bool-cases (contains event_id (w.sessions s).event_ids)) [
      | inl old ↦ inr ((λ h. ground (arith, old, h)), ground (arith, old))
      | inr new ↦
          elim (publish_claimed_cases env ready s event_id topic_id kind target payload
            (claimed_role w s event_id r)) [
              | inl p ↦ inl (
                new,
                subst (λ id. IsPermitted w.home id (topic_named w.home topic_id))
                    (claimed_user_id w s event_id) p,
              )
              | inr (failure, e) ↦ inr ((λ h. ground (arith, new, e, h)), ground (arith, new, e))
            ]
    ]
