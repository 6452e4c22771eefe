-- ===== src/Tests.antt =====
-- The theorems applied to one concrete home: its events, calls, coordinators and declarations.
pub mod Keys
pub mod Server
pub mod Data
pub mod Limits
use miakapp_server.Prelude.{
  length, nat_eq, ◌+◌, ◌⊎◌, ℕ, ◌≡◌, ◌<◌, ◌≤◌, ◌≢◌, refl, none, some, [], ◌∷◌, true, false, arith,
  if◌then◌else◌, All, Bool, Option, ap,
}
use miakapp_server.Text.{text_beq, codes, text_eq, Text}
use miakapp_server.GoMap.{is_some, lookup, contains}
use miakapp_server.Auth.Identity.{coordinator, user}
use miakapp_server.Tests.Data.{env, world, slot, route}
use miakapp_server.Relay.World.{Slot}
use miakapp_server.Relay.Frame.{nil, Mutation}
use miakapp_server.Relay.Frame
use miakapp_server.Relay.Events.Subscriptions.{subscribe_bound}
use miakapp_server.Relay.Events.{subscribe, publish_event, is_recipient}
use miakapp_server.Relay.Events.Consent.{publish_event-IsPermitted, IsPermitted}
use miakapp_server.Relay.Events.Delivery.{publish_event_other, IsUnslotted}
use miakapp_server.Relay.Dispatch.{handle}
use miakapp_server.Relay.Dispatch.Rules.{handle-IsAllowed, IsAllowed}
use miakapp_server.Relay.Dispatch.Readers.{handle_unchanged}
use miakapp_server.Relay.Lifecycle.Departures.{detach_ends}
use miakapp_server.Relay.Lifecycle.{detach, attach, generation_replaced}
use miakapp_server.Relay.Lifecycle.Generations.{attach_displaces, attach_takes, taken_by}
use miakapp_server.Relay.Declarations.{active_coordinator, handle_declaration, slice, acl_slice}
use miakapp_server.Relay.Declarations.Stages.{handle_declaration-SameVisible, SameVisible}
use miakapp_server.Relay.State.{apply_state_set}
use miakapp_server.Relay.State.Atomic.{
  apply_state_set_refused, apply_state_set-IsCommitted, Untouched, IsCommitted,
}
use miakapp_server.Relay.Calls.{
  routed, callee_route, forward_call_result, forward_call_error, credit_call, terminate_calls,
  allocate_call_id,
}
use miakapp_server.Relay.Calls.Routes.{allocate_call_id-IsFree}
use miakapp_server.Relay.Calls.Endings.{
  forward_call_result-IsFinal, forward_call_error-IsFinal, credit_call-IsCredited, IsCredited,
  forward_call_result_spends, terminate_calls_ends,
}

user-IsUnslotted : IsUnslotted world.home 2
unfolding lookup text_beq
user-IsUnslotted name s e q = ground arith

user_publishes : (publish_event env world 2 9 1 0 nil nil).1 ≡ none
unfolding publish_event miakapp_server.Relay.Connection.claim_event_id lookup
    miakapp_server.Text.text_beq miakapp_server.Relay.Projection.validate_routable_frame
    miakapp_server.Relay.Views.user_enrolled miakapp_server.Relay.Views.user_can_publish_topic
    miakapp_server.Relay.Patterns.matches_any miakapp_server.Text.has_suffix
    miakapp_server.Relay.Connection.link_available miakapp_server.Relay.Connection.enqueue
    miakapp_server.Relay.Connection.enqueue_link miakapp_server.Relay.Outbound.enqueue_bytes
    miakapp_server.Config.default_config miakapp_server.Relay.Admission.reserve_queued_bytes
user_publishes = refl

not_recipient : is_recipient env world (codes "t") 1 2 ≡ false
unfolding is_recipient miakapp_server.Relay.Connection.link_available lookup
not_recipient = refl

publish_event_other_example : (publish_event env world 2 9 1 0 nil nil).0.links 2 ≡ world.links 2
unfolding lookup
publish_event_other_example =
    publish_event_other env world 2 9 1 0 nil nil 2 not_recipient user-IsUnslotted

publish_event-IsPermitted_example :
    ((contains 9 (world.sessions 2).event_ids ≡ false)
      × IsPermitted world.home (codes "u") (codes "t"))
    ⊎ (((publish_event env world 2 9 1 0 nil nil).1 ≢ none)
        × ((publish_event env world 2 9 1 0 nil nil).0.links ≡ world.links))
unfolding lookup
publish_event-IsPermitted_example = publish_event-IsPermitted env world 2 9 1 0 nil nil refl

handle_unchanged_example : (handle env world 2 500 (Frame.event 9 1 0 nil nil)).0.home ≡ world.home
handle_unchanged_example = handle_unchanged env world 2 500 (Frame.event 9 1 0 nil nil) refl

handle-IsAllowed_example :
    IsAllowed env world 2 (Frame.event 9 1 0 nil nil)
    ⊎ (((handle env world 2 500 (Frame.event 9 1 0 nil nil)).0 ≡ world)
        × ((handle env world 2 500 (Frame.event 9 1 0 nil nil)).1 ≢ none))
handle-IsAllowed_example = handle-IsAllowed env world 2 500 (Frame.event 9 1 0 nil nil)

three_is_not_one : ◌≢◌ {A = ℕ} 1 3
three_is_not_one e = omega arith

slot_found : lookup (codes "c") world.home.coordinators ≡ some slot
unfolding lookup miakapp_server.Text.text_beq
slot_found = refl

attach_displaces_example :
    (active_coordinator (attach env world 3).0 1 true ≡ some generation_replaced)
    × (((attach env world 3).0.links 1).fatal_once ≡ true)
attach_displaces_example =
    attach_displaces env world 3 1 slot true refl refl slot_found refl refl three_is_not_one

attach_takes_example :
    lookup (codes "c") (attach env world 3).0.home.coordinators ≡ some (taken_by 3 slot)
attach_takes_example = attach_takes env world 3 slot refl refl slot_found

handle_declaration-SameVisible_example :
    SameVisible world.home (handle_declaration env world 1 5 (slice (acl_slice []))).0.home
handle_declaration-SameVisible_example =
    handle_declaration-SameVisible env world 1 5 (slice (acl_slice [])) (λ m. m.0)

abbrev write_p : Mutation
write_p = record { path_id = 1; operation = 0; value = nil }

abbrev write_unknown : Mutation
write_unknown = record { path_id = 8; operation = 0; value = nil }

state_refusal :
    is_some (apply_state_set env world 1 5 (codes "e") (write_p ∷ write_unknown ∷ [])).1 ≡ true
unfolding apply_state_set text_beq active_coordinator lookup
state_refusal = refl

state_refused : (apply_state_set env world 1 5 (codes "e") (write_p ∷ write_unknown ∷ [])).1 ≢ none
state_refused e = ground (arith, e, state_refusal)

apply_state_set_refused_example :
    Untouched world (apply_state_set env world 1 5 (codes "e") (write_p ∷ write_unknown ∷ [])).0
apply_state_set_refused_example =
    apply_state_set_refused env world 1 5 (codes "e") (write_p ∷ write_unknown ∷ []) state_refused

state_accepted : (apply_state_set env world 1 5 (codes "e") (write_p ∷ [])).1 ≡ none
unfolding apply_state_set miakapp_server.Text.text_beq active_coordinator lookup write_p
    miakapp_server.Relay.Projection.validate_required_frames
    miakapp_server.Relay.Projection.projection_for_state miakapp_server.GoMap.insert
    miakapp_server.Relay.Connection.enqueue miakapp_server.Relay.Connection.enqueue_link
    miakapp_server.Relay.Outbound.enqueue_bytes miakapp_server.Config.default_config
    miakapp_server.Relay.Admission.reserve_queued_bytes
state_accepted = refl

apply_state_set-IsCommitted_example :
    IsCommitted world.home
      (codes "c")
      (apply_state_set env world 1 5 (codes "e") (write_p ∷ [])).0.home
apply_state_set-IsCommitted_example =
    apply_state_set-IsCommitted env world 1 5 (codes "e") (write_p ∷ []) state_accepted

allocate_call_id-IsFree_example :
    (id : ℕ) × (allocate_call_id 2 ((1, 0) ∷ []) 0 ≡ some id)
    × (contains {V = ℕ} id ((1, 0) ∷ []) ≡ false)
    × (1 ≤ id)
    × (id ≤ 9_007_199_254_740_991)
allocate_call_id-IsFree_example =
    allocate_call_id-IsFree ((1, 0) ∷ []) 0 (omega arith) (omega arith)

result_forwarded : (forward_call_result env world 1 1 true nil).1 ≡ none
unfolding forward_call_result lookup miakapp_server.Text.text_beq
    miakapp_server.Relay.Projection.validate_routable_frame miakapp_server.Relay.Connection.enqueue
    miakapp_server.Relay.Connection.enqueue_link miakapp_server.Relay.Outbound.enqueue_bytes
    miakapp_server.Config.default_config miakapp_server.Relay.Admission.reserve_queued_bytes
result_forwarded = refl

forward_call_result-IsFinal_example :
    callee_route (forward_call_result env world 1 1 true nil).0 1 1 ≢ routed 0
forward_call_result-IsFinal_example =
    forward_call_result-IsFinal env world 1 1 nil 0 result_forwarded

error_forwarded : (forward_call_error env world 1 1 1200 false "no" nil).1 ≡ none
unfolding forward_call_error lookup miakapp_server.Text.text_beq
    miakapp_server.Relay.Projection.validate_routable_frame miakapp_server.Relay.Connection.enqueue
    miakapp_server.Relay.Connection.enqueue_link miakapp_server.Relay.Outbound.enqueue_bytes
    miakapp_server.Config.default_config miakapp_server.Relay.Admission.reserve_queued_bytes
error_forwarded = refl

credited : IsCredited env world
credited r = omega arith

credit_call-IsCredited_example : IsCredited env (credit_call env world 2 7 3).0
credit_call-IsCredited_example = credit_call-IsCredited env world 2 7 3 credited

route_found : callee_route world 1 1 ≡ routed 0
unfolding callee_route lookup miakapp_server.Text.text_beq
route_found = refl

partial_forwarded : (forward_call_result env world 1 1 false nil).1 ≡ none
unfolding forward_call_result lookup miakapp_server.Text.text_beq
    miakapp_server.Relay.Projection.validate_routable_frame
    miakapp_server.Relay.Connection.enqueue_stream miakapp_server.Relay.Connection.enqueue_link
    miakapp_server.Relay.Outbound.enqueue_bytes miakapp_server.Config.default_config
    miakapp_server.Relay.Admission.reserve_queued_bytes
partial_forwarded = refl

detach_ends_example :
    (contains 1 (detach env world 1).home.connections ≡ false)
    × All (λ r. ((detach env world 1).routes r).terminal ≡ true) (0 ∷ [])
unfolding lookup
detach_ends_example = detach_ends env world 1 refl

few_subscriptions : (t : ℕ) → length (world.sessions t).subscriptions ≤ env.max_subscriptions
few_subscriptions t = ground arith

subscribe_bound_example : length ((subscribe env world 2 5 (1 ∷ [])).0.sessions 2).subscriptions ≤ 4
subscribe_bound_example = subscribe_bound env world 2 5 (1 ∷ []) few_subscriptions 2
