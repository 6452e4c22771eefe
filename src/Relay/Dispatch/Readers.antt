-- ===== src/Relay/Dispatch/Readers.antt =====
-- Only a coordinator's frames change a home (internal/relay).
use miakapp_server.Relay.State.{apply_state_set}
use miakapp_server.Relay.Declarations.{handle_declaration}
use miakapp_server.Auth.Platform.{failed, granted, Access}
use miakapp_server.Relay.Dispatch.{
  apply_state_set, handle_declaration, handle_allowed, handle, handle_home, reauth_request, Access,
  renew_lease, reauthenticate, after_verification,
}
use miakapp_server.Prelude.{◌⊎◌, Option, ℕ, ◌≡◌, refl, inl, inr, false, arith, Option-cases, nat_eq}
use miakapp_server.Relay.Frame.{Frame}
use miakapp_server.Text.{text_eq, Text}
use miakapp_server.Auth.Identity.{
  role_beq, ErrorKind, validate_binding, Identity, Request, coordinator,
}
use miakapp_server.Relay.World.{World, Env}
use miakapp_server.Relay.Connection.{enqueue}
use miakapp_server.Relay.Events.Unchanged.{
  KeepsHome, subscribe_home, unsubscribe_home, resync_home, publish_event_home,
}
use miakapp_server.Relay.Calls.Unchanged.{
  start_call_home, forward_call_result_home, forward_call_error_home, cancel_call_home,
  credit_call_home,
}

renew_lease_home :
    (env : Env) (w : World) (s id : ℕ) (request : Request) (previous : Option ℕ)
    (identity : Identity)
    → KeepsHome w (renew_lease env w s id request previous identity)
unfolding renew_lease enqueue
renew_lease_home env w s id request previous identity =
    elim (Option-cases (validate_binding env.unicode request identity env.now)) [
      | inl e ↦ ground (arith, e)
      | inr (kind, e) ↦ ground (arith, e)
    ]

Access-cases :
    (a : Access)
    → ((identity : Identity) × (a ≡ granted identity)) ⊎ ((kind : ErrorKind) × (a ≡ failed kind))
Access-cases (granted identity) = inl (identity, refl)
Access-cases (failed kind) = inr (kind, refl)

reauthenticate_home :
    (env : Env) (w : World) (s id : ℕ) (token : Text)
    → KeepsHome w (reauthenticate env w s id token)
unfolding reauthenticate
reauthenticate_home env w s id token =
    let request = reauth_request (w.sessions s).identity token in
    elim (Access-cases (env.verifier request)) [
      | inr (kind, e) ↦ ground (arith, e)
      | inl (identity, e) ↦ ground (
        arith,
        e,
        renew_lease_home (after_verification env) w s id request (w.links s).lease_deadline
            identity,
      )
    ]

handle_home_unchanged :
    (env : Env) (w : World) (s received : ℕ) (frame : Frame)
    → role_beq (w.sessions s).identity.role coordinator ≡ false
    → KeepsHome w (handle_home env w s received frame)
unfolding handle_home handle_declaration apply_state_set
handle_home_unchanged env w s received (Frame.state_sync id entries) h = ground (arith, h)
handle_home_unchanged env w s received (Frame.state_acl_sync id entries) h = ground (arith, h)
handle_home_unchanged env w s received (Frame.event_sync id entries) h = ground (arith, h)
handle_home_unchanged env w s received (Frame.event_acl_sync id entries) h = ground (arith, h)
handle_home_unchanged env w s received (Frame.function_sync id names) h = ground (arith, h)
handle_home_unchanged env w s received (Frame.state_set id epoch mutations) h = ground (arith, h)
handle_home_unchanged env w s received (Frame.state_resync id) h = resync_home env w s id
handle_home_unchanged env w s received (Frame.subscribe id topics) h =
    subscribe_home env w s id topics
handle_home_unchanged env w s received (Frame.unsubscribe id topics) h =
    unsubscribe_home env w s id topics
handle_home_unchanged env w s received (Frame.event id topic kind target payload) h =
    publish_event_home env w s id topic kind target payload
handle_home_unchanged env w s received
      (Frame.call id kind target function timeout key credit arguments) h =
    start_call_home env w s received id (record {
      target_kind = kind;
      target_value = target;
      function_id = function;
      timeout = timeout;
      idempotency_key = key;
      credit = credit;
      call_arguments = arguments;
    })
handle_home_unchanged env w s received (Frame.call_result id final value) h =
    forward_call_result_home env w s id final value
handle_home_unchanged env w s received (Frame.call_error id code retryable message details) h =
    forward_call_error_home env w s id code retryable message details
handle_home_unchanged env w s received (Frame.call_cancel id reason) h =
    cancel_call_home env w s id reason
handle_home_unchanged env w s received (Frame.call_credit id additional) h =
    credit_call_home env w s id additional
handle_home_unchanged env w s received _ h = refl

handle_allowed_unchanged :
    (env : Env) (w : World) (s received : ℕ) (frame : Frame)
    → role_beq (w.sessions s).identity.role coordinator ≡ false
    → KeepsHome w (handle_allowed env w s received frame)
unfolding handle_allowed
handle_allowed_unchanged env w s received (Frame.reauth id token) h =
    reauthenticate_home env w s id token
handle_allowed_unchanged env w s received frame h = handle_home_unchanged env w s received frame h

-- Only coordinators change a home: whatever frame a session of any other role sends, in whatever
-- state, the home's revision, policy, values, declarations, owners, dictionaries and members are
-- afterwards what they were.
pub handle_unchanged :
    (env : Env) (w : World) (s received : ℕ) (frame : Frame)
    → role_beq (w.sessions s).identity.role coordinator ≡ false
    → (handle env w s received frame).0.home ≡ w.home
unfolding handle
handle_unchanged env w s received frame h =
    ground (arith, handle_allowed_unchanged env w s received frame h)
