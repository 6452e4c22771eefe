-- ===== src/Relay/Calls/Unchanged.antt =====
-- Calls and renewals of a token leave the home as it was (internal/relay/calls.go,
-- internal/relay/connection.go).
use miakapp_server.Relay.Errors.{RelayError}
use miakapp_server.Relay.Calls.Endings.{remove_route_home, CallerRoute-cases, CalleeRoute-cases}
use miakapp_server.Relay.Errors.{RelayError}
use miakapp_server.Relay.Calls.{
  remaining_milliseconds, millisecond, no_target, not_callable, set_route, resolve_call_target,
  owned_by, allocate_call_id, target, Callable, check_call, dispatch_call, Target, calls_of,
  caller_route, callee_route, set_calls, cancel_route, CallRequest, cancel_call, start_call,
  open_route, credit_call, forward_call_result, forward_call_error, forward_result,
}
use miakapp_server.Prelude.{
  ◌*◌, length, ◌+◌, ◌⊎◌, true, String, ℕ, ◌≡◌, refl, inl, inr, Bool, false, arith, Option-cases,
  nat_eq,
}
use miakapp_server.Relay.Frame.{call_dispatch, call_cancel, Frame, Any}
use miakapp_server.Text.{text_eq, Text}
use miakapp_server.Auth.Identity.{principal}
use miakapp_server.GoMap.{insert}
use miakapp_server.Relay.World.{set_session, World, Env}
use miakapp_server.Relay.Connection.{enqueue_stream, enqueue}
use miakapp_server.Relay.Events.Unchanged.{KeepsHome}

pub open_route_home :
    (env : Env) (w : World) (r id : ℕ) (frame : Frame) → KeepsHome w (open_route env w r id frame)
unfolding open_route enqueue
open_route_home env w r id frame =
    let route = w.routes r in
    let called = set_calls w route.caller (insert id r (calls_of w route.caller)) in
    let entered =
      set_calls called route.callee (insert route.callee_id r (calls_of called route.callee)) in
    let sent = (enqueue env entered route.callee frame false).0 in
    ground (arith, remove_route_home sent r)

pub dispatch_call_home :
    (env : Env) (w : World) (s id deadline : ℕ) (request : CallRequest) (callee : ℕ)
    → KeepsHome w (dispatch_call env w s id deadline request callee)
unfolding dispatch_call
dispatch_call_home env w s id deadline request callee =
    let calls = calls_of w callee in
    elim (Option-cases
      (allocate_call_id (length calls + 1) calls (w.sessions callee).next_call_id)) [
        | inl e ↦ ground (arith, e)
        | inr (callee_id, e) ↦
            let r = w.next_route in
            let counted =
              set_session w callee (record (w.sessions callee) { next_call_id = callee_id }) in
            let allocated =
              record (set_route counted r (record {
                caller = s;
                callee = callee;
                caller_id = id;
                callee_id = callee_id;
                credit = request.credit;
                accepted = false;
                terminal = false;
                deadline = deadline;
              })) { next_route = r + 1 } in
            let frame =
              call_dispatch callee_id (principal (w.sessions s).identity s) request.target_kind
                request.target_value request.function_id (remaining_milliseconds env.now deadline)
                request.idempotency_key request.credit request.call_arguments in
            let opened = open_route_home env allocated r id frame in ground (arith, e, opened)
      ]

Callable-cases :
    (c : Callable)
    → ((owner : Text) × (c ≡ owned_by owner))
      ⊎ ((failure : RelayError) × (c ≡ not_callable failure))
Callable-cases (owned_by owner) = inl (owner, refl)
Callable-cases (not_callable failure) = inr (failure, refl)

Target-cases :
    (c : Target)
    → ((callee : ℕ) × (c ≡ target callee)) ⊎ ((failure : RelayError) × (c ≡ no_target failure))
Target-cases (target callee) = inl (callee, refl)
Target-cases (no_target failure) = inr (failure, refl)

pub start_call_home :
    (env : Env) (w : World) (s received id : ℕ) (request : CallRequest)
    → KeepsHome w (start_call env w s received id request)
unfolding start_call
start_call_home env w s received id request =
    elim (Callable-cases (check_call env w s id request)) [
      | inr (failure, e) ↦ ground (arith, e)
      | inl (owner, e) ↦
          elim (Target-cases
            (resolve_call_target env w s owner request.target_kind request.target_value)) [
              | inr (failure, q) ↦ ground (arith, e, q)
              | inl (callee, q) ↦ ground (
                arith,
                e,
                q,
                dispatch_call_home env w s id (received + request.timeout * millisecond) request
                    callee,
              )
            ]
    ]

pub forward_result_home :
    (env : Env) (w : World) (r : ℕ) (final : Bool) (value : Any)
    → KeepsHome w (forward_result env w r final value)
unfolding forward_result enqueue enqueue_stream
forward_result_home env w r final value = ground (arith, remove_route_home w r)

pub forward_call_result_home :
    (env : Env) (w : World) (s id : ℕ) (final : Bool) (value : Any)
    → KeepsHome w (forward_call_result env w s id final value)
unfolding forward_call_result
forward_call_result_home env w s id final value = elim (CalleeRoute-cases (callee_route w s id)) [
  | inl (r, e) ↦ ground (arith, e, forward_result_home env w r final value)
  | inr (inl e) ↦ ground (arith, e)
  | inr (inr (failure, e)) ↦ ground (arith, e)
]

pub forward_call_error_home :
    (env : Env) (w : World) (s id code : ℕ) (retryable : Bool) (message : String) (details : Any)
    → KeepsHome w (forward_call_error env w s id code retryable message details)
unfolding forward_call_error enqueue
forward_call_error_home env w s id code retryable message details =
    elim (CalleeRoute-cases (callee_route w s id)) [
      | inl (r, e) ↦ ground (arith, e, remove_route_home w r)
      | inr (inl e) ↦ ground (arith, e)
      | inr (inr (failure, e)) ↦ ground (arith, e)
    ]

pub cancel_call_home :
    (env : Env) (w : World) (s id reason : ℕ) → KeepsHome w (cancel_call env w s id reason)
unfolding cancel_call cancel_route enqueue
cancel_call_home env w s id reason = elim (CallerRoute-cases (caller_route w s id)) [
  | inl (r, e) ↦
      let told =
        (enqueue env w (w.routes r).callee (call_cancel (w.routes r).callee_id reason) true).0 in
      ground (arith, e, remove_route_home w r, remove_route_home told r)
  | inr (failure, e) ↦ ground (arith, e)
]

pub credit_call_home :
    (env : Env) (w : World) (s id additional : ℕ) → KeepsHome w (credit_call env w s id additional)
unfolding credit_call enqueue
credit_call_home env w s id additional = elim (CallerRoute-cases (caller_route w s id)) [
  | inl (r, e) ↦ ground (arith, e)
  | inr (failure, e) ↦ ground (arith, e)
]
