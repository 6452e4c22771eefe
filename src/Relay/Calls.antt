-- ===== src/Relay/Calls.antt =====
-- internal/relay/calls.go: calls between connections, routed through identifiers of each side.
pub mod Routes
pub mod Endings
pub mod Unchanged
use miakapp_server.Prelude.{
  ℕ, zero, suc, ◌+◌, ◌-◌, ◌*◌, ◌/◌, ◌≤◌, ◌<◌, ◌≡◌, refl, sym, ap, subst, ◌∙◌, ◌≢◌, ◌↔◌, ◌⊎◌, inl,
  inr, Bool, true, false, not, ◌&&◌, ◌||◌, Option, none, some, List, [], ◌∷◌, ◌++◌, map, arith, ltb,
  leb, nat_beq, if◌then◌else◌, nat_beq_iff, Bool-cases, Option-cases, Eq, ◌==◌, ◌!=◌, nat_eq,
  length, any, all, All, length-append, String,
}
use miakapp_server.Text.{Text, text_eq, codes}
use miakapp_server.GoMap.{Map, Set, lookup, insert, erase, get_or, contains, keys}
use miakapp_server.Auth.Identity.{Role, role_beq, coordinator, user, principal, max_safe_integer}
use miakapp_server.Relay.Errors.{
  close_timeout, close_conflict, close_limit, close_authorization, close_protocol,
  code_invalid_value, code_limit_exceeded, code_not_declared, code_cancelled,
  code_deadline_exceeded, code_outcome_unknown, code_duplicate_request, RelayError,
  application_error, fatal_error, slow_consumer,
}
use miakapp_server.Relay.World.{
  World, Home, Slot, Env, Session, Handled, Route, SendAction, set_session, update,
}
use miakapp_server.Relay.Frame.{
  Frame, Any, nil, call_dispatch, call_accepted, call_result, call_error, call_cancel, call_credit,
  call_failure_frame,
}
use miakapp_server.Relay.Connection.{enqueue, enqueue_stream, reply, reply_or, available}
use miakapp_server.Relay.Views.{user_enrolled}
use miakapp_server.Relay.Projection.{validate_routable_frame}
use miakapp_server.Relay.Notices.{user_id}
use miakapp_server.Relay.Events.{
  sender_failure, ready_connection, is_nil, target_number, target_text, unavailable, no_coordinator,
  wrong_direction, forbidden, not_enrolled,
}

abbrev pub set_route : World → ℕ → Route → World
set_route w r route = record w { routes = update w.routes r route }

abbrev pub set_calls : World → ℕ → Map ℕ ℕ → World
set_calls w s calls = set_session w s (record (w.sessions s) { calls = calls })

abbrev pub calls_of : World → ℕ → Map ℕ ℕ
calls_of w s = (w.sessions s).calls

-- removeRouteLocked: out of both connections' tables, once.
unfoldable pub remove_route : World → ℕ → World
remove_route w r =
    let route = w.routes r in
    if route.terminal
    then w
    else let marked = set_route w r (record route { terminal = true }) in
      let left =
        set_calls marked route.caller (erase route.caller_id (calls_of marked route.caller)) in
      set_calls left route.callee (erase route.callee_id (calls_of left route.callee))

-- The counter's next value: it wraps to 1 past the largest safe integer.
abbrev pub next_call_number : ℕ → ℕ
next_call_number n = if ltb max_safe_integer (n + 1) then 1 else n + 1

-- allocateCalleeCallIDLocked on fuel: an identifier that is used is skipped. One more round than
-- there are calls in flight is enough.
unfoldable pub allocate_call_id : ℕ → Map ℕ ℕ → ℕ → Option ℕ
allocate_call_id zero calls n = none
allocate_call_id (suc fuel) calls n =
    let next = next_call_number n in
    let rest = allocate_call_id fuel calls next in if contains next calls then rest else some next

-- The target of a call, or the error of resolveCallTargetLocked.
pub data Target : Type 0 where
  target : ℕ → Target
  no_target : RelayError → Target

unfoldable pub owner_target : Env → World → Text → String → Target
owner_target env w name message = elim (ready_connection env w (lookup name w.home.coordinators)) [
  | none ↦ no_target (no_coordinator message)
  | some s ↦ target s
]

unfoldable pub user_target : Env → World → ℕ → Text → ℕ → Target
user_target env w caller owner s =
    let identity = (w.sessions caller).identity in
    if not (role_beq identity.role coordinator)
    then no_target (wrong_direction "only coordinators may call a user session")
    else if not (identity.coordinator_name == owner)
    then no_target (forbidden "coordinator does not own the targeted function")
    else if not (contains s w.home.users)
        || not (available env w s)
        || not (user_enrolled w.home (user_id w s))
    then no_target (unavailable "target user session is unavailable")
    else target s

unfoldable pub named_target : Env → World → ℕ → Text → Text → Target
unfolding owner_target
named_target env w caller owner name =
    if not (role_beq (w.sessions caller).identity.role coordinator)
    then no_target (wrong_direction "only coordinators may call a named coordinator")
    else if not (name == owner)
    then no_target (forbidden "named coordinator does not own the targeted function")
    else owner_target env w name "target coordinator is unavailable"

-- resolveCallTargetLocked
unfoldable pub resolve_call_target : Env → World → ℕ → Text → ℕ → Any → Target
unfolding owner_target user_target named_target
resolve_call_target env w caller owner kind value =
    if nat_beq kind 0
    then (if is_nil value
        then owner_target env w owner "function owner is unavailable"
        else no_target (
            application_error code_invalid_value false "default call target must be null"
              close_protocol))
    else if nat_beq kind 1
    then user_target env w caller owner (target_number value)
    else if nat_beq kind 2
    then named_target env w caller owner (target_text value)
    else no_target
        (application_error code_invalid_value false "call target is invalid" close_protocol)

-- The fields of a CALL after its identifier.
pub record CallRequest : Type 0 where
  pub target_kind : ℕ
  pub target_value : Any
  pub function_id : ℕ
  pub timeout : ℕ
  pub idempotency_key : Any
  pub credit : ℕ
  pub call_arguments : Any

-- time.Duration(n) * time.Millisecond, and Duration.Milliseconds
abbrev pub millisecond : ℕ
millisecond = 1_000_000

-- The checks before a target is resolved: the name of the function's owner, or an error.
pub data Callable : Type 0 where
  owned_by : Text → Callable
  not_callable : RelayError → Callable

abbrev pub join_function : Text
join_function = codes "miakapp.join"

unfoldable pub check_call : Env → World → ℕ → ℕ → CallRequest → Callable
unfolding sender_failure
check_call env w s call_id request = elim (sender_failure w s) [
  | some failure ↦ not_callable failure
  | none ↦
      let identity = (w.sessions s).identity in
      let calls = calls_of w s in
      let name = get_or request.function_id [] w.home.functions.by_id in
      let owner = get_or name [] w.home.function_owners in
      if contains call_id calls
      then not_callable (
          application_error code_duplicate_request false "call identifier is already in flight"
            close_conflict)
      else if leb env.max_inflight_calls (length calls)
      then not_callable (
          application_error code_limit_exceeded false "call concurrency limit exceeded" close_limit)
      else if name == [] || owner == []
      then not_callable
          (application_error code_not_declared false "function is not declared" close_authorization)
      else if role_beq identity.role user
          && not (user_enrolled w.home identity.id)
          && not (name == join_function)
      then not_callable not_enrolled
      else owned_by owner
]

-- What remains of the deadline, at least one millisecond.
abbrev pub remaining_milliseconds : ℕ → ℕ → ℕ
remaining_milliseconds now deadline =
    let ms = (deadline - now) / millisecond in if ltb ms 1 then 1 else ms

-- The route is entered on both sides and the call is dispatched; a callee that cannot take it
-- leaves no route behind.
unfoldable pub open_route : Env → World → ℕ → ℕ → Frame → Handled
unfolding remove_route
open_route env w r call_id dispatch_frame =
    let route = w.routes r in
    let called = set_calls w route.caller (insert call_id r (calls_of w route.caller)) in
    let entered =
      set_calls called route.callee (insert route.callee_id r (calls_of called route.callee)) in
    let (sent_w, sent) = enqueue env entered route.callee dispatch_frame false in
    if not sent
    then (remove_route sent_w r, some (unavailable "call destination is unavailable"))
    else reply (
        enqueue env (set_route sent_w r (record (sent_w.routes r) { accepted = true })) route.caller
          (call_accepted call_id) false)

-- A resolved call: the callee's table has room, and the deadline and the frame permit a dispatch.
unfoldable pub dispatch_call : Env → World → ℕ → ℕ → ℕ → CallRequest → ℕ → Handled
unfolding allocate_call_id open_route
dispatch_call env w s call_id deadline request callee =
    let calls = calls_of w callee in
    if leb env.max_inflight_calls (length calls)
    then (
      w,
      some (
          application_error code_limit_exceeded false "callee call concurrency limit exceeded"
            close_limit),
    )
    else elim (allocate_call_id (length calls + 1) calls (w.sessions callee).next_call_id) [
      | none ↦ (w, none)
      | some callee_id ↦
          let r = w.next_route in
          let counted =
            set_session w callee (record (w.sessions callee) { next_call_id = callee_id }) in
          let allocated =
            record (set_route counted r (record {
              caller = s;
              callee = callee;
              caller_id = call_id;
              callee_id = callee_id;
              credit = request.credit;
              accepted = false;
              terminal = false;
              deadline = deadline;
            })) { next_route = r + 1 } in
          let frame =
            call_dispatch callee_id (principal (w.sessions s).identity s) request.target_kind
              request.target_value request.function_id (remaining_milliseconds env.now deadline)
              request.idempotency_key request.credit request.call_arguments in
          if leb deadline env.now
          then (
            counted,
            some (
                application_error code_deadline_exceeded false
                  "call deadline expired before dispatch" close_timeout),
          )
          else elim (validate_routable_frame env frame) [
            | some failure ↦ (counted, some failure)
            | none ↦ open_route env allocated r call_id frame
          ]
    ]

-- startCall; `received` is the clock when the frame was received, `env.now` when it is dispatched.
unfoldable pub start_call : Env → World → ℕ → ℕ → ℕ → CallRequest → Handled
unfolding check_call dispatch_call
start_call env w s received call_id request = elim (check_call env w s call_id request) [
  | not_callable failure ↦ (w, some failure)
  | owned_by owner ↦
      elim (resolve_call_target env w s owner request.target_kind request.target_value) [
        | no_target failure ↦ (w, some failure)
        | target callee ↦
            dispatch_call env w s call_id (received + request.timeout * millisecond) request callee
      ]
]

abbrev pub inactive_route : RelayError
inactive_route =
    application_error code_not_declared false "call route is not active" close_authorization

abbrev pub origin_unavailable : RelayError
origin_unavailable = unavailable "call origin is unavailable"

-- The route that a callee's frame names. An identifier that was handed out and is no longer in
-- flight is dropped without an error.
pub data CalleeRoute : Type 0 where
  routed : ℕ → CalleeRoute
  late : CalleeRoute
  no_route : RelayError → CalleeRoute

unfoldable pub callee_route : World → ℕ → ℕ → CalleeRoute
unfolding sender_failure
callee_route w s call_id = elim (sender_failure w s) [
  | some failure ↦ no_route failure
  | none ↦ elim (lookup call_id (calls_of w s)) [
    | none ↦ if leb call_id (w.sessions s).next_call_id then late else no_route inactive_route
    | some r ↦
        let route = w.routes r in
        if nat_beq route.callee s && nat_beq route.callee_id call_id && not route.terminal
        then routed r
        else no_route inactive_route
  ]
]

-- forwardCallResult on the route.
unfoldable pub forward_result : Env → World → ℕ → Bool → Any → Handled
unfolding remove_route
forward_result env w r final value =
    let route = w.routes r in
    let frame = call_result route.caller_id final value in
    if not final && nat_beq route.credit 0
    then (
      w,
      some (
          application_error code_limit_exceeded false "call result exceeded stream credit"
            close_limit),
    )
    else elim (validate_routable_frame env frame) [
      | some failure ↦ (w, some failure)
      | none ↦
          if final
          then reply_or (enqueue env (remove_route w r) route.caller frame true) origin_unavailable
          else reply_or
              (enqueue_stream env (set_route w r (record route { credit = route.credit - 1 }))
                route.caller frame)
              origin_unavailable
    ]

unfoldable pub forward_call_result : Env → World → ℕ → ℕ → Bool → Any → Handled
unfolding callee_route forward_result
forward_call_result env w s call_id final value = elim (callee_route w s call_id) [
  | late ↦ (w, none)
  | no_route failure ↦ (w, some failure)
  | routed r ↦ forward_result env w r final value
]

-- forwardCallError
unfoldable pub forward_call_error : Env → World → ℕ → ℕ → ℕ → Bool → String → Any → Handled
unfolding callee_route remove_route
forward_call_error env w s call_id code retryable message details =
    elim (callee_route w s call_id) [
      | late ↦ (w, none)
      | no_route failure ↦ (w, some failure)
      | routed r ↦
          let route = w.routes r in
          let frame = call_error route.caller_id code retryable message details in
          elim (validate_routable_frame env frame) [
            | some failure ↦ (w, some failure)
            | none ↦
                reply_or (enqueue env (remove_route w r) route.caller frame true) origin_unavailable
          ]
    ]

-- The route that a caller's frame names.
pub data CallerRoute : Type 0 where
  own_route : ℕ → CallerRoute
  not_own : RelayError → CallerRoute

unfoldable pub caller_route : World → ℕ → ℕ → CallerRoute
unfolding sender_failure
caller_route w s call_id = elim (sender_failure w s) [
  | some failure ↦ not_own failure
  | none ↦ elim (lookup call_id (calls_of w s)) [
    | none ↦ not_own inactive_route
    | some r ↦
        let route = w.routes r in
        if nat_beq route.caller s && nat_beq route.caller_id call_id && not route.terminal
        then own_route r
        else not_own inactive_route
  ]
]

-- cancelCall
unfoldable pub cancel_route : Env → World → ℕ → ℕ → ℕ → ℕ → Handled
unfolding remove_route
cancel_route env w s r call_id reason =
    let route = w.routes r in
    if not route.accepted
    then reply (
        enqueue env (remove_route w r) s
          (call_failure_frame call_id code_cancelled false "call cancelled before dispatch" nil)
          true)
    else let told = (enqueue env w route.callee (call_cancel route.callee_id reason) true).0 in
      reply (
        enqueue env (remove_route told r) s
          (call_failure_frame call_id code_outcome_unknown false
            "call cancellation outcome is unknown" nil)
          true)

unfoldable pub cancel_call : Env → World → ℕ → ℕ → ℕ → Handled
unfolding caller_route cancel_route
cancel_call env w s call_id reason = elim (caller_route w s call_id) [
  | not_own failure ↦ (w, some failure)
  | own_route r ↦ cancel_route env w s r call_id reason
]

-- creditCall
unfoldable pub credit_call : Env → World → ℕ → ℕ → ℕ → Handled
unfolding caller_route
credit_call env w s call_id additional = elim (caller_route w s call_id) [
  | not_own failure ↦ (w, some failure)
  | own_route r ↦
      let route = w.routes r in
      if ltb env.max_stream_credit (route.credit + additional)
      then (
        w,
        some (
            application_error code_limit_exceeded false "call stream credit limit exceeded"
              close_limit),
      )
      else reply_or
          (enqueue env (set_route w r (record route { credit = route.credit + additional }))
            route.callee (call_credit route.callee_id additional) true)
          (unavailable "call destination is unavailable")
]

-- expireCall, the callback of a route's timer.
unfoldable pub expire_call : Env → World → ℕ → World
unfolding remove_route
expire_call env w r =
    let route = w.routes r in
    if route.terminal
    then w
    else if route.accepted
    then (let told =
          (enqueue env (remove_route w r) route.callee
            (call_cancel route.callee_id code_deadline_exceeded) true).0 in
        (enqueue env told route.caller
          (call_failure_frame route.caller_id code_outcome_unknown false
            "call deadline expired after dispatch" nil)
          true).0)
    else (enqueue env (remove_route w r) route.caller
        (call_failure_frame route.caller_id code_deadline_exceeded false
          "call deadline expired before dispatch" nil)
        true).0

-- The notice to the other end of a route whose one end `s` is gone.
unfoldable pub termination_action : ℕ → Route → SendAction
termination_action s route =
    if nat_beq route.caller s
    then record {
      connection = route.callee;
      frame = call_cancel route.callee_id code_outcome_unknown;
      priority = true;
    }
    else record {
      connection = route.caller;
      frame =
          call_failure_frame route.caller_id code_outcome_unknown false
            "call destination disconnected after dispatch" nil;
      priority = true;
    }

-- terminateCallsForConnectionLocked over the calls that are left. A route that was met under its
-- other identifier is terminal by then.
unfoldable pub terminate_calls : World → ℕ → List ℕ → World × List SendAction
unfolding remove_route termination_action
terminate_calls w s [] = (w, [])
terminate_calls w s (r ∷ rs) =
    let route = w.routes r in
    let (w', rest) = terminate_calls (remove_route w r) s rs in
    (w', if route.terminal then rest else termination_action s route ∷ rest)

abbrev pub values : {K V : Type 0} → Map K V → List V
values = map (λ e. e.1)

unfoldable pub terminate_calls_for_connection : World → ℕ → World × List SendAction
unfolding terminate_calls
terminate_calls_for_connection w s = terminate_calls w s (values (calls_of w s))
