-- ===== src/Relay/Calls/Endings.antt =====
-- How a call ends, on both of its sides: internal/relay/calls.go.
use miakapp_server.Relay.Errors.{RelayError}
use miakapp_server.Relay.Calls.{
  not_own, own_route, caller_route, CallerRoute, no_route, RelayError, late, CalleeRoute,
  forward_call_error, credit_call, enqueue_stream, terminate_calls, set_route, set_calls, calls_of,
  routed, remove_route, forward_result, callee_route, forward_call_result,
}
use miakapp_server.Prelude.{
  ℕ, ◌+◌, ◌≤◌, ◌≡◌, refl, ◌≢◌, ◌⊎◌, inl, inr, Bool, true, false, none, List, [], ◌∷◌, arith,
  nat_beq_iff, Option-cases, nat_eq, All, String,
}
use miakapp_server.GoMap.{lookup, erase, lookup-erase}
use miakapp_server.Relay.World.{World, Env}
use miakapp_server.Relay.Frame.{Any}
use miakapp_server.Relay.Connection.{enqueue_stream, enqueue}

pub remove_route_home : (w : World) (r : ℕ) → (remove_route w r).home ≡ w.home
unfolding remove_route
remove_route_home w r = ground arith

-- A removed route is terminal, and what was terminal stays so.
remove_route_terminal : (w : World) (r : ℕ) → ((remove_route w r).routes r).terminal ≡ true
unfolding remove_route
remove_route_terminal w r = ground (arith, nat_beq_iff r r)

remove_route_keeps :
    (w : World) (r q : ℕ)
    → (w.routes q).terminal ≡ true
    → ((remove_route w r).routes q).terminal ≡ true
unfolding remove_route
remove_route_keeps w r q h = ground (arith, nat_beq_iff r q)

-- The callee's table loses the identifier.
remove_route_callee :
    (w : World) (r : ℕ)
    → (w.routes r).terminal ≡ false
    → lookup (w.routes r).callee_id (calls_of (remove_route w r) (w.routes r).callee) ≡ none
unfolding remove_route
remove_route_callee w r h =
    let route = w.routes r in
    let left =
      set_calls (set_route w r (record route { terminal = true })) route.caller
        (erase route.caller_id (calls_of w route.caller)) in
    ground (
      arith,
      lookup-erase route.callee_id route.callee_id (calls_of left route.callee),
      nat_beq_iff route.callee_id route.callee_id,
      nat_beq_iff route.callee route.callee,
    )

callee_route_own :
    (w : World) (s id r : ℕ)
    → callee_route w s id ≡ routed r
    → ((w.routes r).callee ≡ s) × ((w.routes r).callee_id ≡ id) × ((w.routes r).terminal ≡ false)
unfolding callee_route
callee_route_own w s id r h = elim (Option-cases (lookup id (calls_of w s))) [
  | inl e ↦ absurd (ground (arith, e))
  | inr (q, e) ↦ (ground (arith, e), ground (arith, e), ground (arith, e))
]

not_routed :
    (w : World) (s id q : ℕ) → lookup id (calls_of w s) ≡ none → callee_route w s id ≢ routed q
unfolding callee_route
not_routed w s id q h e = ground (arith, h, e)

forward_result_ends :
    (env : Env) (w : World) (s id r : ℕ) (value : Any)
    → callee_route w s id ≡ routed r
    → (forward_result env w r true value).1 ≡ none
    → lookup id (calls_of (forward_result env w r true value).0 s) ≡ none
unfolding forward_result enqueue
forward_result_ends env w s id r value e h =
    let own = callee_route_own w s id r e in
    let gone = remove_route_callee w r own.2 in ground (arith, own.0, own.1, gone)

forward_error_ends :
    (env : Env) (w : World) (s id r code : ℕ) (retryable : Bool) (message : String) (details : Any)
    → callee_route w s id ≡ routed r
    → (forward_call_error env w s id code retryable message details).1 ≡ none
    → lookup id (calls_of (forward_call_error env w s id code retryable message details).0 s) ≡ none
unfolding forward_call_error enqueue
forward_error_ends env w s id r code retryable message details e h =
    let own = callee_route_own w s id r e in
    let gone = remove_route_callee w r own.2 in ground (arith, e, own.0, own.1, gone)

pub CalleeRoute-cases :
    (c : CalleeRoute)
    → ((r : ℕ) × (c ≡ routed r)) ⊎ ((c ≡ late) ⊎ ((failure : RelayError) × (c ≡ no_route failure)))
CalleeRoute-cases (routed r) = inl (r, refl)
CalleeRoute-cases late = inr (inl refl)
CalleeRoute-cases (no_route failure) = inr (inr (failure, refl))

-- Once a callee's final result has been handled without an error, the identifier that it was sent
-- under names no route of the callee any more, whether it was forwarded or dropped as late.
pub forward_call_result-IsFinal :
    (env : Env) (w : World) (s id : ℕ) (value : Any) (q : ℕ)
    → (forward_call_result env w s id true value).1 ≡ none
    → callee_route (forward_call_result env w s id true value).0 s id ≢ routed q
unfolding forward_call_result
forward_call_result-IsFinal env w s id value q h = elim (CalleeRoute-cases (callee_route w s id)) [
  | inl (r, e) ↦
      let ended = forward_result_ends env w s id r value e (ground (arith, e)) in
      ground (arith, e, not_routed (forward_result env w r true value).0 s id q ended)
  | inr (inl e) ↦ ground (arith, e)
  | inr (inr (failure, e)) ↦ ground (arith, e)
]

-- Once a callee's error answer has been handled without an error, the identifier that it was sent
-- under names no route of the callee any more, whether it was forwarded or dropped as late.
pub forward_call_error-IsFinal :
    (env : Env) (w : World) (s id code : ℕ) (retryable : Bool) (message : String) (details : Any)
    (q : ℕ)
    → (forward_call_error env w s id code retryable message details).1 ≡ none
    → callee_route (forward_call_error env w s id code retryable message details).0 s id ≢ routed q
unfolding forward_call_error
forward_call_error-IsFinal env w s id code retryable message details q h =
    elim (CalleeRoute-cases (callee_route w s id)) [
      | inl (r, e) ↦
          not_routed (forward_call_error env w s id code retryable message details).0 s id q
            (forward_error_ends env w s id r code retryable message details e h)
      | inr (inl e) ↦ ground (arith, e)
      | inr (inr (failure, e)) ↦ ground (arith, e)
    ]

-- Every route's stream credit is within the limit.
abbrev pub IsCredited : Env → World → Type 0
IsCredited env w = (r : ℕ) → (w.routes r).credit ≤ env.max_stream_credit

pub CallerRoute-cases :
    (c : CallerRoute)
    → ((r : ℕ) × (c ≡ own_route r)) ⊎ ((failure : RelayError) × (c ≡ not_own failure))
CallerRoute-cases (own_route r) = inl (r, refl)
CallerRoute-cases (not_own failure) = inr (failure, refl)

-- Adding credit keeps every stream within the limit, refused or not.
pub credit_call-IsCredited :
    (env : Env) (w : World) (s id additional : ℕ)
    → IsCredited env w
    → IsCredited env (credit_call env w s id additional).0
unfolding credit_call enqueue
credit_call-IsCredited env w s id additional c r = elim (CallerRoute-cases (caller_route w s id)) [
  | inl (q, e) ↦ ground (arith, e, c r)
  | inr (failure, e) ↦ ground (arith, e, c r)
]

-- A partial result is forwarded only against credit, and uses up one unit of it.
pub forward_call_result_spends :
    (env : Env) (w : World) (s id r : ℕ) (value : Any)
    → callee_route w s id ≡ routed r
    → (forward_call_result env w s id false value).1 ≡ none
    → ((forward_call_result env w s id false value).0.routes r).credit + 1 ≡ (w.routes r).credit
unfolding forward_call_result forward_result enqueue_stream
forward_call_result_spends env w s id r value e h = ground (arith, e, nat_beq_iff r r)

terminate_calls_keeps :
    (w : World) (s : ℕ) (rs : List ℕ) (q : ℕ)
    → (w.routes q).terminal ≡ true
    → ((terminate_calls w s rs).0.routes q).terminal ≡ true
unfolding terminate_calls
terminate_calls_keeps w s [] q h = h
terminate_calls_keeps w s (r ∷ rs) q h =
    terminate_calls_keeps (remove_route w r) s rs q (remove_route_keeps w r q h)

-- Every route of a list that is terminated is terminal afterwards.
pub terminate_calls_ends :
    (w : World) (s : ℕ) (rs : List ℕ)
    → All (λ r. ((terminate_calls w s rs).0.routes r).terminal ≡ true) rs
unfolding terminate_calls
terminate_calls_ends w s [] = tt
terminate_calls_ends w s (r ∷ rs) = (
  terminate_calls_keeps (remove_route w r) s rs r (remove_route_terminal w r),
  terminate_calls_ends (remove_route w r) s rs,
)
