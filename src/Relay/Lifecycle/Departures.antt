-- ===== src/Relay/Lifecycle/Departures.antt =====
-- What a connection that leaves leaves behind: detach of internal/relay/home.go.
use miakapp_server.Relay.Lifecycle.{detach, release_slot, leave, leave_role}
use miakapp_server.Prelude.{
  ℕ, ◌≡◌, refl, sym, ap, subst, inl, inr, Bool, true, false, none, arith, nat_beq_iff, Option-cases,
  nat_eq, All,
}
use miakapp_server.GoMap.{Map, lookup, contains, lookup-erase}
use miakapp_server.Text.{Text, text_eq}
use miakapp_server.Auth.Identity.{cli, user, other, Role, coordinator}
use miakapp_server.Relay.World.{Route, World, Env, Slot, Home}
use miakapp_server.Relay.Connection.{dispatch}
use miakapp_server.Relay.Declarations.{set_stage}
use miakapp_server.Relay.Sending.{dispatch-SameCore}
use miakapp_server.Relay.Calls.{terminate_calls_for_connection, calls_of, values}
use miakapp_server.Relay.Calls.Endings.{terminate_calls_ends}
use miakapp_server.Relay.Lifecycle.Generations.{terminate_calls-SameIdentities}

-- Leaving a role changes neither the list of connections nor a route.
abbrev pub KeepsRest : World → World → Type 0
KeepsRest w w' = (w'.home.connections ≡ w.home.connections) × (w'.routes ≡ w.routes)

release_slot-KeepsRest :
    (env : Env) (w : World) (s : ℕ) (visible : Bool) (name : Text) (slot : Slot)
    → KeepsRest w (release_slot env w s visible name slot).0
unfolding release_slot
release_slot-KeepsRest env w s visible name slot = (ground arith, ground arith)

leave_role-KeepsRest :
    (env : Env) (w : World) (s : ℕ) (visible : Bool) (role : Role)
    → KeepsRest w (leave_role env w s visible role).0
unfolding leave_role
leave_role-KeepsRest env w s visible user = (refl, refl)
leave_role-KeepsRest env w s visible coordinator =
    elim (Option-cases (lookup (w.sessions s).identity.coordinator_name w.home.coordinators)) [
      | inl e ↦ (ground (arith, e), ground (arith, e))
      | inr (slot, e) ↦
          let kept =
            release_slot-KeepsRest env w s visible (w.sessions s).identity.coordinator_name slot in
          (ground (arith, e, kept.0), ground (arith, e, kept.1))
    ]
leave_role-KeepsRest env w s visible cli = (refl, refl)
leave_role-KeepsRest env w s visible (other n) = (refl, refl)

-- The world once the calls of the connection have ended.
abbrev pub ended : World → ℕ → World
ended w s = (terminate_calls_for_connection (set_stage (leave w s) s none) s).0

detach-KeepsRest :
    (env : Env) (w : World) (s : ℕ)
    → contains s w.home.connections ≡ true
    → KeepsRest (ended w s) (detach env w s)
unfolding detach
detach-KeepsRest env w s h =
    let visible = (w.links s).bootstrapped in
    let role = (w.sessions s).identity.role in
    let actions = (terminate_calls_for_connection (set_stage (leave w s) s none) s).1 in
    let left = (leave_role env (ended w s) s visible role).0 in
    let lifecycle = (leave_role env (ended w s) s visible role).1 in
    let one = dispatch-SameCore env left actions in
    let two = dispatch-SameCore env (dispatch env left actions) lifecycle in
    let kept = leave_role-KeepsRest env (ended w s) s visible role in
    (
      ground (
        arith,
        h,
        ap (λ (x : Home). x.connections) two.0,
        ap (λ (x : Home). x.connections) one.0,
        kept.0,
      ),
      ground (arith, h, two.2, one.2, kept.1),
    )

-- The calls of a connection as its departure finds them.
calls_kept : (w : World) (s : ℕ) → calls_of (set_stage (leave w s) s none) s ≡ calls_of w s
calls_kept w s = ground (arith, nat_beq_iff s s)

-- When a connection that its home lists is detached, the home no longer lists it, and every call in
-- its table, as caller or as callee, has ended.
pub detach_ends :
    (env : Env) (w : World) (s : ℕ)
    → contains s w.home.connections ≡ true
    → (contains s (detach env w s).home.connections ≡ false)
      × All (λ r. ((detach env w s).routes r).terminal ≡ true) (values (calls_of w s))
unfolding terminate_calls_for_connection
detach_ends env w s h =
    let kept = detach-KeepsRest env w s h in
    let start = set_stage (leave w s) s none in
    let rs = values (calls_of start s) in
    let same = terminate_calls-SameIdentities start s rs in
    let gone = lookup-erase s s w.home.connections in
    (
      ground (arith, kept.0, ap (λ (x : Home). x.connections) same.0, gone, nat_beq_iff s s),
      subst (λ (c : Map ℕ ℕ). All (λ r. ((detach env w s).routes r).terminal ≡ true) (values c))
          (calls_kept w s)
          (subst (λ (routes : ℕ → Route). All (λ r. (routes r).terminal ≡ true) rs) (sym kept.1)
            (terminate_calls_ends start s rs)),
    )
