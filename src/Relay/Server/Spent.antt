-- ===== src/Relay/Server/Spent.antt =====
-- What a drain that was spent during the handshake means for the arrival in the home.
use miakapp_server.Prelude.{
  ℕ, ◌≡◌, refl, sym, subst, ◌∙◌, ◌≢◌, inl, inr, Bool, true, false, Option, none, some, List, [],
  ◌∷◌, arith, leb, nat_beq, nat_beq_iff, Bool-cases, Option-cases, nat_eq, length,
}
use miakapp_server.Auth.Identity.{Role, user, coordinator, cli, other}
use miakapp_server.Relay.Frame.{Frame}
use miakapp_server.Relay.World.{World, Env, Link, Slot, active, draining, update}
use miakapp_server.Text.{Text, text_eq}
use miakapp_server.GoMap.{lookup, insert}
use miakapp_server.Relay.Calls.{
  remove_route, terminate_calls, terminate_calls_for_connection, values, calls_of,
}
use miakapp_server.Relay.Connection.{
  phase_beq, enqueue, dispatch, activate_initial_lease, start_draining,
}
use miakapp_server.Relay.Notices.{coordinator_status_including}
use miakapp_server.Relay.Lifecycle.{
  Prepared, refused_attach, prepared, prepare_user, end_replaced, take_slot, prepare_coordinator,
  prepare, enqueue_frames, welcome_frame, bootstrap, fail_replaced, finish_attach, attach,
  user_bootstrap, set_connections, generation_replaced, max_coordinators_per_home, fresh_slot,
}
use miakapp_server.Relay.Server.{Server, drain_on_arrival, join_home}
use miakapp_server.Relay.Server.Telling.{IsShut}
use miakapp_server.Relay.Server.Calm.{
  IsCalm, IsCalm-trans, update-IsCalm, enqueue-IsCalm, fail-IsCalm, dispatch-IsCalm,
}

terminate_calls_links :
    (w : World) (s : ℕ) (rs : List ℕ) → (terminate_calls w s rs).0.links ≡ w.links
unfolding terminate_calls remove_route
terminate_calls_links w s [] = refl
terminate_calls_links w s (r ∷ rs) =
    let rest = terminate_calls_links (remove_route w r) s rs in ground (arith, rest)

end_replaced_links :
    (w : World) (s : ℕ) (replaced : Option ℕ) → (end_replaced w s replaced).0.links ≡ w.links
unfolding end_replaced terminate_calls_for_connection
end_replaced_links w s none = refl
end_replaced_links w s (some c) =
    let ended : (terminate_calls_for_connection w c).0.links ≡ w.links =
      terminate_calls_links w c (values (calls_of w c)) in
    ground (arith, ended, Bool-cases (nat_beq c s))

-- The world that is prepared for a connection.
abbrev world_of : Prepared → World
world_of (refused_attach w failure) = w
world_of (prepared w enrolled frames replaced actions) = w

prepare_user_links :
    (env : Env) (w : World) (s : ℕ) → (world_of (prepare_user env w s)).links ≡ w.links
unfolding prepare_user user_bootstrap
prepare_user_links env w s = ground arith

take_slot_links :
    (w : World) (s : ℕ) (name : Text) (slot : Slot)
    → (world_of (take_slot w s name slot)).links ≡ w.links
unfolding take_slot
take_slot_links w s name slot = end_replaced_links w s slot.connection

prepare_coordinator_links :
    (w : World) (s : ℕ) → (world_of (prepare_coordinator w s)).links ≡ w.links
unfolding prepare_coordinator
prepare_coordinator_links w s =
    let name = (w.sessions s).identity.coordinator_name in
    elim (Option-cases (lookup name w.home.coordinators)) [
      | inr (slot, e) ↦ ground (arith, e, take_slot_links w s name slot)
      | inl e ↦ ground (
        arith,
        e,
        Bool-cases (leb max_coordinators_per_home (length w.home.coordinators)),
        take_slot_links w s name fresh_slot,
      )
    ]

prepare_links :
    (env : Env) (w : World) (s : ℕ) (role : Role)
    → (world_of (prepare env w s role)).links ≡ w.links
unfolding prepare
prepare_links env w s user = prepare_user_links env w s
prepare_links env w s coordinator = prepare_coordinator_links w s
prepare_links env w s cli = refl
prepare_links env w s (other n) = refl

enqueue_frames-IsCalm :
    (env : Env) (w : World) (s : ℕ) (frames : List Frame) (t : ℕ)
    → IsCalm (w.links t) ((enqueue_frames env w s frames).0.links t)
unfolding enqueue_frames
enqueue_frames-IsCalm env w s [] t = (refl, λ h. h)
enqueue_frames-IsCalm env w s (frame ∷ frames) t =
    let (w', sent) = enqueue env w s frame false in
    let first = enqueue-IsCalm env w s frame false t in
    let rest = enqueue_frames-IsCalm env w' s frames t in
    (
      ground (arith, Bool-cases sent, first.0, rest.0),
      λ h. ground (arith, Bool-cases sent, first.1 h, rest.1 (first.1 h)),
    )

activate_initial_lease-IsCalm :
    (now : ℕ) (link : Link) (expires_at : ℕ)
    → IsCalm link (activate_initial_lease now link expires_at).0
unfolding activate_initial_lease
activate_initial_lease-IsCalm now link expires_at = (ground arith, λ h. ground (arith, h))

bootstrap-IsCalm :
    (env : Env) (w : World) (s : ℕ) (enrolled : Bool) (frames : List Frame) (t : ℕ)
    → IsCalm (w.links t) ((bootstrap env w s enrolled frames).0.links t)
unfolding bootstrap
bootstrap-IsCalm env w s enrolled frames t =
    let identity = (w.sessions s).identity in
    let statuses = coordinator_status_including env w (some s) in
    let greeting = welcome_frame env w s enrolled statuses in
    let (welcomed, greeted) = enqueue env w s greeting true in
    let (framed, sent) = enqueue_frames env welcomed s frames in
    let (link, leased) = activate_initial_lease env.now (framed.links s) identity.expires_at in
    let first = enqueue-IsCalm env w s greeting true t in
    let second =
      IsCalm-trans (w.links t) (welcomed.links t) (framed.links t) first
        (enqueue_frames-IsCalm env welcomed s frames t) in
    let third = IsCalm-trans (w.links t) (framed.links t) (update framed.links s link t) second (
      update-IsCalm framed.links s link t
        (activate_initial_lease-IsCalm env.now (framed.links s) identity.expires_at)) in
    elim (Bool-cases greeted) [
      | inr g ↦ (ground (arith, g, first.0), λ h. ground (arith, g, first.1 h))
      | inl g ↦ elim (Bool-cases sent) [
        | inr q ↦ (ground (arith, g, q, second.0), λ h. ground (arith, g, q, second.1 h))
        | inl q ↦ (
          ground (arith, g, q, third.0, Bool-cases leased),
          λ h. ground (arith, g, q, third.1 h, Bool-cases leased),
        )
      ]
    ]

fail_replaced-IsCalm :
    (env : Env) (w : World) (s : ℕ) (replaced : Option ℕ) (t : ℕ)
    → IsCalm (w.links t) ((fail_replaced env w s replaced).links t)
unfolding fail_replaced
fail_replaced-IsCalm env w s none t = (refl, λ h. h)
fail_replaced-IsCalm env w s (some c) t =
    let p = fail-IsCalm env w c none generation_replaced t in
    elim (Bool-cases (nat_beq c s)) [
      | inl e ↦ (ground (arith, e), λ h. ground (arith, e, h))
      | inr e ↦ (ground (arith, e, p.0), λ h. ground (arith, e, p.1 h))
    ]

finish_attach-IsCalm :
    (env : Env) (s : ℕ) (p : Prepared) (t : ℕ)
    → IsCalm ((world_of p).links t) ((finish_attach env s p).0.links t)
unfolding finish_attach
finish_attach-IsCalm env s (refused_attach w failure) t = (refl, λ h. h)
finish_attach-IsCalm env s (prepared w enrolled frames replaced actions) t =
    let (started, failure, arrival) = bootstrap env w s enrolled frames in
    let informed = dispatch env started actions in
    let told = dispatch env informed arrival in
    let last = fail_replaced env told s replaced in
    let first =
      IsCalm-trans (w.links t) (started.links t) (informed.links t)
        (bootstrap-IsCalm env w s enrolled frames t) (dispatch-IsCalm env started actions t) in
    let second =
      IsCalm-trans (w.links t) (informed.links t) (told.links t) first
        (dispatch-IsCalm env informed arrival t) in
    IsCalm-trans (w.links t) (told.links t) (last.links t) second
      (fail_replaced-IsCalm env told s replaced t)

-- Joining a home begins no drain, of whatever connection.
attach-IsCalm : (env : Env) (w : World) (s t : ℕ) → IsCalm (w.links t) ((attach env w s).0.links t)
unfolding attach
attach-IsCalm env w s t = elim (Bool-cases w.home.closed) [
  | inl c ↦ (ground (arith, c), λ h. ground (arith, c, h))
  | inr c ↦
      let listed = set_connections w (insert s tt w.home.connections) in
      let ready = prepare env listed s (w.sessions s).identity.role in
      let same : (world_of ready).links ≡ w.links =
        prepare_links env listed s (w.sessions s).identity.role in
      let p =
        subst (λ links. IsCalm (links t) ((finish_attach env s ready).0.links t)) same
          (finish_attach-IsCalm env s ready t) in
      (ground (arith, c, p.0), λ h. ground (arith, c, p.1 h))
]

drain_on_arrival_spent :
    (env : Env) (server : Server) (w : World) (s : ℕ)
    → (w.links s).drain_once ≡ true
    → drain_on_arrival env server w s ≡ w
unfolding drain_on_arrival start_draining
drain_on_arrival_spent env server w s h = ground (arith, h)

join_home_link :
    (env : Env) (server : Server) (w : World) (s : ℕ)
    → (w.links s).drain_once ≡ true
    → ((join_home env server w s).0.links s).phase ≢ draining
unfolding join_home
join_home_link env server w s d =
    let ready : World = record w {
      links = update w.links s (record (w.links s) { phase = active });
    } in
    let (attached, refusal) = attach env ready s in
    let p = attach-IsCalm env ready s s in
    let once : (attached.links s).drain_once ≡ true = p.0 ∙ ground (arith, d, nat_beq_iff s s) in
    let calm : phase_beq (attached.links s).phase draining ≡ false =
      p.1 (ground (arith, nat_beq_iff s s)) in
    let stays = drain_on_arrival_spent env server attached s once in
    let left : phase_beq ((join_home env server w s).0.links s).phase draining ≡ false =
      ground (arith, calm, stays, Option-cases refusal) in
    λ drains. ground (arith, left, drains)

start_draining_once :
    (env : Env) (w : World) (s retry_after reason : ℕ)
    → IsShut (w.links s)
    → ((start_draining env w s retry_after reason).links s).drain_once ≡ true
unfolding start_draining
start_draining_once env w s retry_after reason h = elim (Bool-cases (w.links s).drain_once) [
  | inl d ↦ ground (arith, d)
  | inr d ↦ ground (arith, d, h, nat_beq_iff s s)
]

-- A connection that is not active when the drain reaches it, such as one in its handshake, does not
-- drain when it joins its home later either, although the server checks for its drain there: in
-- every world in which its link is still the one that the drain left, the end of the handshake,
-- whether or not the home takes the connection, leaves it in another phase than draining.
pub join_home_spent :
    (env : Env) (server : Server) (w later : World) (s retry_after reason : ℕ)
    → IsShut (w.links s)
    → later.links s ≡ (start_draining env w s retry_after reason).links s
    → ((join_home env server later s).0.links s).phase ≢ draining
join_home_spent env server w later s retry_after reason h same = join_home_link env server later s (
    subst (λ link. link.drain_once ≡ true) (sym same)
      (start_draining_once env w s retry_after reason h))
