-- ===== src/Relay/Lifecycle/Generations.antt =====
-- Generations of a coordinator: internal/relay/home.go.
use miakapp_server.Relay.Errors.{RelayError}
use miakapp_server.Relay.Opcode.{Opcode}
use miakapp_server.Relay.World.{Handled, Link}
use miakapp_server.Relay.Connection.{fail_link}
use miakapp_server.Relay.Opcode.{Opcode}
use miakapp_server.Relay.Admission.{Admission}
use miakapp_server.Relay.Declarations.{active_coordinator}
use miakapp_server.Relay.Notices.{presence_snapshot_including, coordinator_status_including}
use miakapp_server.Relay.Lifecycle.{
  Handled, presence_snapshot_including, take_slot, prepared, prepare_coordinator, set_session,
  welcome_frame, SendAction, prepare, attach, set_connections, set_coordinators,
  coordinator_status_including, finish_attach, generation_replaced, fail_replaced, end_replaced,
  enqueue_frames, bootstrap,
}
use miakapp_server.Prelude.{
  ℕ, ◌+◌, ◌≡◌, refl, sym, ap, subst, ◌∙◌, ◌≢◌, Bool, true, false, Option, none, some, List, [], ◌∷◌,
  arith, nat_beq_iff, nat_eq,
}
use miakapp_server.GoMap.{lookup-insert_self, lookup, insert}
use miakapp_server.Text.{Text, text_eq}
use miakapp_server.Auth.Identity.{coordinator}
use miakapp_server.Relay.Frame.{Frame}
use miakapp_server.Relay.World.{Link, Handled, SendAction, set_session, World, Env, Slot, Home}
use miakapp_server.Relay.Connection.{stop_link, send_fatal, fail_link, enqueue, dispatch, fail}
use miakapp_server.Relay.Sending.{enqueue-SameCore, dispatch-SameCore, fail-SameCore}
use miakapp_server.Relay.Calls.{
  remove_route, terminate_calls, terminate_calls_for_connection, calls_of, values,
}

-- The home and each connection's identity are as they were.
abbrev pub SameIdentities : World → World → Type 0
SameIdentities w w' =
    (w'.home ≡ w.home) × ((q : ℕ) → (w'.sessions q).identity ≡ (w.sessions q).identity)

remove_route-SameIdentities : (w : World) (r : ℕ) → SameIdentities w (remove_route w r)
unfolding remove_route
remove_route-SameIdentities w r = (ground arith, λ q. ground arith)

pub terminate_calls-SameIdentities :
    (w : World) (s : ℕ) (rs : List ℕ) → SameIdentities w (terminate_calls w s rs).0
unfolding terminate_calls
terminate_calls-SameIdentities w s [] = (refl, λ q. refl)
terminate_calls-SameIdentities w s (r ∷ rs) =
    let first = remove_route-SameIdentities w r in
    let rest = terminate_calls-SameIdentities (remove_route w r) s rs in
    (rest.0 ∙ first.0, λ q. rest.1 q ∙ first.1 q)

end_replaced-SameIdentities :
    (w : World) (s : ℕ) (replaced : Option ℕ) → SameIdentities w (end_replaced w s replaced).0
unfolding end_replaced terminate_calls_for_connection
end_replaced-SameIdentities w s none = (refl, λ q. refl)
end_replaced-SameIdentities w s (some c) =
    let ended = terminate_calls-SameIdentities w s (values (calls_of w c)) in
    let ended_c = terminate_calls-SameIdentities w c (values (calls_of w c)) in
    (ground (arith, ended_c.0), λ q. ground (arith, ended_c.1 q))

enqueue_frames-SameIdentities :
    (env : Env) (w : World) (s : ℕ) (frames : List Frame)
    → SameIdentities w (enqueue_frames env w s frames).0
unfolding enqueue_frames
enqueue_frames-SameIdentities env w s [] = (refl, λ q. refl)
enqueue_frames-SameIdentities env w s (frame ∷ frames) =
    let first = enqueue-SameCore env w s frame false in
    let rest = enqueue_frames-SameIdentities env (enqueue env w s frame false).0 s frames in
    (ground (arith, first.0, rest.0), λ q. ground (arith, first.1, rest.1 q))

bootstrap-SameIdentities :
    (env : Env) (w : World) (s : ℕ) (enrolled : Bool) (frames : List Frame)
    → SameIdentities w (bootstrap env w s enrolled frames).0
unfolding bootstrap
bootstrap-SameIdentities env w s enrolled frames =
    let statuses = coordinator_status_including env w (some s) in
    let greeting = welcome_frame env w s enrolled statuses in
    let first = enqueue-SameCore env w s greeting true in
    let rest = enqueue_frames-SameIdentities env (enqueue env w s greeting true).0 s frames in
    (
      ground (arith, first.0, rest.0),
      λ q. ground (arith, ap (λ x. (x q).identity) first.1, rest.1 q),
    )

fail_replaced-SameIdentities :
    (env : Env) (w : World) (s : ℕ) (replaced : Option ℕ)
    → SameIdentities w (fail_replaced env w s replaced)
unfolding fail_replaced
fail_replaced-SameIdentities env w s none = (refl, λ q. refl)
fail_replaced-SameIdentities env w s (some c) =
    let failed = fail-SameCore env w c none generation_replaced in
    (ground (arith, failed.0), λ q. ground (arith, ap (λ x. (x q).identity) failed.1))

finish_attach-SameIdentities :
    (env : Env) (w : World) (s : ℕ) (enrolled : Bool) (frames : List Frame) (replaced : Option ℕ)
    (actions : List SendAction)
    → SameIdentities w (finish_attach env s (prepared w enrolled frames replaced actions)).0
unfolding finish_attach
finish_attach-SameIdentities env w s enrolled frames replaced actions =
    let started = (bootstrap env w s enrolled frames).0 in
    let arrival = (bootstrap env w s enrolled frames).2 in
    let one = dispatch-SameCore env started actions in
    let two = dispatch-SameCore env (dispatch env started actions) arrival in
    let told = dispatch env (dispatch env started actions) arrival in
    let same = bootstrap-SameIdentities env w s enrolled frames in
    let last = fail_replaced-SameIdentities env told s replaced in
    (
      last.0 ∙ two.0 ∙ one.0 ∙ same.0,
      λ q. last.1 q ∙ ap (λ x. (x q).identity) two.1 ∙ ap (λ x. (x q).identity) one.1 ∙ same.1 q,
    )

-- The slot as the connection that attaches takes it.
abbrev pub taken_by : ℕ → Slot → Slot
taken_by s slot = record slot {
  generation = slot.generation + 1;
  connection = some s;
  ready = false;
  grace = false;
}

-- The world once the slot has passed to the connection.
abbrev pub listed : World → ℕ → World
listed w s = set_connections w (insert s (tt) w.home.connections)

abbrev pub seated : World → ℕ → Text → Slot → World
seated w s name slot =
    let ended = (end_replaced w s slot.connection).0 in
    let held = set_coordinators ended (insert name (taken_by s slot) ended.home.coordinators) in
    set_session held s (record (held.sessions s) { generation = slot.generation + 1 })

attach_step :
    (env : Env) (w : World) (s : ℕ) (slot : Slot)
    → w.home.closed ≡ false
    → (w.sessions s).identity.role ≡ coordinator
    → lookup (w.sessions s).identity.coordinator_name w.home.coordinators ≡ some slot
    → attach env w s
      ≡ finish_attach env s (take_slot (listed w s) s (w.sessions s).identity.coordinator_name slot)
unfolding attach prepare prepare_coordinator
attach_step env w s slot c role e = ground (arith, c, role, e)

attach_seats :
    (env : Env) (w : World) (s : ℕ) (slot : Slot)
    → w.home.closed ≡ false
    → (w.sessions s).identity.role ≡ coordinator
    → lookup (w.sessions s).identity.coordinator_name w.home.coordinators ≡ some slot
    → SameIdentities
        (seated (listed w s) s (w.sessions s).identity.coordinator_name slot)
        (attach env w s).0
unfolding take_slot
attach_seats env w s slot c role e =
    let name = (w.sessions s).identity.coordinator_name in
    let known = seated (listed w s) s name slot in
    let same =
      finish_attach-SameIdentities env known s true (presence_snapshot_including known none ∷ [])
        slot.connection (end_replaced (listed w s) s slot.connection).1 in
    subst (λ (r : Handled). SameIdentities known r.0) (sym (attach_step env w s slot c role e)) same

seated_slot :
    (w : World) (s : ℕ) (name : Text) (slot : Slot)
    → lookup name (seated w s name slot).home.coordinators ≡ some (taken_by s slot)
seated_slot w s name slot =
    lookup-insert_self name (taken_by s slot) (end_replaced w s slot.connection).0.home.coordinators

seated_identity :
    (w : World) (s : ℕ) (name : Text) (slot : Slot) (q : ℕ)
    → ((seated w s name slot).sessions q).identity ≡ (w.sessions q).identity
seated_identity w s name slot q =
    ground (arith, (end_replaced-SameIdentities w s slot.connection).1 q)

-- A coordinator that attaches to an open home that has a slot of its name takes that slot under the
-- next generation, not yet ready and with the disconnect timer stopped, whatever becomes of its
-- bootstrap; the slot keeps the declarations that are active.
pub attach_takes :
    (env : Env) (w : World) (s : ℕ) (slot : Slot)
    → w.home.closed ≡ false
    → (w.sessions s).identity.role ≡ coordinator
    → lookup (w.sessions s).identity.coordinator_name w.home.coordinators ≡ some slot
    → lookup (w.sessions s).identity.coordinator_name (attach env w s).0.home.coordinators
      ≡ some (taken_by s slot)
attach_takes env w s slot c role e =
    let name = (w.sessions s).identity.coordinator_name in
    ap (λ (h : Home). lookup name h.coordinators) (attach_seats env w s slot c role e).0
    ∙ seated_slot (listed w s) s name slot

displaced :
    (w : World) (s old : ℕ) (name : Text) (slot : Slot) (require_ready : Bool)
    → lookup name w.home.coordinators ≡ some (taken_by s slot)
    → (w.sessions old).identity.coordinator_name ≡ name
    → old ≢ s
    → active_coordinator w old require_ready ≡ some generation_replaced
unfolding active_coordinator
displaced w s old name slot require_ready e same n = ground (arith, e, same, n, nat_beq_iff s old)

fail_link_fatal :
    (env : Env) (a : Admission) (link : Link) (source : Option Opcode) (failure : RelayError)
    → (fail_link env a link source failure).1.fatal_once ≡ true
unfolding fail_link send_fatal stop_link
fail_link_fatal env a link source failure = ground arith

finish_fails :
    (env : Env) (w : World) (s old : ℕ) (enrolled : Bool) (frames : List Frame)
    (replaced : Option ℕ) (actions : List SendAction)
    → replaced ≡ some old
    → old ≢ s
    → ((finish_attach env s (prepared w enrolled frames replaced actions)).0.links old).fatal_once
      ≡ true
unfolding finish_attach fail_replaced fail
finish_fails env w s old enrolled frames replaced actions held n =
    let started = (bootstrap env w s enrolled frames).0 in
    let arrival = (bootstrap env w s enrolled frames).2 in
    let told = dispatch env (dispatch env started actions) arrival in
    ground (
      arith,
      held,
      n,
      nat_beq_iff old s,
      nat_beq_iff old old,
      fail_link_fatal env told.admission (told.links old) none generation_replaced,
    )

-- Once a coordinator has attached to an open home, the other connection of that coordinator that
-- held its slot is refused, with the error that its generation was replaced, whatever only the
-- current coordinator may do; and it has been failed.
pub attach_displaces :
    (env : Env) (w : World) (s old : ℕ) (slot : Slot) (require_ready : Bool)
    → w.home.closed ≡ false
    → (w.sessions s).identity.role ≡ coordinator
    → lookup (w.sessions s).identity.coordinator_name w.home.coordinators ≡ some slot
    → slot.connection ≡ some old
    → (w.sessions old).identity.coordinator_name ≡ (w.sessions s).identity.coordinator_name
    → old ≢ s
    → (active_coordinator (attach env w s).0 old require_ready ≡ some generation_replaced)
      × (((attach env w s).0.links old).fatal_once ≡ true)
unfolding take_slot
attach_displaces env w s old slot require_ready c role e held same n =
    let name = (w.sessions s).identity.coordinator_name in
    let known = seated (listed w s) s name slot in
    let kept =
      (attach_seats env w s slot c role e).1 old ∙ seated_identity (listed w s) s name slot old in
    (
      displaced (attach env w s).0 s old name slot require_ready
          (attach_takes env w s slot c role e) (ap (λ i. i.coordinator_name) kept ∙ same) n,
      subst (λ (r : Handled). (r.0.links old).fatal_once ≡ true)
          (sym (attach_step env w s slot c role e))
          (finish_fails env known s old true (presence_snapshot_including known none ∷ [])
            slot.connection (end_replaced (listed w s) s slot.connection).1 held n),
    )
