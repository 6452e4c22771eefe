-- ===== src/Relay/Connection.antt =====
-- internal/relay/connection.go: leases, outbound frames, failing and stopping, request and event
-- identifiers, draining. Timers and goroutines are steps of the environment: a lease timer calls
-- `expire_lease`, and `detach_requested` stands for the goroutine that `fail` starts.
use miakapp_server.Relay.Opcode.{Opcode}
use miakapp_server.Prelude.{
  ℕ, ◌+◌, Bool, true, false, not, ◌&&◌, ◌||◌, Option, none, some, List, [], ◌∷◌, leb, nat_beq,
  if◌then◌else◌, nat_eq, String,
}
use miakapp_server.Relay.World.{
  await_hello, draining, closed, active, World, Env, Link, Session, Phase, SendAction, Handled,
  update,
}
use miakapp_server.Relay.Errors.{
  close_auth, close_conflict, close_reason, code_duplicate_request, code_token_expired,
  close_internal, RelayError, application_error, fatal_error, slow_consumer,
}
use miakapp_server.Relay.Frame.{goaway, Frame, fatal_frame, response_request_identifier}
use miakapp_server.Relay.Outbound.{Message, enqueue_bytes, replace_queue, close_queue}
use miakapp_server.Relay.Admission.{Admission}
use miakapp_server.GoMap.{is_some, insert, erase, contains}

abbrev pub phase_beq : Phase → Phase → Bool
phase_beq await_hello await_hello = true
phase_beq active active = true
phase_beq draining draining = true
phase_beq closed closed = true
phase_beq _ _ = false

-- `deadline <= now`; a zero deadline has not been installed yet.
abbrev pub deadline_over : ℕ → Option ℕ → Bool
deadline_over now none = false
deadline_over now (some deadline) = leb deadline now

-- authLeaseExpired
unfoldable pub auth_lease_expired : ℕ → Link → Bool
auth_lease_expired now link = link.lease_expired || deadline_over now link.lease_deadline

-- available
unfoldable pub link_available : ℕ → Link → Bool
unfolding auth_lease_expired
link_available now link =
    link.bootstrapped && phase_beq link.phase active && not (auth_lease_expired now link)

abbrev pub available : Env → World → ℕ → Bool
available env w s = link_available env.now (w.links s)

-- stopLease
unfoldable pub stop_lease : Link → Link
stop_lease link = record link { lease_generation = link.lease_generation + 1 }

-- stop
unfoldable pub stop_link : Admission → Link → ℕ → String → Admission × Link
unfolding stop_lease close_queue
stop_link a link status reason =
    if link.close_once
    then (a, link)
    else let (a', outbound) = close_queue a link.outbound in
      (
        a',
        record (stop_lease link) {
          close_once = true;
          phase = closed;
          outbound = outbound;
          close_status = status;
          close_reason = reason;
        },
      )

abbrev pub message_of : Frame → ℕ → Bool → Option ℕ → Message
message_of frame size droppable ends = record {
  frame = frame;
  size = size;
  droppable_stream = droppable;
  close_status = 0;
  close_reason = "";
  ends_request = ends;
}

-- The part of `fail` that queues the encoded fatal frame.
unfoldable pub send_fatal : Env → Admission → Link → Message → Admission × Link
unfolding stop_link
send_fatal env a link message =
    let (a', outbound, refusal) = enqueue_bytes env.config a link.outbound message true in
    elim refusal [
      | none ↦ (a', record link { outbound = outbound })
      | some _ ↦
          let (a'', replaced, queued) = replace_queue env.config a' outbound message in
          let kept = record link { outbound = replaced } in
          if queued
          then (a'', kept)
          else stop_link a'' kept close_internal "aggregate_queue_exhausted"
    ]

-- fail
unfoldable pub fail_link : Env → Admission → Link → Option Opcode → RelayError → Admission × Link
unfolding send_fatal
fail_link env a link source failure =
    if link.fatal_once
    then (a, link)
    else let failed = record link { fatal_once = true; phase = closed; detach_requested = true } in
      let frame = fatal_frame source failure in
      elim (env.encode frame) [
        | none ↦ stop_link a failed close_internal "internal_failure"
        | some size ↦ send_fatal env a failed (record {
          frame = frame;
          size = size;
          droppable_stream = false;
          close_status = failure.close_code;
          close_reason = close_reason failure.close_code;
          ends_request = none;
        })
      ]

-- enqueueFrame and enqueueStream; the flag says that no error is returned.
unfoldable pub enqueue_link :
    Env → Admission → Link → Frame → Bool → Option ℕ → Bool → Admission × Link × Bool
unfolding fail_link
enqueue_link env a link frame droppable ends priority = elim (env.encode frame) [
  | none ↦
      let (a', stopped) = stop_link a link close_internal "internal_failure" in (a', stopped, false)
  | some size ↦
      let (a', outbound, refusal) =
        enqueue_bytes env.config a link.outbound (message_of frame size droppable ends) priority in
      let queued = record link { outbound = outbound } in
      elim refusal [
        | none ↦ (a', queued, true)
        | some _ ↦
            let (a'', failed) = fail_link env a' queued none slow_consumer in (a'', failed, false)
      ]
]

-- Every way to send to a connection, as a step of the world.
unfoldable pub enqueue_message : Env → World → ℕ → Frame → Bool → Option ℕ → Bool → World × Bool
enqueue_message env w s frame droppable ends priority =
    let (a, link, sent) = enqueue_link env w.admission (w.links s) frame droppable ends priority in
    (record w { admission = a; links = update w.links s link }, sent)

-- enqueue: a response ends its request once it is written.
unfoldable pub enqueue : Env → World → ℕ → Frame → Bool → World × Bool
unfolding enqueue_message
enqueue env w s frame priority =
    enqueue_message env w s frame false (response_request_identifier frame) priority

-- enqueueRequestTerminal
unfoldable pub enqueue_request_terminal : Env → World → ℕ → Frame → ℕ → Bool → World × Bool
unfolding enqueue_message
enqueue_request_terminal env w s frame request_id priority =
    enqueue_message env w s frame false (some request_id) priority

-- enqueueStream
unfoldable pub enqueue_stream : Env → World → ℕ → Frame → World × Bool
unfolding enqueue_message
enqueue_stream env w s frame = enqueue_message env w s frame true none false

-- fail, as a step of the world.
unfoldable pub fail : Env → World → ℕ → Option Opcode → RelayError → World
fail env w s source failure =
    let (a, link) = fail_link env w.admission (w.links s) source failure in
    record w { admission = a; links = update w.links s link }

-- stop, as a step of the world.
unfoldable pub stop : World → ℕ → ℕ → String → World
stop w s status reason =
    let (a, link) = stop_link w.admission (w.links s) status reason in
    record w { admission = a; links = update w.links s link }

-- dispatch (home.go): the errors of `enqueue` are dropped.
unfoldable pub dispatch : Env → World → List SendAction → World
dispatch env w [] = w
dispatch env w (action ∷ actions) =
    dispatch env (enqueue env w action.connection action.frame action.priority).0 actions

-- A reply whose failure ends the handler with a slow-consumer error.
abbrev pub reply : World × Bool → Handled
reply (w, sent) = (w, if sent then none else some slow_consumer)

-- A reply whose failure ends the handler with an application error.
abbrev pub reply_or : World × Bool → RelayError → Handled
reply_or (w, sent) failure = (w, if sent then none else some failure)

-- beginRequest
unfoldable pub begin_request : Link → ℕ → Link × Option RelayError
begin_request link id =
    if contains id link.request_ids
    then (
      link,
      some (
          application_error code_duplicate_request false "request identifier is already in flight"
            close_conflict),
    )
    else (record link { request_ids = insert id (tt) link.request_ids }, none)

-- endRequest
unfoldable pub end_request : Link → ℕ → Link
end_request link id = record link { request_ids = erase id link.request_ids }

-- claimEventID
unfoldable pub claim_event_id : Session → ℕ → Session × Option RelayError
claim_event_id session id =
    if contains id session.event_ids
    then (
      session,
      some (
          application_error code_duplicate_request false "event identifier was already used"
            close_conflict),
    )
    else (record session { event_ids = insert id (tt) session.event_ids }, none)

-- installLeaseLocked
unfoldable pub install_lease : Link → ℕ → Link
install_lease link expires_at = record link {
  lease_generation = link.lease_generation + 1;
  lease_expired = false;
  lease_deadline = some expires_at;
}

-- activateInitialLease
unfoldable pub activate_initial_lease : ℕ → Link → ℕ → Link × Bool
unfolding install_lease
activate_initial_lease now link expires_at =
    if leb expires_at now
    then (record link { lease_expired = true }, false)
    else (record (install_lease link expires_at) { bootstrapped = true }, true)

-- time.Time.Equal, where `none` is the zero time.
abbrev pub same_deadline : Option ℕ → Option ℕ → Bool
same_deadline none none = true
same_deadline (some d) (some p) = nat_beq d p
same_deadline _ _ = false

-- replaceLease; `previous` is the deadline that was read before the token was verified.
unfoldable pub replace_lease : ℕ → Link → Option ℕ → ℕ → Link × Bool
unfolding install_lease
replace_lease now link previous expires_at =
    if link.lease_expired
      || not (same_deadline link.lease_deadline previous)
      || not (is_some link.lease_deadline)
      || deadline_over now link.lease_deadline
      || leb expires_at now
    then (link, false)
    else (install_lease link expires_at, true)

-- expireLease: the callback of the timer that `install_lease` arms with its generation.
unfoldable pub expire_lease : Env → World → ℕ → ℕ → World
unfolding fail
expire_lease env w s generation =
    let link = w.links s in
    if not (nat_beq generation link.lease_generation) || link.lease_expired
    then w
    else fail env (record w { links = update w.links s (record link { lease_expired = true }) }) s
        none (fatal_error code_token_expired true "access token expired" close_auth)

-- startDraining
unfoldable pub start_draining : Env → World → ℕ → ℕ → ℕ → World
start_draining env w s retry_after reason =
    let link = w.links s in
    if link.drain_once
    then w
    else let marked = record w { links = update w.links s (record link { drain_once = true }) } in
      if not (phase_beq link.phase active)
      then marked
      else let (sent_w, sent) = enqueue env marked s (goaway retry_after reason) true in
        if not sent
        then sent_w
        else let after = sent_w.links s in
          if phase_beq after.phase active
          then record sent_w { links = update sent_w.links s (record after { phase = draining }) }
          else sent_w
