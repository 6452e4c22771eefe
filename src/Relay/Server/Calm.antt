-- ===== src/Relay/Server/Calm.antt =====
-- What sending and joining a home leave of the drain of a link: its once is as before, and it does
-- not begin to drain.
use miakapp_server.Prelude.{
  ℕ, ◌≡◌, refl, subst, ◌∙◌, inl, inr, Bool, true, false, Option, none, List, [], ◌∷◌, arith,
  nat_beq, Bool-cases, Option-cases, nat_eq, String,
}
use miakapp_server.Relay.Opcode.{Opcode}
use miakapp_server.Relay.Errors.{RelayError, close_internal, close_reason, slow_consumer}
use miakapp_server.Relay.Frame.{Frame, fatal_frame, response_request_identifier}
use miakapp_server.Relay.Outbound.{Message, enqueue_bytes, replace_queue}
use miakapp_server.Relay.Admission.{Admission}
use miakapp_server.Relay.World.{World, Env, Link, SendAction, update, draining, closed}
use miakapp_server.Relay.Connection.{
  phase_beq, stop_link, send_fatal, fail_link, enqueue_link, message_of, enqueue, fail, dispatch,
}

abbrev pub IsCalm : Link → Link → Type 0
IsCalm before after =
    (after.drain_once ≡ before.drain_once)
    × (phase_beq before.phase draining ≡ false → phase_beq after.phase draining ≡ false)

pub IsCalm-trans : (a b c : Link) → IsCalm a b → IsCalm b c → IsCalm a c
IsCalm-trans a b c p q = (q.0 ∙ p.0, λ h. q.1 (p.1 h))

stop_link-IsCalm :
    (a : Admission) (link : Link) (status : ℕ) (reason : String)
    → IsCalm link (stop_link a link status reason).1
unfolding stop_link
stop_link-IsCalm a link status reason = elim (Bool-cases link.close_once) [
  | inl e ↦ (ground (arith, e), λ h. ground (arith, e, h))
  | inr e ↦ (ground (arith, e), λ h. ground (arith, e))
]

send_fatal-IsCalm :
    (env : Env) (a : Admission) (link : Link) (message : Message)
    → IsCalm link (send_fatal env a link message).1
unfolding send_fatal
send_fatal-IsCalm env a link message =
    let (a', outbound, refusal) = enqueue_bytes env.config a link.outbound message true in
    let (a'', replaced, queued) = replace_queue env.config a' outbound message in
    let p =
      stop_link-IsCalm a'' (record link { outbound = replaced }) close_internal
        "aggregate_queue_exhausted" in
    (
      ground (arith, Option-cases refusal, Bool-cases queued, p.0),
      λ h. ground (arith, h, Option-cases refusal, Bool-cases queued, p.1 h),
    )

fail_link-IsCalm :
    (env : Env) (a : Admission) (link : Link) (source : Option Opcode) (failure : RelayError)
    → IsCalm link (fail_link env a link source failure).1
unfolding fail_link
fail_link-IsCalm env a link source failure =
    let failed = record link { fatal_once = true; phase = closed; detach_requested = true } in
    let frame = fatal_frame source failure in
    elim (Bool-cases link.fatal_once) [
      | inl f ↦ (ground (arith, f), λ h. ground (arith, f, h))
      | inr f ↦ elim (Option-cases (env.encode frame)) [
        | inl e ↦
            let p = stop_link-IsCalm a failed close_internal "internal_failure" in
            (ground (arith, f, e, p.0), λ h. ground (arith, f, e, p.1 refl))
        | inr (size, e) ↦
            let message : Message = record {
              frame = frame;
              size = size;
              droppable_stream = false;
              close_status = failure.close_code;
              close_reason = close_reason failure.close_code;
              ends_request = none;
            } in
            let p = send_fatal-IsCalm env a failed message in
            (ground (arith, f, e, p.0), λ h. ground (arith, f, e, p.1 refl))
      ]
    ]

enqueue_link-IsCalm :
    (env : Env) (a : Admission) (link : Link) (frame : Frame) (droppable : Bool) (ends : Option ℕ)
    (priority : Bool)
    → IsCalm link (enqueue_link env a link frame droppable ends priority).1
unfolding enqueue_link
enqueue_link-IsCalm env a link frame droppable ends priority =
    elim (Option-cases (env.encode frame)) [
      | inl e ↦
          let p = stop_link-IsCalm a link close_internal "internal_failure" in
          (ground (arith, e, p.0), λ h. ground (arith, e, p.1 h))
      | inr (size, e) ↦
          let (a', outbound, refusal) =
            enqueue_bytes env.config a link.outbound (message_of frame size droppable ends)
              priority in
          let p =
            fail_link-IsCalm env a' (record link { outbound = outbound }) none slow_consumer in
          (
            ground (arith, e, Option-cases refusal, p.0),
            λ h. ground (arith, e, h, Option-cases refusal, p.1 h),
          )
    ]

pub update-IsCalm :
    (links : ℕ → Link) (s : ℕ) (link : Link) (t : ℕ)
    → IsCalm (links s) link
    → IsCalm (links t) (update links s link t)
update-IsCalm links s link t p = elim (Bool-cases (nat_beq s t)) [
  | inr e ↦ (ground (arith, e), λ h. ground (arith, e, h))
  | inl e ↦
      let same : s ≡ t = ground (arith, e) in
      let here : IsCalm (links t) link = subst (λ u. IsCalm (links u) link) same p in
      (ground (arith, e, here.0), λ h. ground (arith, e, here.1 h))
]

pub enqueue-IsCalm :
    (env : Env) (w : World) (s : ℕ) (frame : Frame) (priority : Bool) (t : ℕ)
    → IsCalm (w.links t) ((enqueue env w s frame priority).0.links t)
unfolding enqueue
enqueue-IsCalm env w s frame priority t =
    let ends = response_request_identifier frame in
    update-IsCalm w.links s (enqueue_link env w.admission (w.links s) frame false ends priority).1 t
      (enqueue_link-IsCalm env w.admission (w.links s) frame false ends priority)

pub fail-IsCalm :
    (env : Env) (w : World) (s : ℕ) (source : Option Opcode) (failure : RelayError) (t : ℕ)
    → IsCalm (w.links t) ((fail env w s source failure).links t)
unfolding fail
fail-IsCalm env w s source failure t =
    update-IsCalm w.links s (fail_link env w.admission (w.links s) source failure).1 t
      (fail_link-IsCalm env w.admission (w.links s) source failure)

pub dispatch-IsCalm :
    (env : Env) (w : World) (actions : List SendAction) (t : ℕ)
    → IsCalm (w.links t) ((dispatch env w actions).links t)
unfolding dispatch
dispatch-IsCalm env w [] t = (refl, λ h. h)
dispatch-IsCalm env w (a ∷ actions) t =
    let sent = (enqueue env w a.connection a.frame a.priority).0 in
    IsCalm-trans (w.links t) (sent.links t) ((dispatch env sent actions).links t)
      (enqueue-IsCalm env w a.connection a.frame a.priority t) (dispatch-IsCalm env sent actions t)
