-- ===== src/Relay/Server/Telling.antt =====
-- What sending makes of a link, and what may become of a connection that is told to drain.
use miakapp_server.Config.{Config}
use miakapp_server.Prelude.{
  ℕ, ◌≡◌, refl, inl, inr, Bool, true, false, ◌||◌, Option, none, some, List, [], ◌∷◌, ◌++◌, arith,
  if◌then◌else◌, Bool-cases, Option-cases, nat_eq, String,
}
use miakapp_server.Relay.World.{draining, Env, Link, active, closed}
use miakapp_server.Relay.Admission.{Admission}
use miakapp_server.Relay.Errors.{close_reason, close_internal, RelayError, slow_consumer}
use miakapp_server.Relay.Opcode.{Opcode}
use miakapp_server.Relay.Frame.{response_request_identifier, fatal_frame, Frame, goaway}
use miakapp_server.Relay.Outbound.{
  evict_streams, Outbound, append_message, enqueue_bytes, replace_queue, Message,
}
use miakapp_server.Relay.Connection.{
  phase_beq, message_of, enqueue_link, fail_link, stop_link, send_fatal,
}

-- A link that serves no new request.
abbrev pub IsShut : Link → Type 0
IsShut link = phase_beq link.phase active ≡ false

-- A link that has failed or has been stopped.
abbrev pub has_ended : Link → Bool
has_ended link = link.fatal_once || link.close_once

-- What sending leaves of the marks of a link: its drain is as before, and a failure stays.
record IsMarked (before after : Link) : Type 0 where
  drained : after.drain_once ≡ before.drain_once
  failed : before.fatal_once ≡ true → after.fatal_once ≡ true
  shut : IsShut before → IsShut after

stop_link-IsMarked :
    (a : Admission) (link : Link) (status : ℕ) (reason : String)
    → IsMarked link (stop_link a link status reason).1
unfolding stop_link
stop_link-IsMarked a link status reason = elim (Bool-cases link.close_once) [
  | inl e ↦ record {
    drained = ground (arith, e);
    failed = λ f. ground (arith, e, f);
    shut = λ h. ground (arith, e, h);
  }
  | inr e ↦ record {
    drained = ground (arith, e);
    failed = λ f. ground (arith, e, f);
    shut = λ h. ground (arith, e);
  }
]

send_fatal-IsMarked :
    (env : Env) (a : Admission) (link : Link) (message : Message)
    → IsMarked link (send_fatal env a link message).1
unfolding send_fatal
send_fatal-IsMarked env a link message =
    let (a', outbound, refusal) = enqueue_bytes env.config a link.outbound message true in
    let (a'', replaced, queued) = replace_queue env.config a' outbound message in
    let stopped =
      stop_link-IsMarked a'' (record link { outbound = replaced }) close_internal
        "aggregate_queue_exhausted" in
    record {
      drained = ground (arith, Option-cases refusal, Bool-cases queued, stopped.drained);
      failed = λ f. ground (arith, f, Option-cases refusal, Bool-cases queued, stopped.failed f);
      shut = λ h. ground (arith, h, Option-cases refusal, Bool-cases queued, stopped.shut h);
    }

-- A link that fails for the first time has failed and is shut.
fail_link_first :
    (env : Env) (a : Admission) (link : Link) (source : Option Opcode) (failure : RelayError)
    → link.fatal_once ≡ false
    → ((fail_link env a link source failure).1.fatal_once ≡ true)
      × IsShut (fail_link env a link source failure).1
      × ((fail_link env a link source failure).1.drain_once ≡ link.drain_once)
unfolding fail_link
fail_link_first env a link source failure h =
    let failed = record link { fatal_once = true; phase = closed; detach_requested = true } in
    let frame = fatal_frame source failure in
    elim (Option-cases (env.encode frame)) [
      | inl e ↦
          let p = stop_link-IsMarked a failed close_internal "internal_failure" in
          ground (arith, e, h, p.failed refl, p.shut refl, p.drained)
      | inr (size, e) ↦
          let message : Message = record {
            frame = frame;
            size = size;
            droppable_stream = false;
            close_status = failure.close_code;
            close_reason = close_reason failure.close_code;
            ends_request = none;
          } in
          let p = send_fatal-IsMarked env a failed message in
          ground (arith, e, h, p.failed refl, p.shut refl, p.drained)
    ]

stop_link_first :
    (a : Admission) (link : Link) (status : ℕ) (reason : String)
    → link.close_once ≡ false
    → ((stop_link a link status reason).1.close_once ≡ true)
      × IsShut (stop_link a link status reason).1
      × ((stop_link a link status reason).1.drain_once ≡ link.drain_once)
unfolding stop_link
stop_link_first a link status reason h = ground arith

-- A link that a frame cannot be queued on has ended.
pub enqueue_link_refused :
    (env : Env) (a : Admission) (link : Link) (frame : Frame) (droppable : Bool) (ends : Option ℕ)
    (priority : Bool)
    → link.fatal_once ≡ false
    → link.close_once ≡ false
    → (enqueue_link env a link frame droppable ends priority).2 ≡ false
    → (has_ended (enqueue_link env a link frame droppable ends priority).1 ≡ true)
      × IsShut (enqueue_link env a link frame droppable ends priority).1
      × ((enqueue_link env a link frame droppable ends priority).1.drain_once ≡ link.drain_once)
unfolding enqueue_link
enqueue_link_refused env a link frame droppable ends priority f c sent =
    elim (Option-cases (env.encode frame)) [
      | inl e ↦ ground (arith, e, stop_link_first a link close_internal "internal_failure" c)
      | inr (size, e) ↦
          let (a', outbound, refusal) =
            enqueue_bytes env.config a link.outbound (message_of frame size droppable ends)
              priority in
          elim (Option-cases refusal) [
            | inl g ↦ absurd (ground (arith, e, g, sent))
            | inr (reason, g) ↦ ground (
              arith,
              e,
              g,
              fail_link_first env a' (record link { outbound = outbound }) none slow_consumer f,
            )
          ]
    ]

append_message_sent :
    (config : Config) (a : Admission) (o : Outbound) (m : Message)
    → (append_message config a o m).2 ≡ none
    → (append_message config a o m).1.queue ≡ o.queue ++ m ∷ []
unfolding append_message
append_message_sent config a o m h = ground arith

-- A message that is accepted is the last of the queue.
enqueue_bytes_sent :
    (config : Config) (a : Admission) (o : Outbound) (m : Message) (priority : Bool)
    → (enqueue_bytes config a o m priority).2 ≡ none
    → (kept : List Message) × ((enqueue_bytes config a o m priority).1.queue ≡ kept ++ m ∷ [])
unfolding enqueue_bytes
enqueue_bytes_sent config a o m priority h = elim (Bool-cases (o.queue_closed || o.close_queued)) [
  | inl c ↦ absurd (ground (arith, c, h))
  | inr c ↦
      let (a', o') = if priority then evict_streams config a o m.size else (a, o) in
      (o'.queue, ground (arith, c, h, append_message_sent config a' o' m))
]

-- The GOAWAY of a drain, where its encoding has `size` bytes.
abbrev pub goaway_message : ℕ → ℕ → ℕ → Message
goaway_message retry_after reason size =
    message_of (goaway retry_after reason) size false
      (response_request_identifier (goaway retry_after reason))

-- What the sending of GOAWAY makes of a link that has just been marked as told.
abbrev pub goaway_sent : Env → Admission → Link → ℕ → ℕ → Admission × Link × Bool
goaway_sent env a link retry_after reason =
    enqueue_link env a (record link { drain_once = true }) (goaway retry_after reason) false
      (response_request_identifier (goaway retry_after reason)) true

-- What becomes of a connection that is told to drain for the first time, under the accounts `a`. It
-- was active, drains, and GOAWAY is the last message queued for it; or it was active, GOAWAY could
-- not be queued for it, and it has failed or is stopped; or it was not active and is only marked.
pub data IsDrained (env : Env) (a : Admission) (retry_after reason : ℕ) (before after : Link)
    : Type 0 where
  told :
      before.phase ≡ active
      → after.phase ≡ draining
      → (size : ℕ) (kept : List Message) → env.encode (goaway retry_after reason) ≡ some size
      → after.outbound.queue ≡ kept ++ goaway_message retry_after reason size ∷ []
      → IsDrained env a retry_after reason before after
  refused :
      before.phase ≡ active
      → (goaway_sent env a before retry_after reason).2 ≡ false
      → has_ended after ≡ true
      → IsShut after
      → IsDrained env a retry_after reason before after
  left_alone :
      IsShut before
      → after ≡ record before { drain_once = true }
      → IsDrained env a retry_after reason before after

-- What the sending of a frame with success leaves.
pub enqueue_link_sent :
    (env : Env) (a : Admission) (link : Link) (frame : Frame) (droppable : Bool) (ends : Option ℕ)
    (priority : Bool)
    → (enqueue_link env a link frame droppable ends priority).2 ≡ true
    → (size : ℕ) × (kept : List Message) × (env.encode frame ≡ some size)
      × ((enqueue_link env a link frame droppable ends priority).1.outbound.queue
          ≡ kept ++ message_of frame size droppable ends ∷ [])
      × ((enqueue_link env a link frame droppable ends priority).1.phase ≡ link.phase)
      × ((enqueue_link env a link frame droppable ends priority).1.drain_once ≡ link.drain_once)
unfolding enqueue_link
enqueue_link_sent env a link frame droppable ends priority sent =
    elim (Option-cases (env.encode frame)) [
      | inl e ↦ absurd (ground (arith, e, sent))
      | inr (size, e) ↦
          let m = message_of frame size droppable ends in
          elim (Option-cases (enqueue_bytes env.config a link.outbound m priority).2) [
            | inr (reason, g) ↦ absurd (ground (arith, e, g, sent))
            | inl g ↦
                let (kept, q) = enqueue_bytes_sent env.config a link.outbound m priority g in
                (size, kept, e, ground (arith, e, g, q), ground (arith, e, g), ground (arith, e, g))
          ]
    ]
