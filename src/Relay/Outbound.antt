-- ===== src/Relay/Outbound.antt =====
-- The outbound queue of a connection (connection.go): byte accounting against the connection's
-- limit and the process budget, eviction of droppable stream frames, and closing. `encode` gives the
-- length of an encoded frame, or `none` where `protocol.EncodeFrame` refuses it; a message keeps its
-- frame beside that length. The wake-up channel of the writer is not modelled.
pub mod Accounting
use Prim.Native.String.{String}
use miakapp_server.Prelude.{
  ℕ, ◌+◌, ◌-◌, Bool, true, false, not, ◌&&◌, ◌||◌, Option, none, some, List, [], ◌∷◌, ◌++◌,
  if◌then◌else◌, ltb, leb, nat_beq, length,
}
use miakapp_server.Config.{Config}
use miakapp_server.Relay.Admission.{Admission, reserve_queued_bytes, release_queued_bytes}
use miakapp_server.Relay.Frame.{Frame}

-- outboundMessage; `closes` is the close status, 0 if none, and `ends_request` the request that
-- `afterWrite` ends.
pub record Message : Type 0 where
  pub frame : Frame
  pub size : ℕ
  pub droppable_stream : Bool
  pub close_status : ℕ
  pub close_reason : String
  pub ends_request : Option ℕ

pub record Outbound : Type 0 where
  pub queue : List Message
  pub queued_bytes : ℕ
  pub queue_closed : Bool
  pub close_queued : Bool

abbrev pub empty_outbound : Outbound
empty_outbound = record { queue = []; queued_bytes = 0; queue_closed = false; close_queued = false }

-- The loop of evictStreamsLocked: the bytes still queued, the bytes released, the messages kept.
unfoldable pub evict_loop : ℕ → ℕ → ℕ → ℕ → List Message → ℕ × ℕ × List Message
evict_loop limit required queued released [] = (queued, released, [])
evict_loop limit required queued released (m ∷ ms) =
    let dropped = evict_loop limit required (queued - m.size) (released + m.size) ms in
    let kept = evict_loop limit required queued released ms in
    if m.droppable_stream && ltb limit (queued + required)
    then dropped
    else (kept.0, kept.1, m ∷ kept.2)

unfoldable pub evict_streams : Config → Admission → Outbound → ℕ → Admission × Outbound
unfolding evict_loop
evict_streams config a o required =
    if leb (o.queued_bytes + required) config.max_queued_bytes
    then (a, o)
    else let (queued, released, retained) =
        evict_loop config.max_queued_bytes required o.queued_bytes 0 o.queue in
      ((release_queued_bytes a released).0, record o { queue = retained; queued_bytes = queued })

pub data QueueError : Type 0 where
  closed_queue queue_full aggregate_full : QueueError

-- The admission of a message to a queue that eviction has made room in.
unfoldable pub append_message :
    Config → Admission → Outbound → Message → Admission × Outbound × Option QueueError
append_message config a o message =
    if ltb config.max_queued_bytes (o.queued_bytes + message.size)
    then (a, o, some queue_full)
    else let (a', reserved) = reserve_queued_bytes config a message.size in
      if not reserved then (a', o, some aggregate_full) else (
        a',
        record o {
          queue = o.queue ++ message ∷ [];
          queued_bytes = o.queued_bytes + message.size;
          close_queued = o.close_queued || not (nat_beq message.close_status 0);
        },
        none,
      )

-- enqueueBytes
unfoldable pub enqueue_bytes :
    Config → Admission → Outbound → Message → Bool → Admission × Outbound × Option QueueError
unfolding append_message evict_streams
enqueue_bytes config a o message priority =
    if o.queue_closed || o.close_queued
    then (a, o, some closed_queue)
    else let (a', o') = if priority then evict_streams config a o message.size else (a, o) in
      append_message config a' o' message

-- nextMessage, where the queue is not empty.
unfoldable pub next_message : Admission → Outbound → Admission × Outbound × Option Message
next_message a o = elim o.queue [
  | [] ↦ (a, o, none)
  | m ∷ ms ↦ (
    (release_queued_bytes a m.size).0,
    record o { queue = ms; queued_bytes = o.queued_bytes - m.size },
    some m,
  )
]

-- The queue part of `fail` once `enqueueBytes` has refused the fatal frame: everything queued is
-- discarded to make room for it. The flag says whether it was queued.
unfoldable pub replace_queue : Config → Admission → Outbound → Message → Admission × Outbound × Bool
replace_queue config a o message =
    if o.queue_closed
    then (a, o, false)
    else let a' = (release_queued_bytes a o.queued_bytes).0 in
      let (a'', reserved) = reserve_queued_bytes config a' message.size in
      if reserved
      then (
        a'',
        record o { queue = message ∷ []; queued_bytes = message.size; close_queued = true },
        true,
      )
      else (a'', record o { queue = []; queued_bytes = 0; queue_closed = true }, false)

-- The queue part of `stop`.
unfoldable pub close_queue : Admission → Outbound → Admission × Outbound
close_queue a o = (
  (release_queued_bytes a o.queued_bytes).0,
  record o { queue = []; queued_bytes = 0; queue_closed = true },
)
