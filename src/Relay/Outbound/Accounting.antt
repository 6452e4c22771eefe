-- ===== src/Relay/Outbound/Accounting.antt =====
-- The bytes of an outbound queue are accounted for exactly (connection.go), and eviction takes
-- stream frames only.
use miakapp_server.GoMap.{is_some}
use miakapp_server.Prelude.{
  some, true, Bool, ℕ, ◌+◌, ◌-◌, ◌≤◌, ◌≡◌, refl, ◌≢◌, none, List, [], ◌∷◌, ◌++◌, arith,
  if◌then◌else◌, nat_eq,
}
use miakapp_server.Relay.Outbound.{
  queue_full, next_message, replace_queue, enqueue_bytes, close_queue, Message, Outbound,
  evict_loop, evict_streams, append_message,
}
use miakapp_server.Relay.Admission.{Admission, reserve_queued_bytes, release_queued_bytes}
use miakapp_server.Config.{Config}

abbrev pub sizes : List Message → ℕ
sizes [] = 0
sizes (m ∷ ms) = m.size + sizes ms

-- The messages that eviction may not take.
abbrev pub lasting : List Message → List Message
lasting [] = []
lasting (m ∷ ms) = if m.droppable_stream then lasting ms else m ∷ lasting ms

pub sizes-append : (xs ys : List Message) → sizes (xs ++ ys) ≡ sizes xs + sizes ys
sizes-append [] ys = omega arith
sizes-append (x ∷ xs) ys = omega (arith, sizes-append xs ys)

pub lasting-append : (xs ys : List Message) → lasting (xs ++ ys) ≡ lasting xs ++ lasting ys
lasting-append [] ys = refl
lasting-append (x ∷ xs) ys = ground (arith, lasting-append xs ys)

pub record IsAccounted (config : Config) (a : Admission) (o : Outbound) : Type 0 where
  pub exact : sizes o.queue ≡ o.queued_bytes
  pub bounded : o.queued_bytes ≤ config.max_queued_bytes
  pub reserved : o.queued_bytes ≤ a.queued_bytes
  pub budget : a.queued_bytes ≤ config.max_aggregate_queued_bytes

-- What one step may do to the process budget: move it by just what the queue grows or shrinks.
abbrev pub IsBalanced : Admission → Outbound → Admission → Outbound → Type 0
IsBalanced a o a' o' = a'.queued_bytes + o.queued_bytes ≡ a.queued_bytes + o'.queued_bytes

evict_loop_lem :
    (limit required queued released : ℕ) (ms : List Message)
    → sizes ms ≤ queued
    → let (q, r, kept) = evict_loop limit required queued released ms in
      (q + r ≡ queued + released)
      × (q + sizes ms ≡ queued + sizes kept)
      × (released ≤ r)
      × (lasting kept ≡ lasting ms)
unfolding evict_loop
evict_loop_lem limit required queued released [] h = (refl, refl, omega arith, refl)
evict_loop_lem limit required queued released (m ∷ ms) h = ground (
  arith,
  evict_loop_lem limit required (queued - m.size) (released + m.size) ms,
  evict_loop_lem limit required queued released ms,
)

-- Eviction keeps the account, never grows the queue, and keeps every lasting message in order.
evict_streams_lem :
    (config : Config) (a : Admission) (o : Outbound) (required : ℕ)
    → IsAccounted config a o
    → let (a', o') = evict_streams config a o required in
      IsAccounted config a' o'
      × IsBalanced a o a' o'
      × (lasting o'.queue ≡ lasting o.queue)
      × (o'.queue_closed ≡ o.queue_closed)
      × (o'.close_queued ≡ o.close_queued)
unfolding evict_streams release_queued_bytes
evict_streams_lem config a o required v =
    ground
      (arith, v.exact, evict_loop_lem config.max_queued_bytes required o.queued_bytes 0 o.queue)

append_message_lem :
    (config : Config) (a : Admission) (o : Outbound) (m : Message)
    → IsAccounted config a o
    → let (a', o', e) = append_message config a o m in
      IsAccounted config a' o'
      × IsBalanced a o a' o'
      × (e ≡ none → o'.queue ≡ o.queue ++ m ∷ [])
      × (e ≢ none → o'.queue ≡ o.queue)
unfolding append_message reserve_queued_bytes
append_message_lem config a o m v = ground (arith, v.exact, sizes-append o.queue (m ∷ []))

-- Enqueueing a message, with or without priority, and whether it succeeds or not, keeps the account
-- of an accounted queue exact and bounded, moves the process budget by just the change of the queue, and loses no lasting
-- message: those stay in order, with the new message after them if it was accepted.
pub enqueue_bytes-IsAccounted :
    (config : Config) (a : Admission) (o : Outbound) (m : Message) (priority : Bool)
    → IsAccounted config a o
    → let (a', o', e) = enqueue_bytes config a o m priority in
      IsAccounted config a' o'
      × IsBalanced a o a' o'
      × (lasting o'.queue
          ≡ (if is_some e then lasting o.queue else lasting o.queue ++ lasting (m ∷ [])))
unfolding enqueue_bytes
enqueue_bytes-IsAccounted config a o m priority v = ground (
  arith,
  v.exact,
  evict_streams_lem config a o m.size v,
  append_message_lem config a o m v,
  append_message_lem config (evict_streams config a o m.size).0 (evict_streams config a o m.size).1
      m,
  lasting-append (evict_streams config a o m.size).1.queue (m ∷ []),
  lasting-append o.queue (m ∷ []),
)

-- Taking the next message to write keeps the account of an accounted queue exact and bounded and
-- gives back to the process budget just what the queue loses; the message taken is the oldest, and
-- none is taken only of an empty queue.
pub next_message-IsAccounted :
    (config : Config) (a : Admission) (o : Outbound)
    → IsAccounted config a o
    → let (a', o', m) = next_message a o in
      IsAccounted config a' o'
      × IsBalanced a o a' o'
      × (o.queue ≡ elim m [ none ↦ [] | some first ↦ first ∷ o'.queue ])
unfolding next_message release_queued_bytes
next_message-IsAccounted config a o v = ground (arith, v.exact)

-- Discarding an accounted queue for one message that fits the connection's limit keeps the account
-- exact and bounded and moves the process budget by the change of the queue; if the message is
-- queued it is alone in the queue, and otherwise the queue is empty, or as it was if it was closed.
pub replace_queue-IsAccounted :
    (config : Config) (a : Admission) (o : Outbound) (m : Message)
    → IsAccounted config a o
    → m.size ≤ config.max_queued_bytes
    → let (a', o', queued) = replace_queue config a o m in
      IsAccounted config a' o'
      × IsBalanced a o a' o'
      × (o'.queue ≡ (if queued then m ∷ [] else if o.queue_closed then o.queue else []))
unfolding replace_queue release_queued_bytes reserve_queued_bytes
replace_queue-IsAccounted config a o m v h = ground (arith, v.exact)

-- Closing an accounted queue empties it, marks it closed, and gives all its bytes back to the process
-- budget.
pub close_queue-IsAccounted :
    (config : Config) (a : Admission) (o : Outbound)
    → IsAccounted config a o
    → let (a', o') = close_queue a o in
      IsAccounted config a' o' × IsBalanced a o a' o' × (o'.queue ≡ []) × (o'.queue_closed ≡ true)
unfolding close_queue release_queued_bytes
close_queue-IsAccounted config a o v = ground (arith, v.exact)

-- The lasting messages are some of all.
pub sizes-lasting : (ms : List Message) → sizes (lasting ms) ≤ sizes ms
sizes-lasting [] = omega arith
sizes-lasting (m ∷ ms) = ground (arith, sizes-lasting ms)

evict_loop_room :
    (limit required queued released : ℕ) (ms : List Message)
    → sizes ms ≤ queued
    → queued + required ≤ limit + (sizes ms - sizes (lasting ms))
    → (evict_loop limit required queued released ms).0 + required ≤ limit
unfolding evict_loop
evict_loop_room limit required queued released [] h r = omega arith
evict_loop_room limit required queued released (m ∷ ms) h r = ground (
  arith,
  sizes-lasting ms,
  evict_loop_room limit required (queued - m.size) (released + m.size) ms,
  evict_loop_room limit required queued released ms,
)

-- A priority message is never refused for the connection's own limit while the lasting messages of
-- the accounted queue leave room for it: all the droppable ones make way.
pub enqueue_bytes_room :
    (config : Config) (a : Admission) (o : Outbound) (m : Message)
    → IsAccounted config a o
    → sizes (lasting o.queue) + m.size ≤ config.max_queued_bytes
    → (enqueue_bytes config a o m true).2 ≢ some queue_full
unfolding enqueue_bytes evict_streams append_message
enqueue_bytes_room config a o m v fits = ground (
  arith,
  v.exact,
  sizes-lasting o.queue,
  evict_loop_room config.max_queued_bytes m.size o.queued_bytes 0 o.queue,
)
