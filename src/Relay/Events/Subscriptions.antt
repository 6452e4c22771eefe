-- ===== src/Relay/Events/Subscriptions.antt =====
-- How many topics a session subscribes to: subscribe of internal/relay/events.go.
use miakapp_server.Relay.Events.{fresh_count, insert_ids, subscribe}
use miakapp_server.Prelude.{
  ℕ, ◌+◌, ◌≤◌, ◌≡◌, true, List, [], ◌∷◌, arith, nat_beq_iff, nat_eq, length,
}
use miakapp_server.GoMap.{Set, contains, insert, lookup-insert, length-insert_eq}
use miakapp_server.Relay.World.{World, Env}
use miakapp_server.Relay.Connection.{enqueue}

-- Subscribing adds at most as many topics as were counted, from any set that has grown from the one
-- in which they were counted.
insert_ids_count :
    (m n : Set ℕ) (ids : List ℕ)
    → ((k : ℕ) → contains k m ≡ true → contains k n ≡ true)
    → length (insert_ids n ids) ≤ length n + fresh_count m ids
unfolding insert_ids fresh_count
insert_ids_count m n [] h = omega arith
insert_ids_count m n (id ∷ ids) h =
    let rest =
      insert_ids_count m (insert id (tt) n) ids
        (λ k c. ground (arith, h k c, lookup-insert id k (tt) n, nat_beq_iff id k)) in
    ground (arith, rest, h id, length-insert_eq id (tt) n)

-- No session subscribes to more topics than the limit: if that holds of all sessions before a
-- SUBSCRIBE it holds of all after it, whoever subscribes to what, and whether it is accepted or not.
pub subscribe_bound :
    (env : Env) (w : World) (s request : ℕ) (ids : List ℕ)
    → ((t : ℕ) → length (w.sessions t).subscriptions ≤ env.max_subscriptions)
    → (t : ℕ)
    → length ((subscribe env w s request ids).0.sessions t).subscriptions ≤ env.max_subscriptions
unfolding subscribe enqueue
subscribe_bound env w s request ids h t =
    let m = (w.sessions s).subscriptions in ground (arith, h t, insert_ids_count m m ids (λ k c. c))
