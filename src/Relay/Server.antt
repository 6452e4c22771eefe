-- ===== src/Relay/Server.antt =====
-- internal/relay/server.go: draining, the live connections, session identifiers and the checks of a
-- WebSocket request. `next_session` is the int64 counter modulo 2 ^ 64. The upgrade itself and the
-- canonical form of a remote address are parameters.
pub mod Telling
pub mod Draining
pub mod Calm
pub mod Spent
pub mod Serving
pub mod Accounts
use miakapp_server.Prelude.{
  ◌%◌, ℕ, zero, suc, ◌+◌, ◌-◌, Bool, true, false, not, ◌&&◌, ◌||◌, Option, none, some, List, [],
  ◌∷◌, ltb, leb, nat_beq, if◌then◌else◌, ◌==◌, ◌!=◌, nat_eq, any,
}
use miakapp_server.Text.{Text, codes, text_eq, split}
use miakapp_server.GoMap.{Set, contains, insert, erase, keys}
use miakapp_server.Config.{Config}
use miakapp_server.Relay.World.{Env, World, Handled, active, update}
use miakapp_server.Relay.Connection.{start_draining, stop}
use miakapp_server.Relay.Lifecycle.{attach}
use miakapp_server.Relay.Admission.{
  Admission, Verdict, admitted, turned_away, connection_rate, connection_capacity,
  acquire_connection, release_connection,
}

-- `connections` is the counter of the wait group.
pub record Server : Type 0 where
  pub config : Config
  pub closed : Bool
  pub draining : Bool
  pub live : Set ℕ
  pub drain_retry_after : ℕ
  pub drain_reason : ℕ
  pub connections : ℕ
  pub next_session : ℕ

-- The calls of startDraining, and those of stop, on a list of connections.
unfoldable pub drain_all : Env → World → List ℕ → ℕ → ℕ → World
drain_all env w [] retry_after reason = w
drain_all env w (s ∷ ss) retry_after reason =
    drain_all env (start_draining env w s retry_after reason) ss retry_after reason

unfoldable pub stop_draining : World → List ℕ → World
stop_draining w [] = w
stop_draining w (s ∷ ss) = stop_draining (stop w s 1012 "draining") ss

-- Drain, up to the goroutine that it starts; the flag says that it starts one.
unfoldable pub drain : Env → Server → World → ℕ → ℕ → Server × World × Bool
unfolding drain_all
drain env server w retry_after reason =
    if server.closed || server.draining then (server, w, false) else (
      record server { draining = true; drain_retry_after = retry_after; drain_reason = reason },
      drain_all env w (keys server.live) retry_after reason,
      true,
    )

-- The goroutine, when the window is over.
unfoldable pub drain_deadline : Server → World → World
unfolding stop_draining
drain_deadline server w = stop_draining w (keys server.live)

-- What authenticate does with drainState.
unfoldable pub drain_on_arrival : Env → Server → World → ℕ → World
drain_on_arrival env server w s =
    if server.draining
    then start_draining env w s server.drain_retry_after server.drain_reason
    else w

-- The end of authenticate, from the identity and the home on.
unfoldable pub join_home : Env → Server → World → ℕ → Handled
unfolding drain_on_arrival
join_home env server w s =
    let ready = record w { links = update w.links s (record (w.links s) { phase = active }) } in
    let (attached, refusal) = attach env ready s in
    elim refusal [
      | some failure ↦ (attached, some failure)
      | none ↦ (drain_on_arrival env server attached s, none)
    ]

unfoldable pub track_connection : Server → ℕ → Server × Bool
track_connection server s = if server.closed then (server, false) else (
  record server { live = insert s tt server.live; connections = server.connections + 1 },
  true,
)

unfoldable pub forget_connection : Server → ℕ → Server
forget_connection server s = record server {
  live = erase s server.live;
  connections = server.connections - 1;
}

-- Close, up to the closing of the homes.
unfoldable pub close_server : Server → Server
close_server server = if server.closed then server else record server { closed = true }

abbrev pub maximum_session_id : ℕ
maximum_session_id = 9_007_199_254_740_991

-- The loop of allocateSessionID, run by one caller: `Add(1)`, the check, and the compare-and-swap.
-- `none` is the outcome of a loop that has run out of fuel.
unfoldable pub allocate_loop : ℕ → ℕ → Option (ℕ × ℕ)
allocate_loop zero counter = none
allocate_loop (suc fuel) counter =
    let incremented = (counter + 1) % 18_446_744_073_709_551_616 in
    let again = allocate_loop fuel 1 in
    if ltb 0 incremented && leb incremented maximum_session_id
    then some (incremented, incremented)
    else again

unfoldable pub allocate_session_id : Server → Option (Server × ℕ)
unfolding allocate_loop
allocate_session_id server = elim (allocate_loop 2 server.next_session) [
  | none ↦ none
  | some (id, counter) ↦ some (record server { next_session = counter }, id)
]

-- randomSessionSeed, given the eight random bytes as a number, or `none` when there are none.
unfoldable pub random_session_seed : Option ℕ → ℕ
random_session_seed none = 1
random_session_seed (some raw) = raw % 4_503_599_627_370_496

unfoldable pub origin_allowed : Server → List Text → Bool
origin_allowed server [] = true
origin_allowed server (origin ∷ []) =
    if origin == [] || any (λ c. nat_beq c b',') origin
    then false
    else contains origin server.config.allowed_origins
origin_allowed server (origin ∷ other ∷ origins) = false

-- `trim_space` is strings.TrimSpace.
unfoldable pub has_subprotocol : (Text → Text) → List Text → Text → Bool
has_subprotocol trim_space [] expected = false
has_subprotocol trim_space (header ∷ headers) expected =
    any (λ candidate. trim_space candidate == expected) (split b',' header)
    || has_subprotocol trim_space headers expected

-- What serveWebSocket reads of a request: the canonical address that canonicalRemoteIP finds in the
-- remote address, whether the method is GET, and two headers.
pub record UpgradeRequest : Type 0 where
  pub source : Option ℕ
  pub is_get : Bool
  pub origins : List Text
  pub subprotocols : List Text

-- How serveWebSocket answers; `serving` runs the connection of that session.
pub data Answer : Type 0 where
  invalid_source rate_exceeded capacity_unavailable method_not_allowed origin_not_allowed
        subprotocol_required upgrade_rejected wrong_subprotocol shut_down :
      Answer
  serving : ℕ → Answer

-- The checks between the admission and the upgrade.
unfoldable pub upgrade_refusal : (Text → Text) → Server → UpgradeRequest → Option Answer
upgrade_refusal trim_space server request =
    if not request.is_get
    then some method_not_allowed
    else if not (origin_allowed server request.origins)
    then some origin_not_allowed
    else if not (has_subprotocol trim_space request.subprotocols (codes "miakapp"))
    then some subprotocol_required
    else none

-- From the upgrade on. `accepted` is what websocket.Accept returns: the subprotocol of the socket,
-- or `none` for an error.
unfoldable pub begin_connection : Server → Option Text → Option (Server × Answer)
begin_connection server none = some (server, upgrade_rejected)
begin_connection server (some subprotocol) =
    if subprotocol != codes "miakapp"
    then some (server, wrong_subprotocol)
    else elim (allocate_session_id server) [
      | none ↦ none
      | some (counted, id) ↦
          let (tracked, running) = track_connection counted id in
          some (tracked, if running then serving id else shut_down)
    ]

abbrev pub admission_answer : Verdict → Answer
admission_answer admitted = shut_down
admission_answer (turned_away connection_rate) = rate_exceeded
admission_answer (turned_away connection_capacity) = capacity_unavailable

abbrev pub is_serving : Answer → Bool
is_serving (serving id) = true
is_serving _ = false

-- An admitted request, up to the running of the connection. A request that is not served gives its
-- admission back.
unfoldable pub serve_admitted :
    (Text → Text)
    → Server
    → Admission
    → ℕ
    → ℕ
    → UpgradeRequest
    → Option Text
    → Option (Server × Admission × Answer)
serve_admitted trim_space server admission source now request accepted =
    elim (upgrade_refusal trim_space server request) [
      | some answer ↦ some (server, release_connection admission source now, answer)
      | none ↦ elim (begin_connection server accepted) [
        | none ↦ none
        | some (begun, answer) ↦ some (
          begun,
          if is_serving answer then admission else release_connection admission source now,
          answer,
        )
      ]
    ]

-- `now` is the clock at the admission, `later` the clock at its return.
unfoldable pub serve_web_socket :
    (Text → Text)
    → Server
    → Admission
    → ℕ
    → ℕ
    → UpgradeRequest
    → Option Text
    → Option (Server × Admission × Answer)
serve_web_socket trim_space server admission now later request accepted = elim request.source [
  | none ↦ some (server, admission, invalid_source)
  | some source ↦
      let (counted, verdict) = acquire_connection server.config admission source now in
      elim verdict [
        | admitted ↦ serve_admitted trim_space server counted source later request accepted
        | turned_away reason ↦ some (server, counted, admission_answer (turned_away reason))
      ]
]

-- The deferred calls once the connection's `run` has returned.
unfoldable pub end_web_socket : Server → Admission → ℕ → ℕ → ℕ → Server × Admission
unfolding forget_connection
end_web_socket server admission s source now =
    (forget_connection server s, release_connection admission source now)

-- How ServeHTTP answers a path, a GET and a HEAD method apart; `to_web_socket` is serveWebSocket.
pub data Reply : Type 0 where
  pong pong_head ping_not_allowed to_web_socket not_found : Reply

unfoldable pub serve_http : Text → Text → Reply
serve_http path method =
    if path == codes "/ping"
    then (if method == codes "GET"
        then pong
        else if method == codes "HEAD"
        then pong_head
        else ping_not_allowed)
    else if path == codes "/ws"
    then to_web_socket
    else not_found
