-- ===== src/Relay/Server/Serving.antt =====
-- What a WebSocket request is served for, and the identifier that its session gets.
use miakapp_server.Prelude.{
  ◌%◌, ℕ, ◌+◌, ◌≤◌, ◌≡◌, refl, ap, ◌∙◌, ◌≢◌, ◌⊎◌, inl, inr, true, false, ◌&&◌, Option, none, some,
  arith, ltb, leb, Bool-cases, Option-cases, nat_eq,
}
use miakapp_server.Text.{Text, codes, text_beq, text_eq, text_beq_iff}
use miakapp_server.GoMap.{contains, insert, lookup-insert_self}
use miakapp_server.Relay.Admission.{
  AdmissionError, Admission, Verdict, admitted, turned_away, connection_rate, connection_capacity,
  acquire_connection,
}
use miakapp_server.Relay.Server.{
  admission_answer, upgrade_refusal, serve_admitted, Server, allocate_loop, allocate_session_id,
  maximum_session_id, track_connection, origin_allowed, has_subprotocol, UpgradeRequest, serving,
  upgrade_refusal, begin_connection, serve_admitted, serve_web_socket, admission_answer,
}

-- The counter after one more addition.
abbrev next_counter : Server → ℕ
next_counter server = (server.next_session + 1) % 18_446_744_073_709_551_616

-- The search for an identifier ends in its second round at the latest: the identifier is positive,
-- fits in 53 bits and is where the counter stands afterwards.
pub allocate_session_id_ends :
    (server : Server)
    → (id : ℕ) × (allocate_session_id server ≡ some (record server { next_session = id }, id))
      × (1 ≤ id)
      × (id ≤ maximum_session_id)
unfolding allocate_session_id allocate_loop
allocate_session_id_ends server =
    elim (Bool-cases
      (ltb 0 (next_counter server) && leb (next_counter server) maximum_session_id)) [
        | inl e ↦ (next_counter server, ground (arith, e), ground (arith, e), ground (arith, e))
        | inr e ↦ (2, ground (arith, e), omega arith, omega arith)
      ]

-- Why a connection runs: what admission said of its source, and what the upgrade needs.
pub record IsPermitted (trim_space : Text → Text) (server : Server) (a : Admission) (now : ℕ)
    (request : UpgradeRequest) (accepted : Option Text) (after : Server) (b : Admission) (id : ℕ)
    : Type 0 where
  pub source : ℕ
  pub has_source : request.source ≡ some source
  pub counted : acquire_connection server.config a source now ≡ (b, admitted)
  pub get : request.is_get ≡ true
  pub origin : origin_allowed server request.origins ≡ true
  pub offered : has_subprotocol trim_space request.subprotocols (codes "miakapp") ≡ true
  pub chosen : accepted ≡ some (codes "miakapp")
  pub running : server.closed ≡ false
  pub positive : 1 ≤ id
  pub small : id ≤ maximum_session_id
  pub live : contains id after.live ≡ true

pub begin_connection_ends :
    (server : Server) (accepted : Option Text) → begin_connection server accepted ≢ none
unfolding begin_connection track_connection
begin_connection_ends server none = ground arith
begin_connection_ends server (some subprotocol) =
    let (id, e, low, high) = allocate_session_id_ends server in
    ground (arith, e, Bool-cases server.closed)

begin_connection_serving :
    (server after : Server) (accepted : Option Text) (id : ℕ)
    → begin_connection server accepted ≡ some (after, serving id)
    → (accepted ≡ some (codes "miakapp"))
      × (server.closed ≡ false)
      × (1 ≤ id)
      × (id ≤ maximum_session_id)
      × (contains id after.live ≡ true)
unfolding begin_connection track_connection
begin_connection_serving server after none id h = absurd (ground arith)
begin_connection_serving server after (some subprotocol) id h =
    let (fresh, e, low, high) = allocate_session_id_ends server in
    elim (Bool-cases (text_beq subprotocol (codes "miakapp"))) [
      | inr m ↦ absurd (ground (arith, m, h))
      | inl m ↦ elim (Bool-cases server.closed) [
        | inl c ↦ absurd (ground (arith, m, e, c, h))
        | inr c ↦
            let same : fresh ≡ id = ground (arith, m, e, c, h) in
            let tracked : insert fresh tt server.live ≡ after.live = ground (arith, m, e, c, h) in
            (
              ap some ((text_beq_iff subprotocol (codes "miakapp")).0 m),
              c,
              omega (arith, low, same),
              omega (arith, high, same),
              ground (arith, same, tracked, lookup-insert_self fresh tt server.live),
            )
      ]
    ]

pub Verdict-cases :
    (v : Verdict) → (v ≡ admitted) ⊎ ((reason : AdmissionError) × (v ≡ turned_away reason))
Verdict-cases admitted = inl refl
Verdict-cases (turned_away reason) = inr (reason, refl)

upgrade_refusal_parts :
    (trim_space : Text → Text) (server : Server) (request : UpgradeRequest)
    → upgrade_refusal trim_space server request ≡ none
    → (request.is_get ≡ true)
      × (origin_allowed server request.origins ≡ true)
      × (has_subprotocol trim_space request.subprotocols (codes "miakapp") ≡ true)
unfolding upgrade_refusal
upgrade_refusal_parts trim_space server request h = ground arith

upgrade_refusal_serves_not :
    (trim_space : Text → Text) (server : Server) (request : UpgradeRequest) (id : ℕ)
    → upgrade_refusal trim_space server request ≢ some (serving id)
unfolding upgrade_refusal
upgrade_refusal_serves_not trim_space server request id h = ground arith

-- An admitted request that is served keeps its admission.
serve_admitted_serving :
    (trim_space : Text → Text) (server after : Server) (a b : Admission) (source later id : ℕ)
    (request : UpgradeRequest) (accepted : Option Text)
    → serve_admitted trim_space server a source later request accepted ≡ some (after, b, serving id)
    → (upgrade_refusal trim_space server request ≡ none)
      × (begin_connection server accepted ≡ some (after, serving id))
      × (a ≡ b)
unfolding serve_admitted
serve_admitted_serving trim_space server after a b source later id request accepted h =
    elim (Option-cases (upgrade_refusal trim_space server request)) [
      | inr (answer, e) ↦
          absurd (upgrade_refusal_serves_not trim_space server request id (ground (arith, e, h)))
      | inl e ↦ elim (Option-cases (begin_connection server accepted)) [
        | inl f ↦ absurd (ground (arith, e, f, h))
        | inr ((begun, answer), f) ↦
            let answered : answer ≡ serving id = ground (arith, e, f, h) in
            (e, ground (arith, e, f, h), ground (arith, e, f, answered, h))
      ]
    ]

turned_away_serves_not :
    (reason : AdmissionError) (id : ℕ) → admission_answer (turned_away reason) ≢ serving id
turned_away_serves_not connection_rate id h = ground arith
turned_away_serves_not connection_capacity id h = ground arith

-- A request whose connection runs has a source that admission has just admitted, and keeps that
-- admission; it is a GET request from an allowed origin that offers the subprotocol, which the
-- upgrade has chosen; the server was open, and the session is live under an identifier that is
-- positive and fits in 53 bits.
pub serve_web_socket-IsPermitted :
    (trim_space : Text → Text) (server after : Server) (a b : Admission) (now later id : ℕ)
    (request : UpgradeRequest) (accepted : Option Text)
    → serve_web_socket trim_space server a now later request accepted ≡ some (after, b, serving id)
    → IsPermitted trim_space server a now request accepted after b id
unfolding serve_web_socket
serve_web_socket-IsPermitted trim_space server after a b now later id request accepted h =
    elim (Option-cases request.source) [
      | inl e ↦ absurd (ground (arith, e, h))
      | inr (source, e) ↦
          let (counted, verdict) = acquire_connection server.config a source now in
          elim (Verdict-cases verdict) [
            | inr (reason, f) ↦ absurd (turned_away_serves_not reason id (ground (arith, e, f, h)))
            | inl f ↦
                let kept =
                  serve_admitted_serving trim_space server after counted b source later id request
                    accepted (ground (arith, e, f, h)) in
                let p = upgrade_refusal_parts trim_space server request kept.0 in
                let q = begin_connection_serving server after accepted id kept.1 in
                record {
                  source = source;
                  has_source = e;
                  counted = ap (λ v. (counted, v)) f ∙ ap (λ c. (c, admitted)) kept.2;
                  get = p.0;
                  origin = p.1;
                  offered = p.2;
                  chosen = q.0;
                  running = q.1;
                  positive = q.2;
                  small = q.3;
                  live = q.4;
                }
          ]
    ]
