-- ===== src/Relay/Dispatch/Rules.antt =====
-- When a frame is handled at all: the guards of handle (internal/relay/connection.go).
use miakapp_server.Relay.Dispatch.{incoming_allowed, handle, is_terminal_opcode}
use miakapp_server.Prelude.{
  ℕ, ◌≡◌, ◌≢◌, ◌⊎◌, inl, inr, true, false, not, ◌&&◌, none, arith, Bool-cases, nat_eq,
}
use miakapp_server.Relay.Frame.{Frame, opcode}
use miakapp_server.Relay.World.{World, Env, draining, closed}
use miakapp_server.Relay.Connection.{phase_beq, auth_lease_expired}

-- The conditions under which a frame of a session reaches its handler.
abbrev pub IsAllowed : Env → World → ℕ → Frame → Type 0
IsAllowed env w s frame =
    (phase_beq (w.links s).phase closed ≡ false)
    × (auth_lease_expired env.now (w.links s) ≡ false)
    × ((phase_beq (w.links s).phase draining && not (is_terminal_opcode (opcode frame))) ≡ false)
    × (incoming_allowed env.opcode_number (w.sessions s).identity.role (opcode frame) ≡ true)

-- Whatever a frame asks, either the session is open, its token's lease is running, it is not
-- draining or the frame ends a call, and the role may send the frame; or the frame is refused with
-- an error and nothing changes.
pub handle-IsAllowed :
    (env : Env) (w : World) (s received : ℕ) (frame : Frame)
    → IsAllowed env w s frame
      ⊎ (((handle env w s received frame).0 ≡ w) × ((handle env w s received frame).1 ≢ none))
unfolding handle
handle-IsAllowed env w s received frame =
    let link = w.links s in
    let role = (w.sessions s).identity.role in
    let op = opcode frame in
    elim (Bool-cases (phase_beq link.phase closed)) [
      | inl p ↦ inr (ground (arith, p), ground (arith, p))
      | inr p ↦ elim (Bool-cases (auth_lease_expired env.now link)) [
        | inl q ↦ inr (ground (arith, p, q), ground (arith, p, q))
        | inr q ↦ elim (Bool-cases (phase_beq link.phase draining && not (is_terminal_opcode op))) [
          | inl d ↦ inr (ground (arith, p, q, d), ground (arith, p, q, d))
          | inr d ↦ elim (Bool-cases (incoming_allowed env.opcode_number role op)) [
            | inl a ↦ inl (p, q, d, a)
            | inr a ↦ inr (ground (arith, p, q, d, a), ground (arith, p, q, d, a))
          ]
        ]
      ]
    ]
