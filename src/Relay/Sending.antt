-- ===== src/Relay/Sending.antt =====
-- Sending moves bytes only: whatever is queued, refused or failed, the home, the sessions and the
-- routes stay as they are.
use miakapp_server.Relay.Errors.{RelayError}
use miakapp_server.Relay.Opcode.{Opcode}
use miakapp_server.Prelude.{ℕ, ◌≡◌, refl, ◌∙◌, ◌≢◌, Bool, Option, List, [], ◌∷◌, arith, nat_eq}
use miakapp_server.Relay.World.{World, Env, SendAction}
use miakapp_server.Relay.Frame.{Frame}
use miakapp_server.Relay.Connection.{
  enqueue, enqueue_request_terminal, enqueue_stream, dispatch, fail,
}

abbrev pub SameCore : World → World → Type 0
SameCore w w' =
    (w'.home ≡ w.home)
    × (w'.sessions ≡ w.sessions)
    × (w'.routes ≡ w.routes)
    × (w'.next_route ≡ w.next_route)
    × (w'.next_stage ≡ w.next_stage)

pub enqueue-SameCore :
    (env : Env) (w : World) (s : ℕ) (frame : Frame) (priority : Bool)
    → SameCore w (enqueue env w s frame priority).0
unfolding enqueue
enqueue-SameCore env w s frame priority = (refl, refl, refl, refl, refl)

pub enqueue_request_terminal-SameCore :
    (env : Env) (w : World) (s : ℕ) (frame : Frame) (id : ℕ) (priority : Bool)
    → SameCore w (enqueue_request_terminal env w s frame id priority).0
unfolding enqueue_request_terminal
enqueue_request_terminal-SameCore env w s frame id priority = (refl, refl, refl, refl, refl)

pub enqueue_stream-SameCore :
    (env : Env) (w : World) (s : ℕ) (frame : Frame) → SameCore w (enqueue_stream env w s frame).0
unfolding enqueue_stream
enqueue_stream-SameCore env w s frame = (refl, refl, refl, refl, refl)

pub dispatch-SameCore :
    (env : Env) (w : World) (actions : List SendAction) → SameCore w (dispatch env w actions)
unfolding dispatch
dispatch-SameCore env w [] = (refl, refl, refl, refl, refl)
dispatch-SameCore env w (a ∷ actions) =
    let first = enqueue-SameCore env w a.connection a.frame a.priority in
    let rest = dispatch-SameCore env (enqueue env w a.connection a.frame a.priority).0 actions in
    (rest.0 ∙ first.0, rest.1 ∙ first.1, rest.2 ∙ first.2, rest.3 ∙ first.3, rest.4 ∙ first.4)

pub fail-SameCore :
    (env : Env) (w : World) (s : ℕ) (source : Option Opcode) (failure : RelayError)
    → SameCore w (fail env w s source failure)
unfolding fail
fail-SameCore env w s source failure = (refl, refl, refl, refl, refl)

-- Only the connection that is sent to has its link touched.
pub enqueue_other :
    (env : Env) (w : World) (s t : ℕ) (frame : Frame) (priority : Bool)
    → s ≢ t
    → (enqueue env w s frame priority).0.links t ≡ w.links t
unfolding enqueue
enqueue_other env w s t frame priority h = ground arith
