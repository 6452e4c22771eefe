-- ===== src/Relay/Declarations/Stages.antt =====
-- A declaration is invisible until its last slice is accepted (declarations.go).
use mathlib.Core.Logic.{ite}
use miakapp_server.Prelude.{ap, ◌∙◌, false}
use miakapp_server.Auth.Identity.{coordinator, role_beq}
use miakapp_server.Relay.Connection.{enqueue}
use miakapp_server.Relay.Frame.{Any}
use miakapp_server.Prelude.{
  sym, Option-cases, subst, some, inr, ◌⊎◌, Bool-cases, none, inl, Option, ◌≢◌, ℕ, ◌≡◌, refl, List,
  [], ◌∷◌, arith, nat_eq,
}
use miakapp_server.Relay.World.{set_home, Handled, World, Env, Home, Slot, Stage, Names}
use miakapp_server.Relay.Declarations.{
  out_of_order, active_coordinator, set_home, slice_opcode, Opcode-discrete, set_stage,
  parse_event_slice, role_beq, parse_function_slice, parse_state_slice, opening, Handled,
  next_slice, enqueue, slice, Declaration, handle_declaration, activate, Any, continue_stage,
  begin_stage, reserve_ids, reserve_id, stop_stage_timer, Slice, acl_slice, event_slice,
  event_acl_slice, function_slice,
}
use miakapp_server.GoMap.{lookup, keys, insert, Map}
use miakapp_server.Text.{text_eq, Text}

abbrev pub SameMaps : Names → Names → Type 0
SameMaps names names' = (names'.by_name ≡ names.by_name) × (names'.by_id ≡ names.by_id)

-- All that users, coordinators and later declarations can see of a home: everything but the
-- counters of the identifiers that are still to be handed out.
pub record SameVisible (h h' : Home) : Type 0 where
  pub revision : h'.revision ≡ h.revision
  pub policy : h'.policy ≡ h.policy
  pub state : h'.state ≡ h.state
  pub coordinators : h'.coordinators ≡ h.coordinators
  pub members : (h'.users ≡ h.users) × (h'.connections ≡ h.connections)
  pub owners :
      (h'.state_owners ≡ h.state_owners)
      × (h'.topic_owners ≡ h.topic_owners)
      × (h'.function_owners ≡ h.function_owners)
  pub names :
      SameMaps h.paths h'.paths × SameMaps h.topics h'.topics × SameMaps h.functions h'.functions

SameVisible-refl : (h : Home) → SameVisible h h
SameVisible-refl h = record {
  revision = refl;
  policy = refl;
  state = refl;
  coordinators = refl;
  members = (refl, refl);
  owners = (refl, refl, refl);
  names = ((refl, refl), (refl, refl), (refl, refl));
}

pub reserve_id-SameMaps : (names : Names) (name : Text) → SameMaps names (reserve_id names name).0
unfolding reserve_id
reserve_id-SameMaps names name = ground arith

pub reserve_ids-SameMaps :
    (names : Names) (ids : Map Text ℕ) (l : List Text) → SameMaps names (reserve_ids names ids l).0
unfolding reserve_ids
reserve_ids-SameMaps names ids [] = (refl, refl)
reserve_ids-SameMaps names ids (name ∷ l) = ground (
  arith,
  reserve_id-SameMaps names name,
  reserve_ids-SameMaps (reserve_id names name).0 (insert name (reserve_id names name).1 ids) l,
)

stop_stage_timer-home : (w : World) (s : ℕ) → (stop_stage_timer w s).home ≡ w.home
unfolding stop_stage_timer
stop_stage_timer-home w s = ground arith

begin_stage-SameVisible :
    (env : Env) (w : World) (s request : ℕ) (entries : List (Text × Any))
    → SameVisible w.home (begin_stage env w s request entries).0.home
unfolding begin_stage enqueue
begin_stage-SameVisible env w s request entries = ground (
  arith,
  stop_stage_timer-home w s,
  reserve_ids-SameMaps w.home.paths [] (keys (parse_state_slice entries)),
)

-- Every slice but the last.
abbrev pub IsLast : Declaration → Type 0
IsLast (opening entries) = ⊥
IsLast (slice (function_slice names)) = Unit {0}
IsLast (slice _) = ⊥

continue_stage-SameVisible :
    (env : Env) (w : World) (s : ℕ) (name : Text) (slot : Slot) (request : ℕ) (stage : Stage)
    (received : Slice)
    → (IsLast (slice received) → ⊥)
    → SameVisible w.home (continue_stage env w s name slot request stage received).0.home
unfolding continue_stage enqueue
continue_stage-SameVisible env w s name slot request stage (acl_slice entries) n =
    SameVisible-refl w.home
continue_stage-SameVisible env w s name slot request stage (event_slice entries) n =
    ground (arith, reserve_ids-SameMaps w.home.topics [] (keys (parse_event_slice entries)))
continue_stage-SameVisible env w s name slot request stage (event_acl_slice entries) n =
    SameVisible-refl w.home
continue_stage-SameVisible env w s name slot request stage (function_slice names) n = absurd (n tt)

activate_refused :
    (env : Env) (w : World) (s : ℕ) (name : Text) (slot : Slot) (request : ℕ) (stage : Stage)
    → (activate env w s name slot request stage).1 ≢ none
    → (activate env w s name slot request stage).0.home ≡ w.home
unfolding activate enqueue
activate_refused env w s name slot request stage h = ground arith

continue_refused :
    (env : Env) (w : World) (s : ℕ) (name : Text) (slot : Slot) (request : ℕ) (stage : Stage)
    (names : List Text)
    → (continue_stage env w s name slot request stage (function_slice names)).1 ≢ none
    → SameVisible w.home
        (continue_stage env w s name slot request stage (function_slice names)).0.home
unfolding continue_stage
continue_refused env w s name slot request stage names h =
    let functions = parse_function_slice names in
    let reserved = reserve_ids w.home.functions [] (keys functions) in
    let staged = record stage { functions = functions; function_ids = reserved.1 } in
    let ready = set_stage (set_home w (record w.home { functions = reserved.0 })) s (some staged) in
    ground (
      arith,
      reserve_ids-SameMaps w.home.functions [] (keys functions),
      activate_refused env ready s name slot request staged,
    )

-- A slice may change what is visible only if it is the last one and is accepted.
abbrev pub MayShow : Declaration → Handled → Type 0
MayShow d r = IsLast d × (r.1 ≡ none)

Slice-IsLast :
    (received : Slice)
    → (IsLast (slice received) → ⊥) ⊎ ((names : List Text) × (received ≡ function_slice names))
Slice-IsLast (acl_slice _) = inl (λ x. x)
Slice-IsLast (event_slice _) = inl (λ x. x)
Slice-IsLast (event_acl_slice _) = inl (λ x. x)
Slice-IsLast (function_slice names) = inr (names, refl)

continue_hidden :
    (env : Env) (w : World) (s : ℕ) (name : Text) (slot : Slot) (request : ℕ) (stage : Stage)
    (received : Slice)
    → (MayShow (slice received) (continue_stage env w s name slot request stage received) → ⊥)
    → SameVisible w.home (continue_stage env w s name slot request stage received).0.home
continue_hidden env w s name slot request stage received h = elim (Slice-IsLast received) [
  | inl n ↦ continue_stage-SameVisible env w s name slot request stage received n
  | inr (names, e) ↦
      subst (λ r. SameVisible w.home (continue_stage env w s name slot request stage r).0.home)
        (sym e)
        (continue_refused env w s name slot request stage names (λ q. h (
          subst (λ r. MayShow (slice r) (continue_stage env w s name slot request stage r)) (sym e)
            (tt, q))))
]

ite_cases :
    {P : Type 0} {A : Type 0} (d : Dec P) (Q : A → Type 0) (a b : A)
    → (ite d a b ≡ a → Q a)
    → (ite d a b ≡ b → Q b)
    → Q (ite d a b)
ite_cases (yes p) Q a b f g = f refl
ite_cases (no n) Q a b f g = g refl

next_hidden :
    (env : Env) (w : World) (s : ℕ) (name : Text) (slot : Slot) (request : ℕ) (stage : Option Stage)
    (received : Slice)
    → (MayShow (slice received) (next_slice env w s name slot request stage received) → ⊥)
    → SameVisible w.home (next_slice env w s name slot request stage received).0.home
unfolding next_slice
next_hidden env w s name slot request none received h = SameVisible-refl w.home
next_hidden env w s name slot request (some stage) received h =
    ite_cases (Opcode-discrete stage.expected (slice_opcode received))
      (λ r. SameVisible w.home r.0.home) (continue_stage env w s name slot request stage received)
      (set_stage w s none, some out_of_order)
      (λ e.
        continue_hidden env w s name slot request stage received
          (λ m. h (m.0, ap (λ r. r.1) e ∙ m.1)))
      (λ e. SameVisible-refl w.home)

handled_hidden :
    (env : Env) (w : World) (s request : ℕ) (name : Text) (slot : Slot) (d : Declaration)
    → (MayShow d (elim d [
      | opening entries ↦ begin_stage env w s request entries
      | slice received ↦ next_slice env w s name slot request (w.sessions s).stage received
    ])
        → ⊥)
    → SameVisible w.home
        (elim d as (λ d. Handled) [
          | opening entries ↦ begin_stage env w s request entries
          | slice received ↦ next_slice env w s name slot request (w.sessions s).stage received
        ]).0.home
handled_hidden env w s request name slot (opening entries) h =
    begin_stage-SameVisible env w s request entries
handled_hidden env w s request name slot (slice received) h =
    next_hidden env w s name slot request (w.sessions s).stage received h

-- Declaring is atomic: a slice that is refused, or that is not the last, leaves the revision, the
-- policy, the state, the coordinators, the members, the owners and the dictionaries' entries of the
-- home as they were; only the counters of the dictionaries' next identifiers may advance.
pub handle_declaration-SameVisible :
    (env : Env) (w : World) (s request : ℕ) (d : Declaration)
    → (MayShow d (handle_declaration env w s request d) → ⊥)
    → SameVisible w.home (handle_declaration env w s request d).0.home
unfolding handle_declaration
handle_declaration-SameVisible env w s request d h =
    elim (Bool-cases (role_beq (w.sessions s).identity.role coordinator)) [
      | inr r ↦ rw r (SameVisible-refl w.home)
      | inl r ↦ elim (Option-cases (active_coordinator w s false)) [
        | inr (failure, f) ↦ rw (r, f) (SameVisible-refl w.home)
        | inl f ↦
            elim (Option-cases
              (lookup (w.sessions s).identity.coordinator_name w.home.coordinators)) [
                | inl l ↦ rw (r, f, l) (SameVisible-refl w.home)
                | inr (slot, l) ↦
                    rw (r, f, l)
                      (handled_hidden env w s request (w.sessions s).identity.coordinator_name slot
                        d (λ m. h (m.0, rw (r, f, l) m.1)))
              ]
      ]
    ]
