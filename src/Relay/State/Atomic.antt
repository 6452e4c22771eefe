-- ===== src/Relay/State/Atomic.antt =====
-- A STATE_SET is all or nothing, and changes only what its coordinator owns (state.go).
use miakapp_server.Relay.Notices.{with_revision}
use miakapp_server.Relay.Connection.{enqueue}
use miakapp_server.Relay.Projection.{projection_for_state}
use miakapp_server.Relay.Errors.{RelayError}
use miakapp_server.Relay.Declarations.{active_coordinator}
use miakapp_server.Auth.Identity.{coordinator, role_beq}
use miakapp_server.Prelude.{
  String, [], ◌∷◌, All, ◌∙◌, ap, ℕ, ◌+◌, ◌≡◌, refl, sym, subst, ◌≢◌, ◌⊎◌, inl, inr, true, none,
  some, List, arith, Bool-cases, Option-cases, nat_eq,
}
use miakapp_server.Relay.World.{
  set_home, SendAction, Home, Handled, World, Env, Slot, CoordinatorConfig,
}
use miakapp_server.Relay.State.{
  set_home, mutation_path, patch_actions, with_revision, mutate, enqueue, stale_epoch, SendAction,
  note_revisions, only_coordinators_mutate, Home, mutate_all, mutated_home, text_beq, RelayError,
  active_coordinator, not_declared, role_beq, Handled, apply_state_set, set_on_slot,
  commit_mutations, mutation_paths, found, refused_path, Located,
}
use miakapp_server.Relay.Sending.{dispatch-SameCore, enqueue-SameCore}
use miakapp_server.Relay.Frame.{Any, state_set_ok, Mutation}
use miakapp_server.Text.{text_beq_iff, text_beq, text_eq, Text}
use miakapp_server.GoMap.{keys, lookup-insert, contains, lookup-erase, get_or, Map, lookup}

-- What a refusal leaves: nothing but queued bytes changes.
abbrev pub Untouched : World → World → Type 0
Untouched w w' = (w'.home ≡ w.home) × (w'.sessions ≡ w.sessions) × (w'.routes ≡ w.routes)

commit_refused :
    (env : Env) (w : World) (s : ℕ) (name : Text) (slot : Slot) (config : CoordinatorConfig)
    (request : ℕ) (ms : List (Text × Mutation))
    → (commit_mutations env w s name slot config request ms).1 ≢ none
    → Untouched w (commit_mutations env w s name slot config request ms).0
unfolding commit_mutations
commit_refused env w s name slot config request ms h =
    ground (
      arith,
      enqueue-SameCore env w s (state_set_ok request w.home.epoch (w.home.revision + 1)) true,
    )

-- What the coordinator check establishes.
pub active_coordinator_holds :
    (w : World) (s : ℕ)
    → active_coordinator w s true ≡ none
    → (slot : Slot) × (config : CoordinatorConfig) × (lookup
          (w.sessions s).identity.coordinator_name
          w.home.coordinators
        ≡ some slot)
      × (slot.active ≡ some config)
      × (slot.connection ≡ some s)
      × (slot.generation ≡ (w.sessions s).generation)
      × (slot.ready ≡ true)
unfolding active_coordinator
active_coordinator_holds w s h =
    elim (Option-cases (lookup (w.sessions s).identity.coordinator_name w.home.coordinators)) [
      | inl e ↦ absurd (ground arith)
      | inr (slot, e) ↦ elim (Option-cases slot.active) [
        | inl a ↦ absurd (ground arith)
        | inr (config, a) ↦ elim (Option-cases slot.connection) [
          | inl c ↦ absurd (ground arith)
          | inr (t, c) ↦ (slot, config, e, a, ground arith, ground arith, ground arith)
        ]
      ]
    ]

-- A STATE_SET is refused on the spot, or its mutations are all located and committed.
abbrev pub SetOutcome : Env → World → ℕ → ℕ → List Mutation → Handled → Type 0
SetOutcome env w s request ms r =
    ((failure : RelayError) × (r ≡ (w, some failure)))
    ⊎ ((slot : Slot) × (config : CoordinatorConfig) × (located : List (Text × Mutation)) × (lookup
            (w.sessions s).identity.coordinator_name w.home.coordinators
          ≡ some slot)
        × (slot.active ≡ some config)
        × (mutation_paths w.home (w.sessions s).identity.coordinator_name config ms ≡ found located)
        × (r
            ≡ commit_mutations env w s (w.sessions s).identity.coordinator_name slot config request
                located))

SetOutcome-located :
    (env : Env) (w : World) (s request : ℕ) (ms : List Mutation) (slot : Slot)
    (config : CoordinatorConfig) (r : Located (List (Text × Mutation)))
    → lookup (w.sessions s).identity.coordinator_name w.home.coordinators ≡ some slot
    → slot.active ≡ some config
    → mutation_paths w.home (w.sessions s).identity.coordinator_name config ms ≡ r
    → SetOutcome env w s request ms
        (set_on_slot env w s (w.sessions s).identity.coordinator_name (some slot) request ms)
unfolding set_on_slot
SetOutcome-located env w s request ms slot config (found located) e a p =
    inr (slot, config, located, e, a, p, rw (a, p) refl)
SetOutcome-located env w s request ms slot config (refused_path message) e a p =
    inl (not_declared message, rw (a, p) refl)

SetOutcome-active :
    (env : Env) (w : World) (s request : ℕ) (ms : List Mutation)
    → active_coordinator w s true ≡ none
    → SetOutcome env w s request ms (
        set_on_slot env w s
          (w.sessions s).identity.coordinator_name
          (lookup (w.sessions s).identity.coordinator_name w.home.coordinators)
          request
          ms)
SetOutcome-active env w s request ms h =
    let (slot, config, e, a, _, _, _) = active_coordinator_holds w s h in
    subst
      (λ o.
        SetOutcome env w s request ms
          (set_on_slot env w s (w.sessions s).identity.coordinator_name o request ms))
      (sym e) (SetOutcome-located env w s request ms slot config _ e a refl)

pub set_outcome :
    (env : Env) (w : World) (s request : ℕ) (epoch : Text) (ms : List Mutation)
    → SetOutcome env w s request ms (apply_state_set env w s request epoch ms)
unfolding apply_state_set
set_outcome env w s request epoch ms =
    elim (Bool-cases (role_beq (w.sessions s).identity.role coordinator)) [
      | inr r ↦ inl (only_coordinators_mutate, rw r refl)
      | inl r ↦ elim (Bool-cases (text_beq epoch w.home.epoch)) [
        | inr t ↦ inl (stale_epoch, rw (r, t) refl)
        | inl t ↦ elim (Option-cases (active_coordinator w s true)) [
          | inr (failure, f) ↦ inl (failure, rw (r, t, f) refl)
          | inl f ↦ rw (r, t, f) (SetOutcome-active env w s request ms f)
        ]
      ]
    ]

-- A refused STATE_SET leaves the home, every session and every route exactly as they were: neither
-- the state nor the revision moves, whichever mutation or check was at fault.
pub apply_state_set_refused :
    (env : Env) (w : World) (s request : ℕ) (epoch : Text) (ms : List Mutation)
    → (apply_state_set env w s request epoch ms).1 ≢ none
    → Untouched w (apply_state_set env w s request epoch ms).0
apply_state_set_refused env w s request epoch ms h = elim (set_outcome env w s request epoch ms) [
  | inl (failure, e) ↦ rw e (refl, refl, refl)
  | inr (slot, config, located, _, _, _, e) ↦ rw e (
      commit_refused env w s (w.sessions s).identity.coordinator_name slot config request located
        (λ q. h (ap (λ r. r.1) e ∙ q)))
]

note_revisions-home :
    (w : World) (actions : List SendAction) → (note_revisions w actions).home ≡ w.home
unfolding note_revisions
note_revisions-home w [] = refl
note_revisions-home w (a ∷ actions) = note_revisions-home (with_revision w a.connection) actions

commit_accepted :
    (env : Env) (w : World) (s : ℕ) (name : Text) (slot : Slot) (config : CoordinatorConfig)
    (request : ℕ) (ms : List (Text × Mutation))
    → (commit_mutations env w s name slot config request ms).1 ≡ none
    → (commit_mutations env w s name slot config request ms).0.home
      ≡ mutated_home w.home name slot config ms
unfolding commit_mutations
commit_accepted env w s name slot config request ms h =
    let answered =
      (enqueue env w s (state_set_ok request w.home.epoch (w.home.revision + 1)) true).0 in
    let actions =
      patch_actions env w
        (projection_for_state w.home (mutate_all w.home.state ms) (w.home.revision + 1)) ms
        (keys w.home.users) in
    let changed = set_home answered (mutated_home answered.home name slot config ms) in
    ground (
      arith,
      enqueue-SameCore env w s (state_set_ok request w.home.epoch (w.home.revision + 1)) true,
      note_revisions-home changed actions,
      dispatch-SameCore env (note_revisions changed actions) actions,
    )

Located-cases :
    {A : Type 0} (r : Located A) → ((a : A) × (r ≡ found a)) ⊎ ((m : String) × (r ≡ refused_path m))
Located-cases (found a) = inl (a, refl)
Located-cases (refused_path m) = inr (m, refl)

path_owned :
    (h : Home) (name : Text) (config : CoordinatorConfig) (m : Mutation) (path : Text)
    → mutation_path h name config m ≡ found path
    → (get_or path [] h.state_owners ≡ name) × (contains path config.owned_state ≡ true)
unfolding mutation_path
path_owned h name config m path e =
    let p = get_or m.path_id [] h.paths.by_id in
    ground (arith, text_beq_iff (get_or p [] h.state_owners) name)

-- Every located path belongs to the coordinator.
abbrev pub AllOwned : Home → Text → CoordinatorConfig → List (Text × Mutation) → Type 0
AllOwned h name config =
    All (λ e. (get_or e.0 [] h.state_owners ≡ name) × (contains e.0 config.owned_state ≡ true))

located_owned :
    (h : Home) (name : Text) (config : CoordinatorConfig) (ms : List Mutation)
    (located : List (Text × Mutation))
    → mutation_paths h name config ms ≡ found located
    → AllOwned h name config located
unfolding mutation_paths
located_owned h name config [] located e =
    let same : ◌≡◌ {A = List (Text × Mutation)} [] located = ground arith in
    subst (AllOwned h name config) same (tt)
located_owned h name config (m ∷ ms) located e =
    elim (Located-cases (mutation_path h name config m)) [
      | inr (message, p) ↦ absurd (ground arith)
      | inl (path, p) ↦ elim (Located-cases (mutation_paths h name config ms)) [
        | inr (message, q) ↦ absurd (ground arith)
        | inl (rest, q) ↦
            let same : (path, m) ∷ rest ≡ located = ground arith in
            subst (AllOwned h name config) same
              (path_owned h name config m path p, located_owned h name config ms rest q)
      ]
    ]

mutate_other :
    (path p : Text) (m : Mutation) (state : Map Text Any)
    → p ≢ path
    → lookup path (mutate state (p, m)) ≡ lookup path state
unfolding mutate
mutate_other path p m state h =
    ground
      (arith, lookup-erase p path state, lookup-insert p path m.value state, text_beq_iff p path)

mutate_all_other :
    (h : Home) (name : Text) (config : CoordinatorConfig) (path : Text) (state : Map Text Any)
    (ms : List (Text × Mutation))
    → AllOwned h name config ms
    → get_or path [] h.state_owners ≢ name
    → lookup path (mutate_all state ms) ≡ lookup path state
unfolding mutate_all
mutate_all_other h name config path state [] o n = refl
mutate_all_other h name config path state ((p, m) ∷ ms) o n =
    mutate_all_other h name config path (mutate state (p, m)) ms o.1 n
    ∙ mutate_other path p m state (λ e. n (subst (λ q. get_or q [] h.state_owners ≡ name) e o.0.0))

-- What an accepted STATE_SET does to the home.
pub record IsCommitted (h : Home) (name : Text) (h' : Home) : Type 0 where
  pub next_revision : h'.revision ≡ h.revision + 1
  pub same_owners : h'.state_owners ≡ h.state_owners
  pub same_policy : h'.policy ≡ h.policy
  pub same_names : h'.paths ≡ h.paths
  pub others_kept :
      (path : Text)
      → get_or path [] h.state_owners ≢ name
      → lookup path h'.state ≡ lookup path h.state
  pub slots_kept :
      (other : Text) → other ≢ name → lookup other h'.coordinators ≡ lookup other h.coordinators

mutated_home-IsCommitted :
    (h : Home) (name : Text) (slot : Slot) (config : CoordinatorConfig)
    (ms : List (Text × Mutation))
    → AllOwned h name config ms
    → IsCommitted h name (mutated_home h name slot config ms)
unfolding mutated_home
mutated_home-IsCommitted h name slot config ms o = record {
  next_revision = refl;
  same_owners = refl;
  same_policy = refl;
  same_names = refl;
  others_kept = λ path n. mutate_all_other h name config path h.state ms o n;
  slots_kept = λ other n. ground (
    arith,
    lookup-insert name other
        (record slot { active = some (record config { state = mutate_all config.state ms }) })
        h.coordinators,
    text_beq_iff name other,
  );
}

-- An accepted STATE_SET advances the revision by one and writes only paths that its coordinator
-- owns: the value of every other path, every other coordinator, the owners, the policy and the
-- dictionary stay.
pub apply_state_set-IsCommitted :
    (env : Env) (w : World) (s request : ℕ) (epoch : Text) (ms : List Mutation)
    → (apply_state_set env w s request epoch ms).1 ≡ none
    → IsCommitted w.home
        (w.sessions s).identity.coordinator_name
        (apply_state_set env w s request epoch ms).0.home
apply_state_set-IsCommitted env w s request epoch ms h =
    elim (set_outcome env w s request epoch ms) [
      | inl (failure, e) ↦ absurd (ground (arith, ap (λ r. r.1) e))
      | inr (slot, config, located, _, _, l, e) ↦
          let name = (w.sessions s).identity.coordinator_name in
          subst (IsCommitted w.home name)
            (sym (
              ap (λ r. r.0.home) e
              ∙ commit_accepted env w s name slot config request located
                  (sym (ap (λ r. r.1) e) ∙ h)))
            (mutated_home-IsCommitted w.home name slot config located
              (located_owned w.home name config ms located l))
    ]
