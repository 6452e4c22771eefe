-- ===== src/Relay/Admission/Counts.antt =====
-- How much an admission and a release change the counts (admission.go).
use miakapp_server.Config.{Config}
use miakapp_server.Prelude.{
  subst, ◌-◌, ◌≤◌, inr, inl, Bool-cases, Option-cases, length, leb, ◌+◌, nat_beq_iff, ℕ, ◌≡◌, refl,
  none, [], ◌∷◌, arith, nat_beq, if◌then◌else◌, nat_eq,
}
use miakapp_server.GoMap.{lookup-insert_self, Distinct, Map, lookup, insert, erase}
use miakapp_server.Relay.Admission.{
  connection_capacity, admit_new, release_source, acquire_connection, release_connection, admitted,
  fresh_source, turned_away, Admission, Verdict, Config, roll_window, admit_source, Source,
  prune_sources,
}
use miakapp_server.Relay.Admission.Counting.{active_of}

active-insert :
    (k t : ℕ) (s : Source) (m : Map ℕ Source)
    → active_of t (insert k s m) ≡ (if nat_beq k t then s.active else active_of t m)
unfolding insert lookup
active-insert k t s [] = ground arith
active-insert k t s ((j, w) ∷ m) = ground (arith, active-insert k t s m)

active_absent : (k : ℕ) (m : Map ℕ Source) → lookup k m ≡ none → active_of k m ≡ 0
active_absent k m h = ground (arith, h)

active-erase :
    (k t : ℕ) (m : Map ℕ Source)
    → Distinct m
    → active_of t (erase k m) ≡ (if nat_beq k t then 0 else active_of t m)
unfolding erase lookup
active-erase k t [] d = ground arith
active-erase k t ((j, w) ∷ m) d = ground (arith, active-erase k t m d.1, active_absent j m d.0)

active-prune :
    (now t : ℕ) (m : Map ℕ Source) → Distinct m → active_of t (prune_sources now m) ≡ active_of t m
unfolding prune_sources lookup
active-prune now t [] d = refl
active-prune now t ((j, w) ∷ m) d = ground (arith, active-prune now t m d.1, active_absent j m d.0)

-- The counts after `n` more connections of `source`, and none of another.
abbrev pub IsGrown : ℕ → ℕ → Admission → Admission → Type 0
IsGrown n source a a' =
    (a'.active_connections ≡ a.active_connections + n)
    × ((t : ℕ)
        → active_of t a'.sources ≡ active_of t a.sources + (if nat_beq source t then n else 0))

abbrev pub taken : Verdict → ℕ
taken admitted = 1
taken (turned_away reason) = 0

admit_source-IsGrown :
    (config : Config) (a : Admission) (source : ℕ) (s : Source)
    → s.active ≡ active_of source a.sources
    → let (a', verdict) = admit_source config a source s in IsGrown (taken verdict) source a a'
unfolding admit_source
admit_source-IsGrown config a source s e = (
  ground arith,
  λ t. ground (
    arith,
    nat_beq_iff source t,
    active-insert source t s a.sources,
    active-insert source t (record s { attempts = s.attempts + 1 }) a.sources,
    active-insert source t (record s { attempts = s.attempts + 1; active = s.active + 1 })
        a.sources,
  ),
)

roll_window_active : (now : ℕ) (s : Source) → (roll_window now s).active ≡ s.active
unfolding roll_window
roll_window_active now s = ground arith

-- A source that was not tracked, in a table that has room.
track-IsGrown :
    (config : Config) (a : Admission) (source now : ℕ)
    → lookup source a.sources ≡ none
    → let tracked = record a { sources = insert source (fresh_source now) a.sources } in
      let (a', verdict) = admit_source config tracked source (roll_window now (fresh_source now)) in
      IsGrown (taken verdict) source a a'
track-IsGrown config a source now h =
    let tracked : Admission = record a { sources = insert source (fresh_source now) a.sources } in
    let p = admit_source-IsGrown config tracked source (roll_window now (fresh_source now)) (
      ground (
        arith,
        roll_window_active now (fresh_source now),
        lookup-insert_self source (fresh_source now) a.sources,
      )) in
    (
      p.0,
      λ t. ground (
        arith,
        p.1 t,
        nat_beq_iff source t,
        active-insert source t (fresh_source now) a.sources,
        active_absent source a.sources h,
      ),
    )

prune_absent :
    (now k : ℕ) (m : Map ℕ Source) → lookup k m ≡ none → lookup k (prune_sources now m) ≡ none
unfolding prune_sources lookup
prune_absent now k [] h = refl
prune_absent now k ((j, w) ∷ m) h = ground (arith, prune_absent now k m)

-- The table after the prune that a full one asks for.
abbrev roomy : Config → Admission → ℕ → Admission
roomy config a now =
    if leb config.max_tracked_ips (length a.sources)
    then record a { sources = prune_sources now a.sources }
    else a

roomy_counts :
    (config : Config) (a : Admission) (source now : ℕ)
    → Distinct a.sources
    → lookup source a.sources ≡ none
    → (lookup source (roomy config a now).sources ≡ none) × IsGrown 0 source a (roomy config a now)
roomy_counts config a source now d h = (
  ground (arith, prune_absent now source a.sources, h),
  (ground arith, λ t. ground (arith, active-prune now t a.sources d, nat_beq_iff source t)),
)

-- The admission of a source that is not tracked, after that prune.
abbrev admit_roomy : Config → Admission → ℕ → ℕ → Admission × Verdict
admit_roomy config a source now =
    if leb config.max_tracked_ips (length a.sources)
    then (a, turned_away connection_capacity)
    else admit_source config (record a { sources = insert source (fresh_source now) a.sources })
        source (roll_window now (fresh_source now))

abbrev IsGrownTo : ℕ → Admission → Admission × Verdict → Type 0
IsGrownTo source a r = IsGrown (taken r.1) source a r.0

admit_roomy-IsGrown :
    (config : Config) (a : Admission) (source now : ℕ)
    → lookup source a.sources ≡ none
    → IsGrownTo source a (admit_roomy config a source now)
admit_roomy-IsGrown config a source now h =
    elim (Bool-cases (leb config.max_tracked_ips (length a.sources))) [
      | inl full ↦ rw full (omega arith, λ t. ground arith)
      | inr free ↦ rw free (track-IsGrown config a source now h)
    ]

IsGrown-after :
    (n source : ℕ) (a b c : Admission)
    → IsGrown 0 source a b
    → IsGrown n source b c
    → IsGrown n source a c
IsGrown-after n source a b c p q = (omega (arith, p.0, q.0), λ t. ground (arith, p.1 t, q.1 t))

-- An attempt adds one connection of its source if it is admitted, and none otherwise.
pub acquire_connection-IsGrown :
    (config : Config) (a : Admission) (source now : ℕ)
    → Distinct a.sources
    → let (a', verdict) = acquire_connection config a source now in
      IsGrown (taken verdict) source a a'
unfolding acquire_connection admit_new
acquire_connection-IsGrown config a source now d = elim (Option-cases (lookup source a.sources)) [
  | inr (s, e) ↦
      let known = admit_source config a source (roll_window now s) in
      let same : known ≡ acquire_connection config a source now = ground (arith, e) in
      subst (IsGrownTo source a) same (
        admit_source-IsGrown config a source (roll_window now s)
          (ground (arith, e, roll_window_active now s)))
  | inl e ↦
      let room = roomy config a now in
      let p = roomy_counts config a source now d e in
      let new = admit_roomy config room source now in
      let same : new ≡ acquire_connection config a source now = ground (arith, e) in
      subst (IsGrownTo source a) same (
        IsGrown-after (taken new.1) source a room new.0 p.1
          (admit_roomy-IsGrown config room source now p.0))
]

-- A connection that is counted is given back, and nothing else.
pub release_connection-IsGrown :
    (a a' : Admission) (source now : ℕ)
    → Distinct a'.sources
    → IsGrown 1 source a a'
    → IsGrown 0 source a (release_connection a' source now)
unfolding release_connection release_source
release_connection-IsGrown a a' source now d g = elim (Option-cases (lookup source a'.sources)) [
  | inl e ↦ absurd (ground (arith, e, g.1 source, nat_beq_iff source source))
  | inr (s, e) ↦
      let one = g.1 source in
      let some_active : 1 ≤ s.active = ground (arith, e, one, nat_beq_iff source source) in
      let freed : Source = record s { active = s.active - 1 } in
      (
        ground (arith, e, some_active, g.0),
        λ t. ground (
          arith,
          e,
          some_active,
          g.0,
          g.1 t,
          nat_beq_iff source t,
          active-insert source t freed a'.sources,
          active-erase source t a'.sources d,
        ),
      )
]
