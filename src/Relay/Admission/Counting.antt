-- ===== src/Relay/Admission/Counting.antt =====
-- Admission keeps exact counts under every cap (admission.go).
use miakapp_server.Config.{Config}
use miakapp_server.GoMap.{
  lookup-insert_self, length-erase, erase-Distinct, length-insert, length-insert_eq,
  insert-Distinct, erase_absent, Distinct, lookup, Map, erase, insert,
}
use miakapp_server.Relay.Admission.{
  turned_away, connection_capacity, admit_new, fresh_source, acquire_connection, release_source,
  release_connection, Admission, Source, Map, roll_window, admit_source, erase, Config, insert,
  lookup, prune_sources,
}
use miakapp_server.Prelude.{
  if◌then◌else◌, ◌-◌, inr, inl, Option-cases, leb, Bool-cases, ℕ, ◌+◌, ◌≤◌, ◌<◌, ◌≡◌, refl, none,
  some, [], ◌∷◌, arith, nat_eq, length, All,
}

abbrev pub sum_active : Map ℕ Source → ℕ
sum_active [] = 0
sum_active ((a, s) ∷ m) = s.active + sum_active m

abbrev pub active_of : ℕ → Map ℕ Source → ℕ
active_of source m = elim (lookup source m) [ none ↦ 0 | some s ↦ s.active ]

abbrev pub IsCapped : Config → ℕ × Source → Type 0
IsCapped config e =
    (e.1.active ≤ config.max_connections_per_ip)
    × (e.1.attempts ≤ config.connection_attempts_per_minute)

pub record IsCounted (config : Config) (a : Admission) : Type 0 where
  pub distinct : Distinct a.sources
  pub exact : sum_active a.sources ≡ a.active_connections
  pub capped : a.active_connections ≤ config.max_connections
  pub each : All (IsCapped config) a.sources
  pub tracked : length a.sources ≤ config.max_tracked_ips
  pub budget : a.queued_bytes ≤ config.max_aggregate_queued_bytes

sum-insert :
    (k : ℕ) (s : Source) (m : Map ℕ Source)
    → sum_active (insert k s m) + active_of k m ≡ sum_active m + s.active
unfolding insert lookup
sum-insert k s [] = omega arith
sum-insert k s ((j, w) ∷ m) = ground (arith, sum-insert k s m)

sum-erase :
    (k : ℕ) (m : Map ℕ Source) → Distinct m → sum_active (erase k m) + active_of k m ≡ sum_active m
unfolding erase lookup
sum-erase k [] d = refl
sum-erase k ((j, w) ∷ m) d = ground (arith, sum-erase k m d.1, erase_absent k m)

each-insert :
    (config : Config) (k : ℕ) (s : Source) (m : Map ℕ Source)
    → IsCapped config (k, s)
    → All (IsCapped config) m
    → All (IsCapped config) (insert k s m)
unfolding insert
each-insert config k s [] c h = (c, tt)
each-insert config k s ((j, w) ∷ m) c h = ground (arith, each-insert config k s m c h.1)

each-erase :
    (config : Config) (k : ℕ) (m : Map ℕ Source)
    → All (IsCapped config) m
    → All (IsCapped config) (erase k m)
unfolding erase
each-erase config k [] h = tt
each-erase config k ((j, w) ∷ m) h = ground (arith, each-erase config k m h.1)

each-lookup :
    (config : Config) (k : ℕ) (m : Map ℕ Source) (s : Source)
    → All (IsCapped config) m
    → lookup k m ≡ some s
    → IsCapped config (k, s)
unfolding lookup
each-lookup config k [] s h e = absurd (ground arith)
each-lookup config k ((j, w) ∷ m) s h e = ground (arith, each-lookup config k m s h.1)

prune_absent :
    (now k : ℕ) (m : Map ℕ Source) → lookup k m ≡ none → lookup k (prune_sources now m) ≡ none
unfolding prune_sources lookup
prune_absent now k [] h = refl
prune_absent now k ((j, w) ∷ m) h = ground (arith, prune_absent now k m)

prune-Distinct : (now : ℕ) (m : Map ℕ Source) → Distinct m → Distinct (prune_sources now m)
unfolding prune_sources
prune-Distinct now [] d = tt
prune-Distinct now ((j, w) ∷ m) d =
    ground (arith, prune-Distinct now m d.1, prune_absent now j m d.0)

-- Pruning forgets only sources with no connection.
sum-prune : (now : ℕ) (m : Map ℕ Source) → sum_active (prune_sources now m) ≡ sum_active m
unfolding prune_sources
sum-prune now [] = refl
sum-prune now ((j, w) ∷ m) = ground (arith, sum-prune now m)

length-prune : (now : ℕ) (m : Map ℕ Source) → length (prune_sources now m) ≤ length m
unfolding prune_sources
length-prune now [] = omega arith
length-prune now ((j, w) ∷ m) = ground (arith, length-prune now m)

each-prune :
    (config : Config) (now : ℕ) (m : Map ℕ Source)
    → All (IsCapped config) m
    → All (IsCapped config) (prune_sources now m)
unfolding prune_sources
each-prune config now [] h = tt
each-prune config now ((j, w) ∷ m) h = ground (arith, each-prune config now m h.1)

roll-keeps :
    (now : ℕ) (s : Source)
    → ((roll_window now s).active ≡ s.active) × ((roll_window now s).attempts ≤ s.attempts)
unfolding roll_window
roll-keeps now s = ground arith

admit_source-IsCounted :
    (config : Config) (a : Admission) (source : ℕ) (s : Source)
    → IsCounted config a
    → IsCapped config (source, s)
    → s.active ≡ active_of source a.sources
    → (lookup source a.sources ≡ none → length a.sources < config.max_tracked_ips)
    → IsCounted config (admit_source config a source s).0
unfolding admit_source
admit_source-IsCounted config a source s v c e room = record {
  distinct = ground (
    arith,
    insert-Distinct source s a.sources v.distinct,
    insert-Distinct source (record s { attempts = s.attempts + 1 }) a.sources v.distinct,
    insert-Distinct source (record s { attempts = s.attempts + 1; active = s.active + 1 }) a.sources
        v.distinct,
  );
  exact = ground (
    arith,
    v.exact,
    sum-insert source s a.sources,
    sum-insert source (record s { attempts = s.attempts + 1 }) a.sources,
    sum-insert source (record s { attempts = s.attempts + 1; active = s.active + 1 }) a.sources,
  );
  capped = ground (arith, v.capped);
  each = ground (
    arith,
    each-insert config source s a.sources c v.each,
    each-insert config source (record s { attempts = s.attempts + 1 }) a.sources,
    each-insert config source (record s { attempts = s.attempts + 1; active = s.active + 1 })
        a.sources,
  );
  tracked = ground (
    arith,
    v.tracked,
    length-insert_eq source s a.sources,
    length-insert_eq source (record s { attempts = s.attempts + 1 }) a.sources,
    length-insert_eq source (record s { attempts = s.attempts + 1; active = s.active + 1 })
        a.sources,
  );
  budget = ground (arith, v.budget);
}

track-IsCounted :
    (config : Config) (a : Admission) (source now : ℕ)
    → IsCounted config a
    → lookup source a.sources ≡ none
    → length a.sources < config.max_tracked_ips
    → IsCounted config (record a { sources = insert source (fresh_source now) a.sources })
track-IsCounted config a source now v e room = record {
  distinct = insert-Distinct source (fresh_source now) a.sources v.distinct;
  exact = ground (arith, v.exact, sum-insert source (fresh_source now) a.sources);
  capped = v.capped;
  each = each-insert config source (fresh_source now) a.sources (omega arith) v.each;
  tracked = ground (arith, length-insert source (fresh_source now) a.sources);
  budget = v.budget;
}

prune-IsCounted :
    (config : Config) (a : Admission) (now : ℕ)
    → IsCounted config a
    → IsCounted config (record a { sources = prune_sources now a.sources })
prune-IsCounted config a now v = record {
  distinct = prune-Distinct now a.sources v.distinct;
  exact = ground (arith, v.exact, sum-prune now a.sources);
  capped = v.capped;
  each = each-prune config now a.sources v.each;
  tracked = omega (arith, v.tracked, length-prune now a.sources);
  budget = v.budget;
}

-- The state after the prune that a full table asks for.
abbrev made_room : Config → Admission → ℕ → Admission
made_room config a now =
    if leb config.max_tracked_ips (length a.sources)
    then record a { sources = prune_sources now a.sources }
    else a

made_room-IsCounted :
    (config : Config) (a : Admission) (now : ℕ)
    → IsCounted config a
    → IsCounted config (made_room config a now)
made_room-IsCounted config a now v =
    elim (Bool-cases (leb config.max_tracked_ips (length a.sources))) [
      | inl e ↦ rw e (prune-IsCounted config a now v)
      | inr e ↦ rw e v
    ]

made_room_absent :
    (config : Config) (a : Admission) (source now : ℕ)
    → lookup source a.sources ≡ none
    → lookup source (made_room config a now).sources ≡ none
made_room_absent config a source now h = ground (arith, prune_absent now source a.sources)

admit_tracked-IsCounted :
    (config : Config) (a : Admission) (source now : ℕ)
    → IsCounted config a
    → lookup source a.sources ≡ none
    → IsCounted config
        (if leb config.max_tracked_ips (length a.sources)
          then (a, turned_away connection_capacity)
          else admit_source config
              (record a { sources = insert source (fresh_source now) a.sources })
              source
              (roll_window now (fresh_source now))).0
admit_tracked-IsCounted config a source now v e =
    elim (Bool-cases (leb config.max_tracked_ips (length a.sources))) [
      | inl full ↦ rw full v
      | inr free ↦ rw free (
          admit_source-IsCounted config _ source (roll_window now (fresh_source now))
            (track-IsCounted config a source now v e (ground arith))
            (omega (arith, roll-keeps now (fresh_source now)))
            (ground (
              arith,
              roll-keeps now (fresh_source now),
              lookup-insert_self source (fresh_source now) a.sources,
            ))
            (λ absent.
              absurd (ground (arith, lookup-insert_self source (fresh_source now) a.sources))))
    ]

admit_new-IsCounted :
    (config : Config) (a : Admission) (source now : ℕ)
    → IsCounted config a
    → lookup source a.sources ≡ none
    → IsCounted config (admit_new config a source now).0
unfolding admit_new
admit_new-IsCounted config a source now v e =
    admit_tracked-IsCounted config (made_room config a now) source now
      (made_room-IsCounted config a now v) (made_room_absent config a source now e)

-- Every attempt, admitted or turned away, keeps the accounts: the count of connections is the sum of
-- the sources' counts, no source is tracked twice, and the caps on connections, on each source's
-- connections and attempts, on tracked sources and on queued bytes hold if they held before.
pub acquire_connection-IsCounted :
    (config : Config) (a : Admission) (source now : ℕ)
    → IsCounted config a
    → IsCounted config (acquire_connection config a source now).0
unfolding acquire_connection
acquire_connection-IsCounted config a source now v = elim (Option-cases (lookup source a.sources)) [
  | inl e ↦ rw (e, acquire_connection) (admit_new-IsCounted config a source now v e)
  | inr (s, e) ↦
      rw (e, acquire_connection)
        (admit_source-IsCounted config a source (roll_window now s) v
          (omega (arith, each-lookup config source a.sources s v.each e, roll-keeps now s))
          (ground (arith, roll-keeps now s)) (λ absent. absurd (ground arith)))
]

release_source-IsCounted :
    (config : Config) (a : Admission) (source now : ℕ) (s : Source)
    → IsCounted config a
    → lookup source a.sources ≡ some s
    → IsCounted config (release_source a source now s)
unfolding release_source
release_source-IsCounted config a source now s v e = record {
  distinct = ground (
    arith,
    v.distinct,
    erase-Distinct source a.sources v.distinct,
    insert-Distinct source (record s { active = s.active - 1 }) a.sources v.distinct,
  );
  exact = ground (
    arith,
    v.exact,
    sum-erase source a.sources v.distinct,
    sum-insert source (record s { active = s.active - 1 }) a.sources,
  );
  capped = ground (arith, v.capped);
  each = ground (
    arith,
    v.each,
    each-erase config source a.sources v.each,
    each-lookup config source a.sources s v.each e,
    each-insert config source (record s { active = s.active - 1 }) a.sources,
  );
  tracked = ground (
    arith,
    v.tracked,
    length-erase source a.sources,
    length-insert_eq source (record s { active = s.active - 1 }) a.sources,
  );
  budget = ground (arith, v.budget);
}

-- Every release of a connection keeps the accounts of admission: the exact counts and the caps hold
-- after it if they held before, also for a source that is not tracked.
pub release_connection-IsCounted :
    (config : Config) (a : Admission) (source now : ℕ)
    → IsCounted config a
    → IsCounted config (release_connection a source now)
unfolding release_connection
release_connection-IsCounted config a source now v = elim (Option-cases (lookup source a.sources)) [
  | inl e ↦ rw (e, release_connection) v
  | inr (s, e) ↦ rw (e, release_connection) (release_source-IsCounted config a source now s v e)
]
