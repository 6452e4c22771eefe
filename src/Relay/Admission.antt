-- ===== src/Relay/Admission.antt =====
-- internal/relay/admission.go: per-source windows, connection caps and the process-wide budget of
-- queued bytes. A source is the canonical address that `canonical_remote_ip` computes, as a number;
-- the parsing of an address belongs to Go's net packages and is a parameter. A time is a number of
-- nanoseconds.
pub mod Counting
pub mod Counts
use miakapp_server.Prelude.{
  nat_eq, ℕ, ◌+◌, ◌-◌, ◌*◌, Bool, true, false, not, ◌&&◌, ◌||◌, Option, none, some, List, [], ◌∷◌,
  if◌then◌else◌, ltb, leb, nat_beq, length, Eq, ◌==◌,
}
use miakapp_server.Text.{Text}
use miakapp_server.GoMap.{Map, lookup, insert, erase}
use miakapp_server.Config.{Config}

abbrev pub connection_attempt_window : ℕ
connection_attempt_window = 60 * 1_000_000_000

-- netip.Addr: whether it has a zone, and the number of its unmapped form
pub record Address : Type 0 where
  pub has_zone : Bool
  pub unmapped : ℕ

-- net.SplitHostPort, up to the host, and netip.ParseAddr
pub record AddressParser : Type 0 where
  pub split_host_port : Text → Option Text
  pub parse_addr : Text → Option Address

unfoldable pub canonical_remote_ip : AddressParser → Text → Option ℕ
canonical_remote_ip parser remote = elim (parser.split_host_port remote) [
  | none ↦ none
  | some host ↦ elim (parser.parse_addr host) [
    | none ↦ none
    | some address ↦ if address.has_zone then none else some address.unmapped
  ]
]

pub record Source : Type 0 where
  pub window_started_at : ℕ
  pub attempts : ℕ
  pub active : ℕ

pub record Admission : Type 0 where
  pub sources : Map ℕ Source
  pub active_connections : ℕ
  pub queued_bytes : ℕ

pub data AdmissionError : Type 0 where
  connection_rate connection_capacity : AdmissionError

pub data Verdict : Type 0 where
  admitted : Verdict
  turned_away : AdmissionError → Verdict

abbrev pub window_over : ℕ → Source → Bool
window_over now s = leb (s.window_started_at + connection_attempt_window) now

-- pruneSourcesLocked
unfoldable pub prune_sources : ℕ → Map ℕ Source → Map ℕ Source
prune_sources now [] = []
prune_sources now ((a, s) ∷ m) =
    if nat_beq s.active 0 && window_over now s
    then prune_sources now m
    else (a, s) ∷ prune_sources now m

-- A window that is over, or that began after `now`, starts again.
unfoldable pub roll_window : ℕ → Source → Source
roll_window now s =
    if ltb now s.window_started_at || window_over now s
    then record s { window_started_at = now; attempts = 0 }
    else s

-- The checks on a tracked source, and its counters.
unfoldable pub admit_source : Config → Admission → ℕ → Source → Admission × Verdict
admit_source config a source s =
    if leb config.connection_attempts_per_minute s.attempts
    then (record a { sources = insert source s a.sources }, turned_away connection_rate)
    else let tried = record s { attempts = s.attempts + 1 } in
      if leb config.max_connections_per_ip s.active
        || leb config.max_connections a.active_connections
      then (record a { sources = insert source tried a.sources }, turned_away connection_capacity)
      else (
        record a {
          sources = insert source (record tried { active = s.active + 1 }) a.sources;
          active_connections = a.active_connections + 1;
        },
        admitted,
      )

abbrev pub fresh_source : ℕ → Source
fresh_source now = record { window_started_at = now; attempts = 0; active = 0 }

-- A source that is not tracked yet.
unfoldable pub admit_new : Config → Admission → ℕ → ℕ → Admission × Verdict
unfolding admit_source roll_window prune_sources
admit_new config a source now =
    let pruned =
      if leb config.max_tracked_ips (length a.sources)
      then record a { sources = prune_sources now a.sources }
      else a in
    if leb config.max_tracked_ips (length pruned.sources)
    then (pruned, turned_away connection_capacity)
    else admit_source config
        (record pruned { sources = insert source (fresh_source now) pruned.sources }) source
        (roll_window now (fresh_source now))

abbrev pub new_admission_controller : Admission
new_admission_controller = record { sources = []; active_connections = 0; queued_bytes = 0 }

-- acquireConnection
unfoldable pub acquire_connection : Config → Admission → ℕ → ℕ → Admission × Verdict
unfolding admit_new
acquire_connection config a source now = elim (lookup source a.sources) [
  | none ↦ admit_new config a source now
  | some s ↦ admit_source config a source (roll_window now s)
]

-- releaseConnection on a tracked source
unfoldable pub release_source : Admission → ℕ → ℕ → Source → Admission
release_source a source now s =
    if nat_beq s.active 0 || nat_beq a.active_connections 0
    then a
    else let freed = record s { active = s.active - 1 } in
      record a {
        sources =
            if nat_beq freed.active 0 && window_over now freed
            then erase source a.sources
            else insert source freed a.sources;
        active_connections = a.active_connections - 1;
      }

unfoldable pub release_connection : Admission → ℕ → ℕ → Admission
unfolding release_source
release_connection a source now = elim (lookup source a.sources) [
  | none ↦ a
  | some s ↦ release_source a source now s
]

-- reserveQueuedBytes. The budget is never overdrawn, so the difference is exact.
unfoldable pub reserve_queued_bytes : Config → Admission → ℕ → Admission × Bool
reserve_queued_bytes config a size =
    if ltb config.max_aggregate_queued_bytes (a.queued_bytes + size)
    then (a, false)
    else (record a { queued_bytes = a.queued_bytes + size }, true)

-- releaseQueuedBytes
unfoldable pub release_queued_bytes : Admission → ℕ → Admission × Bool
release_queued_bytes a size =
    if ltb a.queued_bytes size
    then (a, false)
    else (record a { queued_bytes = a.queued_bytes - size }, true)
