-- ===== src/Config.antt =====
-- internal/config/config.go: the process configuration, its defaults, and `Validate`. A duration
-- and a limit is a natural number: a negative one is refused by the same tests as 0.
-- `strings.TrimSpace` and `url.Parse` are parameters, with the fields of a URL that the code reads.
pub mod Bounds
pub mod Load
pub mod Loaded
use miakapp_server.Prelude.{
  ℕ, ◌+◌, ◌*◌, Bool, true, false, not, ◌&&◌, ◌||◌, Option, none, some, List, [], ◌∷◌, String,
  if◌then◌else◌, ltb, nat_beq, length, ◌==◌, any, ◌!=◌,
}
use miakapp_server.GoMap.{Set, insert, keys}
use miakapp_server.Text.{split, Text, codes, text_beq, text_eq}

abbrev pub second : ℕ
second = 1_000_000_000

abbrev pub default_max_queued_bytes : ℕ
default_max_queued_bytes = 1_048_576

abbrev pub maximum_connections : ℕ
maximum_connections = 4_096

abbrev pub maximum_connection_attempts_per_minute : ℕ
maximum_connection_attempts_per_minute = 65_536

abbrev pub maximum_tracked_ips : ℕ
maximum_tracked_ips = 65_536

abbrev pub maximum_homes : ℕ
maximum_homes = 4_096

abbrev pub maximum_aggregate_queued_bytes : ℕ
maximum_aggregate_queued_bytes = 512 * 1_048_576

pub record Config : Type 0 where
  pub listen_address : Text
  pub allowed_origins : Set Text
  pub handshake : ℕ
  pub write_timeout : ℕ
  pub ping_interval : ℕ
  pub pong_timeout : ℕ
  pub declaration_ttl : ℕ
  pub disconnect_grace : ℕ
  pub shutdown_timeout : ℕ
  pub max_queued_bytes : ℕ
  pub max_connections : ℕ
  pub max_connections_per_ip : ℕ
  pub connection_attempts_per_minute : ℕ
  pub max_tracked_ips : ℕ
  pub max_homes : ℕ
  pub max_aggregate_queued_bytes : ℕ

-- Default()
unfoldable pub default_config : Config
default_config = record {
  listen_address = codes ":3000";
  allowed_origins = [];
  handshake = 5 * second;
  write_timeout = 5 * second;
  ping_interval = 30 * second;
  pong_timeout = 10 * second;
  declaration_ttl = 30 * second;
  disconnect_grace = 30 * second;
  shutdown_timeout = 10 * second;
  max_queued_bytes = default_max_queued_bytes;
  max_connections = 256;
  max_connections_per_ip = 32;
  connection_attempts_per_minute = 120;
  max_tracked_ips = 4_096;
  max_homes = 1_024;
  max_aggregate_queued_bytes = 64 * 1_048_576;
}

-- The fields of `*url.URL` that the configuration reads; `text` is `String()`.
pub record Url : Type 0 where
  pub scheme : Text
  pub host : Text
  pub has_user : Bool
  pub path : Text
  pub raw_query : Text
  pub fragment : Text
  pub text : Text

pub record UrlLibrary : Type 0 where
  pub parse : Text → Option Url
  pub trim_space : Text → Text

pub data ConfigError : Type 0 where
  empty_listen_address : ConfigError
  nonpositive_duration : Text → ConfigError
  queue_limit connection_limit per_ip_limit attempt_limit tracked_limit home_limit : ConfigError
  aggregate_limit : ConfigError
  invalid_origin : Text → ConfigError
  non_origin_url noncanonical_origin : Text → ConfigError

-- The verdict on one non-empty candidate of `parseOrigins`.
unfoldable pub origin_failure : UrlLibrary → Text → Option ConfigError
origin_failure url candidate = elim (url.parse candidate) [
  | none ↦ some (invalid_origin candidate)
  | some parsed ↦
      if (parsed.scheme != codes "http" && parsed.scheme != codes "https") || parsed.host == []
      then some (invalid_origin candidate)
      else if parsed.has_user
          || parsed.path != []
          || parsed.raw_query != []
          || parsed.fragment != []
      then some (non_origin_url candidate)
      else if parsed.text != candidate
      then some (noncanonical_origin candidate)
      else none
]

pub data OriginsResult : Type 0 where
  origins : Set Text → OriginsResult
  invalid_origins : ConfigError → OriginsResult

unfoldable pub collect_origins : UrlLibrary → Set Text → List Text → OriginsResult
unfolding origin_failure
collect_origins url found [] = origins found
collect_origins url found (raw ∷ rest) =
    let candidate = url.trim_space raw in
    let skipped = collect_origins url found rest in
    let kept = collect_origins url (insert candidate (tt) found) rest in
    if candidate == []
    then skipped
    else elim (origin_failure url candidate) [ some e ↦ invalid_origins e | none ↦ kept ]

unfoldable pub parse_origins : UrlLibrary → Text → OriginsResult
unfolding collect_origins split
parse_origins url raw = collect_origins url [] (split b',' raw)

-- The first duration of the table that is not positive.
unfoldable pub first_nonpositive : List (Text × ℕ) → Option ConfigError
first_nonpositive [] = none
first_nonpositive ((name, value) ∷ rest) =
    if nat_beq value 0 then some (nonpositive_duration name) else first_nonpositive rest

unfoldable pub durations : Config → List (Text × ℕ)
durations c =
    (codes "handshake timeout", c.handshake)
    ∷ (codes "write timeout", c.write_timeout)
    ∷ (codes "ping interval", c.ping_interval)
    ∷ (codes "pong timeout", c.pong_timeout)
    ∷ (codes "declaration timeout", c.declaration_ttl)
    ∷ (codes "disconnect grace", c.disconnect_grace)
    ∷ (codes "shutdown timeout", c.shutdown_timeout)
    ∷ []

-- The numeric limits, in the order of the checks; `max_frame_bytes` is protocol.MaxFrameBytes.
unfoldable pub limit_failure : ℕ → Config → Option ConfigError
limit_failure max_frame_bytes c =
    if ltb c.max_queued_bytes max_frame_bytes || ltb default_max_queued_bytes c.max_queued_bytes
    then some queue_limit
    else if ltb c.max_connections 1 || ltb maximum_connections c.max_connections
    then some connection_limit
    else if ltb c.max_connections_per_ip 1 || ltb c.max_connections c.max_connections_per_ip
    then some per_ip_limit
    else if ltb c.connection_attempts_per_minute c.max_connections_per_ip
        || ltb maximum_connection_attempts_per_minute c.connection_attempts_per_minute
    then some attempt_limit
    else if ltb c.max_tracked_ips 1 || ltb maximum_tracked_ips c.max_tracked_ips
    then some tracked_limit
    else if ltb c.max_homes 1 || ltb maximum_homes c.max_homes
    then some home_limit
    else if ltb c.max_aggregate_queued_bytes c.max_queued_bytes
        || ltb maximum_aggregate_queued_bytes c.max_aggregate_queued_bytes
    then some aggregate_limit
    else none

-- The verdict on one configured origin: it must parse to exactly one origin.
abbrev pub is_single_origin : OriginsResult → Bool
is_single_origin (invalid_origins e) = false
is_single_origin (origins found) = nat_beq (length found) 1

unfoldable pub origins_failure : UrlLibrary → List Text → Option ConfigError
origins_failure url [] = none
origins_failure url (origin ∷ rest) =
    if is_single_origin (parse_origins url origin)
    then origins_failure url rest
    else some (invalid_origin origin)

unfoldable pub validate : UrlLibrary → ℕ → Config → Option ConfigError
unfolding first_nonpositive durations limit_failure origins_failure
validate url max_frame_bytes c =
    if url.trim_space c.listen_address == []
    then some empty_listen_address
    else elim (first_nonpositive (durations c)) [
      | some e ↦ some e
      | none ↦ elim (limit_failure max_frame_bytes c) [
        | some e ↦ some e
        | none ↦ origins_failure url (keys c.allowed_origins)
      ]
    ]
