-- ===== src/Config/Load.antt =====
-- Load, environment, duration and integer of internal/config/config.go. The process environment and
-- time.ParseDuration are parameters.
use miakapp_server.Prelude.{
  ℕ, ◌||◌, Option, none, some, List, [], ◌∷◌, ◌++◌, ltb, nat_beq, if◌then◌else◌, nat_eq,
}
use miakapp_server.Text.{Text, codes}
use miakapp_server.GoStrings.{Int64, nonnegative, parse_int}
use miakapp_server.GoMap.{Set}
use miakapp_server.Config.{
  Config, default_config, UrlLibrary, ConfigError, origins, invalid_origins, parse_origins,
  validate, default_max_queued_bytes, maximum_connections, maximum_connection_attempts_per_minute,
  maximum_tracked_ips, maximum_homes, maximum_aggregate_queued_bytes,
}

pub record Environment : Type 0 where
  pub lookup_env : Text → Option Text
  pub parse_duration : Text → Option Int64

pub data LoadError : Type 0 where
  not_positive out_of_range : Text → LoadError
  bad_origins not_valid : ConfigError → LoadError

pub data Loading (A : Type 0) : Type 0 where
  loaded : A → Loading A
  refused : LoadError → Loading A

-- os.Getenv
abbrev pub getenv : Environment → Text → Text
getenv env name = elim (env.lookup_env name) [ none ↦ [] | some raw ↦ raw ]

unfoldable pub environment : Environment → Text → Text → Text
environment env name fallback = elim (env.lookup_env name) [ none ↦ fallback | some raw ↦ raw ]

unfoldable pub duration : Environment → Text → ℕ → Loading ℕ
duration env name fallback = elim (env.lookup_env name) [
  | none ↦ loaded fallback
  | some raw ↦ elim (env.parse_duration raw) [
    | some (nonnegative n) ↦ if nat_beq n 0 then refused (not_positive name) else loaded n
    | _ ↦ refused (not_positive name)
  ]
]

-- strconv.Atoi is ParseInt in base 10 and 64 bits; `minimum` is positive.
unfoldable pub integer : Environment → Text → ℕ → ℕ → ℕ → Loading ℕ
integer env name fallback minimum maximum = elim (env.lookup_env name) [
  | none ↦ loaded fallback
  | some raw ↦ elim (parse_int raw) [
    | some (nonnegative n) ↦
        if ltb n minimum || ltb maximum n then refused (out_of_range name) else loaded n
    | _ ↦ refused (out_of_range name)
  ]
]

-- One assignment of Load: the value, if it is accepted, replaces a field.
unfoldable pub assign : Loading ℕ → (ℕ → Config) → Loading Config
assign (loaded n) set = loaded (set n)
assign (refused e) set = refused e

abbrev pub Setting : Type 0
Setting = Config → Loading Config

-- The assignments of Load, in their order; `m` is protocol.MaxFrameBytes.
unfoldable pub duration_settings : Environment → List Setting
duration_settings env =
    (λ c.
      assign (duration env (codes "MIAKAPP_HANDSHAKE_TIMEOUT") c.handshake)
        (λ n. record c { handshake = n }))
    ∷ (λ c.
        assign (duration env (codes "MIAKAPP_WRITE_TIMEOUT") c.write_timeout)
          (λ n. record c { write_timeout = n }))
    ∷ (λ c.
        assign (duration env (codes "MIAKAPP_PING_INTERVAL") c.ping_interval)
          (λ n. record c { ping_interval = n }))
    ∷ (λ c.
        assign (duration env (codes "MIAKAPP_PONG_TIMEOUT") c.pong_timeout)
          (λ n. record c { pong_timeout = n }))
    ∷ (λ c.
        assign (duration env (codes "MIAKAPP_DECLARATION_TIMEOUT") c.declaration_ttl)
          (λ n. record c { declaration_ttl = n }))
    ∷ (λ c.
        assign (duration env (codes "MIAKAPP_DISCONNECT_GRACE") c.disconnect_grace)
          (λ n. record c { disconnect_grace = n }))
    ∷ (λ c.
        assign (duration env (codes "MIAKAPP_SHUTDOWN_TIMEOUT") c.shutdown_timeout)
          (λ n. record c { shutdown_timeout = n }))
    ∷ []

unfoldable pub limit_settings : Environment → ℕ → List Setting
limit_settings env m =
    (λ c.
      assign
        (integer env (codes "MIAKAPP_MAX_QUEUED_BYTES") c.max_queued_bytes m
          default_max_queued_bytes)
        (λ n. record c { max_queued_bytes = n }))
    ∷ (λ c.
        assign
          (integer env (codes "MIAKAPP_MAX_CONNECTIONS") c.max_connections 1 maximum_connections)
          (λ n. record c { max_connections = n }))
    ∷ (λ c.
        assign
          (integer env (codes "MIAKAPP_MAX_CONNECTIONS_PER_IP") c.max_connections_per_ip 1
            maximum_connections)
          (λ n. record c { max_connections_per_ip = n }))
    ∷ (λ c.
        assign
          (integer env (codes "MIAKAPP_CONNECTION_ATTEMPTS_PER_MINUTE")
            c.connection_attempts_per_minute 1 maximum_connection_attempts_per_minute)
          (λ n. record c { connection_attempts_per_minute = n }))
    ∷ (λ c.
        assign
          (integer env (codes "MIAKAPP_MAX_TRACKED_IPS") c.max_tracked_ips 1 maximum_tracked_ips)
          (λ n. record c { max_tracked_ips = n }))
    ∷ (λ c.
        assign (integer env (codes "MIAKAPP_MAX_HOMES") c.max_homes 1 maximum_homes)
          (λ n. record c { max_homes = n }))
    ∷ (λ c.
        assign
          (integer env (codes "MIAKAPP_MAX_AGGREGATE_QUEUED_BYTES") c.max_aggregate_queued_bytes m
            maximum_aggregate_queued_bytes)
          (λ n. record c { max_aggregate_queued_bytes = n }))
    ∷ []

unfoldable pub run_settings : List Setting → Config → Loading Config
run_settings [] c = loaded c
run_settings (setting ∷ settings) c = elim (setting c) [
  | refused e ↦ refused e
  | loaded d ↦ run_settings settings d
]

-- The configuration that the assignments start from.
unfoldable pub initial : Environment → Set Text → Config
initial env found = record default_config {
  listen_address = environment env (codes "MIAKAPP_LISTEN_ADDRESS") default_config.listen_address;
  allowed_origins = found;
}

-- `return config, nil`, once the assignments have been made
unfoldable pub finish_load : UrlLibrary → ℕ → Config → Loading Config
finish_load url m c = elim (validate url m c) [ some e ↦ refused (not_valid e) | none ↦ loaded c ]

unfoldable pub load : Environment → UrlLibrary → ℕ → Loading Config
load env url m = elim (parse_origins url (getenv env (codes "MIAKAPP_ALLOWED_ORIGINS"))) [
  | invalid_origins e ↦ refused (bad_origins e)
  | origins found ↦
      elim (run_settings (duration_settings env ++ limit_settings env m) (initial env found)) [
        | refused e ↦ refused e
        | loaded c ↦ finish_load url m c
      ]
]
