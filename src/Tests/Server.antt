-- ===== src/Tests/Server.antt =====
-- Runs of the server, of the registry of homes and of the loading of the configuration.
use miakapp_server.Relay.Handshake.Authenticated.{handshake-IsAuthenticated, IsLetIn}
use miakapp_server.Prelude.{
  ◌++◌, List, ℕ, ◌≤◌, ◌≡◌, ◌≢◌, refl, true, false, Option, none, some, [], ◌∷◌, arith,
  if◌then◌else◌, ◌==◌, nat_eq,
}
use miakapp_server.Text.{Text, codes, text_eq}
use miakapp_server.GoMap.{lookup, contains, keys}
use miakapp_server.GoStrings.{nonnegative}
use miakapp_server.Config.{default_config, UrlLibrary, Config}
use miakapp_server.Config.Load.{Environment, loaded, load}
use miakapp_server.Config.Loaded.{IsLoaded, load-IsBounded}
use miakapp_server.Relay.World.{World, active, draining, await_hello, update, new_home, Env}
use miakapp_server.Relay.Connection.{start_draining}
use miakapp_server.Relay.Admission.{Admission, acquire_connection}
use miakapp_server.Relay.Admission.Counting.{IsCounted}
use miakapp_server.Auth.Identity.{Identity, cli}
use miakapp_server.Auth.Platform.{granted}
use miakapp_server.Relay.Frame
use miakapp_server.Relay.Lifecycle.{attach}
use miakapp_server.Relay.World.{Env}
use miakapp_server.Relay.Handshake.{handshake, Received, binary}
use miakapp_server.Relay.Server.{
  Server, drain, drain_all, drain_on_arrival, join_home, allocate_session_id, maximum_session_id,
  UpgradeRequest, serving, Answer, serve_web_socket,
}
use miakapp_server.Relay.Server.Telling.{IsDrained}
use miakapp_server.Relay.Server.Draining.{drain-IsDrained}
use miakapp_server.Relay.Server.Spent.{join_home_spent}
use miakapp_server.Relay.Server.Serving.{
  allocate_session_id_ends, IsPermitted, serve_web_socket-IsPermitted,
}
use miakapp_server.Relay.Server.Accounts.{IsAccounted, serve_web_socket-IsAccounted}
use miakapp_server.Relay.Registry.{
  Registry, Cell, acquire, acquired_home, registry_closed, release, in_use,
}
use miakapp_server.Relay.Registry.Homes.{acquiring, releasing, IsRegistry, step-IsRegistry}
use miakapp_server.Relay.Registry.Use.{acquire_same}
use miakapp_server.Tests.Data.{
  session_of, route, identity_of, env, world, open_link, admission, home,
}

abbrev server : Server
server = record {
  config = default_config;
  closed = false;
  draining = false;
  live = (1, tt) ∷ (3, tt) ∷ [];
  drain_retry_after = 0;
  drain_reason = 0;
  connections = 2;
  next_session = 9_007_199_254_740_991;
}

server_live : contains 3 server.live ≡ true
unfolding lookup
server_live = refl

drain-IsDrained_example :
    ((drain env server world 5_000 1).0.draining ≡ true)
    × ((earlier later : List ℕ) × (keys server.live ≡ earlier ++ 3 ∷ later)
        × IsDrained env
            (drain_all env world earlier 5_000 1).admission
            5_000
            1
            (world.links 3)
            ((drain env server world 5_000 1).1.links 3))
drain-IsDrained_example =
    drain-IsDrained env server world 5_000 1 3 refl refl server_live (refl, refl, refl)

-- Connection 3 is in its handshake when the drain starts, and becomes active afterwards.
abbrev early : World
early = record world { links = update world.links 3 (record open_link { phase = await_hello }) }

abbrev told : World
told = start_draining env early 3 5_000 1

abbrev arrived : World
arrived = record told { links = update told.links 3 (record (told.links 3) { phase = active }) }

abbrev draining_server : Server
draining_server = record server { draining = true }

join_home_spent_example : ((join_home env draining_server told 3).0.links 3).phase ≢ draining
join_home_spent_example = join_home_spent env draining_server early told 3 5_000 1 refl refl

-- The late connection stays active in a server that drains.
late_stays_active : ((drain_on_arrival env draining_server arrived 3).links 3).phase ≡ active
unfolding drain_on_arrival start_draining
late_stays_active = refl

allocate_session_id_ends_example :
    (id : ℕ) × (allocate_session_id server ≡ some (record server { next_session = id }, id))
    × (1 ≤ id)
    × (id ≤ maximum_session_id)
allocate_session_id_ends_example = allocate_session_id_ends server

abbrev upgrade : UpgradeRequest
upgrade = record {
  source = some 9;
  is_get = true;
  origins = [];
  subprotocols = codes "chat,miakapp" ∷ [];
}

abbrev untrimmed : Text → Text
untrimmed t = t

abbrev served_server : Server
served_server = record server {
  live = (1, tt) ∷ (3, tt) ∷ (2, tt) ∷ [];
  connections = 3;
  next_session = 2;
}

abbrev served_admission : Admission
served_admission = (acquire_connection default_config admission 9 1_000).0

-- The counter stands at its last value, so the session gets the identifier 2.
upgrade_served :
    serve_web_socket untrimmed server admission 1_000 2_000 upgrade (some (codes "miakapp"))
    ≡ some (served_server, served_admission, serving 2)
unfolding serve_web_socket acquire_connection lookup default_config
    miakapp_server.Relay.Server.serve_admitted miakapp_server.Relay.Server.upgrade_refusal
    miakapp_server.Relay.Server.origin_allowed miakapp_server.Relay.Server.has_subprotocol
    miakapp_server.Text.split miakapp_server.Text.text_beq
    miakapp_server.Relay.Server.begin_connection allocate_session_id
    miakapp_server.Relay.Server.track_connection miakapp_server.GoMap.insert
upgrade_served = refl

serve_web_socket-IsPermitted_example :
    IsPermitted untrimmed server admission 1_000 upgrade
      (some (codes "miakapp"))
      served_server
      served_admission
      2
serve_web_socket-IsPermitted_example =
    serve_web_socket-IsPermitted untrimmed server served_server admission served_admission 1_000
      2_000 2 upgrade (some (codes "miakapp")) upgrade_served

nothing-IsCounted : IsCounted default_config admission
nothing-IsCounted = record {
  distinct = tt;
  exact = refl;
  capped = omega arith;
  each = tt;
  tracked = omega arith;
  budget = omega arith;
}

-- A request that the upgrade rejects gives its admission back.
serve_web_socket-IsAccounted_example :
    (after : Server) × (b : Admission) × (answer : Answer) × (serve_web_socket untrimmed server
        admission 1_000 2_000 upgrade none
      ≡ some (after, b, answer))
    × IsCounted default_config b
    × IsAccounted (some 9) answer admission b
serve_web_socket-IsAccounted_example =
    serve_web_socket-IsAccounted untrimmed server admission 1_000 2_000 upgrade none
      nothing-IsCounted

abbrev cell : Cell
cell = record { home = home; acquired = 3; released = 1 }

abbrev registry : Registry
registry = record { homes = (codes "h", 0) ∷ []; cells = λ p. cell; next_home = 1; closed = false }

registry_home : lookup (codes "h") registry.homes ≡ some 0
unfolding lookup miakapp_server.Text.text_beq
registry_home = refl

released_in_use : in_use ((release registry 0).cells 0) ≡ true
unfolding release miakapp_server.Relay.Registry.delete_if_unused lookup miakapp_server.Text.text_beq
released_in_use = refl

acquire_same_example :
    (acquire default_config (release registry 0) (codes "h") none).1
    ≡ (if (release registry 0).closed then registry_closed else acquired_home 0)
acquire_same_example =
    acquire_same default_config registry (release registry 0) 0 (codes "h") none
      (releasing registry 0) registry_home released_in_use

abbrev empty_registry : Registry
empty_registry = record { homes = []; cells = λ p. cell; next_home = 0; closed = false }

empty_registry-IsRegistry : IsRegistry default_config empty_registry
unfolding lookup
empty_registry-IsRegistry = record {
  named = λ id p e. absurd (ground (arith, e));
  allocated = λ id p e. absurd (ground (arith, e));
  capped = omega arith;
}

step-IsRegistry_example :
    IsRegistry default_config
      (acquire default_config empty_registry (codes "a") (some (codes "e"))).0
step-IsRegistry_example =
    step-IsRegistry default_config empty_registry
      (acquire default_config empty_registry (codes "a") (some (codes "e"))).0
      (acquiring empty_registry (codes "a") (some (codes "e"))) empty_registry-IsRegistry

abbrev lookup_env : Text → Option Text
lookup_env name =
    if name == codes "MIAKAPP_MAX_HOMES"
    then some (codes "12")
    else if name == codes "MIAKAPP_WRITE_TIMEOUT"
    then some (codes "7s")
    else none

abbrev process_environment : Environment
process_environment = record {
  lookup_env = lookup_env;
  parse_duration = λ t. some (nonnegative 7_000_000_000);
}

abbrev urls : UrlLibrary
urls = record { parse = λ t. none; trim_space = λ t. t }

abbrev loaded_config : Config
loaded_config = record default_config { write_timeout = 7_000_000_000; max_homes = 12 }

environment_loaded : load process_environment urls 1_048_576 ≡ loaded loaded_config
unfolding load miakapp_server.Config.parse_origins miakapp_server.Text.text_beq
    miakapp_server.Config.Load.run_settings miakapp_server.Config.Load.duration_settings
    miakapp_server.Config.Load.assign miakapp_server.Config.Load.duration
    miakapp_server.Config.Load.limit_settings miakapp_server.Config.Load.integer
    miakapp_server.GoStrings.parse_int miakapp_server.Config.Load.finish_load
    miakapp_server.Config.validate miakapp_server.Config.Load.initial
    miakapp_server.Config.Load.environment default_config
environment_loaded = refl

load-IsBounded_example : IsLoaded process_environment urls 1_048_576 loaded_config
load-IsBounded_example =
    load-IsBounded process_environment urls 1_048_576 loaded_config environment_loaded

-- A command-line session of a home that has no other connection.
abbrev granted_identity : Identity
granted_identity = record (identity_of cli (codes "k") []) {
  client_id = codes "x";
  scopes = (codes "relay:cli", tt) ∷ [];
}

abbrev granting : Env
granting = record env { verifier = λ r. granted granted_identity }

abbrev small_world : World
small_world = record {
  home = new_home (codes "h") (codes "e");
  sessions = λ s. session_of granted_identity;
  links = λ s. open_link;
  routes = λ r. route;
  next_route = 0;
  next_stage = 0;
  admission = admission;
}

attached : (attach granting small_world 4).1 ≡ none
unfolding attach new_home miakapp_server.Relay.Connection.enqueue
    miakapp_server.Relay.Connection.enqueue_link miakapp_server.Relay.Outbound.enqueue_bytes
    default_config miakapp_server.Relay.Admission.reserve_queued_bytes
    miakapp_server.Relay.Connection.activate_initial_lease
    miakapp_server.Relay.Connection.link_available
attached = refl

abbrev hello : Received
hello = binary (Frame.hello 1 0 3 cli (codes "token") [])

hello_let_in : (handshake granting server registry small_world 4 none hello).2 ≡ true
unfolding handshake miakapp_server.Relay.Handshake.authenticate
    miakapp_server.Relay.Handshake.hello_request miakapp_server.Relay.Handshake.admit_identity
    miakapp_server.Auth.Identity.validate_binding miakapp_server.Text.text_beq lookup acquire
    miakapp_server.Relay.Server.join_home attach new_home miakapp_server.Relay.Connection.enqueue
    miakapp_server.Relay.Connection.enqueue_link miakapp_server.Relay.Outbound.enqueue_bytes
    default_config miakapp_server.Relay.Admission.reserve_queued_bytes
    miakapp_server.Relay.Connection.activate_initial_lease
    miakapp_server.Relay.Connection.link_available
hello_let_in = refl

handshake-IsAuthenticated_example :
    IsLetIn granting server registry
      (handshake granting server registry small_world 4 none hello).0
      none
      hello
handshake-IsAuthenticated_example =
    handshake-IsAuthenticated granting server registry small_world 4 none hello hello_let_in
