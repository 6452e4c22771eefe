-- ===== src/Config/Bounds.antt =====
-- What an accepted configuration guarantees.
use miakapp_server.Prelude.{ℕ, ◌≤◌, ◌<◌, ◌≡◌, none, arith}
use miakapp_server.Config.{
  Config, UrlLibrary, validate, limit_failure, first_nonpositive, durations, maximum_connections,
  maximum_homes, maximum_tracked_ips, maximum_connection_attempts_per_minute,
  default_max_queued_bytes, maximum_aggregate_queued_bytes,
}

-- The limits that the relay relies on.
pub record IsBounded (max_frame_bytes : ℕ) (c : Config) : Type 0 where
  pub timeouts :
      (0 < c.handshake)
      × (0 < c.write_timeout)
      × (0 < c.ping_interval)
      × (0 < c.pong_timeout)
      × (0 < c.declaration_ttl)
      × (0 < c.disconnect_grace)
      × (0 < c.shutdown_timeout)
  pub one_frame_fits : max_frame_bytes ≤ c.max_queued_bytes
  pub queue_finite : c.max_queued_bytes ≤ default_max_queued_bytes
  pub per_ip : (1 ≤ c.max_connections_per_ip) × (c.max_connections_per_ip ≤ c.max_connections)
  pub total : c.max_connections ≤ maximum_connections
  pub attempts :
      (c.max_connections_per_ip ≤ c.connection_attempts_per_minute)
      × (c.connection_attempts_per_minute ≤ maximum_connection_attempts_per_minute)
  pub tracked : (1 ≤ c.max_tracked_ips) × (c.max_tracked_ips ≤ maximum_tracked_ips)
  pub homes : (1 ≤ c.max_homes) × (c.max_homes ≤ maximum_homes)
  pub aggregate :
      (c.max_queued_bytes ≤ c.max_aggregate_queued_bytes)
      × (c.max_aggregate_queued_bytes ≤ maximum_aggregate_queued_bytes)

timeouts_of_none :
    (c : Config)
    → first_nonpositive (durations c) ≡ none
    → (0 < c.handshake)
      × (0 < c.write_timeout)
      × (0 < c.ping_interval)
      × (0 < c.pong_timeout)
      × (0 < c.declaration_ttl)
      × (0 < c.disconnect_grace)
      × (0 < c.shutdown_timeout)
unfolding first_nonpositive durations
timeouts_of_none c h = ground arith

IsBounded-of_none :
    (m : ℕ) (c : Config)
    → first_nonpositive (durations c) ≡ none
    → limit_failure m c ≡ none
    → IsBounded m c
unfolding limit_failure
IsBounded-of_none m c t h = ground (arith, timeouts_of_none c t)

-- A configuration that is accepted has positive durations and every limit within its range, for
-- whatever URL parser and largest frame; its queues hold at least one frame of that size.
pub validate-IsBounded :
    (url : UrlLibrary) (m : ℕ) (c : Config) → validate url m c ≡ none → IsBounded m c
unfolding validate
validate-IsBounded url m c h = ground (arith, IsBounded-of_none m c)
