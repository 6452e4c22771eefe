-- ===== src/Auth/Keys/Cache.antt =====
-- keyCache of internal/auth/key_cache.go. `load` is cut where it gives up its lock: `enter` is what
-- it does under the lock up to a return, a wait or a fetch, `finish` what it does after the fetch.
-- Times are nanoseconds; the zero time is 0.

pub mod Callers
pub mod Flight
pub mod Landing
pub mod Reachable
use miakapp_server.Prelude.{
  ℕ, suc, ◌+◌, Bool, true, false, not, ◌&&◌, Option, none, some, List, [], ltb, nat_beq,
  if◌then◌else◌, nat_eq, length,
}
use miakapp_server.Text.{Text}
use miakapp_server.Auth.Keys.Errors.{
  Failure, Result, ok, error, not_modified_without_keys, rate_limited,
}
use miakapp_server.Auth.Keys.Document.{PublicJwk}
use miakapp_server.Auth.Keys.Fetch.{FetchResult}

-- refreshDone is the number of the channel made last, 0 for nil; `channel_closed` tells of each
-- channel whether it has been closed.
pub record Cache : Type 0 where
  pub keys : List PublicJwk
  pub etag : Text
  pub expires_at : ℕ
  pub refreshing : Bool
  pub refresh_done : ℕ
  pub channel_closed : ℕ → Bool
  pub next_fetch : ℕ
  pub next_unknown_refresh : ℕ
  pub last_failure : Option Failure

abbrev pub new_key_cache : Cache
new_key_cache = record {
  keys = [];
  etag = [];
  expires_at = 0;
  refreshing = false;
  refresh_done = 0;
  channel_closed = λ channel. false;
  next_fetch = 0;
  next_unknown_refresh = 0;
  last_failure = none;
}

-- 10 * time.Second and time.Second
abbrev pub unknown_kid_refresh_delay : ℕ
unknown_kid_refresh_delay = 10_000_000_000

abbrev pub failed_fetch_retry_delay : ℕ
failed_fetch_retry_delay = 1_000_000_000

abbrev pub is_fresh : ℕ → Cache → Bool
is_fresh now cache = ltb 0 (length cache.keys) && ltb now cache.expires_at

-- What a caller does once it has given up the lock.
pub data Decision : Type 0 where
  serve : List PublicJwk → Decision
  refuse_load : Failure → Decision
  wait : ℕ → Decision
  start_fetch : Text → Decision

-- refreshUnknownKID before it calls load: the keys that it returns at once.
unfoldable pub unknown_kid_answer : ℕ → Cache → Option (List PublicJwk)
unknown_kid_answer now cache =
    if is_fresh now cache && not cache.refreshing && ltb now cache.next_unknown_refresh
    then some cache.keys
    else none

unfoldable pub refusal : Cache → Failure
refusal cache = elim cache.last_failure [ none ↦ rate_limited | some failure ↦ failure ]

-- Of one channel alone: it is made open, or it is closed.
abbrev pub set_closed : ℕ → Bool → (ℕ → Bool) → ℕ → Bool
set_closed channel closed before other = if nat_beq channel other then closed else before other

-- The assignments that start a refresh; the channel is made open.
unfoldable pub begin_refresh : Bool → ℕ → Cache → Cache
begin_refresh force now cache = record cache {
  refreshing = true;
  refresh_done = suc cache.refresh_done;
  channel_closed = set_closed (suc cache.refresh_done) false cache.channel_closed;
  next_fetch = now + failed_fetch_retry_delay;
  next_unknown_refresh =
      if force then now + unknown_kid_refresh_delay else cache.next_unknown_refresh;
}

unfoldable pub enter : Bool → ℕ → Cache → Decision × Cache
unfolding begin_refresh
enter force now cache =
    let fresh = is_fresh now cache in
    if not force && fresh
    then (serve cache.keys, cache)
    else if force && cache.refreshing
    then (wait cache.refresh_done, cache)
    else if force && fresh && ltb now cache.next_unknown_refresh
    then (serve cache.keys, cache)
    else if cache.refreshing
    then (wait cache.refresh_done, cache)
    else if ltb now cache.next_fetch
    then (if fresh && force
        then (serve cache.keys, cache)
        else (refuse_load (refusal cache), cache))
    else (start_fetch cache.etag, begin_refresh force now cache)

-- The keys and the outcome after a fetch, before the times are set.
unfoldable pub apply_result : Result FetchResult → Cache → Result ℕ × Cache
apply_result (error failure) cache = (error failure, cache)
apply_result (ok result) cache =
    if result.not_modified
    then (if nat_beq (length cache.keys) 0
        then (error not_modified_without_keys, cache)
        else (ok result.ttl, cache))
    else (ok result.ttl, record cache { keys = result.keys; etag = result.etag })

-- `cache.refreshing = false` and `close(cache.refreshDone)`
abbrev pub close_refresh : Cache → Cache
close_refresh cache = record cache {
  refreshing = false;
  channel_closed = set_closed cache.refresh_done true cache.channel_closed;
}

-- The assignments after that, and what is returned. `now` is the clock when the expiry is set,
-- `later` when the freshness is read again.
unfoldable pub settle : Bool → ℕ → ℕ → Result ℕ → Cache → Result (List PublicJwk) × Cache
settle force now later (ok ttl) cache = (
  ok cache.keys,
  close_refresh (record cache { expires_at = now + ttl; last_failure = none; next_fetch = 0 }),
)
settle force now later (error failure) cache =
    let closed = close_refresh (record cache { last_failure = some failure }) in
    (if force && is_fresh later closed then ok closed.keys else error failure, closed)

unfoldable pub finish : Bool → ℕ → ℕ → Result FetchResult → Cache → Result (List PublicJwk) × Cache
unfolding apply_result settle
finish force now later result cache =
    let (outcome, applied) = apply_result result cache in settle force now later outcome applied
