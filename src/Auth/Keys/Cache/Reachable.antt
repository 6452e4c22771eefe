-- ===== src/Auth/Keys/Cache/Reachable.antt =====
-- The systems that the concurrent callers reach.
use miakapp_server.Prelude.{
  ◌↔◌, ◌<◌, ℕ, ◌+◌, ◌≤◌, ◌≡◌, refl, ap, subst, ◌⊎◌, inl, inr, Bool, true, false, some, List, arith,
  ◌∙◌, nat_beq_iff, nat_eq,
}
use miakapp_server.Auth.Keys.Errors.{Result, ok, error, cancelled}
use miakapp_server.Auth.Keys.Document.{PublicJwk}
use miakapp_server.Auth.Keys.Document.Accepted.{IsAcceptedSet}
use miakapp_server.Auth.Keys.Fetch.{Library, FetchResult}
use miakapp_server.Auth.Keys.Cache.{Cache, Decision, serve, enter, is_fresh, unknown_kid_answer}
use miakapp_server.Auth.Keys.Cache.Callers.{
  started, is_closed, next, Reach, entering, waiting, answered, System, Step, tick, call, completed,
  set_caller, call_unknown, lock, wake, cancel, complete,
}
use miakapp_server.Auth.Keys.Cache.Flight.{
  Entry, entry_serve, entry_refuse, entry_wait, entry_fetch, enter-Entry, is_fetching, IsServed,
  IsAwaited, fresh_keys, IsCoherent, start-IsCoherent, set_caller-IsCoherent,
  called_unknown-IsCoherent, entered-IsCoherent,
}
use miakapp_server.Auth.Keys.Cache.Landing.{completed-IsCoherent, finish_channel}

-- Keys that are served under the lock are the cached ones, and fresh.
serve-is_fresh :
    (force : Bool) (now : ℕ) (cache : Cache) (keys : List PublicJwk) (r : Decision × Cache)
    → Entry force now cache r
    → r.0 ≡ serve keys
    → (cache.keys ≡ keys) × (is_fresh now cache ≡ true)
serve-is_fresh force now cache keys r (entry_serve f) e = (ground (arith, e), f)
serve-is_fresh force now cache keys r (entry_refuse failure) e = absurd (ground (arith, e))
serve-is_fresh force now cache keys r (entry_wait busy) e = absurd (ground (arith, e))
serve-is_fresh force now cache keys r (entry_fetch free) e = absurd (ground (arith, e))

-- Keys that are returned without a fetch are the cached ones, and fresh.
returned-is_fresh :
    (force : Bool) (now : ℕ) (cache : Cache) (keys : List PublicJwk)
    → ((enter force now cache).0 ≡ serve keys) ⊎ (unknown_kid_answer now cache ≡ some keys)
    → (cache.keys ≡ keys) × (is_fresh now cache ≡ true)
unfolding unknown_kid_answer
returned-is_fresh force now cache keys (inl e) =
    serve-is_fresh force now cache keys (enter force now cache) (enter-Entry force now cache) e
returned-is_fresh force now cache keys (inr e) = ground (arith, e)

module _ (library : Library) where
  Step-IsCoherent : (s t : System) → Step library s t → IsCoherent library s → IsCoherent library t
  Step-IsCoherent s t (tick _ later up) h = record {
    single = h.single;
    flagged = h.flagged;
    in_flight = h.in_flight;
    cached = h.cached;
    expiry = h.expiry;
    confirmed = omega (arith, h.confirmed, up);
    served = h.served;
    awaited = h.awaited;
    running_open = h.running_open;
  }
  Step-IsCoherent s t (call _ i at) h =
      set_caller-IsCoherent library s i (entering false) (ground (arith, at)) refl tt tt h
  Step-IsCoherent s t (call_unknown _ i at) h = called_unknown-IsCoherent library s i at h
  Step-IsCoherent s t (lock _ i force at) h = entered-IsCoherent library s i force at h
  Step-IsCoherent s t (wake _ i channel at closed) h =
      set_caller-IsCoherent library s i (entering false) (ground (arith, at)) refl tt tt h
  Step-IsCoherent s t (cancel _ i channel at) h =
      set_caller-IsCoherent library s i (answered (error cancelled)) (ground (arith, at)) refl tt tt
        h
  Step-IsCoherent s t (complete _ i force etag response later result at f up) h =
      completed-IsCoherent library s i later force etag response result at f up h

  Reach-IsCoherent : (clock : ℕ) (s : System) → Reach library clock s → IsCoherent library s
  Reach-IsCoherent clock s started = start-IsCoherent library clock
  Reach-IsCoherent clock s (next t _ r step) = Step-IsCoherent t s step (Reach-IsCoherent clock t r)

  -- However the calls, fetches, cancellations and the clock interleave, at most one caller fetches
  -- at a time, and the flag of the cache is set exactly while one does.
  pub single_flight :
      (clock : ℕ) (s : System)
      → Reach library clock s
      → ((i j : ℕ) → is_fetching (s.callers i) ≡ true → is_fetching (s.callers j) ≡ true → i ≡ j)
        × ((s.cache.refreshing ≡ true) ↔ ((i : ℕ) × (is_fetching (s.callers i) ≡ true)))
  single_flight clock s r =
      let h = Reach-IsCoherent clock s r in (h.single, (h.in_flight, (λ w. h.flagged w.0 w.1)))

  -- Every set of keys that a call has returned is a set of one to 16 accepted keys with identifiers
  -- of their own.
  pub answers-IsAcceptedSet :
      (clock : ℕ) (s : System) (i : ℕ) (keys : List PublicJwk)
      → Reach library clock s
      → s.callers i ≡ answered (ok keys)
      → IsAcceptedSet library.codecs keys
  answers-IsAcceptedSet clock s i keys r e =
      subst (IsServed library) e ((Reach-IsCoherent clock s r).served i)

  -- Keys that a call returns without a fetch of its own, under the lock of `load` or at once in
  -- refreshUnknownKID, are an accepted set that a fetch confirmed less than a minute before.
  pub returned_confirmed :
      (clock : ℕ) (s : System) (force : Bool) (keys : List PublicJwk)
      → Reach library clock s
      → ((enter force s.clock s.cache).0 ≡ serve keys)
        ⊎ (unknown_kid_answer s.clock s.cache ≡ some keys)
      → IsAcceptedSet library.codecs keys
        × (s.confirmed_at ≤ s.clock)
        × (s.clock < s.confirmed_at + 60_000_000_000)
  returned_confirmed clock s force keys r served =
      let h = Reach-IsCoherent clock s r in
      let (same, fresh) = returned-is_fresh force s.clock s.cache keys served in
      (
        subst (IsAcceptedSet library.codecs) same (fresh_keys library s fresh h),
        h.confirmed,
        ground (arith, fresh, h.expiry),
      )

  -- No caller waits in vain: either the channel that it waits on is closed, or it is still open,
  -- some caller is in a fetch, and the end of that fetch, whatever its result, closes the channel.
  pub waiting_ends :
      (clock : ℕ) (s : System) (i channel : ℕ)
      → Reach library clock s
      → s.callers i ≡ waiting channel
      → (is_closed channel s.cache ≡ true)
        ⊎ ((is_closed channel s.cache ≡ false)
            × ((j : ℕ) × (is_fetching (s.callers j) ≡ true)
                × ((force : Bool) (later : ℕ) (result : Result FetchResult)
                    → is_closed channel (completed j force later result s).cache ≡ true)))
  unfolding completed set_caller
  waiting_ends clock s i channel r e =
      let h = Reach-IsCoherent clock s r in
      let w : IsAwaited s.cache (waiting channel) = subst (IsAwaited s.cache) e (h.awaited i) in
      elim w.1 [
        | inl closed ↦ inl closed
        | inr (current, busy) ↦
            let (j, fetches) = h.in_flight busy in
            inr (
              rw current (h.running_open busy),
              (
                j,
                fetches,
                λ force later result.
                    ap (λ k. k channel) (finish_channel force s.clock later result s.cache).1
                    ∙ ground (arith, nat_beq_iff s.cache.refresh_done channel, current),
              ),
            )
      ]
