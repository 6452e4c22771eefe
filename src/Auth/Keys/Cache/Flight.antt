-- ===== src/Auth/Keys/Cache/Flight.antt =====
-- The coherence of the cache, and the steps of its callers that do not end a fetch.
use miakapp_server.Prelude.{
  ℕ, suc, ◌+◌, ◌≤◌, ◌≡◌, refl, subst, ◌≢◌, ◌⊎◌, inl, inr, Bool, true, false, not, ◌&&◌, Option,
  none, some, List, [], arith, ltb, nat_beq, if◌then◌else◌, nat_beq_iff, nat_eq,
}
use miakapp_server.Auth.Keys.Errors.{Failure, Failure, ok, error}
use miakapp_server.Auth.Keys.Document.{PublicJwk}
use miakapp_server.Auth.Keys.Document.Accepted.{IsAcceptedSet}
use miakapp_server.Auth.Keys.Fetch.{Library}
use miakapp_server.Auth.Keys.Cache.{
  Cache, Decision, serve, refuse_load, wait, start_fetch, refusal, unknown_kid_answer, enter,
  begin_refresh, is_fresh,
}
use miakapp_server.Auth.Keys.Cache.Callers.{
  Caller, idle, entering, waiting, fetching, answered, System, start, set_caller, follow, entered,
  called_unknown, is_closed,
}

abbrev pub is_fetching : Caller → Bool
is_fetching (fetching force etag) = true
is_fetching _ = false

-- Keys that a caller has got are accepted ones.
abbrev pub IsServed : Library → Caller → Type 0
IsServed library (answered (ok keys)) = IsAcceptedSet library.codecs keys
IsServed library _ = Unit

-- A channel that a caller waits on has been made, and is closed unless it is the one of the refresh
-- that runs.
abbrev pub IsAwaited : Cache → Caller → Type 0
IsAwaited cache (waiting channel) =
    (channel ≤ cache.refresh_done)
    × ((is_closed channel cache ≡ true)
        ⊎ ((channel ≡ cache.refresh_done) × (cache.refreshing ≡ true)))
IsAwaited cache _ = Unit

-- The flag of the cache is set while one caller, and no other, fetches; the keys of the cache are
-- accepted ones and expire within a minute of their last confirmation. The channel of the refresh
-- that runs is open.
pub record IsCoherent (library : Library) (s : System) : Type 0 where
  pub single :
      (i j : ℕ) → is_fetching (s.callers i) ≡ true → is_fetching (s.callers j) ≡ true → i ≡ j
  pub flagged : (i : ℕ) → is_fetching (s.callers i) ≡ true → s.cache.refreshing ≡ true
  pub in_flight : s.cache.refreshing ≡ true → (i : ℕ) × (is_fetching (s.callers i) ≡ true)
  pub cached : (s.cache.keys ≡ []) ⊎ IsAcceptedSet library.codecs s.cache.keys
  pub expiry : s.cache.expires_at ≤ s.confirmed_at + 60_000_000_000
  pub confirmed : s.confirmed_at ≤ s.clock
  pub served : (i : ℕ) → IsServed library (s.callers i)
  pub awaited : (i : ℕ) → IsAwaited s.cache (s.callers i)
  pub running_open : s.cache.refreshing ≡ true → is_closed s.cache.refresh_done s.cache ≡ false

-- What a caller may do under the lock, with what it then knows of the cache.
pub data Entry (force : Bool) (now : ℕ) (cache : Cache) : Decision × Cache → Type 0 where
  entry_serve : is_fresh now cache ≡ true → Entry force now cache (serve cache.keys, cache)
  entry_refuse : (failure : Failure) → Entry force now cache (refuse_load failure, cache)
  entry_wait : cache.refreshing ≡ true → Entry force now cache (wait cache.refresh_done, cache)
  entry_fetch :
      cache.refreshing ≡ false
      → Entry force now cache (start_fetch cache.etag, begin_refresh force now cache)

Entry-choice :
    {force : Bool} {now : ℕ} {cache : Cache} (b : Bool) (x y : Decision × Cache)
    → (b ≡ true → Entry force now cache x)
    → (b ≡ false → Entry force now cache y)
    → Entry force now cache (if b then x else y)
Entry-choice true x y p q = p refl
Entry-choice false x y p q = q refl

pub enter-Entry :
    (force : Bool) (now : ℕ) (cache : Cache) → Entry force now cache (enter force now cache)
unfolding enter
enter-Entry force now cache =
    Entry-choice (not force && is_fresh now cache) _ _ (λ e. entry_serve (ground (arith, e)))
      (λ e.
        Entry-choice (force && cache.refreshing) _ _ (λ b. entry_wait (ground (arith, b)))
          (λ b.
            Entry-choice (force && is_fresh now cache && ltb now cache.next_unknown_refresh) _ _
              (λ f. entry_serve (ground (arith, f)))
              (λ f. Entry-choice cache.refreshing _ _ entry_wait (λ free.
                Entry-choice (ltb now cache.next_fetch) _ _
                  (λ early.
                    Entry-choice (is_fresh now cache && force) _ _
                      (λ g. entry_serve (ground (arith, g))) (λ g. entry_refuse (refusal cache)))
                  (λ late. entry_fetch free)))))

module _ (library : Library) where
  pub start-IsCoherent : (clock : ℕ) → IsCoherent library (start clock)
  start-IsCoherent clock = record {
    single = λ i j a b. ground (arith, a);
    flagged = λ i a. ground (arith, a);
    in_flight = λ r. absurd (ground (arith, r));
    cached = inl refl;
    expiry = omega arith;
    confirmed = omega arith;
    served = λ i. tt;
    awaited = λ i. tt;
    running_open = λ r. refl;
  }

  pub served_choice :
      (b : Bool) (c d : Caller)
      → IsServed library c
      → IsServed library d
      → IsServed library (if b then c else d)
  served_choice true c d p q = p
  served_choice false c d p q = q

  pub IsAwaited-choice :
      (cache : Cache) (b : Bool) (c d : Caller)
      → IsAwaited cache c
      → IsAwaited cache d
      → IsAwaited cache (if b then c else d)
  IsAwaited-choice cache true c d p q = p
  IsAwaited-choice cache false c d p q = q

  -- When a refresh begins, the channels of the earlier ones are closed and stay so.
  begin_refresh-IsAwaited :
      (force : Bool) (now : ℕ) (cache : Cache) (c : Caller)
      → cache.refreshing ≡ false
      → IsAwaited cache c
      → IsAwaited (begin_refresh force now cache) c
  unfolding begin_refresh
  begin_refresh-IsAwaited force now cache idle free h = tt
  begin_refresh-IsAwaited force now cache (entering _) free h = tt
  begin_refresh-IsAwaited force now cache (fetching _ _) free h = tt
  begin_refresh-IsAwaited force now cache (answered _) free h = tt
  begin_refresh-IsAwaited force now cache (waiting channel) free (made, inl closed) = (
    omega (arith, made),
    inl (ground (arith, made, closed, nat_beq_iff (suc cache.refresh_done) channel)),
  )
  begin_refresh-IsAwaited force now cache (waiting channel) free (made, inr (same, busy)) =
      absurd (ground (arith, free, busy))

  other_caller :
      (s : System) (i j : ℕ)
      → is_fetching (s.callers i) ≡ false
      → is_fetching (s.callers j) ≡ true
      → i ≢ j
  other_caller s i j a b same =
      ground (arith, b, subst (λ k. is_fetching (s.callers k) ≡ false) same a)

  -- A caller that neither was nor is in a fetch leaves the rest as it is.
  pub set_caller-IsCoherent :
      (s : System) (i : ℕ) (c : Caller)
      → is_fetching (s.callers i) ≡ false
      → is_fetching c ≡ false
      → IsServed library c
      → IsAwaited s.cache c
      → IsCoherent library s
      → IsCoherent library (set_caller i c s)
  unfolding set_caller
  set_caller-IsCoherent s i c before after p w h = record {
    single = λ j k a b. ground (arith, h.single j k, a, b, after, nat_beq_iff i j, nat_beq_iff i k);
    flagged = λ j a. ground (arith, h.flagged j, a, after);
    in_flight = λ r.
        let (j, f) = h.in_flight r in
        (j, ground (arith, f, other_caller s i j before f, nat_beq_iff i j));
    cached = h.cached;
    expiry = h.expiry;
    confirmed = h.confirmed;
    served = λ j. served_choice (nat_beq i j) c (s.callers j) p (h.served j);
    awaited = λ j. IsAwaited-choice s.cache (nat_beq i j) c (s.callers j) w (h.awaited j);
    running_open = h.running_open;
  }

  -- A caller that begins a fetch sets the flag, which was not set.
  begin-IsCoherent :
      (s : System) (i : ℕ) (force : Bool)
      → s.cache.refreshing ≡ false
      → IsCoherent library s
      → IsCoherent library (
          set_caller i
            (fetching force s.cache.etag)
            (record s { cache = begin_refresh force s.clock s.cache }))
  unfolding set_caller begin_refresh
  begin-IsCoherent s i force free h = record {
    single = λ j k a b.
        ground (arith, h.flagged j, h.flagged k, a, b, free, nat_beq_iff i j, nat_beq_iff i k);
    flagged = λ j a. refl;
    in_flight = λ r. (i, ground (arith, nat_beq_iff i i));
    cached = h.cached;
    expiry = h.expiry;
    confirmed = h.confirmed;
    served = λ j.
        served_choice (nat_beq i j) (fetching force s.cache.etag) (s.callers j) tt (h.served j);
    awaited = λ j.
        IsAwaited-choice (begin_refresh force s.clock s.cache) (nat_beq i j)
          (fetching force s.cache.etag) (s.callers j) tt
          (begin_refresh-IsAwaited force s.clock s.cache (s.callers j) free (h.awaited j));
    running_open =
        λ r. ground (arith, nat_beq_iff (suc s.cache.refresh_done) (suc s.cache.refresh_done));
  }

  -- Keys in the cache that are fresh are there, and so are accepted.
  pub fresh_keys :
      (s : System)
      → is_fresh s.clock s.cache ≡ true
      → IsCoherent library s
      → IsAcceptedSet library.codecs s.cache.keys
  fresh_keys s f h = elim h.cached [ inl e ↦ absurd (ground (arith, f, e)) | inr good ↦ good ]

  Entry-IsCoherent :
      (s : System) (i : ℕ) (force : Bool) (r : Decision × Cache)
      → Entry force s.clock s.cache r
      → s.callers i ≡ entering force
      → IsCoherent library s
      → IsCoherent library (set_caller i (follow force r.0) (record s { cache = r.1 }))
  Entry-IsCoherent s i force r (entry_serve f) at h =
      set_caller-IsCoherent s i (answered (ok s.cache.keys)) (ground (arith, at)) refl
        (fresh_keys s f h) tt h
  Entry-IsCoherent s i force r (entry_refuse failure) at h =
      set_caller-IsCoherent s i (answered (error failure)) (ground (arith, at)) refl tt tt h
  Entry-IsCoherent s i force r (entry_wait busy) at h =
      set_caller-IsCoherent s i (waiting s.cache.refresh_done) (ground (arith, at)) refl tt
        (omega arith, inr (refl, busy)) h
  Entry-IsCoherent s i force r (entry_fetch free) at h = begin-IsCoherent s i force free h

  pub entered-IsCoherent :
      (s : System) (i : ℕ) (force : Bool)
      → s.callers i ≡ entering force
      → IsCoherent library s
      → IsCoherent library (entered i force s)
  unfolding entered
  entered-IsCoherent s i force at h =
      Entry-IsCoherent s i force (enter force s.clock s.cache) (enter-Entry force s.clock s.cache)
        at h

  unknown_kid_answer-IsCoherent :
      (s : System) (i : ℕ) (answer : Option (List PublicJwk))
      → unknown_kid_answer s.clock s.cache ≡ answer
      → s.callers i ≡ idle
      → IsCoherent library s
      → IsCoherent library (elim answer [
        | none ↦ set_caller i (entering true) s
        | some keys ↦ set_caller i (answered (ok keys)) s
      ])
  unfolding unknown_kid_answer
  unknown_kid_answer-IsCoherent s i none e at h =
      set_caller-IsCoherent s i (entering true) (ground (arith, at)) refl tt tt h
  unknown_kid_answer-IsCoherent s i (some keys) e at h =
      let same : s.cache.keys ≡ keys = ground arith in
      let fresh : is_fresh s.clock s.cache ≡ true = ground arith in
      set_caller-IsCoherent s i (answered (ok keys)) (ground (arith, at)) refl
        (subst (IsAcceptedSet library.codecs) same (fresh_keys s fresh h)) tt h

  pub called_unknown-IsCoherent :
      (s : System) (i : ℕ)
      → s.callers i ≡ idle
      → IsCoherent library s
      → IsCoherent library (called_unknown i s)
  unfolding called_unknown
  called_unknown-IsCoherent s i at h =
      unknown_kid_answer-IsCoherent s i (unknown_kid_answer s.clock s.cache) refl at h
