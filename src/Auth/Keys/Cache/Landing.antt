-- ===== src/Auth/Keys/Cache/Landing.antt =====
-- The end of a fetch, as a step of the cache.
use miakapp_server.Prelude.{
  sym, ℕ, ◌+◌, ◌≤◌, ◌≡◌, refl, ap, subst, ◌∙◌, ◌≢◌, ◌⊎◌, inl, inr, Bool, true, false, ◌&&◌, Option,
  some, List, [], arith, nat_beq, if◌then◌else◌, nat_beq_iff, Bool-cases, nat_eq, length,
}
use miakapp_server.Text.{Text}
use miakapp_server.Auth.Keys.Errors.{not_modified_without_keys, Failure, Failure, Result, ok, error}
use miakapp_server.Auth.Keys.Document.{PublicJwk}
use miakapp_server.Auth.Keys.Document.Accepted.{IsAcceptedSet}
use miakapp_server.Auth.Keys.Fetch.{Library, Response, FetchResult, fetch}
use miakapp_server.Auth.Keys.Fetch.Confirmed.{IsConfirmed, fetch-IsConfirmed}
use miakapp_server.Auth.Keys.Cache.{settle, Cache, set_closed, finish, apply_result, is_fresh}
use miakapp_server.Auth.Keys.Cache.Callers.{
  confirmation, Caller, idle, entering, waiting, fetching, answered, System, set_caller, completed,
}
use miakapp_server.Auth.Keys.Cache.Flight.{
  is_fetching, IsServed, IsCoherent, served_choice, IsAwaited, IsAwaited-choice,
}

confirmation_bound :
    {A : Type 0} (result : Result A) (now before later : ℕ)
    → before ≤ now
    → now ≤ later
    → confirmation result now before ≤ later
confirmation_bound (ok a) now before later h t = t
confirmation_bound (error e) now before later h t = omega (arith, h, t)

-- The end of a fetch keeps the channel of the refresh, and closes it.
apply_result_channel :
    (result : Result FetchResult) (cache : Cache)
    → ((apply_result result cache).1.refresh_done ≡ cache.refresh_done)
      × ((apply_result result cache).1.channel_closed ≡ cache.channel_closed)
unfolding apply_result
apply_result_channel (error failure) cache = (refl, refl)
apply_result_channel (ok r) cache = elim (Bool-cases r.not_modified) [
  | inr m ↦ (ground (arith, m), ground (arith, m))
  | inl m ↦ elim (Bool-cases (nat_beq (length cache.keys) 0)) [
    | inl e ↦ (ground (arith, m, e), ground (arith, m, e))
    | inr e ↦ (ground (arith, m, e), ground (arith, m, e))
  ]
]

settle_channel :
    (force : Bool) (now later : ℕ) (outcome : Result ℕ) (cache : Cache)
    → ((settle force now later outcome cache).1.refresh_done ≡ cache.refresh_done)
      × ((settle force now later outcome cache).1.channel_closed
          ≡ set_closed cache.refresh_done true cache.channel_closed)
unfolding settle
settle_channel force now later (ok ttl) cache = (refl, refl)
settle_channel force now later (error failure) cache = (refl, refl)

pub finish_channel :
    (force : Bool) (now later : ℕ) (result : Result FetchResult) (cache : Cache)
    → ((finish force now later result cache).1.refresh_done ≡ cache.refresh_done)
      × ((finish force now later result cache).1.channel_closed
          ≡ set_closed cache.refresh_done true cache.channel_closed)
unfolding finish
finish_channel force now later result cache =
    let (outcome, applied) = apply_result result cache in
    let p = settle_channel force now later outcome applied in
    let q = apply_result_channel result cache in
    (
      p.0 ∙ q.0,
      p.1
          ∙ ap (λ n. set_closed n true applied.channel_closed) q.0
          ∙ ap (set_closed cache.refresh_done true) q.1,
    )

-- Whoever waits is on a channel that is closed by now.
finish-IsAwaited :
    (before after : Cache) (c : Caller)
    → after.refresh_done ≡ before.refresh_done
    → after.channel_closed ≡ set_closed before.refresh_done true before.channel_closed
    → IsAwaited before c
    → IsAwaited after c
finish-IsAwaited before after idle same closes h = tt
finish-IsAwaited before after (entering _) same closes h = tt
finish-IsAwaited before after (fetching _ _) same closes h = tt
finish-IsAwaited before after (answered _) same closes h = tt
finish-IsAwaited before after (waiting channel) same closes (made, reason) = (
  omega (arith, made, same),
  inl (
      ap (λ k. k channel) closes ∙ elim reason [
        | inl closed ↦ ground (arith, closed)
        | inr (current, busy) ↦ ground (arith, nat_beq_iff before.refresh_done channel, current)
      ]),
)

module _ (library : Library) where
  -- The one caller in a fetch ends it.
  landed-IsCoherent :
      (s : System) (i later confirmed_at : ℕ) (c : Caller) (cache : Cache)
      → is_fetching (s.callers i) ≡ true
      → is_fetching c ≡ false
      → IsServed library c
      → cache.refreshing ≡ false
      → ((cache.keys ≡ []) ⊎ IsAcceptedSet library.codecs cache.keys)
      → cache.expires_at ≤ confirmed_at + 60_000_000_000
      → confirmed_at ≤ later
      → cache.refresh_done ≡ s.cache.refresh_done
      → cache.channel_closed ≡ set_closed s.cache.refresh_done true s.cache.channel_closed
      → IsAwaited cache c
      → IsCoherent library s
      → IsCoherent library
          (set_caller i c (record s { cache = cache; clock = later; confirmed_at = confirmed_at }))
  unfolding set_caller
  landed-IsCoherent s i later confirmed_at c cache before after p free ks x up same closes w h =
      let alone : (j : ℕ) → is_fetching (if nat_beq i j then c else s.callers j) ≢ true =
        λ j a. ground (arith, a, h.single i j before, after, nat_beq_iff i j) in
      record {
        single = λ j k a b. absurd (alone j a);
        flagged = λ j a. absurd (alone j a);
        in_flight = λ r. absurd (ground (arith, r, free));
        cached = ks;
        expiry = x;
        confirmed = up;
        served = λ j. served_choice library (nat_beq i j) c (s.callers j) p (h.served j);
        awaited = λ j.
            IsAwaited-choice library cache (nat_beq i j) c (s.callers j) w
              (finish-IsAwaited s.cache cache (s.callers j) same closes (h.awaited j));
        running_open = λ r. absurd (ground (arith, r, free));
      }

  -- What is left behind when a fetch ends.
  record IsFinished (confirmed_at : ℕ) (outcome : Result (List PublicJwk)) (cache : Cache)
      : Type 0 where
    free : cache.refreshing ≡ false
    cached : (cache.keys ≡ []) ⊎ IsAcceptedSet library.codecs cache.keys
    expiry : cache.expires_at ≤ confirmed_at + 60_000_000_000
    served : IsServed library (answered outcome)

  served_if :
      (b : Bool) (keys : List PublicJwk) (failure : Failure)
      → (b ≡ true → IsAcceptedSet library.codecs keys)
      → IsServed library (answered (if b then ok keys else error failure))
  served_if true keys failure h = h refl
  served_if false keys failure h = tt

  settle_error-IsFinished :
      (force : Bool) (now later confirmed_at bound : ℕ) (failure : Failure) (cache : Cache)
      → confirmed_at ≤ bound
      → ((cache.keys ≡ []) ⊎ IsAcceptedSet library.codecs cache.keys)
      → cache.expires_at ≤ confirmed_at + 60_000_000_000
      → IsFinished bound
          (settle force now later (error failure) cache).0
          (settle force now later (error failure) cache).1
  unfolding settle
  settle_error-IsFinished force now later confirmed_at bound failure cache up ks x = record {
    free = refl;
    cached = ks;
    expiry = omega (arith, up, x);
    served =
        served_if (force && is_fresh later cache) cache.keys failure
          (λ g. elim ks [ inl empty ↦ absurd (ground (arith, g, empty)) | inr good ↦ good ]);
  }

  settle_ok-IsFinished :
      (force : Bool) (now later ttl : ℕ) (cache : Cache)
      → ttl ≤ 60_000_000_000
      → IsAcceptedSet library.codecs cache.keys
      → IsFinished now
          (settle force now later (ok ttl) cache).0
          (settle force now later (ok ttl) cache).1
  unfolding settle
  settle_ok-IsFinished force now later ttl cache b good = record {
    free = refl;
    cached = inr good;
    expiry = omega (arith, b);
    served = good;
  }

  -- The end of a fetch is the settlement of what it applied.
  finish-settle :
      (force : Bool) (now later bound : ℕ) (result : Result FetchResult) (cache : Cache)
      (applied : Result ℕ × Cache)
      → apply_result result cache ≡ applied
      → IsFinished bound
          (settle force now later applied.0 applied.1).0
          (settle force now later applied.0 applied.1).1
      → IsFinished bound
          (finish force now later result cache).0
          (finish force now later result cache).1
  unfolding finish
  finish-settle force now later bound result cache applied e h =
      subst
        (λ a.
          IsFinished bound (settle force now later a.0 a.1).0 (settle force now later a.0 a.1).1)
        (sym e) h

  finish-IsFinished :
      (force : Bool) (now later confirmed_at : ℕ) (etag : Text) (result : Result FetchResult)
      (cache : Cache)
      → ((r : FetchResult) → result ≡ ok r → IsConfirmed library etag r)
      → confirmed_at ≤ now
      → ((cache.keys ≡ []) ⊎ IsAcceptedSet library.codecs cache.keys)
      → cache.expires_at ≤ confirmed_at + 60_000_000_000
      → IsFinished
          (confirmation result now confirmed_at)
          (finish force now later result cache).0
          (finish force now later result cache).1
  unfolding apply_result
  finish-IsFinished force now later confirmed_at etag (error failure) cache c up ks x =
      finish-settle force now later confirmed_at (error failure) cache (error failure, cache) refl
        (settle_error-IsFinished force now later confirmed_at confirmed_at failure cache
          (omega arith) ks x)
  finish-IsFinished force now later confirmed_at etag (ok r) cache c up ks x =
      elim (Bool-cases r.not_modified) [
        | inr m ↦
            let changed = record cache { keys = r.keys; etag = r.etag } in
            finish-settle force now later now (ok r) cache (ok r.ttl, changed) (ground (arith, m))
              (settle_ok-IsFinished force now later r.ttl changed (c r refl).ttl_bounded
                ((c r refl).changed m))
        | inl m ↦ elim ks [
          | inl empty ↦
              finish-settle force now later now (ok r) cache
                (error not_modified_without_keys, cache) (ground (arith, m, empty))
                (settle_error-IsFinished force now later confirmed_at now not_modified_without_keys
                  cache up (inl empty) x)
          | inr good ↦
              finish-settle force now later now (ok r) cache (ok r.ttl, cache)
                (ground (arith, m, good.nonempty))
                (settle_ok-IsFinished force now later r.ttl cache (c r refl).ttl_bounded good)
        ]
      ]

  pub completed-IsCoherent :
      (s : System) (i later : ℕ) (force : Bool) (etag : Text) (response : Option Response)
      (result : Result FetchResult)
      → s.callers i ≡ fetching force etag
      → fetch library etag response ≡ some result
      → s.clock ≤ later
      → IsCoherent library s
      → IsCoherent library (completed i force later result s)
  unfolding completed
  completed-IsCoherent s i later force etag response result at f t h =
      let confirms : (r : FetchResult) → result ≡ ok r → IsConfirmed library etag r =
        λ r e. fetch-IsConfirmed library etag response r (f ∙ ap some e) in
      let p =
        finish-IsFinished force s.clock later s.confirmed_at etag result s.cache confirms
          h.confirmed h.cached h.expiry in
      let channel = finish_channel force s.clock later result s.cache in
      landed-IsCoherent s i later (confirmation result s.clock s.confirmed_at)
        (answered (finish force s.clock later result s.cache).0)
        (finish force s.clock later result s.cache).1 (ground (arith, at)) refl p.served p.free
        p.cached p.expiry (confirmation_bound result s.clock s.confirmed_at later h.confirmed t)
        channel.0 channel.1 tt h
