-- ===== src/Auth/Keys/Cache/Callers.antt =====
-- The callers of keyCache in internal/auth/key_cache.go as a step relation: `current` and
-- `refreshUnknownKID` called concurrently, the lock taken by one caller at a time.
use miakapp_server.Prelude.{
  ℕ, ◌≤◌, ◌≡◌, Bool, true, false, Option, none, some, List, nat_beq, if◌then◌else◌, nat_eq,
}
use miakapp_server.Auth.Keys.Errors.{Result, ok, error, cancelled}
use miakapp_server.Auth.Keys.Document.{PublicJwk}
use miakapp_server.Text.{Text}
use miakapp_server.Auth.Keys.Fetch.{Library, Response, FetchResult, fetch}
use miakapp_server.Auth.Keys.Cache.{
  Cache, new_key_cache, Decision, serve, refuse_load, wait, start_fetch, unknown_kid_answer, enter,
  finish,
}

-- Where a caller stands: before its call, before the lock in `load`, in a select on a channel, in
-- fetch, or back from its call.
pub data Caller : Type 0 where
  idle : Caller
  entering : (force : Bool) → Caller
  waiting : (channel : ℕ) → Caller
  fetching : (force : Bool) (etag : Text) → Caller
  answered : Result (List PublicJwk) → Caller

-- `confirmed_at` records the time of the last fetch that succeeded; the code has no such field.
pub record System : Type 0 where
  pub cache : Cache
  pub clock : ℕ
  pub confirmed_at : ℕ
  pub callers : ℕ → Caller

abbrev pub start : ℕ → System
start clock = record { cache = new_key_cache; clock = clock; confirmed_at = 0; callers = λ i. idle }

unfoldable pub set_caller : ℕ → Caller → System → System
set_caller i caller s = record s { callers = λ j. if nat_beq i j then caller else s.callers j }

-- What a caller goes on with after a decision.
abbrev pub follow : Bool → Decision → Caller
follow force (serve keys) = answered (ok keys)
follow force (refuse_load failure) = answered (error failure)
follow force (wait channel) = waiting channel
follow force (start_fetch etag) = fetching force etag

abbrev pub is_closed : ℕ → Cache → Bool
is_closed channel cache = cache.channel_closed channel

abbrev pub confirmation : {A : Type 0} → Result A → ℕ → ℕ → ℕ
confirmation (ok a) now before = now
confirmation (error e) now before = before

unfoldable pub entered : ℕ → Bool → System → System
entered i force s =
    let (decision, cache) = enter force s.clock s.cache in
    set_caller i (follow force decision) (record s { cache = cache })

unfoldable pub called_unknown : ℕ → System → System
called_unknown i s = elim (unknown_kid_answer s.clock s.cache) [
  | none ↦ set_caller i (entering true) s
  | some keys ↦ set_caller i (answered (ok keys)) s
]

unfoldable pub completed : ℕ → Bool → ℕ → Result FetchResult → System → System
completed i force later result s =
    let (outcome, cache) = finish force s.clock later result s.cache in
    set_caller i (answered outcome) (record s {
      cache = cache;
      clock = later;
      confirmed_at = confirmation result s.clock s.confirmed_at;
    })

-- One step of the clock or of one caller.
pub data Step (library : Library) : System → System → Type 0 where
  tick : (s : System) (later : ℕ) → s.clock ≤ later → Step library s (record s { clock = later })
  call :
      (s : System) (i : ℕ) → s.callers i ≡ idle → Step library s (set_caller i (entering false) s)
  call_unknown : (s : System) (i : ℕ) → s.callers i ≡ idle → Step library s (called_unknown i s)
  lock :
      (s : System) (i : ℕ) (force : Bool)
      → s.callers i ≡ entering force
      → Step library s (entered i force s)
  wake :
      (s : System) (i channel : ℕ)
      → s.callers i ≡ waiting channel
      → is_closed channel s.cache ≡ true
      → Step library s (set_caller i (entering false) s)
  cancel :
      (s : System) (i channel : ℕ)
      → s.callers i ≡ waiting channel
      → Step library s (set_caller i (answered (error cancelled)) s)
  complete :
      (s : System) (i : ℕ) (force : Bool) (etag : Text) (response : Option Response) (later : ℕ)
      (result : Result FetchResult)
      → s.callers i ≡ fetching force etag
      → fetch library etag response ≡ some result
      → s.clock ≤ later
      → Step library s (completed i force later result s)

-- The systems that a start at `clock` leads to.
pub data Reach (library : Library) (clock : ℕ) : System → Type 0 where
  started : Reach library clock (start clock)
  next : (s t : System) → Reach library clock s → Step library s t → Reach library clock t
