-- ===== src/Relay/Registry.antt =====
-- homeRegistry of internal/relay/home.go: the homes of a process, counted by their references. A
-- pointer to a home is a number, and the heap is a total function. `references` is a Go int, and is
-- kept as the numbers of acquisitions and of releases, whose difference it is.
pub mod Homes
pub mod Use
use miakapp_server.Prelude.{
  ℕ, zero, suc, ◌+◌, ◌-◌, ◌*◌, ◌/◌, ◌≤◌, ◌<◌, ◌≡◌, refl, sym, ap, subst, ◌∙◌, ◌≢◌, ◌↔◌, ◌⊎◌, inl,
  inr, Bool, true, false, not, ◌&&◌, ◌||◌, Option, none, some, List, [], ◌∷◌, ◌++◌, map, arith, ltb,
  leb, nat_beq, if◌then◌else◌, nat_beq_iff, Bool-cases, Option-cases, Eq, ◌==◌, ◌!=◌, nat_eq,
  length, any, all, All, length-append, String,
}
use miakapp_server.Text.{Text, text_eq}
use miakapp_server.GoMap.{Map, lookup, insert, erase, keys}
use miakapp_server.Config.{Config}
use miakapp_server.Relay.World.{Home, new_home, update}

pub record Cell : Type 0 where
  pub home : Home
  pub acquired : ℕ
  pub released : ℕ

pub record Registry : Type 0 where
  pub homes : Map Text ℕ
  pub cells : ℕ → Cell
  pub next_home : ℕ
  pub closed : Bool

pub data Acquired : Type 0 where
  acquired_home : ℕ → Acquired
  registry_closed home_capacity no_epoch : Acquired

-- home.empty
abbrev pub is_empty : Home → Bool
is_empty home = nat_beq (length home.connections) 0 && nat_beq (length home.coordinators) 0

-- `current.references++` and the result
unfoldable pub reference : Registry → ℕ → Registry
reference registry p =
    let cell = registry.cells p in
    record registry {
      cells = update registry.cells p (record cell { acquired = cell.acquired + 1 });
    }

-- `registry.homes[homeID] = current` for a new home.
unfoldable pub add_home : Registry → Text → Text → Registry
add_home registry id epoch =
    let p = registry.next_home in
    let cell : Cell = record { home = new_home id epoch; acquired = 0; released = 0 } in
    record registry {
      homes = insert id p registry.homes;
      cells = update registry.cells p cell;
      next_home = suc p;
    }

-- A home that is not registered yet; `epoch` is what crypto/rand returns, `none` for an error.
unfoldable pub register : Config → Registry → Text → Option Text → Registry × Acquired
register config registry id epoch =
    if leb config.max_homes (length registry.homes) then (registry, home_capacity) else elim epoch [
      | none ↦ (registry, no_epoch)
      | some e ↦
          (reference (add_home registry id e) registry.next_home, acquired_home registry.next_home)
    ]

unfoldable pub acquire : Config → Registry → Text → Option Text → Registry × Acquired
acquire config registry id epoch =
    if registry.closed then (registry, registry_closed) else elim (lookup id registry.homes) [
      | none ↦ register config registry id epoch
      | some p ↦ (reference registry p, acquired_home p)
    ]

abbrev pub is_registered : Registry → ℕ → Bool
is_registered registry p = elim (lookup (registry.cells p).home.id registry.homes) [
  | none ↦ false
  | some q ↦ nat_beq q p
]

-- Not `references == 0 && empty()`
abbrev pub in_use : Cell → Bool
in_use cell = not (nat_beq cell.acquired cell.released && is_empty cell.home)

-- deleteIfUnused and deleteIfUnusedLocked
unfoldable pub delete_if_unused : Registry → ℕ → Registry
delete_if_unused registry p =
    if is_registered registry p && not (in_use (registry.cells p))
    then record registry { homes = erase (registry.cells p).home.id registry.homes }
    else registry

unfoldable pub release : Registry → ℕ → Registry
release registry p =
    let cell = registry.cells p in
    delete_if_unused
      (record registry {
        cells = update registry.cells p (record cell { released = cell.released + 1 });
      })
      p

-- close: the homes to close, if it is the first call.
unfoldable pub close_registry : Registry → Registry × List ℕ
close_registry registry =
    if registry.closed
    then (registry, [])
    else (record registry { closed = true }, map (λ e. e.1) registry.homes)
