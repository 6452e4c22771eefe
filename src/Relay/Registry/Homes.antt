-- ===== src/Relay/Registry/Homes.antt =====
-- The invariant of the registry of internal/relay/home.go, over the calls on it.
use miakapp_server.Prelude.{
  ℕ, ◌+◌, ◌≤◌, ◌<◌, ◌≡◌, refl, sym, subst, inl, inr, Bool, true, false, not, ◌&&◌, Option, some,
  arith, leb, if◌then◌else◌, nat_beq_iff, Bool-cases, Option-cases, nat_eq, length,
}
use miakapp_server.Text.{Text, text_eq, text_beq_iff}
use miakapp_server.GoMap.{lookup, erase, lookup-insert, lookup-erase, length-insert, length-erase}
use miakapp_server.Config.{Config}
use miakapp_server.Relay.World.{Home, new_home, update}
use miakapp_server.Relay.Registry.{
  add_home, Cell, Registry, reference, register, acquire, in_use, is_registered, delete_if_unused,
  release, close_registry,
}

-- One call on the registry, or a change of one home by the connections that hold it.
pub data Call (config : Config) : Registry → Registry → Type 0 where
  acquiring :
      (r : Registry) (id : Text) (epoch : Option Text) → Call config r (acquire config r id epoch).0
  releasing : (r : Registry) (p : ℕ) → Call config r (release r p)
  deleting : (r : Registry) (p : ℕ) → Call config r (delete_if_unused r p)
  changing :
      (r : Registry) (p : ℕ) (home : Home)
      → home.id ≡ (r.cells p).home.id
      → Call config r (record r { cells = update r.cells p (record (r.cells p) { home = home }) })
  closing : (r : Registry) → Call config r (close_registry r).0

-- The registered homes have their own identifiers, they have been allocated, and they are not too
-- many.
pub record IsRegistry (config : Config) (r : Registry) : Type 0 where
  pub named : (id : Text) (p : ℕ) → lookup id r.homes ≡ some p → (r.cells p).home.id ≡ id
  pub allocated : (id : Text) (p : ℕ) → lookup id r.homes ≡ some p → p < r.next_home
  pub capped : length r.homes ≤ config.max_homes

module _ (config : Config) where
  registry_choice :
      (b : Bool) (x y : Registry)
      → IsRegistry config x
      → IsRegistry config y
      → IsRegistry config (if b then x else y)
  registry_choice true x y p q = p
  registry_choice false x y p q = q

  reference-IsRegistry :
      (r : Registry) (p : ℕ) → IsRegistry config r → IsRegistry config (reference r p)
  unfolding reference
  reference-IsRegistry r p h = record {
    named = λ id q e. ground (arith, h.named id q e, nat_beq_iff p q);
    allocated = h.allocated;
    capped = h.capped;
  }

  erase-IsRegistry :
      (r : Registry) (id : Text)
      → IsRegistry config r
      → IsRegistry config (record r { homes = erase id r.homes })
  erase-IsRegistry r id h = record {
    named = λ j q e. h.named j q (ground (arith, e, lookup-erase id j r.homes));
    allocated = λ j q e. h.allocated j q (ground (arith, e, lookup-erase id j r.homes));
    capped = omega (arith, h.capped, length-erase id r.homes);
  }

  delete_if_unused-IsRegistry :
      (r : Registry) (p : ℕ) → IsRegistry config r → IsRegistry config (delete_if_unused r p)
  unfolding delete_if_unused
  delete_if_unused-IsRegistry r p h =
      registry_choice (is_registered r p && not (in_use (r.cells p))) _ r
        (erase-IsRegistry r (r.cells p).home.id h) h

  change-IsRegistry :
      (r : Registry) (p : ℕ) (cell : Cell)
      → cell.home.id ≡ (r.cells p).home.id
      → IsRegistry config r
      → IsRegistry config (record r { cells = update r.cells p cell })
  change-IsRegistry r p cell same h = record {
    named = λ id q e. ground (arith, h.named id q e, nat_beq_iff p q, same);
    allocated = h.allocated;
    capped = h.capped;
  }

  add_home-IsRegistry :
      (r : Registry) (id epoch : Text)
      → length r.homes < config.max_homes
      → IsRegistry config r
      → IsRegistry config (add_home r id epoch)
  unfolding add_home new_home
  add_home-IsRegistry r id epoch room h = record {
    named = λ j q e. ground (
      arith,
      e,
      lookup-insert id j r.next_home r.homes,
      h.named j q,
      h.allocated j q,
      text_beq_iff id j,
      nat_beq_iff r.next_home q,
    );
    allocated = λ j q e. ground (arith, e, lookup-insert id j r.next_home r.homes, h.allocated j q);
    capped = omega (arith, room, length-insert id r.next_home r.homes);
  }

  kept : {r : Registry} (t : Registry) → r ≡ t → IsRegistry config t → IsRegistry config r
  kept t e h = subst (IsRegistry config) (sym e) h

  acquire-IsRegistry :
      (r : Registry) (id : Text) (epoch : Option Text)
      → IsRegistry config r
      → IsRegistry config (acquire config r id epoch).0
  unfolding acquire register
  acquire-IsRegistry r id epoch h = elim (Bool-cases r.closed) [
    | inl c ↦ kept r (ground (arith, c)) h
    | inr c ↦ elim (Option-cases (lookup id r.homes)) [
      | inr (p, e) ↦ kept (reference r p) (ground (arith, c, e)) (reference-IsRegistry r p h)
      | inl e ↦ elim (Bool-cases (leb config.max_homes (length r.homes))) [
        | inl full ↦ kept r (ground (arith, c, e, full)) h
        | inr room ↦ elim (Option-cases epoch) [
          | inl n ↦ kept r (ground (arith, c, e, room, n)) h
          | inr (text, n) ↦
              kept (reference (add_home r id text) r.next_home) (ground (arith, c, e, room, n)) (
                reference-IsRegistry (add_home r id text) r.next_home
                  (add_home-IsRegistry r id text (ground (arith, room)) h))
        ]
      ]
    ]
  ]

  -- The calls on a registry keep its homes under their own identifiers and within the limit.
  pub step-IsRegistry :
      (r t : Registry) → Call config r t → IsRegistry config r → IsRegistry config t
  unfolding release close_registry reference
  step-IsRegistry r t (acquiring _ id epoch) h = acquire-IsRegistry r id epoch h
  step-IsRegistry r t (releasing _ p) h =
      let cell = r.cells p in
      let counted : Cell = record cell { released = cell.released + 1 } in
      delete_if_unused-IsRegistry (record r { cells = update r.cells p counted }) p
        (change-IsRegistry r p counted refl h)
  step-IsRegistry r t (deleting _ p) h = delete_if_unused-IsRegistry r p h
  step-IsRegistry r t (changing _ p home same) h =
      change-IsRegistry r p (record (r.cells p) { home = home }) same h
  step-IsRegistry r t (closing _) h = elim (Bool-cases r.closed) [
    | inl c ↦ kept r (ground (arith, c)) h
    | inr c ↦
        kept (record r { closed = true }) (ground (arith, c))
          (record { named = h.named; allocated = h.allocated; capped = h.capped })
  ]
