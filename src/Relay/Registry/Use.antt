-- ===== src/Relay/Registry/Use.antt =====
-- Homes in use, over the calls on the registry of internal/relay/home.go.
use miakapp_server.Prelude.{
  ℕ, ◌+◌, ◌≡◌, subst, inl, inr, true, false, not, ◌&&◌, Option, none, some, arith, leb,
  if◌then◌else◌, Bool-cases, Option-cases, nat_eq, length,
}
use miakapp_server.Text.{Text, text_beq, text_eq, text_beq_iff}
use miakapp_server.GoMap.{lookup, lookup-insert, lookup-erase}
use miakapp_server.Config.{Config}
use miakapp_server.Relay.World.{update}
use miakapp_server.Relay.Registry.{
  registry_closed, add_home, Cell, Registry, acquired_home, reference, register, acquire, in_use,
  is_registered, delete_if_unused, release, close_registry,
}
use miakapp_server.Relay.Registry.Homes.{Call, acquiring, releasing, deleting, changing, closing}

registered_lookup :
    (r : Registry) (p : ℕ) → is_registered r p ≡ true → lookup (r.cells p).home.id r.homes ≡ some p
registered_lookup r p h = elim (Option-cases (lookup (r.cells p).home.id r.homes)) [
  | inl e ↦ absurd (ground (arith, e, h))
  | inr (q, e) ↦ ground (arith, e, h)
]

delete_if_unused_keeps :
    (r : Registry) (p q : ℕ) (id : Text)
    → lookup id r.homes ≡ some q
    → in_use ((delete_if_unused r p).cells q) ≡ true
    → lookup id (delete_if_unused r p).homes ≡ some q
unfolding delete_if_unused
delete_if_unused_keeps r p q id e u =
    elim (Bool-cases (is_registered r p && not (in_use (r.cells p)))) [
      | inr n ↦ ground (arith, n, e)
      | inl d ↦
          let registered : is_registered r p ≡ true = ground (arith, d) in
          let unused : in_use (r.cells p) ≡ false = ground (arith, d) in
          let own = registered_lookup r p registered in
          elim (Bool-cases (text_beq (r.cells p).home.id id)) [
            | inr m ↦ ground (arith, d, m, e, lookup-erase (r.cells p).home.id id r.homes)
            | inl m ↦
                let same : (r.cells p).home.id ≡ id = (text_beq_iff (r.cells p).home.id id).0 m in
                let found : lookup id r.homes ≡ some p =
                  subst (λ k. lookup k r.homes ≡ some p) same own in
                let equal : p ≡ q = ground (arith, found, e) in
                let used : in_use (r.cells q) ≡ true = ground (arith, d, u) in
                absurd (ground (arith, used, subst (λ k. in_use (r.cells k) ≡ false) equal unused))
          ]
    ]

acquire_keeps :
    (config : Config) (r : Registry) (q : ℕ) (id other : Text) (epoch : Option Text)
    → lookup id r.homes ≡ some q
    → lookup id (acquire config r other epoch).0.homes ≡ some q
unfolding acquire register reference add_home
acquire_keeps config r q id other epoch e = elim (Option-cases (lookup other r.homes)) [
  | inr (p, f) ↦ ground (arith, f, e, Bool-cases r.closed)
  | inl f ↦ elim (Bool-cases (text_beq other id)) [
    | inl m ↦
        let same : other ≡ id = (text_beq_iff other id).0 m in
        absurd (ground (arith, e, subst (λ k. lookup k r.homes ≡ none) same f))
    | inr m ↦ ground (
      arith,
      f,
      m,
      e,
      lookup-insert other id r.next_home r.homes,
      Bool-cases r.closed,
      Bool-cases (leb config.max_homes (length r.homes)),
      Option-cases epoch,
    )
  ]
]

step_keeps :
    (config : Config) (r t : Registry) (q : ℕ) (id : Text)
    → Call config r t
    → lookup id r.homes ≡ some q
    → in_use (t.cells q) ≡ true
    → lookup id t.homes ≡ some q
unfolding release close_registry
step_keeps config r t q id (acquiring _ other epoch) e u = acquire_keeps config r q id other epoch e
step_keeps config r t q id (releasing _ p) e u =
    let cell = r.cells p in
    let counted : Cell = record cell { released = cell.released + 1 } in
    delete_if_unused_keeps (record r { cells = update r.cells p counted }) p q id e u
step_keeps config r t q id (deleting _ p) e u = delete_if_unused_keeps r p q id e u
step_keeps config r t q id (changing _ p home same) e u = e
step_keeps config r t q id (closing _) e u = ground (arith, e, Bool-cases r.closed)

-- While the home of an identifier is referenced or not empty, every acquisition of the identifier
-- gets that very home, whatever call on the registry comes before; only a closed registry refuses.
pub acquire_same :
    (config : Config) (r t : Registry) (q : ℕ) (id : Text) (epoch : Option Text)
    → Call config r t
    → lookup id r.homes ≡ some q
    → in_use (t.cells q) ≡ true
    → (acquire config t id epoch).1 ≡ (if t.closed then registry_closed else acquired_home q)
unfolding acquire
acquire_same config r t q id epoch step e u =
    ground (arith, step_keeps config r t q id step e u, Bool-cases t.closed)
