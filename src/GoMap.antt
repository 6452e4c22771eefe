-- ===== src/GoMap.antt =====
-- Go's built-in maps and sets, as association lists. The order of the entries stands for the
-- order in which Go happens to iterate; a lookup never depends on it.
use miakapp_server.Prelude.{
  suc, ◌≤◌, ◌≡◌, refl, Bool, true, false, ◌&&◌, Option, none, some, List, [], ◌∷◌, map, arith,
  if◌then◌else◌, length, Eq, ◌==◌, nat_beq,
}

abbrev pub Map : Type 0 → Type 0 → Type 0
Map K V = List (K × V)

-- map[K]struct{}
abbrev pub Set : Type 0 → Type 0
Set K = Map K (Unit {0})

abbrev pub or_else {ℓ} : {A : Type ℓ} → Option A → A → A
or_else none d = d
or_else (some a) d = a

abbrev pub is_some {ℓ} : {A : Type ℓ} → Option A → Bool
is_some none = false
is_some (some a) = true

abbrev pub keys : {K V : Type 0} → Map K V → List K
keys = map (λ e. e.0)

module _ {K V : Type 0} ⦃e : Eq K⦄ where
  unfoldable pub lookup : K → Map K V → Option V
  lookup k [] = none
  lookup k ((i, old) ∷ m) = if i == k then some old else lookup k m

  -- m[k] = v
  unfoldable pub insert : K → V → Map K V → Map K V
  insert k v [] = (k, v) ∷ []
  insert k v ((i, old) ∷ m) = if i == k then (k, v) ∷ m else (i, old) ∷ insert k v m

  -- delete(m, k)
  unfoldable pub erase : K → Map K V → Map K V
  erase k [] = []
  erase k ((j, v) ∷ m) = if j == k then erase k m else (j, v) ∷ erase k m

  -- m[k] with the zero value `d` of its type
  abbrev pub get_or : K → V → Map K V → V
  get_or k d m = or_else (lookup k m) d

  -- _, found := m[k]
  abbrev pub contains : K → Map K V → Bool
  contains k m = is_some (lookup k m)

  pub lookup-insert :
      (k read : K) (v : V) (m : Map K V)
      → lookup read (insert k v m) ≡ (if k == read then some v else lookup read m)
  unfolding lookup insert
  lookup-insert k read v [] = refl
  lookup-insert k read v ((i, old) ∷ m) =
      ground (arith, e.beq_iff i read, e.beq_iff k read, e.beq_iff i k, lookup-insert k read v m)

  pub lookup-erase :
      (k j : K) (m : Map K V) → lookup j (erase k m) ≡ (if k == j then none else lookup j m)
  unfolding lookup erase
  lookup-erase k j [] = ground arith
  lookup-erase k j ((i, w) ∷ m) =
      ground (arith, e.beq_iff k j, e.beq_iff i k, e.beq_iff i j, lookup-erase k j m)

  pub length-insert : (k : K) (v : V) (m : Map K V) → length (insert k v m) ≤ suc (length m)
  unfolding insert
  length-insert k v [] = omega arith
  length-insert k v ((j, w) ∷ m) = ground (arith, length-insert k v m)

  pub length-erase : (k : K) (m : Map K V) → length (erase k m) ≤ length m
  unfolding erase
  length-erase k [] = omega arith
  length-erase k ((j, w) ∷ m) = ground (arith, length-erase k m)

-- Reads through a default, in the form in which the code uses them.
module _ {K V : Type 0} ⦃e : Eq K⦄ (k : K) (v : V) (m : Map K V) where
  pub lookup-insert_self : lookup k (insert k v m) ≡ some v
  lookup-insert_self = ground (arith, lookup-insert k k v m, e.beq_iff k k)

-- No key has two entries.
abbrev pub Distinct : {K V : Type 0} ⦃e : Eq K⦄ → Map K V → Type 0
Distinct [] = Unit {0}
Distinct ((k, v) ∷ m) = (lookup k m ≡ none) × Distinct m

module _ {K V : Type 0} ⦃e : Eq K⦄ where
  pub insert-Distinct : (k : K) (v : V) (m : Map K V) → Distinct m → Distinct (insert k v m)
  unfolding insert lookup
  insert-Distinct k v [] d = (refl, tt)
  insert-Distinct k v ((j, w) ∷ m) d =
      ground (arith, e.beq_iff j k, e.beq_iff k j, lookup-insert k j v m, insert-Distinct k v m d.1)

  pub erase-Distinct : (k : K) (m : Map K V) → Distinct m → Distinct (erase k m)
  unfolding erase
  erase-Distinct k [] d = tt
  erase-Distinct k ((j, w) ∷ m) d = ground (arith, lookup-erase k j m, erase-Distinct k m d.1)

  -- A key that is not there has nothing to erase.
  pub erase_absent : (k : K) (m : Map K V) → lookup k m ≡ none → erase k m ≡ m
  unfolding erase lookup
  erase_absent k [] h = refl
  erase_absent k ((j, w) ∷ m) h = ground (arith, erase_absent k m)

  -- The entry that a key names is replaced, or a new one is added.
  pub length-insert_eq :
      (k : K) (v : V) (m : Map K V)
      → length (insert k v m) ≡ (if contains k m then length m else suc (length m))
  unfolding insert lookup
  length-insert_eq k v [] = refl
  length-insert_eq k v ((j, w) ∷ m) = ground (arith, length-insert_eq k v m)

-- Every entry of `m` is in `n`, with a value that `eq` accepts.
unfoldable pub map_within : {K V : Type 0} ⦃e : Eq K⦄ → (V → V → Bool) → Map K V → Map K V → Bool
map_within eq [] n = true
map_within eq ((k, v) ∷ m) n =
    elim (lookup k n) [ none ↦ false | some w ↦ eq v w ] && map_within eq m n

-- reflect.DeepEqual of two maps whose values are compared by `eq`.
unfoldable pub map_equal : {K V : Type 0} ⦃e : Eq K⦄ → (V → V → Bool) → Map K V → Map K V → Bool
unfolding map_within
map_equal eq m n = nat_beq (length m) (length n) && map_within eq m n
