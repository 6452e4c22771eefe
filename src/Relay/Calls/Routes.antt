-- ===== src/Relay/Calls/Routes.antt =====
-- What a route's table guarantees: internal/relay/calls.go.
use miakapp_server.Relay.Calls.{allocate_call_id, next_call_number}
use miakapp_server.Prelude.{
  ℕ, zero, suc, ◌+◌, ◌-◌, ◌≤◌, ◌<◌, ◌≡◌, subst, ◌≢◌, inl, inr, true, false, none, some, [], ◌∷◌,
  arith, ltb, if◌then◌else◌, nat_beq_iff, Option-cases, nat_eq, length,
}
use miakapp_server.GoMap.{Map, lookup, erase, contains, lookup-erase, length-erase}
use miakapp_server.Auth.Identity.{max_safe_integer}

-- A key that is there goes.
length-erase_lt : (k : ℕ) (m : Map ℕ ℕ) → contains k m ≡ true → length (erase k m) + 1 ≤ length m
unfolding lookup erase
length-erase_lt k [] h = absurd (ground (arith, h))
length-erase_lt k ((j, v) ∷ m) h = ground (arith, length-erase_lt k m, length-erase k m)

contains-erase :
    (k j : ℕ) (m : Map ℕ ℕ) → k ≢ j → contains j m ≡ true → contains j (erase k m) ≡ true
contains-erase k j m n h = ground (arith, lookup-erase k j m, nat_beq_iff k j)

-- The identifier that the counter reaches in `k` more steps.
reached : ℕ → ℕ → ℕ
reached n k = if ltb max_safe_integer (n + k + 1) then n + k + 1 - max_safe_integer else n + k + 1

-- Distinct identifiers that are all in a table are at most as many as its entries.
pigeonhole :
    (n k : ℕ) (calls : Map ℕ ℕ)
    → n ≤ max_safe_integer
    → k ≤ max_safe_integer
    → ((i : ℕ) → i < k → contains (reached n i) calls ≡ true)
    → k ≤ length calls
unfolding reached
pigeonhole n zero calls b c h = omega arith
pigeonhole n (suc k) calls b c h =
    let last = h k (omega arith) in
    let rest = pigeonhole n k (erase (reached n k) calls) b (omega arith) (λ i i_lt.
      contains-erase (reached n k) (reached n i) calls (ground arith) (h i (omega arith))) in
    ground (arith, length-erase_lt (reached n k) calls last, rest)

reached-zero : (n : ℕ) → n ≤ max_safe_integer → reached n 0 ≡ next_call_number n
unfolding reached
reached-zero n b = ground arith

reached-suc :
    (n i : ℕ)
    → n ≤ max_safe_integer
    → i + 1 < max_safe_integer
    → reached (next_call_number n) i ≡ reached n (suc i)
unfolding reached
reached-suc n i b c = ground arith

-- A search that fails has met only identifiers that are in flight.
exhausted :
    (fuel : ℕ) (calls : Map ℕ ℕ) (n : ℕ)
    → n ≤ max_safe_integer
    → fuel ≤ max_safe_integer
    → allocate_call_id fuel calls n ≡ none
    → (i : ℕ) → i < fuel
    → contains (reached n i) calls ≡ true
unfolding allocate_call_id
exhausted zero calls n b c h i i_lt = absurd (omega arith)
exhausted (suc fuel) calls n b c h zero i_lt = rw (reached-zero n b) (ground arith)
exhausted (suc fuel) calls n b c h (suc i) i_lt =
    subst (λ x. contains x calls ≡ true) (reached-suc n i b (omega arith))
      (exhausted fuel calls (next_call_number n) (ground arith) (omega arith) (ground arith) i
        (omega arith))

allocated :
    (fuel : ℕ) (calls : Map ℕ ℕ) (n id : ℕ)
    → n ≤ max_safe_integer
    → allocate_call_id fuel calls n ≡ some id
    → (contains id calls ≡ false) × (1 ≤ id) × (id ≤ max_safe_integer)
unfolding allocate_call_id
allocated zero calls n id b h = absurd (ground arith)
allocated (suc fuel) calls n id b h = ground (arith, allocated fuel calls (next_call_number n) id)

-- An identifier for a callee's call is always found: with one more round than the callee has calls
-- in flight the search ends, with an identifier from 1 to the largest safe integer that no call in
-- flight has, provided that fewer calls than that are in flight.
pub allocate_call_id-IsFree :
    (calls : Map ℕ ℕ) (n : ℕ)
    → n ≤ max_safe_integer
    → length calls < max_safe_integer
    → (id : ℕ) × (allocate_call_id (length calls + 1) calls n ≡ some id)
      × (contains id calls ≡ false)
      × (1 ≤ id)
      × (id ≤ max_safe_integer)
allocate_call_id-IsFree calls n b c =
    elim (Option-cases (allocate_call_id (length calls + 1) calls n)) [
      | inl e ↦ absurd (
          ground (
            arith,
            pigeonhole n (length calls + 1) calls b (omega arith)
                (exhausted (length calls + 1) calls n b (omega arith) e),
          ))
      | inr (id, e) ↦
          let free = allocated (length calls + 1) calls n id b e in (id, e, free.0, free.1, free.2)
    ]
