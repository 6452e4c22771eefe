-- ===== src/Relay/Patterns/Meaning.antt =====
-- What a pattern matches (internal/relay/declarations.go).
use mathlib.Core.List.{append_assoc}
use miakapp_server.Relay.Patterns.{pattern_matches}
use miakapp_server.Prelude.{
  ◌∙◌, sym, subst, ap, ◌↔◌, ◌⊎◌, false, ℕ, ◌≡◌, refl, inl, inr, true, [], ◌∷◌, ◌++◌, arith,
  Bool-cases, nat_eq,
}
use miakapp_server.Text.{
  text_beq→eq, codes, Text, has_prefix, has_suffix, trim_suffix, text_beq, text_beq_iff,
  text_beq_refl,
}

-- `name` goes on after `prefix`.
abbrev pub Extends : Text → Text → Type 0
Extends prefix name = (rest : Text) × (name ≡ prefix ++ rest)

has_prefix→Extends : (s p : Text) → has_prefix s p ≡ true → Extends p s
unfolding has_prefix
has_prefix→Extends s [] h = (s, refl)
has_prefix→Extends [] (p ∷ ps) h = absurd (ground arith)
has_prefix→Extends (x ∷ xs) (p ∷ ps) h =
    let (rest, e) = has_prefix→Extends xs ps (ground arith) in (rest, ground arith)

has_prefix-append : (p rest : Text) → has_prefix (p ++ rest) p ≡ true
unfolding has_prefix
has_prefix-append [] rest = refl
has_prefix-append (x ∷ p) rest = ground (arith, has_prefix-append p rest)

has_suffix-append : (p suffix : Text) → has_suffix (p ++ suffix) suffix ≡ true
unfolding has_suffix
has_suffix-append [] [] = unfold text_beq in refl
has_suffix-append [] (x ∷ suffix) = ground (arith, text_beq_refl (x ∷ suffix))
has_suffix-append (x ∷ p) suffix = ground (arith, has_suffix-append p suffix)

-- A suffix that is found is there.
has_suffix→append : (s suffix : Text) → has_suffix s suffix ≡ true → (p : Text) × (s ≡ p ++ suffix)
unfolding has_suffix
has_suffix→append [] suffix h = ([], ground (arith, text_beq_iff [] suffix))
has_suffix→append (x ∷ xs) suffix h = elim (Bool-cases (text_beq (x ∷ xs) suffix)) [
  | inl e ↦ ([], ground (arith, text_beq_iff (x ∷ xs) suffix))
  | inr e ↦ let (p, q) = has_suffix→append xs suffix (ground arith) in (x ∷ p, ground arith)
]

-- A text one byte long ends a text only at its last byte.
trim-star : (p : Text) (c : ℕ) → trim_suffix (p ++ c ∷ []) (c ∷ []) ≡ p
unfolding trim_suffix text_beq
trim-star [] c = ground arith
trim-star (x ∷ []) c = ground arith
trim-star (x ∷ y ∷ p) c = ground (arith, trim-star (y ∷ p) c)

abbrev pub star : Text
star = codes ".*"

abbrev pub dot : Text
dot = codes "."

trim-wildcard : (p : Text) → trim_suffix (p ++ star) (codes "*") ≡ p ++ dot
trim-wildcard p =
    ap (λ q. trim_suffix q (codes "*")) (sym (append_assoc p dot (codes "*")))
    ∙ trim-star (p ++ dot) b'*'

-- What a pattern means: a prefix that ends in a dot, or one exact name.
abbrev pub Means : Text → Text → Type 0
Means pattern name =
    ((p : Text) × (pattern ≡ p ++ star) × Extends (p ++ dot) name)
    ⊎ ((((p : Text) × (pattern ≡ p ++ star)) → ⊥) × (pattern ≡ name))

wildcard_means : (p name : Text) → pattern_matches (p ++ star) name ≡ true → Extends (p ++ dot) name
unfolding pattern_matches
wildcard_means p name h =
    has_prefix→Extends name (p ++ dot) (ground (arith, has_suffix-append p star, trim-wildcard p))

means_wildcard : (p rest : Text) → pattern_matches (p ++ star) ((p ++ dot) ++ rest) ≡ true
unfolding pattern_matches
means_wildcard p rest =
    ground (arith, has_suffix-append p star, trim-wildcard p, has_prefix-append (p ++ dot) rest)

exact_means :
    (pattern name : Text)
    → has_suffix pattern star ≡ false
    → pattern_matches pattern name ≡ text_beq pattern name
unfolding pattern_matches
exact_means pattern name e = rw e refl

no_suffix :
    (pattern : Text) → has_suffix pattern star ≡ false → ((p : Text) × (pattern ≡ p ++ star)) → ⊥
no_suffix pattern e (p, q) = ground (arith, has_suffix-append p star)

-- The test of the relay is the meaning of the pattern: `a.*` stands for the names that begin with
-- `a.`, and every other pattern for itself.
pub pattern_matches_iff :
    (pattern name : Text) → (pattern_matches pattern name ≡ true) ↔ Means pattern name
pattern_matches_iff pattern name = (forward, backward)
  where
    forward : pattern_matches pattern name ≡ true → Means pattern name
    forward h = elim (Bool-cases (has_suffix pattern star)) [
      | inl e ↦
          let (p, q) = has_suffix→append pattern star e in
          inl (p, q, wildcard_means p name (subst (λ t. pattern_matches t name ≡ true) q h))
      | inr e ↦
          inr (no_suffix pattern e, text_beq→eq pattern name (sym (exact_means pattern name e) ∙ h))
    ]

    backward : Means pattern name → pattern_matches pattern name ≡ true
    backward (inl (p, q, (rest, e))) = rw (q, e) (means_wildcard p rest)
    backward (inr (none_there, e)) = elim (Bool-cases (has_suffix pattern star)) [
      | inl found ↦ absurd (none_there (has_suffix→append pattern star found))
      | inr missing ↦ exact_means pattern name missing ∙ (text_beq_iff pattern name).1 e
    ]
