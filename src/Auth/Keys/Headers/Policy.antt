-- ===== src/Auth/Keys/Headers/Policy.antt =====
-- What a response that responseCacheTTL accepts states.
use miakapp_server.Prelude.{
  sym, ◌-◌, ◌<◌, ℕ, ◌*◌, ◌≡◌, ap, ◌∙◌, inl, inr, true, some, [], arith, Bool-cases, Option-cases,
  nat_eq, length,
}
use miakapp_server.Text.{Text, codes, text_eq, text_beq_iff}
use miakapp_server.GoMap.{Map, lookup, contains, get_or}
use miakapp_server.Auth.Keys.Errors.{Result-cases, ok}
use miakapp_server.GoStrings.{nonnegative, negative, parse_int}
use miakapp_server.Auth.Keys.Headers.{
  Strings, Header, response_cache_ttl, remaining_seconds, read_lines, matches_policy,
  positive_max_age, read_age,
}

-- The required policy and nothing beside it.
pub record IsRequiredPolicy (directives : Map Text Text) : Type 0 where
  pub max_age :
      (text : Text) × (lookup (codes "max-age") directives ≡ some text)
      × (parse_int text ≡ some (nonnegative 60))
  pub public : lookup (codes "public") directives ≡ some []
  pub must_revalidate : lookup (codes "must-revalidate") directives ≡ some []
  pub nothing_else : length directives ≡ 3

positive_max_age_text :
    (directives : Map Text Text) (n : ℕ)
    → positive_max_age directives ≡ some n
    → (text : Text) × (lookup (codes "max-age") directives ≡ some text)
      × (parse_int text ≡ some (nonnegative n))
unfolding positive_max_age
positive_max_age_text directives n h = elim (Option-cases (lookup (codes "max-age") directives)) [
  | inl e ↦ absurd (ground (arith, e))
  | inr (text, e) ↦ elim (Option-cases (parse_int text)) [
    | inl f ↦ absurd (ground (arith, e, f))
    | inr (nonnegative m, f) ↦ (text, e, ground (arith, e, f))
    | inr (negative m, f) ↦ absurd (ground (arith, e, f))
  ]
]

empty_value-lookup :
    (name : Text) (directives : Map Text Text)
    → contains name directives ≡ true
    → get_or name [] directives ≡ []
    → lookup name directives ≡ some []
empty_value-lookup name directives c g = elim (Option-cases (lookup name directives)) [
  | inl e ↦ absurd (ground (arith, e))
  | inr (value, e) ↦ ground (arith, e)
]

matches_policy_parts :
    (directives : Map Text Text) (n : ℕ)
    → matches_policy directives n ≡ true
    → (n ≡ 60)
      × (lookup (codes "public") directives ≡ some [])
      × (lookup (codes "must-revalidate") directives ≡ some [])
      × (length directives ≡ 3)
unfolding matches_policy
matches_policy_parts directives n h = ground (
  arith,
  empty_value-lookup (codes "public") directives,
  empty_value-lookup (codes "must-revalidate") directives,
  text_beq_iff (get_or (codes "public") [] directives) [],
  text_beq_iff (get_or (codes "must-revalidate") [] directives) [],
)

remaining_seconds_age :
    (directives : Map Text Text) (age_text : Text) (n seconds : ℕ)
    → positive_max_age directives ≡ some n
    → matches_policy directives n ≡ true
    → n ≡ 60
    → remaining_seconds directives age_text ≡ ok seconds
    → (age : ℕ) × (read_age age_text ≡ some age) × (age < 60) × (seconds ≡ 60 - age)
unfolding remaining_seconds
remaining_seconds_age directives age_text n seconds e f p h =
    elim (Option-cases (read_age age_text)) [
      | inl g ↦ absurd (ground (arith, e, f, g))
      | inr (age, g) ↦ (age, g, ground (arith, e, f, g, p), ground (arith, e, f, g, p))
    ]

remaining_seconds-IsRequiredPolicy :
    (directives : Map Text Text) (age_text : Text) (seconds : ℕ)
    → remaining_seconds directives age_text ≡ ok seconds
    → ((age : ℕ) × (read_age age_text ≡ some age) × (age < 60) × (seconds ≡ 60 - age))
      × IsRequiredPolicy directives
unfolding remaining_seconds
remaining_seconds-IsRequiredPolicy directives age_text seconds h =
    elim (Option-cases (positive_max_age directives)) [
      | inl e ↦ absurd (ground (arith, e))
      | inr (n, e) ↦ elim (Bool-cases (matches_policy directives n)) [
        | inr f ↦ absurd (ground (arith, e, f))
        | inl f ↦
            let p = matches_policy_parts directives n f in
            let (text, found, parsed) = positive_max_age_text directives n e in
            let bound = remaining_seconds_age directives age_text n seconds e f p.0 h in
            (
              bound,
              record {
                max_age = (text, found, parsed ∙ ap (λ m. some (nonnegative m)) p.0);
                public = p.1;
                must_revalidate = p.2;
                nothing_else = p.3;
              },
            )
      ]
    ]

-- A response whose lifetime is accepted states a max-age of 60, public and must-revalidate and no
-- other directive, its age is below 60 seconds, and the lifetime is what the age leaves of the 60
-- seconds, in nanoseconds.
pub response_cache_ttl-IsRequiredPolicy :
    (strings : Strings) (header : Header) (ttl : ℕ)
    → response_cache_ttl strings header ≡ ok ttl
    → ((age : ℕ) × (read_age header.age ≡ some age)
        × (age < 60)
        × (ttl ≡ (60 - age) * 1_000_000_000))
      × ((directives : Map Text Text) × (read_lines strings [] header.cache_control ≡ ok directives)
          × IsRequiredPolicy directives)
unfolding response_cache_ttl
response_cache_ttl-IsRequiredPolicy strings header ttl h =
    elim (Result-cases (read_lines strings [] header.cache_control)) [
      | inl (reason, e) ↦ absurd (ground (arith, e))
      | inr (directives, e) ↦ elim (Result-cases (remaining_seconds directives header.age)) [
        | inl (reason, f) ↦ absurd (ground (arith, e, f))
        | inr (seconds, f) ↦
            let p = remaining_seconds-IsRequiredPolicy directives header.age seconds f in
            let q : seconds * 1_000_000_000 ≡ ttl = ground (arith, e, f) in
            let (age, read, below, left) = p.0 in
            ((age, read, below, sym q ∙ ap (λ n. n * 1_000_000_000) left), (directives, e, p.1))
      ]
    ]
