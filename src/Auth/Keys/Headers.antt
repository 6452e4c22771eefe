-- ===== src/Auth/Keys/Headers.antt =====
-- responseCacheTTL, cacheDirectiveValue and canonicalETag of internal/auth/key_cache.go.
-- `strings.TrimSpace` and `strings.ToLower` are parameters; durations are nanoseconds.
pub mod Policy
use miakapp_server.Prelude.{
  ℕ, zero, ◌-◌, ◌*◌, Bool, false, not, ◌&&◌, ◌||◌, Option, none, some, List, [], ◌∷◌, ltb, leb,
  nat_beq, if◌then◌else◌, ◌==◌, ◌!=◌, nat_eq, length, any, all,
}
use miakapp_server.Text.{split, Text, codes, text_eq, has_prefix}
use miakapp_server.GoMap.{Map, lookup, insert, contains, get_or}
use miakapp_server.Auth.Keys.Errors.{
  Result, ok, error, ◌>>=◌, invalid_cache_control, duplicate_directive, empty_value,
  invalid_quoted_value, invalid_value, no_positive_max_age, policy_mismatch, invalid_age,
  already_stale, no_bounded_etag, invalid_etag,
}
use miakapp_server.GoStrings.{nonnegative, negative, parse_int, cut, last, inner}
use miakapp_server.Auth.Keys.Surrogates.{quote, backslash, drop}

pub record Strings : Type 0 where
  pub trim_space : Text → Text
  pub to_lower : Text → Text

-- What fetch reads of a response's header.
pub record Header : Type 0 where
  pub cache_control : List Text
  pub age : Text
  pub content_type : Text
  pub etag : Text

abbrev pub starts_quoted : Text → Bool
starts_quoted [] = false
starts_quoted (c ∷ cs) = nat_beq c quote

abbrev pub ends_quoted : Text → Bool
ends_quoted value = elim (last value) [ none ↦ false | some c ↦ nat_beq c quote ]

unfoldable pub unquote : Text → Result Text
unfolding inner last
unquote value =
    if starts_quoted value || ends_quoted value
    then (if ltb (length value) 2 || not (starts_quoted value) || not (ends_quoted value)
        then error invalid_quoted_value
        else ok (inner value))
    else ok value

unfoldable pub cache_directive_value : Strings → Text → Result Text
unfolding unquote
cache_directive_value strings raw =
    let value = strings.trim_space raw in
    if value == []
    then error empty_value
    else unquote value >>= λ bare.
        if bare == [] || any (λ c. nat_beq c quote || nat_beq c backslash) bare
        then error invalid_value
        else ok bare

-- The value of a directive, "" when it has none.
unfoldable pub directive_value : Strings → Option Text → Result Text
unfolding cache_directive_value
directive_value strings none = ok []
directive_value strings (some value) = cache_directive_value strings value

-- One part of a Cache-Control line.
unfoldable pub read_directive : Strings → Map Text Text → Text → Result (Map Text Text)
unfolding cut directive_value
read_directive strings directives raw =
    let part = strings.trim_space raw in
    if part == []
    then ok directives
    else let pieces = cut b'=' part in
      let name = strings.to_lower (strings.trim_space pieces.0) in
      if name == []
      then error invalid_cache_control
      else if contains name directives
      then error duplicate_directive
      else directive_value strings pieces.1 >>= λ value. ok (insert name value directives)

unfoldable pub read_parts : Strings → Map Text Text → List Text → Result (Map Text Text)
unfolding read_directive
read_parts strings directives [] = ok directives
read_parts strings directives (part ∷ parts) =
    read_directive strings directives part >>= λ more. read_parts strings more parts

unfoldable pub read_lines : Strings → Map Text Text → List Text → Result (Map Text Text)
unfolding split read_parts
read_lines strings directives [] = ok directives
read_lines strings directives (raw ∷ lines) =
    read_parts strings directives (split b',' raw) >>= λ more. read_lines strings more lines

-- An accepted Age of the response; an absent one is zero.
unfoldable pub read_age : Text → Option ℕ
unfolding parse_int
read_age age_text = if age_text == [] then some 0 else elim (parse_int age_text) [
  | some (nonnegative age) ↦ some age
  | some (negative zero) ↦ some 0
  | _ ↦ none
]

-- The required policy, once max-age is known.
unfoldable pub matches_policy : Map Text Text → ℕ → Bool
matches_policy directives max_age =
    nat_beq max_age 60
    && contains (codes "public") directives
    && contains (codes "must-revalidate") directives
    && get_or (codes "public") [] directives == []
    && get_or (codes "must-revalidate") [] directives == []
    && nat_beq (length directives) 3

unfoldable pub positive_max_age : Map Text Text → Option ℕ
unfolding parse_int
positive_max_age directives = elim (lookup (codes "max-age") directives) [
  | none ↦ none
  | some text ↦ elim (parse_int text) [
    | some (nonnegative n) ↦ if ltb n 1 then none else some n
    | _ ↦ none
  ]
]

-- `max_age - age` stops at 0 here where the code's may be negative; both are refused.
unfoldable pub remaining_seconds : Map Text Text → Text → Result ℕ
unfolding read_age matches_policy positive_max_age
remaining_seconds directives age_text = elim (positive_max_age directives) [
  | none ↦ error no_positive_max_age
  | some max_age ↦
      if not (matches_policy directives max_age)
      then error policy_mismatch
      else elim (read_age age_text) [
        | none ↦ error invalid_age
        | some age ↦ if ltb (max_age - age) 1 then error already_stale else ok (max_age - age)
      ]
]

unfoldable pub response_cache_ttl : Strings → Header → Result ℕ
unfolding read_lines remaining_seconds
response_cache_ttl strings header = read_lines strings [] header.cache_control >>= λ directives.
    remaining_seconds directives header.age >>= λ seconds. ok (seconds * 1_000_000_000)

-- A byte of an entity tag, within its quotes.
abbrev pub is_tag_byte : ℕ → Bool
is_tag_byte c = leb 0x21 c && not (nat_beq c quote) && leb c 0x7e

unfoldable pub canonical_etag : Strings → Text → Result Text
unfolding has_prefix inner last drop
canonical_etag strings value =
    if value == [] || ltb 512 (length value) || strings.trim_space value != value
    then error no_bounded_etag
    else let entity_tag = if has_prefix value (codes "W/") then drop 2 value else value in
      if ltb (length entity_tag) 2 || not (starts_quoted entity_tag) || not (ends_quoted entity_tag)
      then error invalid_etag
      else if all is_tag_byte (inner entity_tag)
      then ok value
      else error invalid_etag
