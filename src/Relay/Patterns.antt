-- ===== src/Relay/Patterns.antt =====
-- patternMatches and matchesAny (internal/relay/declarations.go): a pattern is an exact name, or a
-- prefix up to a dot that is followed by a star.
pub mod Meaning
use miakapp_server.Prelude.{
  ℕ, zero, suc, ◌+◌, ◌-◌, ◌*◌, ◌/◌, ◌≤◌, ◌<◌, ◌≡◌, refl, sym, ap, subst, ◌∙◌, ◌≢◌, ◌↔◌, ◌⊎◌, inl,
  inr, Bool, true, false, not, ◌&&◌, ◌||◌, Option, none, some, List, [], ◌∷◌, ◌++◌, map, arith, ltb,
  leb, nat_beq, if◌then◌else◌, nat_beq_iff, Bool-cases, Option-cases, Eq, ◌==◌, ◌!=◌, nat_eq,
  length, any, all, All, length-append, String,
}
use miakapp_server.Text.{Text, codes, has_prefix, has_suffix, trim_suffix, text_beq}

unfoldable pub pattern_matches : Text → Text → Bool
pattern_matches pattern name =
    if has_suffix pattern (codes ".*")
    then has_prefix name (trim_suffix pattern (codes "*"))
    else text_beq pattern name

unfoldable pub matches_any : List Text → Text → Bool
unfolding pattern_matches
matches_any [] name = false
matches_any (pattern ∷ patterns) name =
    if pattern_matches pattern name then true else matches_any patterns name
