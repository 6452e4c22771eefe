-- ===== src/Auth/Keys/Surrogates.antt =====
-- rejectUnpairedSurrogateEscapes of internal/auth/key_cache.go: a JSON document may not escape one
-- half of a surrogate pair alone.
pub mod Forward
pub mod Pairing
use miakapp_server.Prelude.{
  ◌%◌, ℕ, zero, suc, ◌+◌, ◌-◌, ◌*◌, ◌/◌, ◌≤◌, ◌<◌, ◌≡◌, refl, sym, ap, subst, ◌∙◌, ◌≢◌, ◌↔◌, ◌⊎◌,
  inl, inr, Bool, true, false, not, ◌&&◌, ◌||◌, Option, none, some, List, [], ◌∷◌, ◌++◌, map, arith,
  ltb, leb, nat_beq, if◌then◌else◌, nat_beq_iff, Bool-cases, Option-cases, Eq, ◌==◌, ◌!=◌, nat_eq,
  length, any, all, All, length-append, String,
}
use miakapp_server.Text.{Text}
use miakapp_server.Auth.Keys.Hex.{decode_hex_quad}

abbrev pub quote : ℕ
quote = b'"'

abbrev pub backslash : ℕ
backslash = b'\\'

-- The backslashes right before the cursor; `before` is what precedes it, last byte first.
unfoldable pub run_of_backslashes : Text → ℕ
run_of_backslashes [] = 0
run_of_backslashes (c ∷ before) = if nat_beq c backslash then suc (run_of_backslashes before) else 0

-- `backslashes%2 == 1`
abbrev pub is_odd : ℕ → Bool
is_odd n = nat_beq (n % 2) 1

abbrev pub is_low : ℕ → Bool
is_low n = leb 0xdc00 n && leb n 0xdfff

abbrev pub is_high : ℕ → Bool
is_high n = leb 0xd800 n && leb n 0xdbff

unfoldable pub four_bytes : Text → Option Text
four_bytes (a ∷ b ∷ c ∷ d ∷ rest) = some (a ∷ b ∷ c ∷ d ∷ [])
four_bytes _ = none

-- The code point of a \u escape, from the byte after its backslash on: `none` if too few bytes are
-- left, if that byte is not a u, or if its digits are not hexadecimal.
unfoldable pub code_point : Text → Option ℕ
unfolding four_bytes
code_point [] = none
code_point (u ∷ rest) =
    if not (nat_beq u b'u')
    then none
    else elim (four_bytes rest) [ none ↦ none | some digits ↦ decode_hex_quad digits ]

-- What stands after a \u escape, from the byte after its backslash on.
unfoldable pub drop : ℕ → Text → Text
drop zero rest = rest
drop (suc n) [] = []
drop (suc n) (c ∷ rest) = drop n rest

-- The low half that a high half must be followed by.
unfoldable pub has_low_half : Text → Bool
unfolding code_point
has_low_half [] = false
has_low_half (c ∷ rest) =
    nat_beq c backslash && elim (code_point rest) [ none ↦ false | some n ↦ is_low n ]

-- The decision at a backslash that starts an escape in a string: how many of the next bytes are
-- passed over, or `none` to reject.
unfoldable pub at_escape : Text → Option ℕ
unfolding code_point has_low_half drop
at_escape rest = elim (code_point rest) [
  | none ↦ some 0
  | some n ↦
      if is_low n
      then none
      else if is_high n
      then (if has_low_half (drop 5 rest) then some 6 else none)
      else some 0
]

-- One round at byte `c`, where `escaped` says that an odd run of backslashes precedes it: the bytes
-- to pass over, and whether the cursor is in a string.
unfoldable pub round : Bool → Bool → ℕ → Text → Option (ℕ × Bool)
unfolding at_escape
round escaped in_string c rest =
    if nat_beq c quote
    then some (0, if escaped then in_string else not in_string)
    else if nat_beq c backslash && in_string && not escaped
    then elim (at_escape rest) [ none ↦ none | some skip ↦ some (skip, in_string) ]
    else some (0, in_string)

-- The loop of rejectUnpairedSurrogateEscapes: `skip` bytes are passed over first. The result says
-- that the document is accepted.
unfoldable pub scan : Text → ℕ → Bool → Text → Bool
unfolding run_of_backslashes round
scan before skip in_string [] = true
scan before (suc skip) in_string (c ∷ rest) = scan (c ∷ before) skip in_string rest
scan before zero in_string (c ∷ rest) =
    elim (round (is_odd (run_of_backslashes before)) in_string c rest) [
      | none ↦ false
      | some (skip, inside) ↦ scan (c ∷ before) skip inside rest
    ]

unfoldable pub surrogates_paired : Text → Bool
unfolding scan
surrogates_paired document = scan [] 0 false document
