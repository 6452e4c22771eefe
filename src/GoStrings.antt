-- ===== src/GoStrings.antt =====
-- What the code uses of Go's packages strings and strconv, beside Text.
use miakapp_server.Prelude.{
  ℕ, ◌+◌, ◌-◌, ◌*◌, ◌&&◌, Option, none, some, [], ◌∷◌, leb, nat_beq, if◌then◌else◌, nat_eq,
}
use miakapp_server.Text.{Text}

-- An int64: `nonnegative n`, or `negative n` for -n.
pub data Int64 : Type 0 where
  nonnegative negative : ℕ → Int64

unfoldable decimal : ℕ → Text → Option ℕ
decimal value [] = some value
decimal value (c ∷ cs) =
    let rest = decimal (value * 10 + (c - b'0')) cs in
    if leb b'0' c && leb c b'9' then rest else none

-- The magnitude of a numeral, if it has a digit and does not exceed `most`.
unfoldable magnitude : ℕ → Text → Option ℕ
unfolding decimal
magnitude most [] = none
magnitude most (c ∷ cs) = elim (decimal 0 (c ∷ cs)) [
  | none ↦ none
  | some n ↦ if leb n most then some n else none
]

-- strconv.ParseInt(text, 10, 64)
unfoldable pub parse_int : Text → Option Int64
unfolding magnitude
parse_int [] = none
parse_int (c ∷ cs) =
    if nat_beq c b'-'
    then (elim (magnitude 9_223_372_036_854_775_808 cs) [
      | none ↦ none
      | some n ↦ some (negative n)
    ])
    else elim (magnitude 9_223_372_036_854_775_807 (if nat_beq c b'+' then cs else c ∷ cs)) [
      | none ↦ none
      | some n ↦ some (nonnegative n)
    ]

-- strings.Cut with a separator of one byte: what precedes it, and what follows it if it was found
unfoldable pub cut : ℕ → Text → Text × Option Text
cut separator [] = ([], none)
cut separator (c ∷ cs) =
    let rest = cut separator cs in
    if nat_beq c separator then ([], some cs) else (c ∷ rest.0, rest.1)

-- value[len(value)-1]
unfoldable pub last : Text → Option ℕ
last [] = none
last (c ∷ []) = some c
last (c ∷ d ∷ cs) = last (d ∷ cs)

unfoldable all_but_last : Text → Text
all_but_last [] = []
all_but_last (c ∷ []) = []
all_but_last (c ∷ d ∷ cs) = c ∷ all_but_last (d ∷ cs)

-- value[1 : len(value)-1] of a value of two bytes or more
unfoldable pub inner : Text → Text
unfolding all_but_last
inner [] = []
inner (c ∷ cs) = all_but_last cs
