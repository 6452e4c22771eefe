-- ===== src/Auth/Keys/Hex.antt =====
-- decodeHexQuad of internal/auth/key_cache.go: the four hexadecimal digits of a \u escape.
use miakapp_server.Prelude.{
  false, true, Bool, ◌%◌, ℕ, ◌+◌, ◌-◌, ◌*◌, ◌/◌, ◌<◌, ◌≡◌, inl, inr, not, ◌&&◌, Option, none, some,
  [], ◌∷◌, arith, ltb, leb, nat_beq, if◌then◌else◌, Option-cases, nat_eq, length,
}
use miakapp_server.Text.{Text}

-- The value of one digit, of either case.
unfoldable pub hex_digit : ℕ → Option ℕ
hex_digit c =
    if leb b'0' c && leb c b'9'
    then some (c - b'0')
    else if leb b'a' c && leb c b'f'
    then some (c - b'a' + 10)
    else if leb b'A' c && leb c b'F'
    then some (c - b'A' + 10)
    else none

-- The loop of decodeHexQuad; `value` is a uint16.
unfoldable pub hex_digits : ℕ → Text → Option ℕ
hex_digits value [] = some value
hex_digits value (c ∷ cs) = elim (hex_digit c) [
  | none ↦ none
  | some d ↦ hex_digits ((value * 16 % 65_536 + d) % 65_536) cs
]

unfoldable pub decode_hex_quad : Text → Option ℕ
unfolding hex_digits
decode_hex_quad digits = if not (nat_beq (length digits) 4) then none else hex_digits 0 digits

-- Of each of four digits, whether it is in upper case.
abbrev pub Cases : Type 0
Cases = Bool × Bool × Bool × Bool

-- A digit in a case, and the four digits of a number below 65536.
unfoldable pub hex_char : Bool → ℕ → ℕ
hex_char upper d = if ltb d 10 then b'0' + d else (if upper then b'A' else b'a') + (d - 10)

unfoldable pub hex_quad : Cases → ℕ → Text
unfolding hex_char
hex_quad cases n =
    hex_char cases.0 (n / 4_096)
    ∷ hex_char cases.1 (n / 256 % 16)
    ∷ hex_char cases.2 (n / 16 % 16)
    ∷ hex_char cases.3 (n % 16)
    ∷ []

hex_digit-hex_char : (upper : Bool) (d : ℕ) → d < 16 → hex_digit (hex_char upper d) ≡ some d
unfolding hex_char hex_digit
hex_digit-hex_char true d h = ground arith
hex_digit-hex_char false d h = ground arith

-- A number below 65536 is read back from its four digits, whatever the case of each.
pub decode_hex_quad-hex_quad :
    (cases : Cases) (n : ℕ) → n < 65_536 → decode_hex_quad (hex_quad cases n) ≡ some n
unfolding decode_hex_quad hex_quad
decode_hex_quad-hex_quad cases n h = ground (
  arith,
  hex_digit-hex_char cases.0 (n / 4_096),
  hex_digit-hex_char cases.1 (n / 256 % 16),
  hex_digit-hex_char cases.2 (n / 16 % 16),
  hex_digit-hex_char cases.3 (n % 16),
)

hex_digits-lt :
    (digits : Text) (value n : ℕ) → value < 65_536 → hex_digits value digits ≡ some n → n < 65_536
unfolding hex_digits
hex_digits-lt [] value n v h = ground arith
hex_digits-lt (c ∷ cs) value n v h = elim (Option-cases (hex_digit c)) [
  | inl e ↦ absurd (ground (arith, e))
  | inr (d, e) ↦
      hex_digits-lt cs ((value * 16 % 65_536 + d) % 65_536) n (omega arith) (ground (arith, e))
]

-- Four hexadecimal digits never stand for more than a 16-bit value.
pub decode_hex_quad-lt : (digits : Text) (n : ℕ) → decode_hex_quad digits ≡ some n → n < 65_536
unfolding decode_hex_quad
decode_hex_quad-lt digits n h = hex_digits-lt digits 0 n (omega arith) (ground arith)
