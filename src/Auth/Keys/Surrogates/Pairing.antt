-- ===== src/Auth/Keys/Surrogates/Pairing.antt =====
-- What the scanner accepts: the strings whose escaped surrogates come in pairs.
use miakapp_server.Auth.Keys.Surrogates.Forward.{scan_forward, scan-eq-scan_forward}
use miakapp_server.Auth.Keys.Surrogates.{
  is_high, round, quote, drop, backslash, is_low, code_point, at_escape, surrogates_paired,
  has_low_half,
}
use miakapp_server.Prelude.{
  ◌%◌, ℕ, ◌/◌, ◌<◌, ◌≡◌, refl, ◌∙◌, ◌≢◌, inl, inr, Bool, true, false, not, ◌&&◌, none, some, List,
  [], ◌∷◌, ◌++◌, arith, if◌then◌else◌, nat_beq_iff, Option-cases, nat_eq, All,
}
use miakapp_server.Text.{Text}
use miakapp_server.Auth.Keys.Hex.{Cases, hex_char, hex_quad, decode_hex_quad-hex_quad}

-- A piece of a JSON string: a byte, an escape of two bytes, or a \u escape, whose
-- digits are in any case.
pub data Piece : Type 0 where
  plain short_escape : ℕ → Piece
  unicode_escape : Cases → ℕ → Piece

abbrev pub IsPiece : Piece → Type 0
IsPiece (plain c) = (c ≢ quote) × (c ≢ backslash)
IsPiece (short_escape c) = c ≢ b'u'
IsPiece (unicode_escape k n) = n < 65_536

-- The bytes of the pieces, followed by `rest`.
unfoldable pub print : List Piece → Text → Text
print [] rest = rest
print (plain c ∷ ps) rest = c ∷ print ps rest
print (short_escape c ∷ ps) rest = backslash ∷ c ∷ print ps rest
print (unicode_escape k n ∷ ps) rest = backslash ∷ b'u' ∷ hex_quad k n ++ print ps rest

-- Each escaped low half comes right after an escaped high half, and each high half has its low one;
-- `pending` says that a high half has just been read.
unfoldable pub is_paired : Bool → List Piece → Bool
is_paired pending [] = not pending
is_paired pending (unicode_escape k n ∷ ps) =
    if is_low n then pending && is_paired false ps else not pending && is_paired (is_high n) ps
is_paired pending (plain c ∷ ps) = not pending && is_paired false ps
is_paired pending (short_escape c ∷ ps) = not pending && is_paired false ps

-- A digit is neither a quote nor a backslash.
hex_char-is_plain :
    (upper : Bool) (d : ℕ) → d < 16 → (hex_char upper d ≢ quote) × (hex_char upper d ≢ backslash)
unfolding hex_char
hex_char-is_plain true d h = ground arith
hex_char-is_plain false d h = ground arith

scan_plain :
    (c : ℕ) (escaped : Bool) (rest : Text)
    → c ≢ quote
    → c ≢ backslash
    → scan_forward escaped 0 true (c ∷ rest) ≡ scan_forward false 0 true rest
unfolding scan_forward round
scan_plain c escaped rest q b = ground (arith, nat_beq_iff c quote, nat_beq_iff c backslash)

-- The digits of a quad are passed over.
scan_quad :
    (k : Cases) (n : ℕ) (escaped : Bool) (rest : Text)
    → n < 65_536
    → scan_forward escaped 0 true (hex_quad k n ++ rest) ≡ scan_forward false 0 true rest
unfolding hex_quad
scan_quad k n escaped rest h =
    let d₃ = hex_char-is_plain k.0 (n / 4_096) (omega arith) in
    let d₂ = hex_char-is_plain k.1 (n / 256 % 16) (omega arith) in
    let d₁ = hex_char-is_plain k.2 (n / 16 % 16) (omega arith) in
    let d₀ = hex_char-is_plain k.3 (n % 16) (omega arith) in
    scan_plain (hex_char k.0 (n / 4_096)) escaped _ d₃.0 d₃.1
    ∙ scan_plain (hex_char k.1 (n / 256 % 16)) false _ d₂.0 d₂.1
    ∙ scan_plain (hex_char k.2 (n / 16 % 16)) false _ d₁.0 d₁.1
    ∙ scan_plain (hex_char k.3 (n % 16)) false _ d₀.0 d₀.1

code_point-quad :
    (k : Cases) (n : ℕ) (rest : Text)
    → n < 65_536
    → code_point (b'u' ∷ hex_quad k n ++ rest) ≡ some n
unfolding code_point hex_quad
code_point-quad k n rest h = decode_hex_quad-hex_quad k n h

drop-quad : (k : Cases) (n : ℕ) (rest : Text) → drop 5 (b'u' ∷ hex_quad k n ++ rest) ≡ rest
unfolding drop hex_quad
drop-quad k n rest = refl

code_point-not_u : (c : ℕ) (rest : Text) → c ≢ b'u' → code_point (c ∷ rest) ≡ none
unfolding code_point
code_point-not_u c rest h = ground (arith, nat_beq_iff c b'u')

-- Only a low half that is escaped right there counts.
has_low_half-print :
    (ps : List Piece) (rest : Text)
    → All IsPiece ps
    → has_low_half (print ps (quote ∷ rest))
      ≡ elim ps [ [] ↦ false | p ∷ _ ↦ elim p [ unicode_escape k n ↦ is_low n | _ ↦ false ] ]
unfolding has_low_half print
has_low_half-print [] rest v = refl
has_low_half-print (plain c ∷ ps) rest v = ground (arith, nat_beq_iff c backslash)
has_low_half-print (short_escape c ∷ ps) rest v =
    ground (arith, code_point-not_u c (print ps (quote ∷ rest)))
has_low_half-print (unicode_escape k n ∷ ps) rest v =
    ground (arith, code_point-quad k n (print ps (quote ∷ rest)))

-- At a backslash that starts an escape.
scan_backslash :
    (rest : Text)
    → scan_forward false 0 true (backslash ∷ rest)
      ≡ elim (at_escape rest) [ none ↦ false | some skip ↦ scan_forward true skip true rest ]
unfolding scan_forward round
scan_backslash rest = elim (Option-cases (at_escape rest)) [
  | inl e ↦ ground (arith, e)
  | inr (skip, e) ↦ ground (arith, e)
]

-- The byte after it, whatever it is, is passed over.
scan_escaped :
    (c : ℕ) (rest : Text) → scan_forward true 0 true (c ∷ rest) ≡ scan_forward false 0 true rest
unfolding scan_forward round
scan_escaped c rest = ground (arith, nat_beq_iff c quote, nat_beq_iff c backslash)

scan_six :
    (k : Cases) (n : ℕ) (rest : Text)
    → n < 65_536
    → scan_forward true 6 true (b'u' ∷ hex_quad k n ++ backslash ∷ rest)
      ≡ scan_forward true 0 true rest
unfolding scan_forward hex_quad
scan_six k n rest h = ground (
  arith,
  (hex_char-is_plain k.3 (n % 16) (omega arith)).1,
  nat_beq_iff (hex_char k.3 (n % 16)) backslash,
)

-- An escaped high half with its low half: six bytes are passed over, then the low half's digits.
scan_pair :
    (k l : Cases) (n m : ℕ) (rest : Text)
    → n < 65_536
    → m < 65_536
    → scan_forward true 6 true (b'u' ∷ hex_quad k n ++ backslash ∷ b'u' ∷ (hex_quad l m ++ rest))
      ≡ scan_forward false 0 true rest
scan_pair k l n m rest g h =
    scan_six k n (b'u' ∷ hex_quad l m ++ rest) g
    ∙ scan_escaped b'u' (hex_quad l m ++ rest)
    ∙ scan_quad l m false rest h

at_escape-quad :
    (k : Cases) (n : ℕ) (rest : Text)
    → n < 65_536
    → at_escape (b'u' ∷ hex_quad k n ++ rest) ≡ (
        if is_low n
        then none
        else if is_high n
        then (if has_low_half rest then some 6 else none)
        else some 0)
unfolding at_escape
at_escape-quad k n rest h = ground (arith, code_point-quad k n rest h, drop-quad k n rest)

at_escape-not_u : (c : ℕ) (rest : Text) → c ≢ b'u' → at_escape (c ∷ rest) ≡ some 0
unfolding at_escape
at_escape-not_u c rest h = ground (arith, code_point-not_u c rest h)

-- The closing quote.
scan_closing :
    (rest : Text) → scan_forward false 0 true (quote ∷ rest) ≡ scan_forward false 0 false rest
unfolding scan_forward round
scan_closing rest = refl

-- A \u escape, by the half it stands for.
scan_unicode :
    (k : Cases) (n : ℕ) (rest : Text)
    → n < 65_536
    → scan_forward false 0 true (backslash ∷ b'u' ∷ (hex_quad k n ++ rest)) ≡ (
        if is_low n
        then false
        else if is_high n
        then (if has_low_half rest
            then scan_forward true 6 true (b'u' ∷ (hex_quad k n ++ rest))
            else false)
        else scan_forward false 0 true rest)
scan_unicode k n rest h = ground (
  arith,
  scan_backslash (b'u' ∷ (hex_quad k n ++ rest)),
  at_escape-quad k n rest h,
  scan_escaped b'u' (hex_quad k n ++ rest),
  scan_quad k n false rest h,
)

-- In a string, from a piece on.
scan_pieces :
    (ps : List Piece) (rest : Text)
    → All IsPiece ps
    → scan_forward false 0 true (print ps (quote ∷ rest))
      ≡ (is_paired false ps && scan_forward false 0 false rest)
unfolding print is_paired
scan_pieces [] rest v = scan_closing rest
scan_pieces (plain c ∷ ps) rest v =
    ground (arith, scan_plain c false (print ps (quote ∷ rest)), scan_pieces ps rest)
scan_pieces (short_escape c ∷ ps) rest v = ground (
  arith,
  scan_backslash (c ∷ print ps (quote ∷ rest)),
  at_escape-not_u c (print ps (quote ∷ rest)) v.0,
  scan_escaped c (print ps (quote ∷ rest)),
  scan_pieces ps rest,
)
scan_pieces (unicode_escape k n ∷ []) rest v =
    ground
      (arith, scan_unicode k n (quote ∷ rest) v.0, has_low_half-print [] rest, scan_closing rest)
scan_pieces (unicode_escape k n ∷ plain c ∷ ps) rest v = ground (
  arith,
  scan_unicode k n (print (plain c ∷ ps) (quote ∷ rest)) v.0,
  has_low_half-print (plain c ∷ ps) rest v.1,
  scan_pieces (plain c ∷ ps) rest v.1,
)
scan_pieces (unicode_escape k n ∷ short_escape c ∷ ps) rest v = ground (
  arith,
  scan_unicode k n (print (short_escape c ∷ ps) (quote ∷ rest)) v.0,
  has_low_half-print (short_escape c ∷ ps) rest v.1,
  scan_pieces (short_escape c ∷ ps) rest v.1,
)
scan_pieces (unicode_escape k n ∷ unicode_escape l m ∷ ps) rest v = ground (
  arith,
  scan_unicode k n (print (unicode_escape l m ∷ ps) (quote ∷ rest)) v.0,
  has_low_half-print (unicode_escape l m ∷ ps) rest v.1,
  scan_pair k l n m (print ps (quote ∷ rest)) v.0 v.1.0,
  scan_pieces (unicode_escape l m ∷ ps) rest v.1,
  scan_pieces ps rest v.1.1,
)

and_true : (b : Bool) → (b && true) ≡ b
and_true true = refl
and_true false = refl

-- A document that is one JSON string is accepted if and only if its escaped surrogates are paired:
-- each escaped low half comes right after an escaped high half, and each of those has its low one.
pub surrogates_paired-eq-is_paired :
    (ps : List Piece)
    → All IsPiece ps
    → surrogates_paired (quote ∷ print ps (quote ∷ [])) ≡ is_paired false ps
unfolding surrogates_paired scan_forward is_paired
surrogates_paired-eq-is_paired ps v =
    scan-eq-scan_forward (print ps (quote ∷ [])) (quote ∷ []) 0 true
    ∙ scan_pieces ps [] v
    ∙ and_true (is_paired false ps)
