-- ===== src/Auth/Keys/Document/Termination.antt =====
-- The fuel of the loops of internal/auth/key_cache.go that decode a key document.
use miakapp_server.Prelude.{
  ℕ, zero, suc, ◌+◌, ◌≤◌, ◌<◌, ◌≡◌, refl, sym, subst, ◌≢◌, ◌⊎◌, inl, inr, Bool, true, false, ◌||◌,
  Option, none, some, List, [], ◌∷◌, ◌++◌, arith, if◌then◌else◌, Bool-cases, Option-cases, ◌==◌,
  nat_eq, length, any, length-append,
}
use miakapp_server.Text.{Text, text_eq, text_beq_iff}
use miakapp_server.GoMap.{Map, Set, contains, insert, lookup, lookup-insert}
use miakapp_server.Auth.Keys.Errors.{ok, error}
use miakapp_server.Auth.Keys.Document.{
  is_delimiter, ◌>>>◌, Token, delimiter, string, value, end_of_input, failure, Codecs, PublicJwk,
  Run, allowed, finish_key, read_members, decode_key, read_keys, finish_keys, decode_keys,
  read_document, finish_document, decode_jwks, Run-cases,
}

-- How many of the names are still without a value.
unfoldable missing : List Text → Map Text Text → ℕ
missing [] values = 0
missing (name ∷ names) values =
    if contains name values then missing names values else suc (missing names values)

contains-insert :
    (name other : Text) (text : Text) (values : Map Text Text)
    → contains other (insert name text values) ≡ (name == other || contains other values)
contains-insert name other text values =
    ground (arith, lookup-insert name other text values, Bool-cases (name == other))

missing-insert :
    (names : List Text) (name text : Text) (values : Map Text Text)
    → missing names (insert name text values) ≤ missing names values
unfolding missing
missing-insert [] name text values = omega arith
missing-insert (other ∷ names) name text values = ground (
  arith,
  missing-insert names name text values,
  contains-insert name other text values,
  Bool-cases (contains other values),
  Bool-cases (contains other (insert name text values)),
  Bool-cases (name == other),
)

missing-insert_lt :
    (names : List Text) (name text : Text) (values : Map Text Text)
    → any (λ other. other == name) names ≡ true
    → contains name values ≡ false
    → missing names (insert name text values) < missing names values
unfolding missing
missing-insert_lt [] name text values h n = absurd (ground arith)
missing-insert_lt (other ∷ names) name text values h n = elim (Bool-cases (other == name)) [
  | inl e ↦
      let same : other ≡ name = (text_beq_iff other name).0 e in
      ground (
        arith,
        missing-insert names name text values,
        contains-insert name other text values,
        (text_beq_iff name other).1 (sym same),
        subst (λ o. contains o values ≡ false) (sym same) n,
      )
  | inr e ↦ ground (
    arith,
    missing-insert_lt names name text values (ground (arith, e)) n,
    contains-insert name other text values,
    text_beq_iff name other,
    text_beq_iff other name,
    Bool-cases (contains other values),
  )
]

abbrev is_string : Token → Bool
is_string (string name) = true
is_string _ = false

string-cases : (t : Token) → (is_string t ≡ false) ⊎ ((name : Text) × (t ≡ string name))
string-cases (delimiter c) = inl refl
string-cases (string name) = inr (name, refl)
string-cases value = inl refl
string-cases end_of_input = inl refl
string-cases failure = inl refl

pub bind_ends :
    {A B : Type 0} (r : Run A) (k : A → Run B)
    → r ≢ none
    → ((a : A) → k a ≢ none)
    → (r >>> k) ≢ none
bind_ends none k h g = absurd (h refl)
bind_ends (some (ok a)) k h g = g a
bind_ends (some (error e)) k h g = ground arith

module _ (codecs : Codecs) where
  read_members_ends :
      (fuel : ℕ) (values : Map Text Text) (decoder : codecs.Decoder)
      → missing allowed values < fuel
      → read_members codecs fuel values decoder ≢ none
  unfolding read_members
  read_members_ends zero values decoder h = ground arith
  read_members_ends (suc fuel) values decoder h = elim (string-cases (codecs.token decoder).0) [
    | inr (name, f) ↦ elim (Option-cases (codecs.decode_string (codecs.token decoder).1).0) [
      | inl e ↦ ground (arith, e, f)
      | inr (text, e) ↦ ground (
        arith,
        e,
        f,
        read_members_ends fuel (insert name text values)
            (codecs.decode_string (codecs.token decoder).1).1,
        missing-insert_lt allowed name text values,
      )
    ]
    | inl f ↦ ground (arith, f)
  ]

  finish_key_ends :
      (values : Map Text Text) (decoder : codecs.Decoder) → finish_key codecs values decoder ≢ none
  unfolding finish_key
  finish_key_ends values decoder = ground arith

  decode_key_ends : (decoder : codecs.Decoder) → decode_key codecs decoder ≢ none
  unfolding decode_key missing lookup
  decode_key_ends decoder = elim (Bool-cases (is_delimiter b'{' (codecs.token decoder).0)) [
    | inr e ↦ ground (arith, e)
    | inl e ↦
        let loop = read_members_ends 7 [] (codecs.token decoder).1 (omega arith) in
        let bound =
          bind_ends (read_members codecs 7 [] (codecs.token decoder).1)
            (λ read. finish_key codecs read.0 read.1) loop
            (λ read. finish_key_ends read.0 read.1) in
        ground (arith, e, bound)
  ]

  read_keys_ends :
      (fuel : ℕ) (keys : List PublicJwk) (kids : Set Text) (decoder : codecs.Decoder)
      → 16 < fuel + length keys
      → length keys ≤ 16
      → read_keys codecs fuel keys kids decoder ≢ none
  unfolding read_keys
  read_keys_ends zero keys kids decoder h bound = absurd (omega (arith, h, bound))
  read_keys_ends (suc fuel) keys kids decoder h bound =
      elim (Run-cases (decode_key codecs decoder)) [
        | inl e ↦ absurd (decode_key_ends decoder e)
        | inr (inl (reason, e)) ↦ ground (arith, e)
        | inr (inr ((key, after), e)) ↦ ground (
          arith,
          e,
          read_keys_ends fuel (keys ++ (key ∷ [])) (insert key.kid tt kids) after,
          length-append keys (key ∷ []),
        )
      ]

  finish_keys_ends :
      (keys : List PublicJwk) (decoder : codecs.Decoder) → finish_keys codecs keys decoder ≢ none
  unfolding finish_keys
  finish_keys_ends keys decoder = ground arith

  decode_keys_ends : (decoder : codecs.Decoder) → decode_keys codecs decoder ≢ none
  unfolding decode_keys
  decode_keys_ends decoder = elim (Bool-cases (is_delimiter b'[' (codecs.token decoder).0)) [
    | inr e ↦ ground (arith, e)
    | inl e ↦
        let loop = read_keys_ends 17 [] [] (codecs.token decoder).1 (omega arith) (omega arith) in
        let bound =
          bind_ends (read_keys codecs 17 [] [] (codecs.token decoder).1)
            (λ read. finish_keys codecs read.0 read.1) loop
            (λ read. finish_keys_ends read.0 read.1) in
        ground (arith, e, bound)
  ]

  -- Once the keys have been read, no round follows but the last.
  read_document_seen_ends :
      (keys : List PublicJwk) (decoder : codecs.Decoder)
      → read_document codecs 1 (some keys) decoder ≢ none
  unfolding read_document
  read_document_seen_ends keys decoder = ground arith

  read_document_ends : (decoder : codecs.Decoder) → read_document codecs 2 none decoder ≢ none
  unfolding read_document
  read_document_ends decoder = elim (Run-cases (decode_keys codecs (codecs.token decoder).1)) [
    | inl e ↦ absurd (decode_keys_ends (codecs.token decoder).1 e)
    | inr (inl (reason, e)) ↦ ground (arith, e)
    | inr (inr ((keys, next), e)) ↦ ground (arith, e, read_document_seen_ends keys next)
  ]

  finish_document_ends :
      (seen : Option (List PublicJwk)) (decoder : codecs.Decoder)
      → finish_document codecs seen decoder ≢ none
  unfolding finish_document
  finish_document_ends none decoder = ground arith
  finish_document_ends (some keys) decoder = ground arith

  -- Whatever the JSON decoder returns, the three nested loops that read a key document end within
  -- the fuel that they are given: 7 rounds for the members of a key, 17 for the keys, 2 for the
  -- members of the document.
  pub decode_jwks_ends : (body : Text) → decode_jwks codecs body ≢ none
  unfolding decode_jwks
  decode_jwks_ends body =
      let opened = codecs.token (codecs.new_decoder body) in
      elim (Bool-cases (is_delimiter b'{' opened.0)) [
        | inr e ↦ ground (arith, e)
        | inl e ↦
            let bound =
              bind_ends (read_document codecs 2 none opened.1)
                (λ read. finish_document codecs read.0 read.1) (read_document_ends opened.1)
                (λ read. finish_document_ends read.0 read.1) in
            ground (arith, e, bound)
      ]
