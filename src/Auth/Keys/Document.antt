-- ===== src/Auth/Keys/Document.antt =====
-- decodeControlPlaneJWKS and its parts, validKeyID and requireJSONEOF of
-- internal/auth/key_cache.go. The streaming decoder of encoding/json and the base64 codec are
-- parameters. A loop runs on fuel; `none` is the outcome of a loop that has run out of it.

pub mod Accepted
pub mod Profile
pub mod Termination
use miakapp_server.Prelude.{
  ◌≡◌, refl, inl, inr, ◌⊎◌, ◌++◌, zero, suc, true, ℕ, Bool, false, not, ◌&&◌, ◌||◌, Option, none,
  some, List, [], ◌∷◌, leb, nat_beq, if◌then◌else◌, ◌==◌, nat_eq, length, any, all, String,
}
use miakapp_server.Text.{Text, codes, text_eq}
use miakapp_server.GoMap.{insert, contains, is_some, Set, Map, get_or}
use miakapp_server.Auth.Keys.Errors.{
  member_not_a_string, invalid_member, duplicate_key_id, duplicate_member, not_closed,
  trailing_json, unknown_member, too_many_keys, key_not_an_object, keys_not_an_array,
  keys_incomplete, not_an_object, object_incomplete, Result, ok, error, Failure, key_incomplete,
  invalid_public_key, invalid_profile,
}

-- What decoder.Token returns: a delimiter, a string, another value, io.EOF or another error.
pub data Token : Type 0 where
  delimiter : ℕ → Token
  string : Text → Token
  value end_of_input failure : Token

-- encoding/json and base64.RawURLEncoding
pub record Codecs : Type 1 where
  pub Decoder : Type 0
  pub new_decoder : Text → Decoder
  pub token : Decoder → Token × Decoder
  pub more : Decoder → Bool
  pub decode_string : Decoder → Option Text × Decoder
  pub base64_decode : Text → Option Text
  pub base64_encode : Text → Text

-- controlplane.PublicJWK
pub record PublicJwk : Type 0 where
  pub kty : Text
  pub kid : Text
  pub key_use : Text
  pub alg : Text
  pub crv : Text
  pub x : Text

-- A result, or `none` when the fuel has run out.
abbrev pub Run : Type 0 → Type 0
Run A = Option (Result A)

infix 20 ◌>>>◌
abbrev pub ◌>>>◌ : {A B : Type 0} → Run A → (A → Run B) → Run B
none >>> k = none
some (ok a) >>> k = k a
some (error e) >>> k = some (error e)

pub Run-cases :
    {A : Type 0} (r : Run A)
    → (r ≡ none) ⊎ (((e : Failure) × (r ≡ some (error e))) ⊎ ((a : A) × (r ≡ some (ok a))))
Run-cases none = inl refl
Run-cases (some (error e)) = inr (inl (e, refl))
Run-cases (some (ok a)) = inr (inr (a, refl))

abbrev pub refuse : {A : Type 0} → Failure → Run A
refuse e = some (error e)

abbrev pub is_delimiter : ℕ → Token → Bool
is_delimiter c (delimiter d) = nat_beq c d
is_delimiter c _ = false

abbrev pub is_keys_member : Token → Bool
is_keys_member (string name) = name == codes "keys"
is_keys_member _ = false

-- `errors.Is(err, io.EOF)`
abbrev pub is_end : Token → Bool
is_end end_of_input = true
is_end _ = false

abbrev pub maximum_public_keys : ℕ
maximum_public_keys = 16

unfoldable pub valid_key_id : Text → Bool
valid_key_id kid =
    not (kid == []) && leb (length kid) 128 && all (λ c. leb 0x21 c && leb c 0x7e) kid

abbrev pub allowed : List Text
allowed = codes "kty" ∷ codes "kid" ∷ codes "use" ∷ codes "alg" ∷ codes "crv" ∷ codes "x" ∷ []

abbrev pub is_allowed : Text → Bool
is_allowed name = any (λ other. other == name) allowed

-- values[name] of the members read so far
abbrev pub member : String → Map Text Text → Text
member name values = get_or (codes name) [] values

module _ (codecs : Codecs) where
  -- `len(decodedX) != 32` and the comparison with what it encodes to
  unfoldable pub valid_public_key : Text → Bool
  valid_public_key x = elim (codecs.base64_decode x) [
    | none ↦ false
    | some bytes ↦ nat_beq (length bytes) 32 && codecs.base64_encode bytes == x
  ]

  unfoldable pub valid_profile : Map Text Text → Bool
  valid_profile values =
      member "kty" values == codes "OKP"
      && member "crv" values == codes "Ed25519"
      && member "use" values == codes "sig"
      && member "alg" values == codes "EdDSA"
      && valid_key_id (member "kid" values)

  -- The checks after the loop of decodeControlPlaneKey.
  unfoldable pub finish_key : Map Text Text → codecs.Decoder → Run (PublicJwk × codecs.Decoder)
  finish_key values decoder =
      let (closing, after) = codecs.token decoder in
      if not (is_delimiter b'}' closing) || not (nat_beq (length values) 6)
      then refuse key_incomplete
      else if not (valid_public_key (member "x" values))
      then refuse invalid_public_key
      else if not (valid_profile values)
      then refuse invalid_profile
      else some (
          ok (
            record {
              kty = member "kty" values;
              kid = member "kid" values;
              key_use = member "use" values;
              alg = member "alg" values;
              crv = member "crv" values;
              x = member "x" values;
            },
            after,
          ))

  -- The loop of decodeControlPlaneKey.
  unfoldable pub read_members :
      ℕ → Map Text Text → codecs.Decoder → Run (Map Text Text × codecs.Decoder)
  read_members zero values decoder = none
  read_members (suc fuel) values decoder =
      let (read, after) = codecs.token decoder in
      let (decoded, next) = codecs.decode_string after in
      if not (codecs.more decoder) then some (ok (values, decoder)) else elim read [
        | string name ↦
            if not (is_allowed name)
            then refuse unknown_member
            else if contains name values
            then refuse duplicate_member
            else elim decoded [
              | none ↦ refuse member_not_a_string
              | some text ↦ read_members fuel (insert name text values) next
            ]
        | _ ↦ refuse invalid_member
      ]

  unfoldable pub decode_key : codecs.Decoder → Run (PublicJwk × codecs.Decoder)
  decode_key decoder =
      let (opening, after) = codecs.token decoder in
      if not (is_delimiter b'{' opening)
      then refuse key_not_an_object
      else read_members 7 [] after >>> λ read. finish_key read.0 read.1

  -- The loop of decodeControlPlaneKeys; `kids` is the set of the key IDs seen.
  unfoldable pub read_keys :
      ℕ → List PublicJwk → Set Text → codecs.Decoder → Run (List PublicJwk × codecs.Decoder)
  read_keys zero keys kids decoder = none
  read_keys (suc fuel) keys kids decoder =
      if not (codecs.more decoder)
      then some (ok (keys, decoder))
      else if leb maximum_public_keys (length keys)
      then refuse too_many_keys
      else elim (decode_key decoder) [
        | none ↦ none
        | some (error e) ↦ refuse e
        | some (ok (key, after)) ↦
            if contains key.kid kids
            then refuse duplicate_key_id
            else read_keys fuel (keys ++ (key ∷ [])) (insert key.kid tt kids) after
      ]

  -- The checks after it.
  unfoldable pub finish_keys :
      List PublicJwk → codecs.Decoder → Run (List PublicJwk × codecs.Decoder)
  finish_keys keys decoder =
      let (closing, after) = codecs.token decoder in
      if not (is_delimiter b']' closing) || nat_beq (length keys) 0
      then refuse keys_incomplete
      else some (ok (keys, after))

  unfoldable pub decode_keys : codecs.Decoder → Run (List PublicJwk × codecs.Decoder)
  decode_keys decoder =
      let (opening, after) = codecs.token decoder in
      if not (is_delimiter b'[' opening)
      then refuse keys_not_an_array
      else read_keys 17 [] [] after >>> λ read. finish_keys read.0 read.1

  -- The loop of decodeControlPlaneJWKS; `seen` holds the keys once the member has been read.
  unfoldable pub read_document :
      ℕ → Option (List PublicJwk) → codecs.Decoder → Run (Option (List PublicJwk) × codecs.Decoder)
  read_document zero seen decoder = none
  read_document (suc fuel) seen decoder =
      let (read, after) = codecs.token decoder in
      if not (codecs.more decoder)
      then some (ok (seen, decoder))
      else if not (is_keys_member read) || is_some seen
      then refuse not_closed
      else elim (decode_keys after) [
        | none ↦ none
        | some (error e) ↦ refuse e
        | some (ok (keys, next)) ↦ read_document fuel (some keys) next
      ]

  -- The checks after it, with requireJSONEOF.
  unfoldable pub finish_document : Option (List PublicJwk) → codecs.Decoder → Run (List PublicJwk)
  finish_document none decoder = refuse object_incomplete
  finish_document (some keys) decoder =
      let (closing, after) = codecs.token decoder in
      if not (is_delimiter b'}' closing)
      then refuse object_incomplete
      else if not (is_end (codecs.token after).0)
      then refuse trailing_json
      else some (ok keys)

  unfoldable pub decode_jwks : Text → Run (List PublicJwk)
  decode_jwks body =
      let (opening, after) = codecs.token (codecs.new_decoder body) in
      if not (is_delimiter b'{' opening)
      then refuse not_an_object
      else read_document 2 none after >>> λ read. finish_document read.0 read.1
