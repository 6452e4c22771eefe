-- ===== src/Auth/Keys/Document/Profile.antt =====
-- What a key that decodeControlPlaneKey accepts has.
use miakapp_server.Prelude.{
  ◌≡◌, subst, inl, inr, true, some, [], arith, Option-cases, nat_eq, length,
}
use miakapp_server.Text.{Text, codes, text_eq, text_beq_iff}
use miakapp_server.GoMap.{Map}
use miakapp_server.Auth.Keys.Errors.{ok}
use miakapp_server.Auth.Keys.Document.{
  Codecs, PublicJwk, Run-cases, valid_public_key, valid_profile, valid_key_id, finish_key,
  read_members, decode_key, member,
}

-- A key of the required profile: an Ed25519 key for signatures, whose identifier is valid and whose
-- value is the one encoding of 32 bytes.
pub record IsAcceptedKey (codecs : Codecs) (key : PublicJwk) : Type 0 where
  pub kty : key.kty ≡ codes "OKP"
  pub crv : key.crv ≡ codes "Ed25519"
  pub key_use : key.key_use ≡ codes "sig"
  pub alg : key.alg ≡ codes "EdDSA"
  pub kid : valid_key_id key.kid ≡ true
  pub x :
      (bytes : Text) × (codecs.base64_decode key.x ≡ some bytes)
      × (length bytes ≡ 32)
      × (codecs.base64_encode bytes ≡ key.x)

-- The key that the members name.
unfoldable key_of : Map Text Text → PublicJwk
key_of values = record {
  kty = member "kty" values;
  kid = member "kid" values;
  key_use = member "use" values;
  alg = member "alg" values;
  crv = member "crv" values;
  x = member "x" values;
}

module _ (codecs : Codecs) where
  valid_public_key_parts :
      (x : Text)
      → valid_public_key codecs x ≡ true
      → (bytes : Text) × (codecs.base64_decode x ≡ some bytes)
        × (length bytes ≡ 32)
        × (codecs.base64_encode bytes ≡ x)
  unfolding valid_public_key
  valid_public_key_parts x h = elim (Option-cases (codecs.base64_decode x)) [
    | inl e ↦ absurd (ground (arith, e))
    | inr (bytes, e) ↦ (
      bytes,
      e,
      ground (arith, e),
      ground (arith, e, text_beq_iff (codecs.base64_encode bytes) x),
    )
  ]

  key_of-IsAcceptedKey :
      (values : Map Text Text)
      → valid_public_key codecs (member "x" values) ≡ true
      → valid_profile codecs values ≡ true
      → IsAcceptedKey codecs (key_of values)
  unfolding valid_profile key_of
  key_of-IsAcceptedKey values x p = record {
    kty = ground (arith, text_beq_iff (member "kty" values) (codes "OKP"));
    crv = ground (arith, text_beq_iff (member "crv" values) (codes "Ed25519"));
    key_use = ground (arith, text_beq_iff (member "use" values) (codes "sig"));
    alg = ground (arith, text_beq_iff (member "alg" values) (codes "EdDSA"));
    kid = ground arith;
    x = valid_public_key_parts (member "x" values) x;
  }

  finish_key_parts :
      (values : Map Text Text) (decoder after : codecs.Decoder) (key : PublicJwk)
      → finish_key codecs values decoder ≡ some (ok (key, after))
      → (valid_public_key codecs (member "x" values) ≡ true)
        × (valid_profile codecs values ≡ true)
        × (key_of values ≡ key)
  unfolding finish_key key_of
  finish_key_parts values decoder after key h = ground arith

  finish_key-IsAcceptedKey :
      (values : Map Text Text) (decoder after : codecs.Decoder) (key : PublicJwk)
      → finish_key codecs values decoder ≡ some (ok (key, after))
      → IsAcceptedKey codecs key
  finish_key-IsAcceptedKey values decoder after key h =
      let p = finish_key_parts values decoder after key h in
      subst (IsAcceptedKey codecs) p.2 (key_of-IsAcceptedKey values p.0 p.1)

  pub decode_key-IsAcceptedKey :
      (decoder after : codecs.Decoder) (key : PublicJwk)
      → decode_key codecs decoder ≡ some (ok (key, after))
      → IsAcceptedKey codecs key
  unfolding decode_key
  decode_key-IsAcceptedKey decoder after key h =
      elim (Run-cases (read_members codecs 7 [] (codecs.token decoder).1)) [
        | inl e ↦ absurd (ground (arith, e))
        | inr (inl (reason, e)) ↦ absurd (ground (arith, e))
        | inr (inr ((values, next), e)) ↦
            finish_key-IsAcceptedKey values next after key (ground (arith, e))
      ]
