-- ===== src/Auth/Keys/Document/Accepted.antt =====
-- What a key document that decodeControlPlaneJWKS accepts holds.
use miakapp_server.Prelude.{
  none, zero, Option, ℕ, ◌≤◌, ◌<◌, ◌≡◌, refl, sym, subst, ◌∙◌, inl, inr, Bool, false, ◌||◌, some,
  List, [], ◌∷◌, ◌++◌, arith, Bool-cases, ◌==◌, nat_eq, length, any, All, length-append,
}
use miakapp_server.Text.{Text, text_eq, text_beq_iff}
use miakapp_server.GoMap.{lookup, Set, contains, insert, lookup-insert}
use miakapp_server.Auth.Keys.Errors.{ok}
use miakapp_server.Auth.Keys.Document.{
  none, finish_document, decode_jwks, suc, Option, finish_keys, ℕ, decode_keys, read_keys,
  read_document, Codecs, PublicJwk, Run-cases, decode_key,
}
use miakapp_server.Auth.Keys.Document.Profile.{IsAcceptedKey, decode_key-IsAcceptedKey}

abbrev pub has_kid : Text → List PublicJwk → Bool
has_kid kid keys = any (λ key. key.kid == kid) keys

-- No two keys share an identifier.
abbrev pub DistinctKids : List PublicJwk → Type 0
DistinctKids [] = Unit
DistinctKids (key ∷ keys) = (has_kid key.kid keys ≡ false) × DistinctKids keys

pub record IsAcceptedSet (codecs : Codecs) (keys : List PublicJwk) : Type 0 where
  pub nonempty : 1 ≤ length keys
  pub bounded : length keys ≤ 16
  pub distinct : DistinctKids keys
  pub accepted : All (IsAcceptedKey codecs) keys

has_kid-append :
    (kid : Text) (keys : List PublicJwk) (key : PublicJwk)
    → has_kid kid (keys ++ (key ∷ [])) ≡ (has_kid kid keys || key.kid == kid)
has_kid-append kid [] key = ground arith
has_kid-append kid (other ∷ keys) key = ground (arith, has_kid-append kid keys key)

DistinctKids-append :
    (keys : List PublicJwk) (key : PublicJwk)
    → DistinctKids keys
    → has_kid key.kid keys ≡ false
    → DistinctKids (keys ++ (key ∷ []))
DistinctKids-append [] key d n = (refl, tt)
DistinctKids-append (other ∷ keys) key d n = (
  ground (
    arith,
    has_kid-append other.kid keys key,
    text_beq_iff key.kid other.kid,
    text_beq_iff other.kid key.kid,
  ),
  DistinctKids-append keys key d.1 (ground arith),
)

module _ (codecs : Codecs) where
  All-append :
      (keys : List PublicJwk) (key : PublicJwk)
      → All (IsAcceptedKey codecs) keys
      → IsAcceptedKey codecs key
      → All (IsAcceptedKey codecs) (keys ++ (key ∷ []))
  All-append [] key h p = (p, tt)
  All-append (other ∷ keys) key h p = (h.0, All-append keys key h.1 p)

  -- The kids that the loop has seen are those of its keys.
  record IsRead (keys : List PublicJwk) (kids : Set Text) : Type 0 where
    bounded : length keys ≤ 16
    distinct : DistinctKids keys
    accepted : All (IsAcceptedKey codecs) keys
    seen : (kid : Text) → contains kid kids ≡ has_kid kid keys

  IsRead-append :
      (keys : List PublicJwk) (kids : Set Text) (key : PublicJwk)
      → IsRead keys kids
      → IsAcceptedKey codecs key
      → length keys < 16
      → contains key.kid kids ≡ false
      → IsRead (keys ++ (key ∷ [])) (insert key.kid tt kids)
  IsRead-append keys kids key r p bound fresh = record {
    bounded = omega (arith, bound, length-append keys (key ∷ []));
    distinct = DistinctKids-append keys key r.distinct (sym (r.seen key.kid) ∙ fresh);
    accepted = All-append keys key r.accepted p;
    seen = λ kid. ground (
      arith,
      lookup-insert key.kid kid tt kids,
      has_kid-append kid keys key,
      r.seen kid,
      Bool-cases (key.kid == kid),
    );
  }

  read_keys-IsRead :
      (fuel : ℕ) (keys : List PublicJwk) (kids : Set Text) (decoder : codecs.Decoder)
      (read : List PublicJwk × codecs.Decoder)
      → IsRead keys kids
      → read_keys codecs fuel keys kids decoder ≡ some (ok read)
      → (all_kids : Set Text) × IsRead read.0 all_kids
  unfolding read_keys
  read_keys-IsRead zero keys kids decoder read r h = absurd (ground arith)
  read_keys-IsRead (suc fuel) keys kids decoder read r h = elim (Bool-cases (codecs.more decoder)) [
    | inr stop ↦
        let same : keys ≡ read.0 = ground (arith, stop) in
        (kids, subst (λ ks. IsRead ks kids) same r)
    | inl more ↦ elim (Run-cases (decode_key codecs decoder)) [
      | inl e ↦ absurd (ground (arith, e, more))
      | inr (inl (reason, e)) ↦ absurd (ground (arith, e, more))
      | inr (inr ((key, after), e)) ↦
          let room : length keys < 16 = ground (arith, e, more) in
          let fresh : contains key.kid kids ≡ false = ground (arith, e, more) in
          let next =
            IsRead-append keys kids key r (decode_key-IsAcceptedKey codecs decoder after key e) room
              fresh in
          read_keys-IsRead fuel (keys ++ (key ∷ [])) (insert key.kid tt kids) after read next
            (ground (arith, e, more, room, fresh))
    ]
  ]

  nothing-IsRead : IsRead [] []
  unfolding lookup
  nothing-IsRead = record {
    bounded = omega arith;
    distinct = tt;
    accepted = tt;
    seen = λ kid. refl;
  }

  finish_keys-IsAcceptedSet :
      (read keys : List PublicJwk) (decoder after : codecs.Decoder)
      → length read ≤ 16
      → DistinctKids read
      → All (IsAcceptedKey codecs) read
      → finish_keys codecs read decoder ≡ some (ok (keys, after))
      → IsAcceptedSet codecs keys
  unfolding finish_keys
  finish_keys-IsAcceptedSet read keys decoder after b d a h =
      let same : read ≡ keys = ground arith in
      let some_key : 1 ≤ length read = ground arith in
      subst (IsAcceptedSet codecs) same
        (record { nonempty = some_key; bounded = b; distinct = d; accepted = a })

  decode_keys-IsAcceptedSet :
      (decoder after : codecs.Decoder) (keys : List PublicJwk)
      → decode_keys codecs decoder ≡ some (ok (keys, after))
      → IsAcceptedSet codecs keys
  unfolding decode_keys finish_keys
  decode_keys-IsAcceptedSet decoder after keys h =
      elim (Run-cases (read_keys codecs 17 [] [] (codecs.token decoder).1)) [
        | inl e ↦ absurd (ground (arith, e))
        | inr (inl (reason, e)) ↦ absurd (ground (arith, e))
        | inr (inr (read, e)) ↦
            let (_, r) = read_keys-IsRead 17 [] [] (codecs.token decoder).1 read nothing-IsRead e in
            let kept : finish_keys codecs read.0 read.1 ≡ some (ok (keys, after)) =
              ground (arith, e) in
            finish_keys-IsAcceptedSet read.0 keys read.1 after r.bounded r.distinct r.accepted kept
      ]

  read_document-IsAcceptedSet :
      (fuel : ℕ) (seen found : Option (List PublicJwk)) (decoder after : codecs.Decoder)
      (keys : List PublicJwk)
      → ((ks : List PublicJwk) → seen ≡ some ks → IsAcceptedSet codecs ks)
      → read_document codecs fuel seen decoder ≡ some (ok (found, after))
      → found ≡ some keys
      → IsAcceptedSet codecs keys
  unfolding read_document
  read_document-IsAcceptedSet zero seen found decoder after keys v h f = absurd (ground arith)
  read_document-IsAcceptedSet (suc fuel) seen found decoder after keys v h f =
      elim (Bool-cases (codecs.more decoder)) [
        | inr stop ↦ v keys (ground (arith, stop))
        | inl more ↦ elim (Run-cases (decode_keys codecs (codecs.token decoder).1)) [
          | inl e ↦ absurd (ground (arith, e, more))
          | inr (inl (reason, e)) ↦ absurd (ground (arith, e, more))
          | inr (inr ((ks, next), e)) ↦
              let good = decode_keys-IsAcceptedSet (codecs.token decoder).1 next ks e in
              read_document-IsAcceptedSet fuel (some ks) found next after keys
                (λ others same. subst (IsAcceptedSet codecs) (ground (arith, same)) good)
                (ground (arith, e, more)) f
        ]
      ]

  finish_document_found :
      (seen : Option (List PublicJwk)) (decoder : codecs.Decoder) (keys : List PublicJwk)
      → finish_document codecs seen decoder ≡ some (ok keys)
      → seen ≡ some keys
  unfolding finish_document
  finish_document_found none decoder keys h = absurd (ground arith)
  finish_document_found (some found) decoder keys h = ground arith

  -- A key document that is accepted holds between one and 16 keys with identifiers of their own,
  -- each of them an Ed25519 signature key of the required profile.
  pub decode_jwks-IsAcceptedSet :
      (body : Text) (keys : List PublicJwk)
      → decode_jwks codecs body ≡ some (ok keys)
      → IsAcceptedSet codecs keys
  unfolding decode_jwks
  decode_jwks-IsAcceptedSet body keys h =
      let opened = codecs.token (codecs.new_decoder body) in
      elim (Run-cases (read_document codecs 2 none opened.1)) [
        | inl e ↦ absurd (ground (arith, e))
        | inr (inl (reason, e)) ↦ absurd (ground (arith, e))
        | inr (inr ((found, after), e)) ↦
            let done : finish_document codecs found after ≡ some (ok keys) = ground (arith, e) in
            read_document-IsAcceptedSet 2 none found opened.1 after keys
              (λ ks same. absurd (ground (arith, same))) e
              (finish_document_found found after keys done)
      ]
