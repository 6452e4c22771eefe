-- ===== src/Auth/Keys/Fetch/Confirmed.antt =====
-- What a fetch that succeeds confirms.
use miakapp_server.Auth.Keys.Headers.Policy.{response_cache_ttl-IsRequiredPolicy}
use miakapp_server.Prelude.{
  nat_beq, Bool-cases, Option, ℕ, ◌≤◌, ◌≡◌, subst, ◌≢◌, inl, inr, true, false, none, some, [],
  arith, Option-cases, nat_eq,
}
use miakapp_server.Text.{Text, text_eq, text_beq_iff}
use miakapp_server.Auth.Keys.Errors.{Result-cases, ok}
use miakapp_server.Auth.Keys.Headers.{response_cache_ttl, canonical_etag}
use miakapp_server.Auth.Keys.Document.{Run-cases, decode_jwks}
use miakapp_server.Auth.Keys.Document.Accepted.{IsAcceptedSet, decode_jwks-IsAcceptedSet}
use miakapp_server.Auth.Keys.Document.Termination.{decode_jwks_ends}
use miakapp_server.Auth.Keys.Fetch.{
  nat_beq, Bool-cases, Option, response_cache_ttl, fetch, Body, Response, Library, FetchResult,
  read_bounded_body, fetch_not_modified, fetch_document, read_all,
}

-- A result that may be cached.
pub record IsConfirmed (library : Library) (etag : Text) (result : FetchResult) : Type 0 where
  pub ttl_positive : 1_000_000_000 ≤ result.ttl
  pub ttl_bounded : result.ttl ≤ 60_000_000_000
  pub unchanged : result.not_modified ≡ true → (etag ≢ []) × (result.etag ≡ etag)
  pub changed : result.not_modified ≡ false → IsAcceptedSet library.codecs result.keys

module _ (library : Library) where
  fetch_not_modified_parts :
      (etag : Text) (ttl : ℕ) (body : Body) (result : FetchResult)
      → fetch_not_modified library etag ttl body ≡ ok result
      → (result.ttl ≡ ttl) × (result.not_modified ≡ true) × (etag ≢ []) × (result.etag ≡ etag)
  unfolding fetch_not_modified
  fetch_not_modified_parts etag ttl body result h =
      ground (arith, text_beq_iff etag [], Option-cases (read_all body))

  fetch_document_parts :
      (ttl : ℕ) (response : Response) (result : FetchResult)
      → fetch_document library ttl response ≡ some (ok result)
      → (result.ttl ≡ ttl)
        × (result.not_modified ≡ false)
        × IsAcceptedSet library.codecs result.keys
  unfolding fetch_document
  fetch_document_parts ttl response result h =
      elim (Result-cases (read_bounded_body library response.body)) [
        | inl (reason, e) ↦ absurd (ground (arith, e))
        | inr (body, e) ↦
            elim (Result-cases (canonical_etag library.strings response.header.etag)) [
              | inl (reason, f) ↦ absurd (ground (arith, e, f))
              | inr (etag, f) ↦ elim (Run-cases (decode_jwks library.codecs body)) [
                | inl g ↦ absurd (ground (arith, e, f, g))
                | inr (inl (reason, g)) ↦ absurd (ground (arith, e, f, g))
                | inr (inr (keys, g)) ↦
                    let same : keys ≡ result.keys = ground (arith, e, f, g) in
                    (
                      ground (arith, e, f, g),
                      ground (arith, e, f, g),
                      subst (IsAcceptedSet library.codecs) same
                          (decode_jwks-IsAcceptedSet library.codecs body keys g),
                    )
              ]
            ]
      ]

  fetch_document_ends : (ttl : ℕ) (response : Response) → fetch_document library ttl response ≢ none
  unfolding fetch_document
  fetch_document_ends ttl response = elim (Result-cases (read_bounded_body library response.body)) [
    | inl (reason, e) ↦ ground (arith, e)
    | inr (body, e) ↦ elim (Result-cases (canonical_etag library.strings response.header.etag)) [
      | inl (reason, f) ↦ ground (arith, e, f)
      | inr (etag, f) ↦ ground (
        arith,
        e,
        f,
        decode_jwks_ends library.codecs body,
        Run-cases (decode_jwks library.codecs body),
      )
    ]
  ]

  response_parts :
      (etag : Text) (response : Response) (ttl : ℕ) (result : FetchResult)
      → response_cache_ttl library.strings response.header ≡ ok ttl
      → fetch library etag (some response) ≡ some (ok result)
      → (result.ttl ≡ ttl)
        × (result.not_modified ≡ true → (etag ≢ []) × (result.etag ≡ etag))
        × (result.not_modified ≡ false → IsAcceptedSet library.codecs result.keys)
  unfolding fetch
  response_parts etag response ttl result e h = elim (Bool-cases (nat_beq response.status 304)) [
    | inl s ↦
        let kept : fetch_not_modified library etag ttl response.body ≡ ok result =
          ground (arith, e, s) in
        let p = fetch_not_modified_parts etag ttl response.body result kept in
        (p.0, (λ m. (p.2, p.3)), (λ m. absurd (ground (arith, p.1, m))))
    | inr s ↦
        let kept : fetch_document library ttl response ≡ some (ok result) = ground (arith, e, s) in
        let p = fetch_document_parts ttl response result kept in
        (p.0, (λ m. absurd (ground (arith, p.1, m))), (λ m. p.2))
  ]

  -- A fetch that succeeds brings a lifetime between a second and a minute, and either the answer
  -- that the keys named by the entity tag still hold, or a set of one to 16 accepted keys.
  pub fetch-IsConfirmed :
      (etag : Text) (response : Option Response) (result : FetchResult)
      → fetch library etag response ≡ some (ok result)
      → IsConfirmed library etag result
  unfolding fetch
  fetch-IsConfirmed etag none result h = absurd (ground arith)
  fetch-IsConfirmed etag (some response) result h =
      elim (Result-cases (response_cache_ttl library.strings response.header)) [
        | inl (reason, e) ↦ absurd (ground (arith, e))
        | inr (ttl, e) ↦
            let p = response_parts etag response ttl result e h in
            let b = response_cache_ttl-IsRequiredPolicy library.strings response.header ttl e in
            record {
              ttl_positive = omega (arith, p.0, b.0);
              ttl_bounded = omega (arith, p.0, b.1);
              unchanged = p.1;
              changed = p.2;
            }
      ]

  -- Whatever the response is, a fetch comes to an end.
  pub fetch_ends : (etag : Text) (response : Option Response) → fetch library etag response ≢ none
  unfolding fetch
  fetch_ends etag none = ground arith
  fetch_ends etag (some response) =
      elim (Result-cases (response_cache_ttl library.strings response.header)) [
        | inl (reason, e) ↦ ground (arith, e)
        | inr (ttl, e) ↦ ground (arith, e, fetch_document_ends ttl response)
      ]
