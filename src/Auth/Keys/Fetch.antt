-- ===== src/Auth/Keys/Fetch.antt =====
-- keySource.fetch and readBoundedBody of internal/auth/key_cache.go. The HTTP client, the parser of
-- media types and the test for UTF-8 are parameters.
pub mod Confirmed
use miakapp_server.Prelude.{
  ℕ, zero, suc, ◌+◌, ◌-◌, ◌*◌, ◌/◌, ◌≤◌, ◌<◌, ◌≡◌, refl, sym, ap, subst, ◌∙◌, ◌≢◌, ◌↔◌, ◌⊎◌, inl,
  inr, Bool, true, false, not, ◌&&◌, ◌||◌, Option, none, some, List, [], ◌∷◌, ◌++◌, map, arith, ltb,
  leb, nat_beq, if◌then◌else◌, nat_beq_iff, Bool-cases, Option-cases, Eq, ◌==◌, ◌!=◌, nat_eq,
  length, any, all, All, length-append, String,
}
use miakapp_server.Text.{Text, codes, text_eq}
use miakapp_server.Auth.Keys.Errors.{
  Result, ok, error, unreadable_body, unusable_body, unpaired_surrogate, unsolicited_304,
  non_empty_304, unexpected_status, non_json_content, request_failed,
}
use miakapp_server.Auth.Keys.Surrogates.{surrogates_paired}
use miakapp_server.Auth.Keys.Headers.{Strings, Header, response_cache_ttl, canonical_etag}
use miakapp_server.Auth.Keys.Document.{Codecs, PublicJwk, Run, ◌>>>◌, refuse, decode_jwks}

-- A body that is read up to its end or up to an error.
pub record Body : Type 0 where
  pub content : Text
  pub ends_well : Bool

pub record Response : Type 0 where
  pub status : ℕ
  pub header : Header
  pub body : Body

pub record Library : Type 1 where
  pub strings : Strings
  pub codecs : Codecs
  pub media_type : Text → Option Text
  pub valid_utf8 : Text → Bool

pub record FetchResult : Type 0 where
  pub keys : List PublicJwk
  pub etag : Text
  pub ttl : ℕ
  pub not_modified : Bool

abbrev pub maximum_key_document_bytes : ℕ
maximum_key_document_bytes = 65_536

unfoldable take : ℕ → Text → Text
take zero text = []
take (suc n) [] = []
take (suc n) (c ∷ text) = c ∷ take n text

-- io.ReadAll(io.LimitReader(body, maximumKeyDocumentBytes+1)): an error counts only if it comes
-- before the limit.
unfoldable pub read_all : Body → Option Text
unfolding take
read_all body =
    if ltb maximum_key_document_bytes (length body.content)
    then some (take (suc maximum_key_document_bytes) body.content)
    else if body.ends_well
    then some body.content
    else none

module _ (library : Library) where
  unfoldable pub read_bounded_body : Body → Result Text
  unfolding read_all
  read_bounded_body body = elim (read_all body) [
    | none ↦ error unreadable_body
    | some bytes ↦
        if bytes == []
          || ltb maximum_key_document_bytes (length bytes)
          || not (library.valid_utf8 bytes)
        then error unusable_body
        else if surrogates_paired bytes
        then ok bytes
        else error unpaired_surrogate
  ]

  -- The branch of a 304 response.
  unfoldable pub fetch_not_modified : Text → ℕ → Body → Result FetchResult
  fetch_not_modified etag ttl body =
      if etag == [] then error unsolicited_304 else elim (read_all body) [
        | some [] ↦ ok (record { keys = []; etag = etag; ttl = ttl; not_modified = true })
        | _ ↦ error non_empty_304
      ]

  unfoldable pub is_json : Header → Bool
  is_json header = elim (library.media_type header.content_type) [
    | none ↦ false
    | some media ↦ media == codes "application/json"
  ]

  -- The branch of a 200 response.
  unfoldable pub fetch_document : ℕ → Response → Run FetchResult
  fetch_document ttl response =
      if not (is_json response.header)
      then refuse non_json_content
      else some (read_bounded_body response.body) >>> λ body.
          some (canonical_etag library.strings response.header.etag) >>> λ etag.
          decode_jwks library.codecs body >>> λ keys.
          some (ok (record { keys = keys; etag = etag; ttl = ttl; not_modified = false }))

  -- `response` is what the client returns for a request that carries `etag`; `none` is an error of
  -- the request.
  unfoldable pub fetch : Text → Option Response → Run FetchResult
  fetch etag none = refuse request_failed
  fetch etag (some response) = some (response_cache_ttl library.strings response.header) >>> λ ttl.
      if nat_beq response.status 304
      then some (fetch_not_modified etag ttl response.body)
      else if not (nat_beq response.status 200)
      then refuse unexpected_status
      else fetch_document ttl response
