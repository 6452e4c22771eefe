-- ===== src/Auth/Keys/Errors.antt =====
-- The errors of internal/auth/key_cache.go, one constructor for each message, and its results.
use miakapp_server.Prelude.{◌≡◌, refl, inl, inr, ◌⊎◌}

pub data Failure : Type 0 where
  -- responseCacheTTL and cacheDirectiveValue
  invalid_cache_control duplicate_directive empty_value invalid_quoted_value invalid_value
        no_positive_max_age policy_mismatch invalid_age already_stale :
      Failure
  -- canonicalETag
  no_bounded_etag invalid_etag : Failure
  -- readBoundedBody and rejectUnpairedSurrogateEscapes
  unreadable_body unusable_body unpaired_surrogate : Failure
  -- decodeControlPlaneJWKS and its parts
  not_an_object not_closed object_incomplete trailing_json : Failure
  keys_not_an_array too_many_keys duplicate_key_id keys_incomplete : Failure
  key_not_an_object invalid_member unknown_member duplicate_member member_not_a_string
        key_incomplete invalid_public_key invalid_profile :
      Failure
  -- keySource.fetch
  unsolicited_304 non_empty_304 unexpected_status non_json_content request_failed : Failure
  -- keyCache.load
  not_modified_without_keys rate_limited cancelled : Failure

pub data Result (A : Type 0) : Type 0 where
  ok : A → Result A
  error : Failure → Result A

infix 20 ◌>>=◌
-- `if err != nil { return ..., err }`
abbrev pub ◌>>=◌ : {A B : Type 0} → Result A → (A → Result B) → Result B
ok a >>= k = k a
error e >>= k = error e

pub Result-cases :
    {A : Type 0} (r : Result A) → ((e : Failure) × (r ≡ error e)) ⊎ ((a : A) × (r ≡ ok a))
Result-cases (ok a) = inr (a, refl)
Result-cases (error e) = inl (e, refl)
