-- ===== src/Auth/Platform.antt =====
-- internal/auth/platform.go: the choice of profile, and the relay identity that a verified access
-- token yields. The token verifier of the control-plane contract is a parameter.
use miakapp_server.Prelude.{
  ℕ, ◌*◌, Bool, false, not, ◌||◌, Option, none, some, [], ◌∷◌, if◌then◌else◌, ◌==◌, ◌!=◌,
}
use miakapp_server.GoMap.{or_else}
use miakapp_server.Text.{Text, codes, text_eq}
use miakapp_server.Auth.Identity.{
  Role, user, coordinator, cli, other, Request, Identity, ErrorKind, rejected, expired, audience,
  temporary,
}

pub data Access : Type 0 where
  granted : Identity → Access
  failed : ErrorKind → Access

-- controlplane.AccessIdentity, with the fields that the relay reads; `unsupported` is any
-- other dynamic type.
pub data AccessIdentity : Type 0 where
  home_key :
      (scope : Text) (role coordinator_name : Option Text) (home_id principal_id client_id : Text)
      (expires_at : ℕ)
      → AccessIdentity
  user_access :
      (scope role : Text) (verified_email : Option Text) (home_id principal_id : Text)
      (expires_at : ℕ)
      → AccessIdentity
  unsupported : AccessIdentity

-- time.Unix(seconds, 0)
abbrev pub unix : ℕ → ℕ
unix seconds = seconds * 1_000_000_000

abbrev pub is_profile : Option Text → Text → Bool
is_profile none profile = false
is_profile (some role) profile = role == profile

unfoldable pub home_key_identity :
    (profile scope token_scope : Text) (token_role coordinator_name : Option Text)
    (home_id principal_id client_id : Text) (expires_at : ℕ)
    → Access
home_key_identity profile scope token_scope token_role coordinator_name home_id principal_id
      client_id expires_at =
    let name = or_else coordinator_name [] in
    let is_coordinator = profile == codes "coordinator" in
    if profile == codes "user" || token_scope != scope || not (is_profile token_role profile)
    then failed rejected
    else if (if is_coordinator then name == [] else name != [])
    then failed rejected
    else granted (record {
      role = if is_coordinator then coordinator else cli;
      home_id = home_id;
      id = principal_id;
      client_id = client_id;
      coordinator_name = name;
      verified_email = [];
      expires_at = unix expires_at;
      scopes = (scope, tt) ∷ [];
    })

unfoldable pub map_access_identity : AccessIdentity → Text → Text → Access
unfolding home_key_identity
map_access_identity (home_key token_scope role name home_id id client_id expires_at) profile scope =
    home_key_identity profile scope token_scope role name home_id id client_id expires_at
map_access_identity (user_access token_scope role email home_id id expires_at) profile scope =
    if profile != codes "user" || token_scope != scope || role != codes "user"
    then failed rejected
    else granted (record {
      role = user;
      home_id = home_id;
      id = id;
      client_id = [];
      coordinator_name = [];
      verified_email = or_else email [];
      expires_at = unix expires_at;
      scopes = (scope, tt) ∷ [];
    })
map_access_identity unsupported profile scope = failed rejected

-- controlplane.VerificationCode of a refused token.
pub data VerificationCode : Type 0 where
  unknown_kid expired_token invalid_audience other_code : VerificationCode

pub data Verification : Type 0 where
  verified : AccessIdentity → Verification
  refused : VerificationCode → Verification

unfoldable pub verification_failure : VerificationCode → ErrorKind
verification_failure expired_token = expired
verification_failure invalid_audience = audience
verification_failure _ = rejected

-- The key cache and the contract's verifier, as `verifyAccess` uses them: the current keys, the
-- keys after a refresh for an unknown key ID (`none` is a failed fetch), and the token check.
pub record KeyLibrary : Type 1 where
  pub Keys : Type 0
  pub current : Option Keys
  pub refresh_unknown_kid : Option Keys
  pub verify_token : Text → Text → Keys → Verification

unfoldable pub finish_access : Text → Text → Verification → Access
unfolding verification_failure map_access_identity
finish_access profile scope (refused code) = failed (verification_failure code)
finish_access profile scope (verified identity) = map_access_identity identity profile scope

module _ (library : KeyLibrary) where
  open library use {Keys, current, refresh_unknown_kid, verify_token}

  -- A first verdict of `unknown_kid` is replaced by the verdict under refreshed keys.
  unfoldable pub with_refresh : Text → Text → Text → Verification → Access
  unfolding finish_access
  with_refresh token profile scope (refused unknown_kid) = elim refresh_unknown_kid [
    | none ↦ failed temporary
    | some keys ↦ finish_access profile scope (verify_token token profile keys)
  ]
  with_refresh token profile scope result = finish_access profile scope result

  unfoldable pub verify_access : Request → Text → Text → Access
  unfolding with_refresh
  verify_access request profile scope = elim current [
    | none ↦ failed temporary
    | some keys ↦ with_refresh request.token profile scope (verify_token request.token profile keys)
  ]

  unfoldable pub verify_role : Role → Request → Access
  unfolding verify_access
  verify_role coordinator request =
      verify_access request (codes "coordinator") (codes "relay:coordinator")
  verify_role cli request = verify_access request (codes "cli") (codes "relay:cli")
  verify_role user request = verify_access request (codes "user") (codes "relay:user")
  verify_role (other n) request = failed rejected

  unfoldable pub verify : Request → Access
  unfolding verify_role
  verify request = verify_role request.role request
