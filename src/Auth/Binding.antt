-- ===== src/Auth/Binding.antt =====
-- What a successful binding and a successful verification guarantee.
use miakapp_server.GoMap.{or_else}
use miakapp_server.Auth.Platform.{
  unknown_kid, refused, verified, verify_role, verify, Verification, with_refresh, verify_access,
  finish_access, KeyLibrary, unsupported, home_key_identity, user_access, home_key, granted,
  AccessIdentity, map_access_identity,
}
use miakapp_server.Text.{text_beq, codes, Text, text_beq_iff}
use miakapp_server.Prelude.{
  inr, inl, ◌⊎◌, Option-cases, ◌∷◌, refl, ℕ, ◌≡◌, none, true, false, ◌≤◌, ◌<◌, arith, [], ◌≢◌,
}
use miakapp_server.Auth.Identity.{
  Role, user, coordinator, cli, other, role_beq, Request, Identity, Unicode, validate_binding,
  user_binding_failure, home_key_binding_failure, coordinator_failure, expiry_failure,
  scope_failure, valid_identity_value, unix_milli, max_safe_integer,
}

pub role_beq→eq : (a b : Role) → role_beq a b ≡ true → a ≡ b
role_beq→eq user b h = ground arith
role_beq→eq coordinator b h = ground arith
role_beq→eq cli b h = ground arith
role_beq→eq (other m) b h = ground arith

-- The bindings of one accepted connection.
pub record IsBound (unicode : Unicode) (request : Request) (identity : Identity) (now : ℕ)
    : Type 0 where
  pub same_role : identity.role ≡ request.role
  pub home_valid : valid_identity_value unicode identity.home_id 128 ≡ true
  pub id_valid : valid_identity_value unicode identity.id 128 ≡ true
  pub user_home :
      request.role ≡ user → (identity.home_id ≡ request.home_id) × (identity.client_id ≡ [])
  pub home_key_client :
      request.role ≢ user
      → (valid_identity_value unicode identity.client_id 128 ≡ true)
        × (identity.verified_email ≡ [])
        × ((request.home_id ≡ []) ⊎ (identity.home_id ≡ request.home_id))
  pub selected_coordinator :
      request.role ≡ coordinator → identity.coordinator_name ≡ request.coordinator_name
  pub no_coordinator : request.role ≢ coordinator → identity.coordinator_name ≡ []
  pub alive : now < identity.expires_at
  pub expiry_representable : unix_milli identity.expires_at ≤ max_safe_integer

bound_parts :
    (unicode : Unicode) (request : Request) (identity : Identity) (now : ℕ)
    → validate_binding unicode request identity now ≡ none
    → (role_beq identity.role request.role ≡ true)
      × (valid_identity_value unicode identity.home_id 128 ≡ true)
      × (valid_identity_value unicode identity.id 128 ≡ true)
      × (scope_failure identity ≡ none)
      × ((role_beq identity.role user ≡ true) → user_binding_failure request identity ≡ none)
      × ((role_beq identity.role user ≡ false)
          → home_key_binding_failure unicode request identity ≡ none)
      × (coordinator_failure request identity ≡ none)
      × (expiry_failure unicode identity now ≡ none)
unfolding validate_binding
bound_parts unicode request identity now h = ground arith

user_case :
    (unicode : Unicode) (request : Request) (identity : Identity)
    → identity.role ≡ request.role
    → request.role ≡ user
    → user_binding_failure request identity ≡ none
    → (identity.home_id ≡ request.home_id) × (identity.client_id ≡ [])
unfolding user_binding_failure
user_case unicode request identity r e h =
    ground
      (arith, text_beq_iff identity.home_id request.home_id, text_beq_iff identity.client_id [])

home_key_case :
    (unicode : Unicode) (request : Request) (identity : Identity)
    → home_key_binding_failure unicode request identity ≡ none
    → (valid_identity_value unicode identity.client_id 128 ≡ true)
      × (identity.verified_email ≡ [])
      × ((request.home_id ≡ []) ⊎ (identity.home_id ≡ request.home_id))
unfolding home_key_binding_failure
home_key_case unicode request identity h = ground (
  arith,
  text_beq_iff identity.verified_email [],
  text_beq_iff request.home_id [],
  text_beq_iff identity.home_id request.home_id,
)

role_beq_ne : (a : Role) → a ≢ user → role_beq a user ≡ false
role_beq_ne user h = absurd (h refl)
role_beq_ne coordinator h = refl
role_beq_ne cli h = refl
role_beq_ne (other n) h = refl

coordinator_case :
    (request : Request) (identity : Identity)
    → request.role ≡ coordinator
    → coordinator_failure request identity ≡ none
    → identity.coordinator_name ≡ request.coordinator_name
unfolding coordinator_failure
coordinator_case request identity e h =
    ground (arith, text_beq_iff identity.coordinator_name request.coordinator_name)

coordinator_ne : (a : Role) → a ≢ coordinator → role_beq a coordinator ≡ false
coordinator_ne user h = refl
coordinator_ne coordinator h = absurd (h refl)
coordinator_ne cli h = refl
coordinator_ne (other n) h = refl

no_coordinator_case :
    (request : Request) (identity : Identity)
    → request.role ≢ coordinator
    → coordinator_failure request identity ≡ none
    → identity.coordinator_name ≡ []
unfolding coordinator_failure
no_coordinator_case request identity e h =
    ground (arith, coordinator_ne request.role e, text_beq_iff identity.coordinator_name [])

expiry_case :
    (unicode : Unicode) (identity : Identity) (now : ℕ)
    → expiry_failure unicode identity now ≡ none
    → (now < identity.expires_at) × (unix_milli identity.expires_at ≤ max_safe_integer)
unfolding expiry_failure
expiry_case unicode identity now h = ground arith

-- An accepted binding has the role that was requested. A user is bound to the requested home and
-- to no client; a coordinator or CLI has a valid client and no email, and its home is the requested
-- one where the request names a home. The coordinator name is the requested one for a coordinator
-- and empty otherwise, and the material is not expired.
pub validate_binding-IsBound :
    (unicode : Unicode) (request : Request) (identity : Identity) (now : ℕ)
    → validate_binding unicode request identity now ≡ none
    → IsBound unicode request identity now
validate_binding-IsBound unicode request identity now h =
    let p = bound_parts unicode request identity now h in
    let r = role_beq→eq identity.role request.role p.0 in
    record {
      same_role = r;
      home_valid = p.1;
      id_valid = p.2;
      user_home = λ e. user_case unicode request identity r e (p.4 (rw (r, e) refl));
      home_key_client =
          λ n. home_key_case unicode request identity (p.5 (rw r (role_beq_ne request.role n)));
      selected_coordinator = λ e. coordinator_case request identity e p.6;
      no_coordinator = λ n. no_coordinator_case request identity n p.6;
      alive = (expiry_case unicode identity now p.7).0;
      expiry_representable = (expiry_case unicode identity now p.7).1;
    }

-- The scope that a role grants, and no other.
scoped_map :
    (access : AccessIdentity) (profile scope : Text) (identity : Identity)
    → map_access_identity access profile scope ≡ granted identity
    → identity.scopes ≡ (scope, tt) ∷ []
unfolding map_access_identity
scoped_map (home_key a b c d e f g) profile scope identity h = ground arith
scoped_map (user_access a b c d e f) profile scope identity h = ground arith
scoped_map unsupported profile scope identity h = ground arith

-- What a verified token of the requested role yields.
abbrev pub IsVerified : Role → Identity → Type 0
IsVerified user identity =
    (identity.scopes ≡ (codes "relay:user", tt) ∷ [])
    × (identity.role ≡ user)
    × (identity.coordinator_name ≡ [])
    × (identity.client_id ≡ [])
IsVerified coordinator identity =
    (identity.scopes ≡ (codes "relay:coordinator", tt) ∷ [])
    × (identity.role ≡ coordinator)
    × (identity.coordinator_name ≢ [])
    × (identity.verified_email ≡ [])
IsVerified cli identity =
    (identity.scopes ≡ (codes "relay:cli", tt) ∷ [])
    × (identity.role ≡ cli)
    × (identity.coordinator_name ≡ [])
    × (identity.verified_email ≡ [])
IsVerified (other n) identity = ⊥

abbrev profile_of : Role → Text
profile_of user = codes "user"
profile_of coordinator = codes "coordinator"
profile_of cli = codes "cli"
profile_of (other n) = []

abbrev scope_of : Role → Text
scope_of user = codes "relay:user"
scope_of coordinator = codes "relay:coordinator"
scope_of cli = codes "relay:cli"
scope_of (other n) = []

mapped_user :
    (access : AccessIdentity) (identity : Identity)
    → map_access_identity access (codes "user") (codes "relay:user") ≡ granted identity
    → IsVerified user identity
unfolding map_access_identity text_beq
mapped_user (home_key a b c d e f g) identity h = ground arith
mapped_user (user_access a b c d e f) identity h = ground arith
mapped_user unsupported identity h = ground arith

mapped_cli :
    (access : AccessIdentity) (identity : Identity)
    → map_access_identity access (codes "cli") (codes "relay:cli") ≡ granted identity
    → IsVerified cli identity
unfolding map_access_identity home_key_identity
mapped_cli (home_key a b c d e f g) identity h =
    ground (arith, text_beq_iff (codes "cli") (codes "coordinator"), text_beq_iff (or_else c []) [])
mapped_cli (user_access a b c d e f) identity h =
    ground (arith, text_beq_iff (codes "cli") (codes "user"))
mapped_cli unsupported identity h = ground arith

mapped_coordinator :
    (access : AccessIdentity) (identity : Identity)
    → map_access_identity access (codes "coordinator") (codes "relay:coordinator")
      ≡ granted identity
    → IsVerified coordinator identity
unfolding map_access_identity home_key_identity
mapped_coordinator (home_key a b c d e f g) identity h = ground (
  arith,
  text_beq_iff (codes "coordinator") (codes "coordinator"),
  text_beq_iff (or_else c []) [],
)
mapped_coordinator (user_access a b c d e f) identity h =
    ground (arith, text_beq_iff (codes "coordinator") (codes "user"))
mapped_coordinator unsupported identity h = ground arith

finish_mapped :
    (profile scope : Text) (result : Verification) (identity : Identity)
    → finish_access profile scope result ≡ granted identity
    → (access : AccessIdentity) × (map_access_identity access profile scope ≡ granted identity)
unfolding finish_access
finish_mapped profile scope (verified access) identity h = (access, h)
finish_mapped profile scope (refused code) identity h = ground arith

module _ (library : KeyLibrary) where
  refresh_mapped :
      (token profile scope : Text) (result : Verification) (identity : Identity)
      → with_refresh library token profile scope result ≡ granted identity
      → (access : AccessIdentity) × (map_access_identity access profile scope ≡ granted identity)
  unfolding with_refresh
  refresh_mapped token profile scope (refused unknown_kid) identity h =
      elim (Option-cases library.refresh_unknown_kid) [
        | inl e ↦ absurd (ground arith)
        | inr (keys, e) ↦
            finish_mapped profile scope (library.verify_token token profile keys) identity
              (ground arith)
      ]
  refresh_mapped token profile scope (verified a) identity h = (a, h)
  refresh_mapped token profile scope (refused _) identity h = ground arith

  access_mapped :
      (request : Request) (profile scope : Text) (identity : Identity)
      → verify_access library request profile scope ≡ granted identity
      → (access : AccessIdentity) × (map_access_identity access profile scope ≡ granted identity)
  unfolding verify_access
  access_mapped request profile scope identity h = elim (Option-cases library.current) [
    | inl e ↦ absurd (ground arith)
    | inr (keys, e) ↦
        refresh_mapped request.token profile scope (library.verify_token request.token profile keys)
          identity (ground arith)
  ]

  verify_role_lem :
      (role : Role) (request : Request) (identity : Identity)
      → verify_role library role request ≡ granted identity
      → IsVerified role identity
  unfolding verify_role
  verify_role_lem user request identity h =
      let m = access_mapped request (codes "user") (codes "relay:user") identity h in
      mapped_user m.0 identity m.1
  verify_role_lem coordinator request identity h =
      let m = access_mapped request (codes "coordinator") (codes "relay:coordinator") identity h in
      mapped_coordinator m.0 identity m.1
  verify_role_lem cli request identity h =
      let m = access_mapped request (codes "cli") (codes "relay:cli") identity h in
      mapped_cli m.0 identity m.1
  verify_role_lem (other n) request identity h = ground arith

  -- A request whose token is granted gets an identity of exactly the requested role, with the one
  -- scope of that role and no field that belongs to another role.
  pub verify-IsVerified :
      (request : Request) (identity : Identity)
      → verify library request ≡ granted identity
      → IsVerified request.role identity
  unfolding verify
  verify-IsVerified request identity h = verify_role_lem request.role request identity h
