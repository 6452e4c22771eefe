-- ===== src/Auth/Identity.antt =====
-- internal/auth/auth.go: roles, requests, identities and `ValidateBinding`. Times are nanoseconds
-- since the Unix epoch. `utf8.ValidString` and `unicode.IsControl` over the runes of a string are
-- one parameter, `Unicode.printable`.
use miakapp_server.Prelude.{
  ℕ, ◌/◌, Bool, true, false, not, ◌&&◌, ◌||◌, Option, none, some, [], if◌then◌else◌, ltb, leb,
  nat_beq, length, ◌==◌, ◌!=◌,
}
use miakapp_server.GoMap.{Set, contains}
use miakapp_server.Text.{Text, codes, text_eq}

-- `other n` is a number that names no role.
pub data Role : Type 0 where
  user coordinator cli : Role
  other : ℕ → Role

abbrev pub role_beq : Role → Role → Bool
role_beq user user = true
role_beq coordinator coordinator = true
role_beq cli cli = true
role_beq (other m) (other n) = nat_beq m n
role_beq _ _ = false

pub record Request : Type 0 where
  pub role : Role
  pub token : Text
  pub home_id : Text
  pub coordinator_name : Text

pub record Identity : Type 0 where
  pub role : Role
  pub home_id : Text
  pub id : Text
  pub client_id : Text
  pub coordinator_name : Text
  pub verified_email : Text
  pub expires_at : ℕ
  pub scopes : Set Text

-- The tuple that the relay forwards; an absent field is nil.
pub record Principal : Type 0 where
  pub role : Role
  pub id : Text
  pub session_id : ℕ
  pub coordinator : Option Text
  pub email : Option Text

abbrev pub nonempty : Text → Option Text
nonempty s = if s == [] then none else some s

unfoldable pub principal : Identity → ℕ → Principal
principal identity session_id = record {
  role = identity.role;
  id = identity.id;
  session_id = session_id;
  coordinator = nonempty identity.coordinator_name;
  email = nonempty identity.verified_email;
}

pub data ErrorKind : Type 0 where
  rejected expired audience temporary : ErrorKind

pub record Unicode : Type 0 where
  pub printable : Text → Bool

unfoldable pub valid_identity_value : Unicode → Text → ℕ → Bool
valid_identity_value unicode value maximum_bytes =
    if value == [] || ltb maximum_bytes (length value) then false else unicode.printable value

abbrev pub expected_scope : Role → Option Text
expected_scope user = some (codes "relay:user")
expected_scope coordinator = some (codes "relay:coordinator")
expected_scope cli = some (codes "relay:cli")
expected_scope (other n) = none

-- The checks that depend on the role of a user, and those on a Home Key role.
unfoldable pub user_binding_failure : Request → Identity → Option ErrorKind
user_binding_failure request identity =
    if identity.client_id != []
    then some rejected
    else if request.home_id == [] || identity.home_id != request.home_id
    then some rejected
    else none

unfoldable pub home_key_binding_failure : Unicode → Request → Identity → Option ErrorKind
unfolding valid_identity_value
home_key_binding_failure unicode request identity =
    if not (valid_identity_value unicode identity.client_id 128)
    then some rejected
    else if request.home_id != [] && identity.home_id != request.home_id
    then some rejected
    else if identity.verified_email != []
    then some rejected
    else none

unfoldable pub coordinator_failure : Request → Identity → Option ErrorKind
coordinator_failure request identity =
    if role_beq request.role coordinator
    then (if identity.coordinator_name != request.coordinator_name then some rejected else none)
    else if identity.coordinator_name != []
    then some rejected
    else none

-- UnixMilli of a time.
abbrev pub unix_milli : ℕ → ℕ
unix_milli t = t / 1_000_000

abbrev pub max_safe_integer : ℕ
max_safe_integer = 9_007_199_254_740_991

unfoldable pub expiry_failure : Unicode → Identity → ℕ → Option ErrorKind
unfolding valid_identity_value
expiry_failure unicode identity now =
    if leb identity.expires_at now
    then some expired
    else if leb (unix_milli identity.expires_at) 0
        || ltb max_safe_integer (unix_milli identity.expires_at)
    then some rejected
    else if identity.verified_email != []
        && not (valid_identity_value unicode identity.verified_email 320)
    then some rejected
    else none

unfoldable pub scope_failure : Identity → Option ErrorKind
scope_failure identity = elim (expected_scope identity.role) [
  | none ↦ some rejected
  | some scope ↦
      if not (contains scope identity.scopes) || not (nat_beq (length identity.scopes) 1)
      then some rejected
      else none
]

-- The first failure of two checks.
infixr 30 ◌otherwise◌
abbrev pub ◌otherwise◌ : Option ErrorKind → Option ErrorKind → Option ErrorKind
none otherwise next = next
(some e) otherwise next = some e

unfoldable pub validate_binding : Unicode → Request → Identity → ℕ → Option ErrorKind
unfolding user_binding_failure home_key_binding_failure coordinator_failure expiry_failure
    scope_failure
validate_binding unicode request identity now =
    if not (role_beq identity.role request.role)
    then some rejected
    else if not (valid_identity_value unicode identity.home_id 128)
        || not (valid_identity_value unicode identity.id 128)
    then some rejected
    else scope_failure identity
      otherwise (if role_beq identity.role user
          then user_binding_failure request identity
          else home_key_binding_failure unicode request identity)
      otherwise coordinator_failure request identity
      otherwise expiry_failure unicode identity now
