-- ===== src/Auth/PlatformConfig.antt =====
-- internal/auth/platform_config.go: the URLs that the verifier is pinned to. url.Parse and
-- strings.TrimSpace are parameters, with the parts of a URL that the code reads.
pub mod Pinned
use miakapp_server.Prelude.{
  ◌⊎◌, inl, inr, ℕ, zero, suc, ◌+◌, ◌-◌, ◌*◌, ◌/◌, ◌≤◌, ◌<◌, ◌≡◌, refl, sym, ap, subst, ◌∙◌, ◌≢◌,
  ◌↔◌, ◌⊎◌, inl, inr, Bool, true, false, not, ◌&&◌, ◌||◌, Option, none, some, List, [], ◌∷◌, ◌++◌,
  map, arith, ltb, leb, nat_beq, if◌then◌else◌, nat_beq_iff, Bool-cases, Option-cases, Eq, ◌==◌,
  ◌!=◌, nat_eq, length, any, all, All, length-append, String,
}
use miakapp_server.Text.{Text, codes, text_eq, has_suffix}

pub record PlatformConfig : Type 0 where
  pub issuer : Text
  pub jwks_url : Text
  pub relay_audience : Text

-- `text` is String(), `hostname` Hostname(), `port` Port().
pub record Url : Type 0 where
  pub scheme : Text
  pub host : Text
  pub hostname : Text
  pub port : Text
  pub has_user : Bool
  pub path : Text
  pub raw_path : Text
  pub raw_query : Text
  pub fragment : Text
  pub text : Text

pub record UrlParser : Type 0 where
  pub parse : Text → Option Url
  pub trim_space : Text → Text

pub data UrlError : Type 0 where
  empty_or_overlong invalid_url forbidden_components forbidden_port not_canonical : UrlError

pub data PlatformError : Type 0 where
  bad_issuer bad_jwks_url other_origin bad_relay_audience : PlatformError

pub data Parsed : Type 0 where
  accepted_url : Url → Parsed
  refused_url : UrlError → Parsed

-- The checks on a URL that parses.
unfoldable pub url_failure : Text → Text → Bool → Url → Option UrlError
url_failure raw scheme allow_port parsed =
    if parsed.scheme != scheme || parsed.host == [] || parsed.hostname == []
    then some invalid_url
    else if parsed.has_user
        || parsed.raw_query != []
        || parsed.fragment != []
        || parsed.raw_path != []
    then some forbidden_components
    else if not allow_port && parsed.port != []
    then some forbidden_port
    else if parsed.text != raw
    then some not_canonical
    else none

module _ (parser : UrlParser) where
  unfoldable pub canonical_url : Text → Text → Bool → Parsed
  canonical_url raw scheme allow_port =
      if raw == [] || parser.trim_space raw != raw || ltb 2_048 (length raw)
      then refused_url empty_or_overlong
      else elim (parser.parse raw) [
        | none ↦ refused_url invalid_url
        | some parsed ↦ elim (url_failure raw scheme allow_port parsed) [
          | some failure ↦ refused_url failure
          | none ↦ accepted_url parsed
        ]
      ]

  -- The check of the relay audience, the last one of Validate.
  unfoldable pub audience_failure : PlatformConfig → Option PlatformError
  audience_failure config = elim (canonical_url config.relay_audience (codes "wss") true) [
    | refused_url failure ↦ some bad_relay_audience
    | accepted_url relay ↦
        if has_suffix relay.path (codes "/ws") then none else some bad_relay_audience
  ]

  -- The checks of the key URL beside an accepted issuer.
  unfoldable pub jwks_failure : PlatformConfig → Url → Option PlatformError
  jwks_failure config issuer = elim (canonical_url config.jwks_url (codes "https") true) [
    | refused_url failure ↦ some bad_jwks_url
    | accepted_url jwks ↦
        if jwks.path != codes "/.well-known/jwks.json"
        then some bad_jwks_url
        else if issuer.scheme != jwks.scheme || issuer.host != jwks.host
        then some other_origin
        else audience_failure config
  ]

  -- PlatformConfig.Validate
  unfoldable pub validate_platform : PlatformConfig → Option PlatformError
  validate_platform config = elim (canonical_url config.issuer (codes "https") true) [
    | refused_url failure ↦ some bad_issuer
    | accepted_url issuer ↦
        if issuer.path != [] then some bad_issuer else jwks_failure config issuer
  ]

  -- LoadPlatformConfig; `getenv` is os.Getenv.
  unfoldable pub load_platform_config : (Text → Text) → PlatformError ⊎ PlatformConfig
  load_platform_config getenv =
      let config : PlatformConfig = record {
        issuer = getenv (codes "MIAKAPP_CONTROL_PLANE_ISSUER");
        jwks_url = getenv (codes "MIAKAPP_CONTROL_PLANE_JWKS_URL");
        relay_audience = getenv (codes "MIAKAPP_RELAY_AUDIENCE");
      } in
      elim (validate_platform config) [ some failure ↦ inl failure | none ↦ inr config ]
