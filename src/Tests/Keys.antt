-- ===== src/Tests/Keys.antt =====
-- Runs of the key cache of internal/auth/key_cache.go with a decoder that returns a fixed document.
use miakapp_server.Prelude.{
  ◌*◌, inl, ◌-◌, ◌==◌, if◌then◌else◌, ◌+◌, ◌↔◌, ◌<◌, ◌⊎◌, ℕ, zero, suc, ◌≤◌, ◌≡◌, refl, ◌≢◌, Bool,
  true, false, ◌||◌, Option, none, some, List, [], ◌∷◌, arith, nat_beq, nat_eq, String,
}
use miakapp_server.Text.{text_eq, Text, codes}
use miakapp_server.GoMap.{Map}
use miakapp_server.Auth.PlatformConfig.{PlatformConfig, Url, UrlParser, validate_platform}
use miakapp_server.Auth.PlatformConfig.Pinned.{IsPinned, validate_platform-IsPinned}
use miakapp_server.Auth.Keys.Errors.{Result, ok}
use miakapp_server.Auth.Keys.Hex.{Cases, decode_hex_quad, hex_quad, decode_hex_quad-hex_quad}
use miakapp_server.Auth.Keys.Surrogates.{surrogates_paired, quote}
use miakapp_server.Auth.Keys.Surrogates.Pairing.{
  Piece, plain, short_escape, unicode_escape, print, is_paired, surrogates_paired-eq-is_paired,
}
use miakapp_server.Auth.Keys.Headers.{Strings, Header, response_cache_ttl, read_lines, read_age}
use miakapp_server.Auth.Keys.Headers.Policy.{IsRequiredPolicy, response_cache_ttl-IsRequiredPolicy}
use miakapp_server.Auth.Keys.Document.{
  Token, delimiter, string, end_of_input, Codecs, PublicJwk, decode_jwks,
}
use miakapp_server.Auth.Keys.Document.Accepted.{IsAcceptedSet, decode_jwks-IsAcceptedSet}
use miakapp_server.Auth.Keys.Fetch.{FetchResult, Library, Response, fetch}
use miakapp_server.Auth.Keys.Cache.{enter, serve}
use miakapp_server.Auth.Keys.Cache.Callers.{
  idle, entering, waiting, fetching, answered, System, start, set_caller, is_closed, entered,
  completed, call, lock, complete, Reach, started, next,
}
use miakapp_server.Auth.Keys.Cache.Flight.{is_fetching}
use miakapp_server.Auth.Keys.Cache.Reachable.{
  single_flight, waiting_ends, answers-IsAcceptedSet, returned_confirmed,
}
use miakapp_server.Auth.Keys.Fetch.Confirmed.{fetch_ends}

abbrev all_upper : Cases
all_upper = (true, true, true, true)

abbrev mixed : Cases
mixed = (false, true, false, true)

-- A pair of surrogates in a string.
abbrev pieces : List Piece
pieces =
    plain 97
    ∷ unicode_escape all_upper 0xd83d
    ∷ unicode_escape mixed 0xde00
    ∷ short_escape b'n'
    ∷ []

surrogates_paired-eq-is_paired_example :
    surrogates_paired (quote ∷ print pieces (quote ∷ [])) ≡ is_paired false pieces
surrogates_paired-eq-is_paired_example =
    surrogates_paired-eq-is_paired pieces
      ((ground arith, ground arith), (omega arith, (omega arith, (ground arith, tt))))

decode_hex_quad-hex_quad_example : decode_hex_quad (hex_quad mixed 0xbeef) ≡ some 0xbeef
decode_hex_quad-hex_quad_example = decode_hex_quad-hex_quad mixed 0xbeef (omega arith)

abbrev pub plain_strings : Strings
plain_strings = record { trim_space = λ s. s; to_lower = λ s. s }

abbrev pub header : Header
header = record {
  cache_control = codes "max-age=60,public" ∷ codes "must-revalidate" ∷ [];
  age = codes "15";
  content_type = codes "application/json";
  etag = quote ∷ b'v' ∷ quote ∷ [];
}

header_ttl : response_cache_ttl plain_strings header ≡ ok 45_000_000_000
unfolding response_cache_ttl miakapp_server.Text.text_beq miakapp_server.GoMap.lookup
    miakapp_server.GoMap.insert
header_ttl = refl

response_cache_ttl-IsRequiredPolicy_example :
    ((age : ℕ) × (read_age header.age ≡ some age)
      × (age < 60)
      × (45_000_000_000 ≡ (60 - age) * 1_000_000_000))
    × ((directives : Map Text Text) × (read_lines plain_strings [] header.cache_control
          ≡ ok directives)
        × IsRequiredPolicy directives)
response_cache_ttl-IsRequiredPolicy_example =
    response_cache_ttl-IsRequiredPolicy plain_strings header 45_000_000_000 header_ttl

abbrev text : String → Token
text s = string (codes s)

abbrev script : List Token
script =
    delimiter b'{'
    ∷ text "keys"
    ∷ delimiter b'['
    ∷ delimiter b'{'
    ∷ text "kty"
    ∷ text "OKP"
    ∷ text "kid"
    ∷ text "k1"
    ∷ text "use"
    ∷ text "sig"
    ∷ text "alg"
    ∷ text "EdDSA"
    ∷ text "crv"
    ∷ text "Ed25519"
    ∷ text "x"
    ∷ text "AA"
    ∷ delimiter b'}'
    ∷ delimiter b']'
    ∷ delimiter b'}'
    ∷ []

abbrev next_token : List Token → Token × List Token
next_token [] = (end_of_input, [])
next_token (t ∷ ts) = (t, ts)

abbrev next_string : List Token → Option Text × List Token
next_string (string s ∷ ts) = (some s, ts)
next_string ts = (none, ts)

abbrev has_more : List Token → Bool
has_more [] = false
has_more (delimiter c ∷ ts) = nat_beq c b'{' || nat_beq c b'['
has_more (t ∷ ts) = true

abbrev zeros : ℕ → Text
zeros zero = []
zeros (suc n) = 0 ∷ zeros n

abbrev pub scripted : Codecs
scripted = record {
  Decoder = List Token;
  new_decoder = λ body. script;
  token = next_token;
  more = has_more;
  decode_string = next_string;
  base64_decode = λ s. some (zeros 32);
  base64_encode = λ s. codes "AA";
}

abbrev pub library : Library
library = record {
  strings = plain_strings;
  codecs = scripted;
  media_type = λ s. some s;
  valid_utf8 = λ s. true;
}

abbrev pub key : PublicJwk
key = record {
  kty = codes "OKP";
  kid = codes "k1";
  key_use = codes "sig";
  alg = codes "EdDSA";
  crv = codes "Ed25519";
  x = codes "AA";
}

script_keys : decode_jwks scripted (codes "{}") ≡ some (ok (key ∷ []))
unfolding decode_jwks miakapp_server.Auth.Keys.Document.read_document miakapp_server.Text.text_beq
    miakapp_server.Auth.Keys.Document.decode_keys miakapp_server.Auth.Keys.Document.read_keys
    miakapp_server.Auth.Keys.Document.decode_key miakapp_server.Auth.Keys.Document.read_members
    miakapp_server.GoMap.lookup miakapp_server.GoMap.insert
    miakapp_server.Auth.Keys.Document.finish_key miakapp_server.Auth.Keys.Document.valid_public_key
    miakapp_server.Auth.Keys.Document.valid_profile miakapp_server.Auth.Keys.Document.valid_key_id
    miakapp_server.Auth.Keys.Document.finish_keys miakapp_server.Auth.Keys.Document.finish_document
script_keys = refl

decode_jwks-IsAcceptedSet_example : IsAcceptedSet scripted (key ∷ [])
decode_jwks-IsAcceptedSet_example =
    decode_jwks-IsAcceptedSet scripted (codes "{}") (key ∷ []) script_keys

abbrev pub response : Response
response = record {
  status = 200;
  header = header;
  body = record { content = codes "{}"; ends_well = true };
}

fetch_ends_example : fetch library [] (some response) ≢ none
fetch_ends_example = fetch_ends library [] (some response)

abbrev fetched : FetchResult
fetched = record { keys = key ∷ []; etag = header.etag; ttl = 45_000_000_000; not_modified = false }

script_fetched : fetch library [] (some response) ≡ some (ok fetched)
unfolding fetch miakapp_server.Auth.Keys.Fetch.fetch_document miakapp_server.Auth.Keys.Fetch.is_json
    miakapp_server.Auth.Keys.Fetch.read_bounded_body surrogates_paired
    miakapp_server.Auth.Keys.Headers.canonical_etag miakapp_server.Text.text_beq
script_fetched = ground (arith, header_ttl, script_keys)

-- Two callers: the first fetches, the second waits, then the first is served.
abbrev called : System
called = set_caller 0 (entering false) (start 100)

abbrev in_fetch : System
in_fetch = entered 0 false called

abbrev both_called : System
both_called = set_caller 1 (entering false) in_fetch

abbrev one_waits : System
one_waits = entered 1 false both_called

abbrev served : System
served = completed 0 false 200 (ok fetched) one_waits

called_at : called.callers 0 ≡ entering false
unfolding set_caller
called_at = refl

in_fetch_idle : in_fetch.callers 1 ≡ idle
unfolding entered set_caller
in_fetch_idle = refl

both_called_at : both_called.callers 1 ≡ entering false
unfolding set_caller
both_called_at = refl

one_waits_at : one_waits.callers 1 ≡ waiting 1
unfolding entered set_caller enter
one_waits_at = refl

one_fetches_at : one_waits.callers 0 ≡ fetching false []
unfolding entered set_caller enter
one_fetches_at = refl

one_waits_time : one_waits.clock ≤ 200
unfolding entered set_caller
one_waits_time = omega arith

served_at : served.callers 0 ≡ answered (ok (key ∷ []))
unfolding completed set_caller miakapp_server.Auth.Keys.Cache.finish
served_at = refl

served_enter : (enter false served.clock served.cache).0 ≡ serve (key ∷ [])
unfolding enter completed set_caller miakapp_server.Auth.Keys.Cache.finish entered
served_enter = refl

one_waits-Reach : Reach library 100 one_waits
one_waits-Reach =
    next both_called one_waits
      (next in_fetch both_called
        (next called in_fetch (next (start 100) called started (call (start 100) 0 refl))
          (lock called 0 false called_at))
        (call in_fetch 1 in_fetch_idle))
      (lock both_called 1 false both_called_at)

served-Reach : Reach library 100 served
served-Reach = next one_waits served one_waits-Reach (
    complete one_waits 0 false [] (some response) 200 (ok fetched) one_fetches_at script_fetched
      one_waits_time)

single_flight_example :
    ((i j : ℕ)
      → is_fetching (one_waits.callers i) ≡ true
      → is_fetching (one_waits.callers j) ≡ true
      → i ≡ j)
    × ((one_waits.cache.refreshing ≡ true) ↔ ((i : ℕ) × (is_fetching (one_waits.callers i) ≡ true)))
single_flight_example = single_flight library 100 one_waits one_waits-Reach

waiting_ends_example :
    (is_closed 1 one_waits.cache ≡ true)
    ⊎ ((is_closed 1 one_waits.cache ≡ false)
        × ((j : ℕ) × (is_fetching (one_waits.callers j) ≡ true)
            × ((force : Bool) (later : ℕ) (result : Result FetchResult)
                → is_closed 1 (completed j force later result one_waits).cache ≡ true)))
waiting_ends_example = waiting_ends library 100 one_waits 1 1 one_waits-Reach one_waits_at

answers-IsAcceptedSet_example : IsAcceptedSet scripted (key ∷ [])
answers-IsAcceptedSet_example =
    answers-IsAcceptedSet library 100 served 0 (key ∷ []) served-Reach served_at

returned_confirmed_example :
    IsAcceptedSet scripted (key ∷ [])
    × (served.confirmed_at ≤ served.clock)
    × (served.clock < served.confirmed_at + 60_000_000_000)
returned_confirmed_example =
    returned_confirmed library 100 served false (key ∷ []) served-Reach (inl served_enter)

-- URLs of this form alone are known to the parser: scheme, host and path of three literals.
abbrev url_of : Text → Text → Text → Text → Url
url_of scheme path text host = record {
  scheme = scheme;
  host = host;
  hostname = host;
  port = [];
  has_user = false;
  path = path;
  raw_path = [];
  raw_query = [];
  fragment = [];
  text = text;
}

abbrev parse_url : Text → Option Url
parse_url raw =
    if raw == codes "https://a.b"
    then some (url_of (codes "https") [] raw (codes "a.b"))
    else if raw == codes "https://a.b/.well-known/jwks.json"
    then some (url_of (codes "https") (codes "/.well-known/jwks.json") raw (codes "a.b"))
    else if raw == codes "wss://r.b/ws"
    then some (url_of (codes "wss") (codes "/ws") raw (codes "r.b"))
    else none

abbrev url_parser : UrlParser
url_parser = record { parse = parse_url; trim_space = λ t. t }

abbrev platform : PlatformConfig
platform = record {
  issuer = codes "https://a.b";
  jwks_url = codes "https://a.b/.well-known/jwks.json";
  relay_audience = codes "wss://r.b/ws";
}

platform_valid : validate_platform url_parser platform ≡ none
unfolding validate_platform miakapp_server.Auth.PlatformConfig.canonical_url
    miakapp_server.Text.text_beq miakapp_server.Auth.PlatformConfig.url_failure
    miakapp_server.Auth.PlatformConfig.jwks_failure
    miakapp_server.Auth.PlatformConfig.audience_failure miakapp_server.Text.has_suffix
platform_valid = refl

validate_platform-IsPinned_example : IsPinned url_parser platform
validate_platform-IsPinned_example = validate_platform-IsPinned url_parser platform platform_valid
