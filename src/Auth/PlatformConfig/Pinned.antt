-- ===== src/Auth/PlatformConfig/Pinned.antt =====
-- What an accepted platform configuration pins.
use miakapp_server.Prelude.{
  ◌≤◌, ◌≡◌, refl, ap, subst, ◌∙◌, ◌⊎◌, inl, inr, true, false, not, ◌||◌, none, some, [], arith, ltb,
  Bool-cases, Option-cases, nat_eq, length,
}
use miakapp_server.Text.{Text, codes, text_beq, text_eq, text_beq_iff, has_suffix}
use miakapp_server.Auth.PlatformConfig.{
  PlatformConfig, Url, UrlParser, UrlError, Parsed, accepted_url, refused_url, url_failure,
  canonical_url, audience_failure, jwks_failure, validate_platform,
}

-- A URL that parses, is its own canonical text, and has the scheme and nothing but an origin and a
-- path.
pub record IsCanonical (parser : UrlParser) (raw scheme : Text) (url : Url) : Type 0 where
  pub parses : parser.parse raw ≡ some url
  pub same_text : url.text ≡ raw
  pub same_scheme : url.scheme ≡ scheme
  pub bare : (url.has_user ≡ false) × (url.raw_query ≡ []) × (url.fragment ≡ [])
  pub bounded : length raw ≤ 2_048

-- The keys come from the issuer's own origin, over HTTPS, and the relay is a WSS endpoint.
pub record IsPinned (parser : UrlParser) (config : PlatformConfig) : Type 0 where
  pub issuer : Url
  pub jwks : Url
  pub relay : Url
  pub issuer_canonical : IsCanonical parser config.issuer (codes "https") issuer
  pub jwks_canonical : IsCanonical parser config.jwks_url (codes "https") jwks
  pub relay_canonical : IsCanonical parser config.relay_audience (codes "wss") relay
  pub no_path : issuer.path ≡ []
  pub key_path : jwks.path ≡ codes "/.well-known/jwks.json"
  pub one_origin : (issuer.scheme ≡ jwks.scheme) × (issuer.host ≡ jwks.host)
  pub relay_path : has_suffix relay.path (codes "/ws") ≡ true

Parsed-cases :
    (p : Parsed) → ((e : UrlError) × (p ≡ refused_url e)) ⊎ ((u : Url) × (p ≡ accepted_url u))
Parsed-cases (refused_url e) = inl (e, refl)
Parsed-cases (accepted_url u) = inr (u, refl)

url_failure_parts :
    (raw scheme : Text) (url : Url)
    → url_failure raw scheme true url ≡ none
    → (url.text ≡ raw)
      × (url.scheme ≡ scheme)
      × (url.has_user ≡ false)
      × (url.raw_query ≡ [])
      × (url.fragment ≡ [])
unfolding url_failure
url_failure_parts raw scheme url h = ground (
  arith,
  text_beq_iff url.text raw,
  text_beq_iff url.scheme scheme,
  text_beq_iff url.raw_query [],
  text_beq_iff url.fragment [],
)

module _ (parser : UrlParser) where
  canonical_url-IsCanonical :
      (raw scheme : Text) (url : Url)
      → canonical_url parser raw scheme true ≡ accepted_url url
      → IsCanonical parser raw scheme url
  unfolding canonical_url
  canonical_url-IsCanonical raw scheme url h =
      elim (Bool-cases
        (text_beq raw [] || not (text_beq (parser.trim_space raw) raw) || ltb 2_048 (length raw))) [
          | inl b ↦ absurd (ground (arith, b, h))
          | inr b ↦ elim (Option-cases (parser.parse raw)) [
            | inl e ↦ absurd (ground (arith, b, e, h))
            | inr (found, e) ↦ elim (Option-cases (url_failure raw scheme true found)) [
              | inr (failure, f) ↦ absurd (ground (arith, b, e, f, h))
              | inl f ↦
                  let same : found ≡ url = ground (arith, b, e, f, h) in
                  let p =
                    url_failure_parts raw scheme url
                      (subst (λ u. url_failure raw scheme true u ≡ none) same f) in
                  record {
                    parses = e ∙ ap some same;
                    same_text = p.0;
                    same_scheme = p.1;
                    bare = (p.2, p.3, p.4);
                    bounded = ground (arith, b);
                  }
            ]
          ]
        ]

  -- A platform configuration that is accepted takes its keys from the issuer's own HTTPS origin, at
  -- the well-known path, and names a WSS endpoint as the relay; its three URLs are canonical.
  pub validate_platform-IsPinned :
      (config : PlatformConfig) → validate_platform parser config ≡ none → IsPinned parser config
  unfolding validate_platform jwks_failure audience_failure
  validate_platform-IsPinned config h =
      elim (Parsed-cases (canonical_url parser config.issuer (codes "https") true)) [
        | inl (e, f) ↦ absurd (ground (arith, f, h))
        | inr (issuer, f) ↦
            elim (Parsed-cases (canonical_url parser config.jwks_url (codes "https") true)) [
              | inl (e, g) ↦ absurd (ground (arith, f, g, h))
              | inr (jwks, g) ↦
                  elim (Parsed-cases
                    (canonical_url parser config.relay_audience (codes "wss") true)) [
                      | inl (e, k) ↦ absurd (ground (arith, f, g, k, h))
                      | inr (relay, k) ↦ record {
                        issuer = issuer;
                        jwks = jwks;
                        relay = relay;
                        issuer_canonical =
                            canonical_url-IsCanonical config.issuer (codes "https") issuer f;
                        jwks_canonical =
                            canonical_url-IsCanonical config.jwks_url (codes "https") jwks g;
                        relay_canonical =
                            canonical_url-IsCanonical config.relay_audience (codes "wss") relay k;
                        no_path = ground (arith, f, g, k, h, text_beq_iff issuer.path []);
                        key_path = ground (
                          arith,
                          f,
                          g,
                          k,
                          h,
                          text_beq_iff jwks.path (codes "/.well-known/jwks.json"),
                        );
                        one_origin = (
                          ground (arith, f, g, k, h, text_beq_iff issuer.scheme jwks.scheme),
                          ground (arith, f, g, k, h, text_beq_iff issuer.host jwks.host),
                        );
                        relay_path = ground (arith, f, g, k, h);
                      }
                    ]
            ]
      ]
