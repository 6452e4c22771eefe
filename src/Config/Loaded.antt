-- ===== src/Config/Loaded.antt =====
-- What a configuration that Load returns guarantees.
use miakapp_server.Prelude.{
  ℕ, ◌≡◌, refl, sym, ap, subst, ◌∙◌, ◌⊎◌, inl, inr, none, List, [], ◌∷◌, ◌++◌, arith, Option-cases,
  nat_eq, All,
}
use miakapp_server.GoMap.{Set}
use miakapp_server.Text.{Text, codes}
use miakapp_server.Config.{
  Config, default_config, UrlLibrary, ConfigError, OriginsResult, origins, invalid_origins,
  parse_origins, validate,
}
use miakapp_server.Config.Bounds.{IsBounded, validate-IsBounded}
use miakapp_server.Config.Load.{
  Environment, LoadError, Loading, loaded, refused, getenv, environment, assign, Setting,
  duration_settings, limit_settings, run_settings, initial, finish_load, load,
}

Loading-cases :
    {A : Type 0} (l : Loading A) → ((e : LoadError) × (l ≡ refused e)) ⊎ ((a : A) × (l ≡ loaded a))
Loading-cases (loaded a) = inr (a, refl)
Loading-cases (refused e) = inl (e, refl)

-- A configuration has the address and the origins of another.
abbrev SameEntry : Config → Config → Type 0
SameEntry c d = (d.listen_address ≡ c.listen_address) × (d.allowed_origins ≡ c.allowed_origins)

-- A setting leaves the address and the origins alone.
abbrev Keeps : Setting → Type 0
Keeps setting = (c d : Config) → setting c ≡ loaded d → SameEntry c d

run_settings-Keeps :
    (settings : List Setting) (c d : Config)
    → All Keeps settings
    → run_settings settings c ≡ loaded d
    → SameEntry c d
unfolding run_settings
run_settings-Keeps [] c d k h =
    let same : c ≡ d = ground (arith, h) in subst (SameEntry c) same (refl, refl)
run_settings-Keeps (setting ∷ settings) c d k h = elim (Loading-cases (setting c)) [
  | inl (e, f) ↦ absurd (ground (arith, f, h))
  | inr (next, f) ↦
      let first = k.0 c next f in
      let rest = run_settings-Keeps settings next d k.1 (ground (arith, f, h)) in
      (rest.0 ∙ first.0, rest.1 ∙ first.1)
]

assign-Keeps :
    (l : Loading ℕ) (c d : Config) (set : ℕ → Config)
    → ((n : ℕ) → SameEntry c (set n))
    → assign l set ≡ loaded d
    → SameEntry c d
unfolding assign
assign-Keeps (loaded n) c d set s h =
    let same : set n ≡ d = ground (arith, h) in subst (SameEntry c) same (s n)
assign-Keeps (refused e) c d set s h = absurd (ground (arith, h))

duration_settings_keep : (env : Environment) → All Keeps (duration_settings env)
unfolding duration_settings
duration_settings_keep env = (
  (λ c d. assign-Keeps _ c d _ (λ n. (refl, refl))),
  (
    (λ c d. assign-Keeps _ c d _ (λ n. (refl, refl))),
    (
      (λ c d. assign-Keeps _ c d _ (λ n. (refl, refl))),
      (
        (λ c d. assign-Keeps _ c d _ (λ n. (refl, refl))),
        (
          (λ c d. assign-Keeps _ c d _ (λ n. (refl, refl))),
          (
            (λ c d. assign-Keeps _ c d _ (λ n. (refl, refl))),
            ((λ c d. assign-Keeps _ c d _ (λ n. (refl, refl))), tt),
          ),
        ),
      ),
    ),
  ),
)

limit_settings_keep : (env : Environment) (m : ℕ) → All Keeps (limit_settings env m)
unfolding limit_settings
limit_settings_keep env m = (
  (λ c d. assign-Keeps _ c d _ (λ n. (refl, refl))),
  (
    (λ c d. assign-Keeps _ c d _ (λ n. (refl, refl))),
    (
      (λ c d. assign-Keeps _ c d _ (λ n. (refl, refl))),
      (
        (λ c d. assign-Keeps _ c d _ (λ n. (refl, refl))),
        (
          (λ c d. assign-Keeps _ c d _ (λ n. (refl, refl))),
          (
            (λ c d. assign-Keeps _ c d _ (λ n. (refl, refl))),
            ((λ c d. assign-Keeps _ c d _ (λ n. (refl, refl))), tt),
          ),
        ),
      ),
    ),
  ),
)

All-append : (xs ys : List Setting) → All Keeps xs → All Keeps ys → All Keeps (xs ++ ys)
All-append [] ys a b = b
All-append (x ∷ xs) ys a b = (a.0, All-append xs ys a.1 b)

finish_load_same :
    (url : UrlLibrary) (m : ℕ) (c d : Config)
    → finish_load url m c ≡ loaded d
    → (c ≡ d) × (validate url m c ≡ none)
unfolding finish_load
finish_load_same url m c d h = elim (Option-cases (validate url m c)) [
  | inl e ↦ (ground (arith, e, h), e)
  | inr (failure, e) ↦ absurd (ground (arith, e, h))
]

-- What Load promises of the configuration that it returns.
abbrev pub IsLoaded : Environment → UrlLibrary → ℕ → Config → Type 0
IsLoaded env url m c =
    IsBounded m c
    × (c.listen_address
        ≡ environment env (codes "MIAKAPP_LISTEN_ADDRESS") default_config.listen_address)
    × (parse_origins url (getenv env (codes "MIAKAPP_ALLOWED_ORIGINS")) ≡ origins c.allowed_origins)

Origins-cases :
    (o : OriginsResult)
    → ((e : ConfigError) × (o ≡ invalid_origins e)) ⊎ ((found : Set Text) × (o ≡ origins found))
Origins-cases (invalid_origins e) = inl (e, refl)
Origins-cases (origins found) = inr (found, refl)

-- A configuration that is loaded has every duration and every limit in its range, listens where the
-- environment says, or on the default address, and allows exactly the origins that the environment
-- lists.
pub load-IsBounded :
    (env : Environment) (url : UrlLibrary) (m : ℕ) (c : Config)
    → load env url m ≡ loaded c
    → IsLoaded env url m c
unfolding load initial
load-IsBounded env url m c h =
    elim (Origins-cases (parse_origins url (getenv env (codes "MIAKAPP_ALLOWED_ORIGINS")))) [
      | inl (e, f) ↦ absurd (ground (arith, f, h))
      | inr (found, f) ↦
          let settings = duration_settings env ++ limit_settings env m in
          elim (Loading-cases (run_settings settings (initial env found))) [
            | inl (e, g) ↦ absurd (ground (arith, f, g, h))
            | inr (d, g) ↦
                let (same, valid) = finish_load_same url m d c (ground (arith, f, g, h)) in
                let kept =
                  run_settings-Keeps settings (initial env found) d
                    (All-append (duration_settings env) (limit_settings env m)
                      (duration_settings_keep env) (limit_settings_keep env m))
                    g in
                subst (IsLoaded env url m) same
                  (validate-IsBounded url m d valid, kept.0, f ∙ ap origins (sym kept.1))
          ]
    ]
