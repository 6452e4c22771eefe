-- ===== src/Relay/Handshake/Authenticated.antt =====
-- What a connection whose handshake succeeds has proved.
use miakapp_server.Prelude.{
  ℕ, ◌≡◌, refl, ◌⊎◌, inl, inr, Bool, true, false, not, ◌&&◌, ◌||◌, Option, none, some, arith, ltb,
  nat_beq, Bool-cases, Option-cases, nat_eq, ◌+◌, ap, subst, ◌∙◌, nat_beq_iff, leb, length,
}
use miakapp_server.Config.{Config}
use miakapp_server.GoMap.{lookup, lookup-insert_self}
use miakapp_server.Text.{Text, text_beq, text_eq, text_beq_iff}
use miakapp_server.Auth.Identity.{Role, coordinator, role_beq, Request, Identity, validate_binding}
use miakapp_server.Auth.Binding.{IsBound, validate_binding-IsBound}
use miakapp_server.Auth.Platform.{Access, granted, failed}
use miakapp_server.Relay.Frame.{Frame}
use miakapp_server.Relay.World.{Env, World}
use miakapp_server.Relay.Registry.{
  add_home, reference, register, Registry, Acquired, acquired_home, registry_closed, home_capacity,
  no_epoch, acquire,
}
use miakapp_server.Relay.Server.{Server}
use miakapp_server.Relay.Handshake.{
  Received, read_error, text_message, undecodable, binary, hello_request, admit_identity,
  authenticate, handshake,
}

-- The references that have been taken of a home: none where it is not registered yet.
abbrev pub acquired_before : Registry → Text → ℕ → ℕ
acquired_before registry id p = elim (lookup id registry.homes) [
  | none ↦ 0
  | some q ↦ (registry.cells p).acquired
]

acquire_held :
    (config : Config) (registry held : Registry) (id : Text) (epoch : Option Text) (p : ℕ)
    → acquire config registry id epoch ≡ (held, acquired_home p)
    → (lookup id held.homes ≡ some p)
      × ((held.cells p).acquired ≡ acquired_before registry id p + 1)
unfolding acquire register reference add_home
acquire_held config registry held id epoch p h = elim (Bool-cases registry.closed) [
  | inl c ↦ absurd (ground (arith, c, h))
  | inr c ↦ elim (Option-cases (lookup id registry.homes)) [
    | inr (q, e) ↦
        let same : q ≡ p = ground (arith, c, e, h) in
        let after : reference registry q ≡ held = ground (arith, c, e, h) in
        (
          subst (λ r. lookup id r.homes ≡ some p) after (ground (arith, e, same)),
          subst (λ r. (r.cells p).acquired ≡ acquired_before registry id p + 1) after
              (ground (arith, e, same, nat_beq_iff q p)),
        )
    | inl e ↦ elim (Bool-cases (leb config.max_homes (length registry.homes))) [
      | inl full ↦ absurd (ground (arith, c, e, full, h))
      | inr room ↦ elim (Option-cases epoch) [
        | inl n ↦ absurd (ground (arith, c, e, room, n, h))
        | inr (x, n) ↦
            let q = registry.next_home in
            let same : q ≡ p = ground (arith, c, e, room, n, h) in
            let after : reference (add_home registry id x) q ≡ held =
              ground (arith, c, e, room, n, h) in
            (
              subst (λ r. lookup id r.homes ≡ some p) after
                  (ground (arith, same, lookup-insert_self id q registry.homes)),
              subst (λ r. (r.cells p).acquired ≡ acquired_before registry id p + 1) after
                  (ground (arith, e, same, nat_beq_iff q p)),
            )
      ]
    ]
  ]
]

-- The verifier has granted the identity for the very request of the HELLO, the identity is bound to
-- it, a coordinator is its own home, and the registry that is left is the one in which the home of
-- the identity has been acquired: it is registered there, and counts one reference more.
pub record IsAuthenticated (env : Env) (server : Server) (registry held : Registry)
    (epoch : Option Text) (role : Role) (token context : Text) : Type 0 where
  pub request : Request
  pub identity : Identity
  pub requested : hello_request role token context ≡ some request
  pub verified : env.verifier request ≡ granted identity
  pub bound : IsBound env.unicode request identity env.now
  pub own_home : role_beq request.role coordinator ≡ true → identity.id ≡ identity.home_id
  pub home : ℕ
  pub acquired : acquire server.config registry identity.home_id epoch ≡ (held, acquired_home home)
  pub registered : lookup identity.home_id held.homes ≡ some home
  pub referenced : (held.cells home).acquired ≡ acquired_before registry identity.home_id home + 1

abbrev is_granted : Access → Bool
is_granted (granted identity) = true
is_granted (failed kind) = false

abbrev is_acquired : Acquired → Bool
is_acquired (acquired_home p) = true
is_acquired _ = false

Access-cases :
    (a : Access) → ((identity : Identity) × (a ≡ granted identity)) ⊎ ((is_granted a) ≡ false)
Access-cases (granted identity) = inl (identity, refl)
Access-cases (failed kind) = inr refl

Acquired-cases : (a : Acquired) → ((p : ℕ) × (a ≡ acquired_home p)) ⊎ (is_acquired a ≡ false)
Acquired-cases (acquired_home p) = inl (p, refl)
Acquired-cases registry_closed = inr refl
Acquired-cases home_capacity = inr refl
Acquired-cases no_epoch = inr refl

admit_identity_parts :
    (env : Env) (server : Server) (registry : Registry) (w : World) (s : ℕ) (epoch : Option Text)
    (request : Request) (identity : Identity)
    → (admit_identity env server registry w s epoch request identity).1.1 ≡ none
    → (validate_binding env.unicode request identity env.now ≡ none)
      × (role_beq request.role coordinator ≡ true → identity.id ≡ identity.home_id)
      × ((p : ℕ) × (acquire server.config registry identity.home_id epoch
            ≡ ((admit_identity env server registry w s epoch request identity).0, acquired_home p)))
unfolding admit_identity
admit_identity_parts env server registry w s epoch request identity h =
    elim (Option-cases (validate_binding env.unicode request identity env.now)) [
      | inr (kind, e) ↦ absurd (ground (arith, e, h))
      | inl e ↦
          elim (Bool-cases
            (role_beq request.role coordinator && not (text_beq identity.id identity.home_id))) [
              | inl b ↦ absurd (ground (arith, e, b, h))
              | inr b ↦
                  elim (Acquired-cases (acquire server.config registry identity.home_id epoch).1) [
                    | inr f ↦ absurd (ground (arith, e, b, f, h))
                    | inl (p, f) ↦ (
                      e,
                      (λ r. ground (arith, r, b, text_beq_iff identity.id identity.home_id)),
                      (
                        p,
                        ap (λ a. ((acquire server.config registry identity.home_id epoch).0, a)) f
                            ∙ ap (λ r. (r, acquired_home p)) (ground (arith, e, b, f)),
                      ),
                    )
                  ]
            ]
    ]

authenticate-IsAuthenticated :
    (env : Env) (server : Server) (registry : Registry) (w : World) (s : ℕ) (epoch : Option Text)
    (major minimum_minor : ℕ) (role : Role) (token context : Text)
    → (authenticate env server registry w s epoch major minimum_minor role token context).1.1 ≡ none
    → IsAuthenticated env server registry
        (authenticate env server registry w s epoch major minimum_minor role token context).0
        epoch
        role
        token
        context
unfolding authenticate
authenticate-IsAuthenticated env server registry w s epoch major minimum_minor role token context
      h =
    elim (Bool-cases (not (nat_beq major 1) || ltb 0 minimum_minor)) [
      | inl v ↦ absurd (ground (arith, v, h))
      | inr v ↦ elim (Option-cases (hello_request role token context)) [
        | inl e ↦ absurd (ground (arith, v, e, h))
        | inr (request, e) ↦ elim (Access-cases (env.verifier request)) [
          | inr f ↦ absurd (ground (arith, v, e, f, h))
          | inl (identity, f) ↦
              let p =
                admit_identity_parts env server registry w s epoch request identity
                  (ground (arith, v, e, f, h)) in
              let outcome =
                authenticate env server registry w s epoch major minimum_minor role token context in
              let left = outcome.0 in
              let same : (admit_identity env server registry w s epoch request identity).0 ≡ left =
                ground (arith, v, e, f) in
              let result : acquire server.config registry identity.home_id epoch
                  ≡ (left, acquired_home p.2.0) =
                p.2.1 ∙ ap (λ r. (r, acquired_home p.2.0)) same in
              let counted =
                acquire_held server.config registry left identity.home_id epoch p.2.0 result in
              record {
                request = request;
                identity = identity;
                requested = e;
                verified = f;
                bound = validate_binding-IsBound env.unicode request identity env.now p.0;
                own_home = p.1;
                home = p.2.0;
                acquired = result;
                registered = counted.0;
                referenced = counted.1;
              }
        ]
      ]
    ]

authenticate_version :
    (env : Env) (server : Server) (registry : Registry) (w : World) (s : ℕ) (epoch : Option Text)
    (major minimum_minor : ℕ) (role : Role) (token context : Text)
    → (authenticate env server registry w s epoch major minimum_minor role token context).1.1 ≡ none
    → (major ≡ 1) × (minimum_minor ≡ 0)
unfolding authenticate
authenticate_version env server registry w s epoch major minimum_minor role token context h =
    elim (Bool-cases (not (nat_beq major 1) || ltb 0 minimum_minor)) [
      | inl v ↦ absurd (ground (arith, v, h))
      | inr v ↦ ground (arith, v)
    ]

-- What has been received.
abbrev pub IsLetIn : Env → Server → Registry → Registry → Option Text → Received → Type 0
IsLetIn env server registry held epoch
      (binary (Frame.hello major minimum maximum role token context)) =
    (major ≡ 1) × (minimum ≡ 0) × IsAuthenticated env server registry held epoch role token context
IsLetIn env server registry held epoch _ = ⊥

-- A handshake that lets a connection into its loop has read a HELLO of version 1.0, whose token the
-- verifier has granted: the identity is bound to the request, a coordinator is its own home, and in
-- the registry that the handshake leaves the home of the identity is acquired, with one reference
-- more than before.
pub handshake-IsAuthenticated :
    (env : Env) (server : Server) (registry : Registry) (w : World) (s : ℕ) (epoch : Option Text)
    (received : Received)
    → (handshake env server registry w s epoch received).2 ≡ true
    → IsLetIn env server registry
        (handshake env server registry w s epoch received).0
        epoch
        received
unfolding handshake
handshake-IsAuthenticated env server registry w s epoch read_error h = absurd (ground arith)
handshake-IsAuthenticated env server registry w s epoch text_message h = absurd (ground arith)
handshake-IsAuthenticated env server registry w s epoch (undecodable reason) h =
    absurd (ground arith)
handshake-IsAuthenticated env server registry w s epoch
      (binary (Frame.hello major minimum maximum role token context)) h =
    elim (Option-cases
      (authenticate env server registry w s epoch major minimum role token context).1.1) [
        | inr (reason, e) ↦ absurd (ground (arith, e, h))
        | inl e ↦
            let version =
              authenticate_version env server registry w s epoch major minimum role token context
                e in
            let proved =
              authenticate-IsAuthenticated env server registry w s epoch major minimum role token
                context e in
            let r =
              handshake env server registry w s epoch
                (binary (Frame.hello major minimum maximum role token context)) in
            let joined =
              authenticate env server registry w s epoch major minimum role token context in
            let same : joined.0 ≡ r.0 = ground (arith, e) in
            (
              version.0,
              version.1,
              subst (λ held. IsAuthenticated env server registry held epoch role token context) same
                  proved,
            )
      ]
handshake-IsAuthenticated env server registry w s epoch (binary _) h = ground arith
