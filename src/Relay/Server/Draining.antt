-- ===== src/Relay/Server/Draining.antt =====
-- What the start of a drain does to the live connections.
use miakapp_server.Prelude.{
  ◌++◌, ℕ, ◌≡◌, refl, sym, ap, subst, ◌∙◌, ◌≢◌, inl, inr, true, false, List, [], ◌∷◌, arith,
  nat_beq, nat_beq_iff, Bool-cases, nat_eq, any,
}
use miakapp_server.GoMap.{keys, contains, Set, lookup}
use miakapp_server.Relay.Server.{Server, drain_all, drain}
use miakapp_server.Relay.World.{
  Phase, await_hello, draining, Env, World, Link, active, closed, update,
}
use miakapp_server.Relay.Frame.{response_request_identifier, goaway}
use miakapp_server.Relay.Server.Telling.{
  IsShut, IsDrained, goaway_sent, told, refused, left_alone, enqueue_link_refused,
  enqueue_link_sent,
}
use miakapp_server.Relay.Connection.{start_draining, phase_beq, enqueue, enqueue_link}
use miakapp_server.Relay.Sending.{enqueue_other}

-- The world in which the connection is marked as told, and the sending of GOAWAY in it.
abbrev mark : World → ℕ → World
mark w s = record w { links = update w.links s (record (w.links s) { drain_once = true }) }

-- Another connection than the one that is drained is left alone.
start_draining_other :
    (env : Env) (w : World) (s t retry_after reason : ℕ)
    → s ≢ t
    → (start_draining env w s retry_after reason).links t ≡ w.links t
unfolding start_draining
start_draining_other env w s t retry_after reason h =
    let (sent_w, sent) = enqueue env (mark w s) s (goaway retry_after reason) true in
    elim (Bool-cases (w.links s).drain_once) [
      | inl d ↦ ground (arith, d)
      | inr d ↦ elim (Bool-cases (phase_beq (w.links s).phase active)) [
        | inr p ↦ ground (arith, d, p, nat_beq_iff s t)
        | inl p ↦ elim (Bool-cases sent) [
          | inr q ↦ ground (
            arith,
            d,
            p,
            q,
            nat_beq_iff s t,
            enqueue_other env (mark w s) s t (goaway retry_after reason) true h,
          )
          | inl q ↦ ground (
            arith,
            d,
            p,
            q,
            nat_beq_iff s t,
            Bool-cases (phase_beq (sent_w.links s).phase active),
            enqueue_other env (mark w s) s t (goaway retry_after reason) true h,
          )
        ]
      ]
    ]

-- The link that is told, and what the sending of GOAWAY makes of it.
abbrev marked_link : Link → Link
marked_link link = record link { drain_once = true }

abbrev drained_link : Link → Link
drained_link link = record link { phase = draining }

mark_at : (w : World) (s : ℕ) → (mark w s).links s ≡ marked_link (w.links s)
mark_at w s = ground (arith, nat_beq_iff s s)

enqueue_marked :
    (env : Env) (w : World) (s retry_after reason : ℕ)
    → let (after, sent) = enqueue env (mark w s) s (goaway retry_after reason) true in
      let (a, link, flag) = goaway_sent env w.admission (w.links s) retry_after reason in
      (after.links s ≡ link) × (sent ≡ flag)
unfolding enqueue
enqueue_marked env w s retry_after reason =
    let g = goaway retry_after reason in
    let ends = response_request_identifier g in
    let link : (enqueue env (mark w s) s g true).0.links s
        ≡ (enqueue_link env w.admission ((mark w s).links s) g false ends true).1 =
      ground (arith, nat_beq_iff s s) in
    (
      link ∙ ap (λ l. (enqueue_link env w.admission l g false ends true).1) (mark_at w s),
      ap (λ l. (enqueue_link env w.admission l g false ends true).2) (mark_at w s),
    )

-- The link after the drain, in each of its three cases.
start_draining_inactive :
    (env : Env) (w : World) (s retry_after reason : ℕ)
    → (w.links s).drain_once ≡ false
    → IsShut (w.links s)
    → (start_draining env w s retry_after reason).links s ≡ marked_link (w.links s)
unfolding start_draining
start_draining_inactive env w s retry_after reason d h = ground (arith, d, h, nat_beq_iff s s)

start_draining_refused :
    (env : Env) (w : World) (s retry_after reason : ℕ)
    → (w.links s).drain_once ≡ false
    → phase_beq (w.links s).phase active ≡ true
    → (goaway_sent env w.admission (w.links s) retry_after reason).2 ≡ false
    → (start_draining env w s retry_after reason).links s
      ≡ (goaway_sent env w.admission (w.links s) retry_after reason).1
unfolding start_draining
start_draining_refused env w s retry_after reason d p q =
    ground (arith, d, p, q, enqueue_marked env w s retry_after reason)

start_draining_sent :
    (env : Env) (w : World) (s retry_after reason : ℕ)
    → (w.links s).drain_once ≡ false
    → phase_beq (w.links s).phase active ≡ true
    → (goaway_sent env w.admission (w.links s) retry_after reason).2 ≡ true
    → phase_beq (goaway_sent env w.admission (w.links s) retry_after reason).1.phase active ≡ true
    → (start_draining env w s retry_after reason).links s
      ≡ record (goaway_sent env w.admission (w.links s) retry_after reason).1 { phase = draining }
unfolding start_draining
start_draining_sent env w s retry_after reason d p q r =
    let m = enqueue_marked env w s retry_after reason in
    let still : phase_beq
          ((enqueue env (mark w s) s (goaway retry_after reason) true).0.links s).phase active
        ≡ true =
      rw (m.0, r) refl in
    ground (arith, d, p, q, still, m.1, nat_beq_iff s s) ∙ ap drained_link m.0

phase_beq→eq : (a : Phase) → phase_beq a active ≡ true → a ≡ active
phase_beq→eq active h = refl
phase_beq→eq await_hello h = ground arith
phase_beq→eq draining h = ground arith
phase_beq→eq closed h = ground arith

-- A connection that has neither failed nor been closed nor been told to drain.
abbrev pub IsUntold : Link → Type 0
IsUntold link = (link.fatal_once ≡ false) × (link.close_once ≡ false) × (link.drain_once ≡ false)

start_draining-IsDrained :
    (env : Env) (w : World) (s retry_after reason : ℕ)
    → IsUntold (w.links s)
    → IsDrained env w.admission retry_after reason
        (w.links s)
        ((start_draining env w s retry_after reason).links s)
      × (((start_draining env w s retry_after reason).links s).drain_once ≡ true)
start_draining-IsDrained env w s retry_after reason (f, c, d) =
    let link = w.links s in
    let g = goaway retry_after reason in
    let ends = response_request_identifier g in
    let result = goaway_sent env w.admission link retry_after reason in
    let Drained : Link → Type 0 = λ after.
      IsDrained env w.admission retry_after reason link after × (after.drain_once ≡ true) in
    elim (Bool-cases (phase_beq link.phase active)) [
      | inr p ↦
          subst Drained (sym (start_draining_inactive env w s retry_after reason d p))
            (left_alone p refl, refl)
      | inl p ↦
          let was = phase_beq→eq link.phase p in
          elim (Bool-cases result.2) [
            | inr q ↦
                let r =
                  enqueue_link_refused env w.admission (marked_link link) g false ends true f c q in
                subst Drained (sym (start_draining_refused env w s retry_after reason d p q))
                  (refused was q r.0 r.1, r.2)
            | inl q ↦
                let (size, kept, e, queue, same, marks) =
                  enqueue_link_sent env w.admission (marked_link link) g false ends true q in
                let still : phase_beq result.1.phase active ≡ true = rw same p in
                subst Drained (sym (start_draining_sent env w s retry_after reason d p q still))
                  (told was refl size kept e queue, marks)
          ]
    ]

start_draining_again :
    (env : Env) (w : World) (s retry_after reason : ℕ)
    → (w.links s).drain_once ≡ true
    → start_draining env w s retry_after reason ≡ w
unfolding start_draining
start_draining_again env w s retry_after reason h = ground (arith, h)

module _ (env : Env) (retry_after reason : ℕ) where
  -- What a connection has become when it was told is not touched by the telling of the others.
  drain_all_again :
      (w : World) (ss : List ℕ) (s : ℕ)
      → (w.links s).drain_once ≡ true
      → (drain_all env w ss retry_after reason).links s ≡ w.links s
  unfolding drain_all
  drain_all_again w [] s h = refl
  drain_all_again w (t ∷ ss) s h =
      let same : (start_draining env w t retry_after reason).links s ≡ w.links s =
        elim (Bool-cases (nat_beq t s)) [
          | inl e ↦
              let here : s ≡ t = ground (arith, e) in
              ap (λ v. v.links s)
                (start_draining_again env w t retry_after reason
                  (subst (λ u. (w.links u).drain_once ≡ true) here h))
          | inr e ↦ start_draining_other env w t s retry_after reason (ground (arith, e))
        ] in
      drain_all_again (start_draining env w t retry_after reason) ss s
        (subst (λ link. link.drain_once ≡ true) (sym same) h)
      ∙ same

  -- The connections before `s` in the list are told first, and leave `s` as it is.
  drain_all-IsDrained :
      (w : World) (ss : List ℕ) (s : ℕ)
      → IsUntold (w.links s)
      → any (λ t. nat_beq t s) ss ≡ true
      → (earlier later : List ℕ) × (ss ≡ earlier ++ s ∷ later)
        × IsDrained env
            (drain_all env w earlier retry_after reason).admission
            retry_after
            reason
            (w.links s)
            ((drain_all env w ss retry_after reason).links s)
  unfolding drain_all
  drain_all-IsDrained w [] s h m = absurd (ground arith)
  drain_all-IsDrained w (t ∷ ss) s h m =
      let next = start_draining env w t retry_after reason in
      let last = (drain_all env next ss retry_after reason).links s in
      elim (Bool-cases (nat_beq t s)) [
        | inl e ↦
            let same : s ≡ t = ground (arith, e) in
            let first =
              subst
                (λ u.
                  IsDrained env w.admission retry_after reason (w.links s)
                    ((start_draining env w u retry_after reason).links s)
                  × (((start_draining env w u retry_after reason).links s).drain_once ≡ true))
                same (start_draining-IsDrained env w s retry_after reason h) in
            (
              [],
              ss,
              ap (λ u. u ∷ ss) (sym same),
              subst (IsDrained env w.admission retry_after reason (w.links s))
                  (sym (drain_all_again next ss s first.1)) first.0,
            )
        | inr e ↦
            let other = start_draining_other env w t s retry_after reason (ground (arith, e)) in
            let (earlier, later, split, drained) =
              drain_all-IsDrained next ss s (subst IsUntold (sym other) h) (ground (arith, e, m)) in
            let accounts = (drain_all env next earlier retry_after reason).admission in
            (
              t ∷ earlier,
              later,
              ap (λ us. t ∷ us) split,
              subst (λ link. IsDrained env accounts retry_after reason link last) other drained,
            )
      ]

keys-contains :
    (live : Set ℕ) (s : ℕ) → contains s live ≡ true → any (λ t. nat_beq t s) (keys live) ≡ true
unfolding lookup
keys-contains [] s h = absurd (ground arith)
keys-contains ((t, u) ∷ live) s h = ground (arith, keys-contains live s)

-- When the drain of a running server starts, the server is draining from then on, and of every live
-- connection that has neither failed nor been closed nor been told to drain before one of three
-- holds: it was active, GOAWAY with the given delay and reason is the last message of its queue, and
-- it is draining; or it was active, GOAWAY could not be queued for it when its turn came, and it has
-- failed or been stopped and is active no longer; or it was not active and is only marked as told.
pub drain-IsDrained :
    (env : Env) (server : Server) (w : World) (retry_after reason s : ℕ)
    → server.closed ≡ false
    → server.draining ≡ false
    → contains s server.live ≡ true
    → IsUntold (w.links s)
    → ((drain env server w retry_after reason).0.draining ≡ true)
      × ((earlier later : List ℕ) × (keys server.live ≡ earlier ++ s ∷ later)
          × IsDrained env
              (drain_all env w earlier retry_after reason).admission
              retry_after
              reason
              (w.links s)
              ((drain env server w retry_after reason).1.links s))
unfolding drain
drain-IsDrained env server w retry_after reason s c d l h =
    let (earlier, later, split, drained) =
      drain_all-IsDrained env retry_after reason w (keys server.live) s h
        (keys-contains server.live s l) in
    let accounts = (drain_all env w earlier retry_after reason).admission in
    let told_all = drain_all env w (keys server.live) retry_after reason in
    let same : told_all.links s ≡ (drain env server w retry_after reason).1.links s =
      ground (arith, c, d) in
    (
      ground (arith, c, d),
      (
        earlier,
        later,
        split,
        subst (IsDrained env accounts retry_after reason (w.links s)) same drained,
      ),
    )
