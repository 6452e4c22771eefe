-- ===== src/Relay/Server/Accounts.antt =====
-- What a WebSocket request leaves of the counts of admission.
use miakapp_server.Relay.Admission.Counts.{
  IsGrown, taken, acquire_connection-IsGrown, release_connection-IsGrown,
}
use miakapp_server.Prelude.{
  sym, ℕ, ◌≡◌, refl, subst, inl, inr, false, Option, none, some, arith, if◌then◌else◌, Bool-cases,
  Option-cases, nat_eq,
}
use miakapp_server.Text.{Text, text_eq}
use miakapp_server.Relay.Admission.{
  AdmissionError, Admission, turned_away, connection_rate, connection_capacity, release_connection,
  acquire_connection,
}
use miakapp_server.Relay.Admission.Counting.{
  IsCounted, acquire_connection-IsCounted, release_connection-IsCounted,
}
use miakapp_server.Relay.Server.Serving.{Verdict-cases, begin_connection_ends}
use miakapp_server.Relay.Server.{
  invalid_source, admission_answer, is_serving, upgrade_refusal, serve_admitted, Server,
  UpgradeRequest, Answer, upgrade_refusal, begin_connection, serve_admitted, serve_web_socket,
  is_serving, admission_answer,
}

refusal_serves_not :
    (trim_space : Text → Text) (server : Server) (request : UpgradeRequest) (answer : Answer)
    → upgrade_refusal trim_space server request ≡ some answer
    → is_serving answer ≡ false
unfolding upgrade_refusal
refusal_serves_not trim_space server request answer h = ground arith

-- An admitted request is answered; it keeps its admission if it is served, and has given it back
-- otherwise.
serve_admitted_kept :
    (trim_space : Text → Text) (server : Server) (a : Admission) (source later : ℕ)
    (request : UpgradeRequest) (accepted : Option Text)
    → (after : Server) × (answer : Answer) × (serve_admitted trim_space server a source later
          request accepted
        ≡ some (after, if is_serving answer then a else release_connection a source later, answer))
unfolding serve_admitted
serve_admitted_kept trim_space server a source later request accepted =
    elim (Option-cases (upgrade_refusal trim_space server request)) [
      | inr (answer, e) ↦
          let refused : is_serving answer ≡ false =
            refusal_serves_not trim_space server request answer e in
          (server, answer, ground (arith, e, refused))
      | inl e ↦ elim (Option-cases (begin_connection server accepted)) [
        | inl f ↦ absurd (begin_connection_ends server accepted f)
        | inr ((begun, answer), f) ↦ (begun, answer, ground (arith, e, f))
      ]
    ]

-- What a request adds to the counts: its connection if it is served.
abbrev pub added : Answer → ℕ
added answer = if is_serving answer then 1 else 0

abbrev pub IsAccounted : Option ℕ → Answer → Admission → Admission → Type 0
IsAccounted none answer a b = (b ≡ a) × (is_serving answer ≡ false)
IsAccounted (some source) answer a b = IsGrown (added answer) source a b

turned_away_added : (reason : AdmissionError) → added (admission_answer (turned_away reason)) ≡ 0
turned_away_added connection_rate = refl
turned_away_added connection_capacity = refl

accounted :
    {o p : Option ℕ} (a : Admission) (answer : Answer) (b : Admission)
    → o ≡ p
    → IsAccounted o answer a b
    → IsAccounted p answer a b
accounted a answer b = subst (λ o. IsAccounted o answer a b)

-- Where the counts of admission are exact and within their caps, every request is answered, they
-- are so afterwards, and just those connections that are served are added: the total and the count
-- of the request's source grow by one if its connection runs and stay as they are otherwise, whether
-- the request has no source, was turned away or gave its admission back, and no other source's count
-- changes.
pub serve_web_socket-IsAccounted :
    (trim_space : Text → Text) (server : Server) (a : Admission) (now later : ℕ)
    (request : UpgradeRequest) (accepted : Option Text)
    → IsCounted server.config a
    → (after : Server) × (b : Admission) × (answer : Answer) × (serve_web_socket trim_space server a
          now later request accepted
        ≡ some (after, b, answer))
      × IsCounted server.config b
      × IsAccounted request.source answer a b
unfolding serve_web_socket
serve_web_socket-IsAccounted trim_space server a now later request accepted v =
    elim (Option-cases request.source) [
      | inl e ↦ (
        server,
        a,
        invalid_source,
        ground (arith, e),
        v,
        accounted a invalid_source a (sym e) (refl, refl),
      )
      | inr (source, e) ↦
          let (counted, verdict) = acquire_connection server.config a source now in
          let exact = acquire_connection-IsCounted server.config a source now v in
          let grown = acquire_connection-IsGrown server.config a source now v.distinct in
          elim (Verdict-cases verdict) [
            | inr (reason, f) ↦
                let answer = admission_answer (turned_away reason) in
                let stays : IsGrown (added answer) source a counted =
                  rw (turned_away_added reason)
                    (subst (λ u. IsGrown (taken u) source a counted) f grown) in
                (server, counted, answer, ground (arith, e, f), exact, rw e stays)
            | inl f ↦
                let one : IsGrown 1 source a counted =
                  subst (λ u. IsGrown (taken u) source a counted) f grown in
                let (after, answer, g) =
                  serve_admitted_kept trim_space server counted source later request accepted in
                let back = release_connection counted source later in
                let answered : serve_web_socket trim_space server a now later request accepted
                    ≡ some (after, (if is_serving answer then counted else back), answer) =
                  ground (arith, e, f, g) in
                elim (Bool-cases (is_serving answer)) [
                  | inl serves ↦ (
                    after,
                    counted,
                    answer,
                    ground (arith, answered, serves),
                    exact,
                    accounted a answer counted (sym e)
                        (subst (λ n. IsGrown n source a counted) (ground (arith, serves)) one),
                  )
                  | inr refuses ↦ (
                    after,
                    back,
                    answer,
                    ground (arith, answered, refuses),
                    release_connection-IsCounted server.config counted source later exact,
                    accounted a answer back (sym e) (
                        subst (λ n. IsGrown n source a back) (ground (arith, refuses))
                          (release_connection-IsGrown a counted source later exact.distinct one)),
                  )
                ]
          ]
    ]
