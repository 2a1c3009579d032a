-- ===== src/State/AuthRequests/Pending.antt =====
-- Pending authorization requests: a state hands its request out once.
use tempogate.Common.{
  String, ◌≡◌, inl, inr, eq_iff, ap, ◌∙◌, ◌==◌, eq_refl, Option, none, some, List, ◌∷◌, arith,
  if◌then◌else◌, first, entry, entry-delete, Option-cases,
}
use tempogate.Oidc.Model.{AuthRequest}
use tempogate.State.Driver.{Driver, IsUp}
use tempogate.State.AuthRequests.{
  saved, ConsumeRequestResult, consumed, not_found, state_of, save_auth_request,
  consume_auth_request,
}

-- what a state is answered with
abbrev pub answer : Option AuthRequest → ConsumeRequestResult
answer none = not_found
answer (some ar) = consumed ar

absent_kept :
    (k state : String) (rows : List AuthRequest)
    → entry state_of state rows ≡ none
    → entry state_of k rows ≡ (if k == state then none else entry state_of k rows)
absent_kept k state rows absent = ground (arith, eq_iff k state, absent)

-- ConsumeAuthRequest over the table as a function from states to requests, for a driver that
-- answers: the state is answered with its request, if it has one, and is afterwards unknown; the
-- request of every other state stays as it was.
pub consume_auth_request-answer :
    (db : Driver) (state k : String) (rows : List AuthRequest)
    → IsUp db
    → ((consume_auth_request db state rows).1 ≡ answer (entry state_of state rows))
      × (entry state_of k (consume_auth_request db state rows).0
          ≡ (if k == state then none else entry state_of k rows))
unfolding consume_auth_request entry
consume_auth_request-answer db state k rows ready =
    elim (Option-cases (entry state_of state rows)) [
      | inl absent ↦ (rw (ready 0, absent), rw (ready 0, absent) (absent_kept k state rows absent))
      | inr (ar, found) ↦
          (rw (ready 0, found), rw (ready 0, found) (entry-delete state_of k state rows))
    ]

-- A request that was stored is handed out, by a driver that answers, with all its fields, and a
-- replay of its state is answered as unknown.
pub consume_auth_request-save :
    (db db' : Driver) (ar : AuthRequest) (rows : List AuthRequest) {rows' : List AuthRequest}
    → IsUp db'
    → save_auth_request db ar rows ≡ (rows', saved)
    → ((consume_auth_request db' ar.internal_state rows').1 ≡ consumed ar)
      × ((consume_auth_request db' ar.internal_state
            (consume_auth_request db' ar.internal_state rows').0).1
          ≡ not_found)
unfolding save_auth_request consume_auth_request first
consume_auth_request-save db db' ar rows {rows'} ready e =
    let changed : rows' ≡ ar ∷ rows = ground arith in
    let first_time =
      consume_auth_request-answer db' ar.internal_state ar.internal_state rows' ready in
    let replay =
      consume_auth_request-answer db' ar.internal_state ar.internal_state
        (consume_auth_request db' ar.internal_state rows').0 ready in
    (
      rw (changed, ready 0, eq_refl),
      replay.0
          ∙ ap answer (
              first_time.1
              ∙ ap (λ b. if b then none else entry state_of ar.internal_state rows')
                  (eq_refl ar.internal_state)),
    )
