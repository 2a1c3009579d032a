-- ===== src/State/AuthRequests.antt =====
-- state/sqlite/authrequest.go: the auth_requests table. Its columns are the fields of an
-- AuthRequest, and its key is the internal state itself.
pub mod Pending
mod Tests
use tempogate.Common.{
  String, ◌==◌, Option, none, some, List, ◌∷◌, if◌then◌else◌, first, any, delete,
}
use tempogate.Oidc.Model.{AuthRequest}
use tempogate.State.Driver.{Driver}

pub data SaveRequestResult : Type 0 where
  saved duplicate failed : SaveRequestResult

pub data ConsumeRequestResult : Type 0 where
  consumed : AuthRequest → ConsumeRequestResult
  not_found failed : ConsumeRequestResult

abbrev pub state_of : AuthRequest → String
state_of ar = ar.internal_state

-- SaveAuthRequest.
unfoldable pub save_auth_request :
    Driver → AuthRequest → List AuthRequest → List AuthRequest × SaveRequestResult
save_auth_request db ar rows =
    if db 0
    then (rows, SaveRequestResult.failed)
    else if any (λ r. state_of r == ar.internal_state) rows
    then (rows, duplicate)
    else (ar ∷ rows, saved)

-- ConsumeAuthRequest. DELETE … RETURNING returns the row that it deletes.
unfoldable pub consume_auth_request :
    Driver → String → List AuthRequest → List AuthRequest × ConsumeRequestResult
consume_auth_request db internal_state rows =
    if db 0
    then (rows, ConsumeRequestResult.failed)
    else elim (first (λ r. state_of r == internal_state) rows) [
      | some r ↦ (delete (λ x. state_of x == internal_state) rows, consumed r)
      | none ↦ (rows, not_found)
    ]
