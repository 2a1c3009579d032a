-- ===== src/Oidc/Connector.antt =====
-- oidc/connector.go: the upstream connectors. What one connector does is its Begin and its
-- Complete, which are arguments of the model; a nil error of theirs is a value here.
use tempogate.Common.{
  String, Bool, not, ◌||◌, Option, none, some, List, [], ◌∷◌, ◌==◌, if◌then◌else◌,
}

pub record BeginParams : Type 0 where
  pub redirect_uri : String
  pub state : String
  pub code_challenge : String
  pub nonce : String
  pub request_id : String

-- The response's parameters are its Get method.
pub record CompleteParams : Type 0 where
  pub redirect_uri : String
  pub params : String → String
  pub code_verifier : String
  pub nonce : String
  pub request_id : String

-- Groups, which nothing consumes, are left out.
pub record UpstreamIdentity : Type 0 where
  pub subject : String
  pub email : String
  pub email_verified : Bool

pub record Completion : Type 0 where
  pub identity : UpstreamIdentity
  pub refusal : String

-- What Complete returns: a completion, or *UpstreamDenied with its code and description,
-- ErrMissingResponse, or any other error.
pub data Completed : Type 0 where
  completed : Completion → Completed
  upstream_denied : String → String → Completed
  missing_response upstream_error : Completed

-- Begin returns Start's URL, none for an error.
pub record Connector : Type 0 where
  pub id : String
  pub display_name : String
  pub response_method : String
  pub state_param : String
  pub begin_sign_in : BeginParams → Option String
  pub complete_sign_in : CompleteParams → Completed

-- byID and active
pub record Connectors : Type 0 where
  pub by_id : String → Option Connector
  pub active : Connector

-- Lookup
abbrev pub lookup : Connectors → String → Option Connector
lookup cs id = cs.by_id id

pub data ConnectorFault : Type 0 where
  none_configured too_many bad_id reserved_id bad_method empty_state_param : ConnectorFault

reserved : String → Bool
reserved id = (id == "key") || ((id == "tempogate") || ((id == "system") || (id == "local")))

-- `matches` is connectorIDPattern.MatchString.
module _ (matches : String → Bool) where
  -- ValidateConnectorID: none is a nil error.
  unfoldable pub validate_connector_id : String → Option ConnectorFault
  unfolding reserved
  validate_connector_id id =
      if not (matches id) then some bad_id else if reserved id then some reserved_id else none

  validate_flow : Connector → Option ConnectorFault
  validate_flow c =
      if not (c.response_method == "GET")
      then some bad_method
      else if c.state_param == ""
      then some empty_state_param
      else none

  -- NewConnectors
  unfoldable pub new_connectors : List Connector → Option ConnectorFault × Option Connectors
  unfolding validate_connector_id validate_flow
  new_connectors [] = (some none_configured, none)
  new_connectors (c ∷ d ∷ cs) = (some too_many, none)
  new_connectors (c ∷ []) = elim (validate_connector_id c.id) [
    | some fault ↦ (some fault, none)
    | none ↦ elim (validate_flow c) [
      | some fault ↦ (some fault, none)
      | none ↦
          (none, some (record { by_id = λ id. if id == c.id then some c else none; active = c }))
    ]
  ]
