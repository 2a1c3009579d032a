-- ===== src/Oidc/Callback/SignIn.antt =====
-- oidc/callback.go before oidc/token.go: from the connector's verdict to the tokens.
use tempogate.Common.{String, ◌≡◌, Option}
use tempogate.Oidc.Model.{AuthCode}
use tempogate.Oidc.Reply.{Tables, ok}
use tempogate.Oidc.Connector.{Connector}
use tempogate.Oidc.Token.{Server, Request, TokenResponse, Lineage, authenticate_client}
use tempogate.Oidc.Token.Redeem.{IsBound}
use tempogate.Oidc.Grants.{Form, client_credentials}
use tempogate.Oidc.Grants.Code.{identity_of, redemption_request}
use tempogate.Oidc.Client.{Client, authorization_code}
use tempogate.Oidc.Token.Issue.{refresh_of}
use tempogate.State.Refresh.{save_refresh}
use tempogate.State.Refresh as StateRefresh
use tempogate.State.AuthCodes.{saved}
use tempogate.Oidc.Callback.{Callback}

-- what the token endpoint has checked and stored for a code
abbrev pub IsRedeemed :
    Server
    → Request
    → Form
    → Option (String × String)
    → Tables
    → Tables
    → TokenResponse
    → AuthCode
    → Type 0
IsRedeemed s p form basic u u' tokens ac =
    (cl : Client) × (l : Lineage) × (jti : String) × (authenticate_client s
        (client_credentials form basic).0 (client_credentials form basic).1 authorization_code
      ≡ ok cl)
    × ((client_credentials form basic).0 ≡ ac.client_id)
    × (form "redirect_uri" ≡ ac.redirect_uri)
    × IsBound s p (redemption_request s p form basic) cl ac
    × (save_refresh s.hash p.save_db
          (refresh_of s p (identity_of s p form basic ac) ac.client_id l jti tokens.refresh_token)
          u.refresh
        ≡ (u'.refresh, StateRefresh.saved))
