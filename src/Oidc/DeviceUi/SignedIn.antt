-- ===== src/Oidc/DeviceUi/SignedIn.antt =====
-- The way back from the sign-in: the session that the callback starts, and what it is of.
use tempogate.Common.{String, ◌≡◌, some}
use tempogate.Oidc.Reply.{ok}
use tempogate.Oidc.Binding.{Cookie}
use tempogate.Oidc.Token.{Redemption}
use tempogate.Oidc.Session.{issued, issue_cookie}
use tempogate.State.Driver.{Driver}
use tempogate.Oidc.DeviceUi.{DeviceUi, UiRequest, Ui}
use tempogate.Oidc.DeviceUi.Bounce.{verify_bounce_state}
use tempogate.Oidc.DeviceUi.Pages.{confirm_redirect}
use tempogate.Oidc.DeviceUi.Decision.{redeem_auth_code}

module _ {T : Type 0} (u : DeviceUi T) (q : UiRequest) where
  -- what a redirect with a cookie stands for
  abbrev pub IsSignedIn : String → String → Ui T → Ui T → String → Cookie → Type 0
  IsSignedIn code state w w' location c =
      (user_code : String) × (r : Redemption) × (sid : String) × (verify_bounce_state u q.now state
        ≡ some user_code)
      × (redeem_auth_code u q code w.tables ≡ (w'.tables, ok r))
      × (issue_cookie u.sessions q.session_db q.sid r.identity q.now_session w.sessions
          ≡ (w'.sessions, issued sid c))
      × (location ≡ confirm_redirect u user_code)
