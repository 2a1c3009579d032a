-- ===== src/Oidc/Session/Tests.antt =====
-- Browser sessions, run from sign-in to sign-out.
use tempogate.Common.{
  ◌<◌, ◌==◌, ◌≡◌, refl, true, false, some, List, [], ◌∷◌, cut, first, any, delete, arith,
}
use tempogate.State.Driver.{up}
use tempogate.State.BrowserSessions.{
  SessionRow, session_row, save_browser_session, lookup_browser_session, delete_browser_session,
}
use tempogate.Oidc.Model.{Identity}
use tempogate.Oidc.Mac.{signed, verify_signed}
use tempogate.Oidc.Mac.Plain.{plain, plain-IsWire, escape, unescape}
use tempogate.Oidc.Session.{
  SessionManager, active, no_session, sign_cookie, session_cookie, new_session, issue_cookie, get,
  clear,
}
use tempogate.Oidc.Session.Active.{IsSignedFor, IsStored, get_active, get-issue_cookie}

-- The header is the cookie's value.
abbrev pub manager : SessionManager
manager = record {
  hash = λ s. s;
  signer = plain;
  read_cookie = λ header name. some header;
  ttl = 300_000_000_000;
  cookie_name = "tempogate_session";
  cookie_path = "/idp/device";
  cookie_secure = true;
}

abbrev pub ann : Identity
ann = record { connector_id = "google"; subject = "42"; email = "ann@example.com" }

abbrev rows : List SessionRow
rows = session_row (λ s. s) (new_session manager "s1" ann 7) ∷ []

got : get manager up 8 (sign_cookie manager "s1") rows ≡ active (new_session manager "s1" ann 7)
unfolding lookup_browser_session get signed verify_signed escape unescape first cut
got = refl

forged : get manager up 8 "s1.s1" rows ≡ no_session
unfolding lookup_browser_session get signed verify_signed escape unescape first cut
forged = refl

get-issue_cookie_example :
    get manager up 8 (sign_cookie manager "s1") rows ≡ active (new_session manager "s1" ann 7)
unfolding save_browser_session issue_cookie any
get-issue_cookie_example =
    get-issue_cookie manager plain-IsWire up up (some "s1") ann 7 8 (sign_cookie manager "s1") []
      {rows' = rows} {sid = "s1"} {c = session_cookie manager "s1"} refl refl (λ n. refl) refl refl
      (omega arith)

get_active_example :
    IsSignedFor manager (sign_cookie manager "s1") "s1"
    × IsStored manager rows (new_session manager "s1" ann 7)
    × (8 < 300_000_000_007)
    × (("42" == "") ≡ false)
get_active_example = get_active manager up 8 (sign_cookie manager "s1") rows got

signed_out :
    get manager up 8 (sign_cookie manager "s1") (clear manager up (sign_cookie manager "s1") rows).0
    ≡ no_session
unfolding delete_browser_session lookup_browser_session get clear signed verify_signed escape
    unescape first delete cut
signed_out = refl
