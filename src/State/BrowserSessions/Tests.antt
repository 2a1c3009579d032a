-- ===== src/State/BrowserSessions/Tests.antt =====
-- The browser_sessions table on concrete rows. The hash is the identity here.
use tempogate.Common.{delete, first, String, ◌≡◌, refl, List, [], ◌∷◌, any}
use tempogate.Oidc.Model.{BrowserSession}
use tempogate.State.Driver.{up}
use tempogate.State.BrowserSessions.{
  SessionRow, saved, not_found, session_row, save_browser_session, lookup_browser_session,
  delete_browser_session,
}

abbrev same : String → String
same s = s

abbrev session : BrowserSession
session = record {
  sid = "s1";
  connector_id = "google";
  subject = "u1";
  email = "u@example.com";
  created_at = 10;
  expires_at = 70;
}

abbrev one_row : List SessionRow
one_row = session_row same session ∷ []

stored : save_browser_session same up session [] ≡ (one_row, saved)
unfolding save_browser_session any
stored = refl

signed_out :
    lookup_browser_session same up "s1" (delete_browser_session same up "s1" one_row).0 ≡ not_found
unfolding delete_browser_session lookup_browser_session delete first
signed_out = refl
