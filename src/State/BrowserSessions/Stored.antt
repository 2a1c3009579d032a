-- ===== src/State/BrowserSessions/Stored.antt =====
-- Browser sessions: what a lookup finds after a save and after a deletion.
use tempogate.Common.{
  String, ◌≡◌, ◌==◌, eq_refl, Option, none, some, List, ◌∷◌, arith, if◌then◌else◌, first, delete,
  entry, entry-delete,
}
use tempogate.Oidc.Model.{BrowserSession}
use tempogate.State.Driver.{Driver, IsUp}
use tempogate.State.BrowserSessions.{
  SessionRow, LookupSessionResult, saved, found, not_found, sid_hash_of, scan_session, session_row,
  save_browser_session, lookup_browser_session, delete_browser_session,
}

-- what a lookup of the sid makes of its row
abbrev pub answer : String → Option SessionRow → LookupSessionResult
answer sid none = not_found
answer sid (some r) = found (scan_session sid r)

module _ (hash : String → String) where
  -- A session that was stored is looked up, by a driver that answers, with all its fields.
  pub lookup_browser_session-save :
      (db db' : Driver) (bs : BrowserSession) (rows : List SessionRow) {rows' : List SessionRow}
      → IsUp db'
      → save_browser_session hash db bs rows ≡ (rows', saved)
      → lookup_browser_session hash db' bs.sid rows' ≡ found bs
  unfolding save_browser_session lookup_browser_session first
  lookup_browser_session-save db db' bs rows {rows'} ready e =
      let changed : rows' ≡ session_row hash bs ∷ rows = ground arith in
      rw (changed, ready 0, eq_refl)

  pub lookup-answer :
      (db : Driver) (sid : String) (rows : List SessionRow)
      → IsUp db
      → lookup_browser_session hash db sid rows ≡ answer sid (entry sid_hash_of (hash sid) rows)
  unfolding lookup_browser_session entry
  lookup-answer db sid rows ready = ground (arith, ready 0)

  -- Behind the deletion of a session, with drivers that answer, a lookup of its sid finds
  -- nothing, and a lookup of a sid with another hash finds what it found before.
  pub lookup_browser_session-delete :
      (db db' : Driver) (sid sid' : String) (rows : List SessionRow)
      → IsUp db
      → IsUp db'
      → lookup_browser_session hash db' sid' (delete_browser_session hash db sid rows).0
        ≡ (if hash sid' == hash sid then not_found else lookup_browser_session hash db' sid' rows)
  unfolding delete_browser_session
  lookup_browser_session-delete db db' sid sid' rows ready ready' = ground (
    arith,
    ready 0,
    lookup-answer db' sid' rows ready',
    lookup-answer db' sid' (delete (λ r. sid_hash_of r == hash sid) rows) ready',
    entry-delete sid_hash_of (hash sid') (hash sid) rows,
  )
