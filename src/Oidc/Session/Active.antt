-- ===== src/Oidc/Session/Active.antt =====
-- Browser sessions: what a session that Get hands out is, and what Issue and Clear do to it.
use tempogate.Common.{
  ℕ, ◌+◌, ◌<◌, String, ◌≡◌, refl, sym, ap, ◌∙◌, false, Option, none, some, List, ◌==◌, eq_refl,
  arith, Bool-cases, Option-cases, first, inl, inr, entry, cut,
}
use tempogate.State.Driver.{Driver, IsUp}
use tempogate.State.BrowserSessions.{
  SessionRow, SaveSessionResult, saved, duplicate, LookupSessionResult, found, not_found,
  DeleteSessionResult, deleted, sid_hash_of, scan_session, save_browser_session,
  lookup_browser_session, delete_browser_session,
}
use tempogate.State.BrowserSessions.Stored.{
  answer, lookup_browser_session-save, lookup_browser_session-delete,
}
use tempogate.Oidc.Model.{Identity, BrowserSession}
use tempogate.Oidc.Binding.{Cookie}
use tempogate.Oidc.Mac.{mac_label_session_cookie, labeled_mac}
use tempogate.Oidc.Mac.Sealed.{IsWire, verify_signed-signed, verify_signed-mac}
use tempogate.Oidc.Session.{
  SessionManager, issued, active, no_session, sign_cookie, verify_cookie, sid_of_cookie,
  sid_from_request, session_cookie, new_session, issue_saved, issue_for, issue_cookie, get_found,
  get_for, get, clear_deleted, clear_for, clear,
}

module _ (m : SessionManager) where
  get_found_active :
      (now : ℕ) (r : LookupSessionResult) {bs : BrowserSession}
      → get_found m now r ≡ active bs
      → (r ≡ found bs) × (now < bs.expires_at) × ((bs.subject == "") ≡ false)
  get_found_active now (found x) e = ground arith
  get_found_active now not_found e = cc
  get_found_active now LookupSessionResult.failed e = cc

  -- what a session tells of the row under its sid
  abbrev pub IsStored : List SessionRow → BrowserSession → Type 0
  IsStored rows bs =
      (r : SessionRow) × (entry sid_hash_of (m.hash bs.sid) rows ≡ some r)
      × (bs ≡ scan_session bs.sid r)

  -- the cookie of the header, with a MAC of the sid under the label of session cookies
  abbrev pub IsSignedFor : String → String → Type 0
  IsSignedFor header sid =
      (value : String) × (a : String) × (b : String) × (m.read_cookie header m.cookie_name
        ≡ some value)
      × (cut b'.' value ≡ some (a, b))
      × (m.signer.decode a ≡ some sid)
      × (m.signer.decode b ≡ some (labeled_mac m.signer mac_label_session_cookie sid))

  answer_found :
      (sid : String) (rows : List SessionRow) (o : Option SessionRow) {bs : BrowserSession}
      → entry sid_hash_of (m.hash sid) rows ≡ o
      → answer sid o ≡ found bs
      → (sid ≡ bs.sid) × IsStored rows bs
  answer_found sid rows none h e = cc
  answer_found sid rows (some r) {bs} h e =
      let scanned : bs ≡ scan_session sid r = cc in
      let named : sid ≡ bs.sid = sym (ap (λ x. x.sid) scanned) in
      (named, (r, rw (sym named) h, scanned ∙ ap (λ t. scan_session t r) named))

  lookup_found :
      (db : Driver) (sid : String) (rows : List SessionRow) {bs : BrowserSession}
      → lookup_browser_session m.hash db sid rows ≡ found bs
      → (sid ≡ bs.sid) × IsStored rows bs
  unfolding lookup_browser_session entry
  lookup_found db sid rows e = elim (Bool-cases (db 0)) [
    | inl down ↦ cc (rw down at e)
    | inr up ↦ elim (Option-cases (first (λ r. sid_hash_of r == m.hash sid) rows)) [
      | inl absent ↦ cc (rw (up, absent) at e)
      | inr (r, hit) ↦ answer_found sid rows (some r) hit (rw (up, hit) at e)
    ]
  ]

  get_for_active :
      (db : Driver) (now : ℕ) (o : Option String) (rows : List SessionRow) {bs : BrowserSession}
      → get_for m db now o rows ≡ active bs
      → (o ≡ some bs.sid) × IsStored rows bs × (now < bs.expires_at) × ((bs.subject == "") ≡ false)
  get_for_active db now none rows e = cc
  get_for_active db now (some sid) rows e =
      let (at_sid, live, named) =
        get_found_active now (lookup_browser_session m.hash db sid rows) e in
      let (same, stored) = lookup_found db sid rows at_sid in (rw same, stored, live, named)

  sid_of_cookie-some :
      (o : Option String) {sid : String}
      → sid_of_cookie m o ≡ some sid
      → (value : String) × (o ≡ some value) × (verify_cookie m value ≡ some sid)
  sid_of_cookie-some none e = cc
  sid_of_cookie-some (some value) e = (value, refl, e)

  -- A session that Get hands out comes from a cookie that verifies and whose second half decodes
  -- to the labelled MAC of the session's sid. Its row is stored under that sid's hash with the
  -- same fields, it has not expired at the reading of the clock, and it has a subject.
  pub get_active :
      (db : Driver) (now : ℕ) (header : String) (rows : List SessionRow) {bs : BrowserSession}
      → get m db now header rows ≡ active bs
      → IsSignedFor header bs.sid
        × IsStored rows bs
        × (now < bs.expires_at)
        × ((bs.subject == "") ≡ false)
  unfolding get
  get_active db now header rows e =
      let (signed_for, stored, live, named) =
        get_for_active db now (sid_from_request m header) rows e in
      let (value, sent, verified) =
        sid_of_cookie-some (m.read_cookie header m.cookie_name) signed_for in
      let (a, b, halves, sid_half, mac_half) =
        verify_signed-mac m.signer mac_label_session_cookie value verified in
      ((value, a, b, sent, halves, sid_half, mac_half), stored, live, named)

  issue_saved_issued :
      (s : String) (o : List SessionRow × SaveSessionResult) {rows' : List SessionRow}
      {sid : String} {c : Cookie}
      → issue_saved m s o ≡ (rows', issued sid c)
      → (s ≡ sid) × (c ≡ session_cookie m sid) × (o ≡ (rows', saved))
  issue_saved_issued s (rows, saved) e = ground arith
  issue_saved_issued s (rows, duplicate) e = cc
  issue_saved_issued s (rows, SaveSessionResult.failed) e = cc

  issue_for_issued :
      (db : Driver) (o : Option String) (id : Identity) (now : ℕ) (rows : List SessionRow)
      {rows' : List SessionRow} {sid : String} {c : Cookie}
      → issue_for m db o id now rows ≡ (rows', issued sid c)
      → (c ≡ session_cookie m sid)
        × (save_browser_session m.hash db (new_session m sid id now) rows ≡ (rows', saved))
  issue_for_issued db none id now rows e = cc
  issue_for_issued db (some s) id now rows e =
      let (same, made, stored) =
        issue_saved_issued s (save_browser_session m.hash db (new_session m s id now) rows) e in
      (made, rw same at stored)

  -- The session that Issue has issued is active when the browser sends the cookie back, with the
  -- identity it was issued for, at every reading of the clock before its expiry, by a driver that
  -- answers, provided the sid and the subject are not empty.
  pub get-issue_cookie :
      (wire : IsWire m.signer) (db db' : Driver) (o : Option String) (id : Identity) (now later : ℕ)
      (header : String) (rows : List SessionRow) {rows' : List SessionRow} {sid : String}
      {c : Cookie}
      → issue_cookie m db o id now rows ≡ (rows', issued sid c)
      → m.read_cookie header c.name ≡ some c.value
      → IsUp db'
      → (sid == "") ≡ false
      → (id.subject == "") ≡ false
      → later < now + m.ttl
      → get m db' later header rows' ≡ active (new_session m sid id now)
  unfolding issue_cookie get
  get-issue_cookie wire db db' o id now later header rows {rows'} {sid} {c} e sent up named known
        live =
      let (made, stored) = issue_for_issued db o id now rows e in
      let sent' : m.read_cookie header m.cookie_name ≡ some (sign_cookie m sid) = rw made at sent in
      rw
        (
          sent',
          verify_signed-signed m.signer wire mac_label_session_cookie sid named,
          lookup_browser_session-save m.hash db db' (new_session m sid id now) rows up stored,
          known,
        )
        (ground arith)

  clear_deleted-rows : (p : List SessionRow × DeleteSessionResult) → (clear_deleted m p).0 ≡ p.0
  clear_deleted-rows (rows, deleted) = refl
  clear_deleted-rows (rows, DeleteSessionResult.failed) = refl

  get_for-clear_for :
      (db db' : Driver) (now : ℕ) (o : Option String) (rows : List SessionRow)
      → IsUp db
      → IsUp db'
      → get_for m db' now o (clear_for m db o rows).0 ≡ no_session
  get_for-clear_for db db' now none rows up up' = refl
  get_for-clear_for db db' now (some sid) rows up up' = rw (
    clear_deleted-rows (delete_browser_session m.hash db sid rows),
    lookup_browser_session-delete m.hash db db' sid sid rows up up',
    eq_refl,
  )

  -- Behind Clear, with drivers that answer, the cookie that Clear was sent has no session.
  pub get-clear :
      (db db' : Driver) (now : ℕ) (header : String) (rows : List SessionRow)
      → IsUp db
      → IsUp db'
      → get m db' now header (clear m db header rows).0 ≡ no_session
  unfolding get clear
  get-clear db db' now header rows up up' =
      get_for-clear_for db db' now (sid_from_request m header) rows up up'
