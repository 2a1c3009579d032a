-- ===== src/State/DeviceCodes.antt =====
-- state/sqlite/device_codes.go: the device_codes table. `hash` stands for the SHA-256 of
-- state/internal/secret. A nullable column is an Option.
pub mod Decision
pub mod History
pub mod Pace
pub mod Statements
mod Tests
use tempogate.Common.{
  ℕ, zero, suc, ◌+◌, ◌*◌, String, Bool, true, false, ◌&&◌, ◌||◌, Option, none, some, List, ◌∷◌,
  ◌==◌, if◌then◌else◌, is_none, ltb, leb, first, any, update, delete, count,
}
use tempogate.Oidc.Model.{DeviceCode, Identity}
use tempogate.State.Driver.{Driver}

pub record DeviceCodeRow : Type 0 where
  pub device_code_hash : String
  pub user_code : String
  pub client_id : String
  pub scope : String
  pub connector_id : Option String
  pub subject : Option String
  pub email : Option String
  pub approved_at : Option ℕ
  pub denied_at : Option ℕ
  pub last_polled_at : Option ℕ
  pub interval_seconds : ℕ
  pub created_at : ℕ
  pub expires_at : ℕ

pub data SaveDeviceResult : Type 0 where
  saved duplicate failed : SaveDeviceResult

pub data LookupResult : Type 0 where
  found : DeviceCode → LookupResult
  not_found failed : LookupResult

-- polled carries the slowDown that PollDeviceCode reports with a nil error.
pub data PollResult : Type 0 where
  polled : Bool → PollResult
  not_found failed : PollResult

pub data DecideResult : Type 0 where
  decided not_pending failed : DecideResult

-- nullString, and the String field of a sql.NullString.
abbrev pub null_string : String → Option String
null_string s = if s == "" then none else some s

abbrev pub string_of : Option String → String
string_of none = ""
string_of (some s) = s

abbrev pub hash_of : DeviceCodeRow → String
hash_of r = r.device_code_hash

abbrev pub user_code_of : DeviceCodeRow → String
user_code_of r = r.user_code

abbrev pub scan_device : String → DeviceCodeRow → DeviceCode
scan_device code r = record {
  code = code;
  user_code = r.user_code;
  client_id = r.client_id;
  scope = r.scope;
  connector_id = string_of r.connector_id;
  subject = string_of r.subject;
  email = string_of r.email;
  approved_at = r.approved_at;
  denied_at = r.denied_at;
  last_polled_at = r.last_polled_at;
  interval_seconds = r.interval_seconds;
  created_at = r.created_at;
  expires_at = r.expires_at;
}

-- lookupDeviceCode, by either column.
abbrev pub lookup_by : Driver → (DeviceCodeRow → Bool) → String → List DeviceCodeRow → LookupResult
lookup_by db p code rows =
    if db 0
    then LookupResult.failed
    else elim (first p rows) [ some r ↦ found (scan_device code r) | none ↦ LookupResult.not_found ]

-- The result's Code is empty.
unfoldable pub lookup_device_code_by_user_code : Driver → String → List DeviceCodeRow → LookupResult
lookup_device_code_by_user_code db user_code rows =
    lookup_by db (λ r. user_code_of r == user_code) "" rows

-- time.Second, in nanoseconds.
abbrev pub second : ℕ
second = 1_000_000_000

-- !lastPolled.Valid || now.Sub(lastPolled.Time) >= time.Duration(interval)*time.Second
abbrev pub well_paced : Option ℕ → ℕ → ℕ → Bool
well_paced none interval now = true
well_paced (some last) interval now = leb (last + interval * second) now

-- last_polled_at IS ?
abbrev pub same_stamp : Option ℕ → Option ℕ → Bool
same_stamp none none = true
same_stamp none (some b) = false
same_stamp (some a) none = false
same_stamp (some a) (some b) = leb a b && leb b a

abbrev pub stamp_row : ℕ → DeviceCodeRow → DeviceCodeRow
stamp_row now r = record r { last_polled_at = some now }

abbrev pub slow_row : ℕ → DeviceCodeRow → DeviceCodeRow
slow_row now r = record r { last_polled_at = some now; interval_seconds = r.interval_seconds + 5 }

-- The WHERE clause of the compare-and-swap.
abbrev pub claimable : String → Option ℕ → DeviceCodeRow → Bool
claimable h prev r = (hash_of r == h) && same_stamp r.last_polled_at prev

unfoldable is_one : ℕ → Bool
is_one zero = false
is_one (suc zero) = true
is_one (suc (suc n)) = false

-- The statements of PollDeviceCode, each one atomic. What the SELECT leads to: the swap, with the
-- stamp that was read; the slow_down; or an answer.
pub data PollNext : Type 0 where
  swapping : Option ℕ → PollNext
  slowing : PollNext
  answered : PollResult → PollNext

-- The SELECT, and the branch behind it.
abbrev pub poll_branch : ℕ → DeviceCodeRow → PollNext
poll_branch now r =
    if well_paced r.last_polled_at r.interval_seconds now
    then swapping r.last_polled_at
    else slowing

unfoldable pub poll_read : Driver → String → ℕ → List DeviceCodeRow → PollNext
poll_read db h now rows =
    if db 0 then answered PollResult.failed else elim (first (λ r. hash_of r == h) rows) [
      | none ↦ answered PollResult.not_found
      | some r ↦ poll_branch now r
    ]

-- The compare-and-swap; none: it was lost, and the slow_down comes next.
unfoldable pub poll_swap :
    Driver → String → ℕ → Option ℕ → List DeviceCodeRow → List DeviceCodeRow × Option PollResult
unfolding is_one
poll_swap db h now prev rows =
    if db 1
    then (rows, some PollResult.failed)
    else let swapped = update (claimable h prev) (stamp_row now) rows in
      if db 2
      then (swapped, some PollResult.failed)
      else if is_one (count (claimable h prev) rows)
      then (swapped, some (polled false))
      else (swapped, none)

-- The last statement.
unfoldable pub slow_down :
    Driver → String → ℕ → List DeviceCodeRow → List DeviceCodeRow × PollResult
slow_down db h now rows =
    if db 3
    then (rows, PollResult.failed)
    else (update (λ r. hash_of r == h) (slow_row now) rows, polled true)

abbrev pub after_swap :
    Driver → String → ℕ → List DeviceCodeRow × Option PollResult → List DeviceCodeRow × PollResult
after_swap db h now (rows, some r) = (rows, r)
after_swap db h now (rows, none) = slow_down db h now rows

abbrev pub behind_read :
    Driver
    → (List DeviceCodeRow → List DeviceCodeRow)
    → String
    → ℕ
    → List DeviceCodeRow
    → PollNext
    → List DeviceCodeRow × PollResult
behind_read db others h now rows (answered r) = (rows, r)
behind_read db others h now rows (swapping prev) =
    after_swap db h now (poll_swap db h now prev (others rows))
behind_read db others h now rows slowing = slow_down db h now (others rows)

abbrev pub pending_for : String → DeviceCodeRow → Bool
pending_for user_code r =
    (user_code_of r == user_code) && (is_none r.approved_at && is_none r.denied_at)

abbrev pub approve_row : Identity → ℕ → DeviceCodeRow → DeviceCodeRow
approve_row id now r = record r {
  connector_id = some id.connector_id;
  subject = some id.subject;
  email = some id.email;
  approved_at = some now;
}

abbrev pub deny_row : ℕ → DeviceCodeRow → DeviceCodeRow
deny_row now r = record r { denied_at = some now }

-- decideDeviceCode, with the SET clause of its statement as a function. The expiry is read before
-- the conditional UPDATE.
unfoldable pub decide_device_code :
    Driver
    → ℕ
    → (DeviceCodeRow → DeviceCodeRow)
    → String
    → List DeviceCodeRow
    → List DeviceCodeRow × DecideResult
decide_device_code db now set user_code rows =
    if db 0
    then (rows, DecideResult.failed)
    else elim (first (λ r. user_code_of r == user_code) rows) [
      | none ↦ (rows, not_pending)
      | some r ↦
          if ltb now r.expires_at
          then (if db 1
              then (rows, DecideResult.failed)
              else let rows' = update (pending_for user_code) set rows in
                if db 2
                then (rows', DecideResult.failed)
                else if any (pending_for user_code) rows
                then (rows', decided)
                else (rows', not_pending))
          else (rows, not_pending)
    ]

unfoldable pub approve_device_code :
    Driver → String → Identity → ℕ → List DeviceCodeRow → List DeviceCodeRow × DecideResult
approve_device_code db user_code id now rows =
    decide_device_code db now (approve_row id now) user_code rows

unfoldable pub deny_device_code :
    Driver → String → ℕ → List DeviceCodeRow → List DeviceCodeRow × DecideResult
deny_device_code db user_code now rows = decide_device_code db now (deny_row now) user_code rows

module _ (hash : String → String) where
  abbrev pub row_of : DeviceCode → DeviceCodeRow
  row_of dc = record {
    device_code_hash = hash dc.code;
    user_code = dc.user_code;
    client_id = dc.client_id;
    scope = dc.scope;
    connector_id = null_string dc.connector_id;
    subject = null_string dc.subject;
    email = null_string dc.email;
    approved_at = dc.approved_at;
    denied_at = dc.denied_at;
    last_polled_at = dc.last_polled_at;
    interval_seconds = dc.interval_seconds;
    created_at = dc.created_at;
    expires_at = dc.expires_at;
  }

  -- SaveDeviceCode: the primary key is the hash, and user_code is UNIQUE.
  unfoldable pub save_device_code :
      Driver → DeviceCode → List DeviceCodeRow → List DeviceCodeRow × SaveDeviceResult
  save_device_code db dc rows =
      if db 0
      then (rows, SaveDeviceResult.failed)
      else if any (λ r. hash_of r == hash dc.code) rows
          || any (λ r. user_code_of r == dc.user_code) rows
      then (rows, duplicate)
      else (row_of dc ∷ rows, saved)

  unfoldable pub lookup_device_code_by_device_code :
      Driver → String → List DeviceCodeRow → LookupResult
  lookup_device_code_by_device_code db code rows =
      lookup_by db (λ r. hash_of r == hash code) code rows

  -- PollDeviceCode: its statements, one after the other. `others` is what other callers write between
  -- the SELECT and the UPDATE behind it.
  unfoldable pub poll_device_code :
      Driver
      → (List DeviceCodeRow → List DeviceCodeRow)
      → String
      → ℕ
      → List DeviceCodeRow
      → List DeviceCodeRow × PollResult
  unfolding poll_read poll_swap slow_down
  poll_device_code db others code now rows =
      behind_read db others (hash code) now rows (poll_read db (hash code) now rows)

  -- ConsumeDeviceCode.
  unfoldable pub consume_device_code :
      Driver → String → List DeviceCodeRow → List DeviceCodeRow × LookupResult
  consume_device_code db code rows =
      if db 0
      then (rows, LookupResult.failed)
      else elim (first (λ r. hash_of r == hash code) rows) [
        | some r ↦ (delete (λ x. hash_of x == hash code) rows, found (scan_device code r))
        | none ↦ (rows, LookupResult.not_found)
      ]
