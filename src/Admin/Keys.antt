-- ===== src/Admin/Keys.antt =====
-- admin/keys.go: the operations that read and delete integration keys; creation is in Create. The
-- signer and uuid.Parse are fields of the handler. The audit lines are left out, with the row that
-- delete reads back for them.
pub mod Create
pub mod Walk
pub mod Answer
pub mod Paging
mod Tests
use tempogate.Common.{
  ℕ, zero, suc, ◌-◌, String, Bool, true, false, not, ◌&&◌, Option, none, some, List, [], ◌∷◌, ◌==◌,
  map, if◌then◌else◌, ltb, leb, length,
}
use tempogate.Common.Limit.{ℤ, pos, negsuc, take, get_elem?}
use tempogate.Perms.{NamespacePermission, Perms, Grant, valid, system_namespace, new, to_claim}
use tempogate.Oidc.Token.{MintRequest}
use tempogate.Keys.Denylist.{Order}
use tempogate.State.Driver.{Driver}
use tempogate.State.IntegrationKeys.{
  IntegrationKey, KeyTables, ListResult, KeyResult, MarkResult, marked, integration_key_by_id,
  list_integration_keys,
}
use tempogate.Admin.{Keyring, revoke}

-- The handler as NewKeys and its options set it up.
pub record Keys : Type 0 where
  pub mint : MintRequest → Option (String × String)
  pub is_uuid : String → Bool
  pub system_grants : Bool
  pub max_ttl : ℕ

abbrev pub default_list_limit : ℕ
default_list_limit = 50

abbrev pub max_list_limit : ℕ
max_list_limit = 200

pub record KeyView : Type 0 where
  pub id : String
  pub namespace : String
  pub role : String
  pub owner : String
  pub created_at : ℕ
  pub expires_at : Option ℕ
  pub revoked_at : Option ℕ

pub data GetOutput : Type 0 where
  found : KeyView → GetOutput
  not_found failed : GetOutput

pub record ListInput : Type 0 where
  pub owner : String
  pub namespace : String
  pub limit : ℤ
  pub cursor : String

-- panicked: an index out of range.
pub data ListOutput : Type 0 where
  listed : List KeyView → String → ListOutput
  bad_request failed panicked : ListOutput

pub data DeleteOutput : Type 0 where
  no_content not_found failed : DeleteOutput

abbrev pub view_of : IntegrationKey → KeyView
view_of k = record {
  id = k.id;
  namespace = k.namespace;
  role = k.role;
  owner = k.owner;
  created_at = k.created_at;
  expires_at = k.expires_at;
  revoked_at = k.revoked_at;
}

abbrev pub get_output : KeyResult → GetOutput
get_output (KeyResult.found k) = GetOutput.found (view_of k)
get_output KeyResult.not_found = GetOutput.not_found
get_output KeyResult.failed = GetOutput.failed

-- get
abbrev pub get : Driver → String → KeyTables → GetOutput
get db id t = get_output (integration_key_by_id db id t)

abbrev pub clamped : ℤ → ℕ
clamped (pos zero) = default_list_limit
clamped (pos (suc n)) = if ltb max_list_limit (suc n) then max_list_limit else suc n
clamped (negsuc n) = default_list_limit

-- The page and its cursor, of the rows that the store returned.
abbrev pub page : ℕ → ListResult → ListOutput
page limit ListResult.failed = ListOutput.failed
page limit (ListResult.listed rows) =
    if ltb limit (length rows)
    then elim (get_elem? rows (limit - 1)) [
      | none ↦ panicked
      | some r ↦ ListOutput.listed (map view_of (take limit rows)) r.id
    ]
    else ListOutput.listed (map view_of rows) ""

module _ (h : Keys) (before : String → String → Bool) where
  -- list
  unfoldable pub list : Driver → ListInput → KeyTables → ListOutput
  list db input t =
      if not (input.cursor == "") && not (h.is_uuid input.cursor)
      then ListOutput.bad_request
      else page (clamped input.limit) (
          list_integration_keys before db
            (record {
              owner = input.owner;
              namespace = input.namespace;
              limit = pos (clamped input.limit);
              cursor = input.cursor;
            })
            t)

abbrev pub delete_output : Keyring × MarkResult → Keyring × DeleteOutput
delete_output (k, marked jti) = (k, no_content)
delete_output (k, MarkResult.not_found) = (k, DeleteOutput.not_found)
delete_output (k, MarkResult.failed) = (k, DeleteOutput.failed)

-- delete
abbrev pub delete : Driver → Order → ℕ → ℕ → String → Keyring → Keyring × DeleteOutput
delete db order now at id k = delete_output (revoke db order at now id k)
