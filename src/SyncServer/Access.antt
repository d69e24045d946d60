-- ===== src/SyncServer/Access.antt =====
-- Who may call: `_authenticate_admin`, `authenticate_device` and the checks that a handler repeats
-- inside its own transaction.
use keys_keeper_skill.Prelude.{
  String, Bool, false, not, ◌&&◌, ◌||◌, Option, none, some, ◌==◌, if◌then◌else◌, nat_eq, string_eq,
  option_eq, list_eq,
}
use keys_keeper_skill.SyncServer.Outcome.{
  SyncError, http, Result, ok, err, Tx, lift, ◌>>◌, and_then,
}
use keys_keeper_skill.SyncServer.Tables.{
  Bytes, Device, DeviceStatus, Db, is_active, is_pending, find_device, member,
}
use keys_keeper_skill.RelayStorage.{Limits}
use keys_keeper_skill.SyncServer.Requests.{Codec, bearer_token, is_opaque_id, opaque_id}

-- What the application object holds, and the code that it calls and that is not modelled here.
pub record App : Type 0 where
  pub codec : Codec
  pub open codec use *
  pub limits : Limits
  -- `_bootstrap_token_hash`
  pub bootstrap_token_hash : Bytes

pub record AuthenticatedDevice : Type 0 where
  pub device_id : String
  pub vault_id : String
  pub status : DeviceStatus

abbrev pub unauthorized : SyncError
unauthorized = http 401 "unauthorized"

abbrev pub device_inactive : SyncError
device_inactive = http 403 "device_inactive"

abbrev pub wrong_vault : SyncError
wrong_vault = http 403 "wrong_vault"

abbrev pub root_required : SyncError
root_required = http 403 "root_required"

-- `_authenticate_admin`
unfoldable pub authenticate_admin : App → Option String → Result (Unit {0})
authenticate_admin app authorization = and_then (bearer_token app.codec authorization) λ token.
    if app.sha256 (app.encode token) == app.bootstrap_token_hash then ok tt else err unauthorized

-- the row that `authenticate_device` reads, checked
abbrev pub check_row : Option Device → Bytes → Option String → Bool → Result AuthenticatedDevice
check_row none token_hash vault_id allow_pending = err unauthorized
check_row (some row) token_hash vault_id allow_pending =
    if not (row.token_hash == token_hash)
    then err unauthorized
    else if not (is_active row.status || (allow_pending && is_pending row.status))
    then err device_inactive
    else if elim vault_id [ none ↦ false | some v ↦ not (row.vault_id == v) ]
    then err wrong_vault
    else ok (record { device_id = row.device_id; vault_id = row.vault_id; status = row.status })

-- `authenticate_device`; an empty id is no opaque id
unfoldable pub authenticate_device :
    App → Option String → Option String → Option String → Bool → Db → Result AuthenticatedDevice
authenticate_device app none authorization vault_id allow_pending db = err unauthorized
authenticate_device app (some device_id) authorization vault_id allow_pending db =
    if not (is_opaque_id device_id)
    then err unauthorized
    else and_then (bearer_token app.codec authorization) λ token.
      check_row (find_device device_id db.devices) (app.sha256 (app.encode token)) vault_id
        allow_pending

-- `_require_vault`
unfoldable pub require_vault : AuthenticatedDevice → String → Result (Unit {0})
require_vault device vault_id =
    and_then (opaque_id vault_id)
      λ _. if device.vault_id == vault_id then ok tt else err wrong_vault

abbrev pub active_row : Option Device → Result (Unit {0})
active_row none = err device_inactive
active_row (some row) = if is_active row.status then ok tt else err device_inactive

abbrev pub root_row : Option Device → Result (Unit {0})
root_row none = err root_required
root_row (some row) = elim row.approved_by_device_id [ none ↦ ok tt | some _ ↦ err root_required ]

-- `_require_active_transaction`
unfoldable pub require_active : AuthenticatedDevice → Tx Db (Unit {0})
require_active device db = lift (active_row (member device.device_id device.vault_id db.devices)) db

-- `_require_root_transaction`
unfoldable pub require_root : AuthenticatedDevice → Tx Db (Unit {0})
require_root device = do
  require_active device
  λ db. lift (root_row (member device.device_id device.vault_id db.devices)) db
