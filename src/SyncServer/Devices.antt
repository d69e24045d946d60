-- ===== src/SyncServer/Devices.antt =====
-- The revocation of a device in sync_server.py.
use keys_keeper_skill.Prelude.{
  ℕ, String, Bool, true, false, not, Option, none, some, ◌==◌, nat_eq, string_eq, option_eq,
  list_eq,
}
use keys_keeper_skill.SyncServer.Outcome.{
  SyncError, http, Result, Tx, gets, or_raise, submit, ◌>>=◌, ◌>>◌, raise_if, modify,
}
use keys_keeper_skill.SyncServer.Tables.{
  Device, revoked, Db, is_revoked, find_vault, member, update_device,
}
use keys_keeper_skill.SyncServer.Requests.{Payload}
use keys_keeper_skill.SyncServer.Storage.{within_budget}
use keys_keeper_skill.SyncServer.Access.{App, AuthenticatedDevice, require_root}
use keys_keeper_skill.SyncServer.Forms.{RevocationForm, read_revocation}
use keys_keeper_skill.SyncServer.Prepare.{not_found, cas_conflict}

abbrev pub root_revoke_forbidden : SyncError
root_revoke_forbidden = http 409 "root_revoke_forbidden"

abbrev pub already_revoked : SyncError
already_revoked = http 409 "already_revoked"

abbrev pub revoke_row : ℕ → String → RevocationForm → Device → Device
revoke_row now by form r = record r {
  status = revoked;
  revoked_at = some now;
  revoked_by_device_id = some by;
  revocation_statement = some form.statement;
  revocation_signature = some form.signature;
}

abbrev pub is_none {ℓ} : {A : Type ℓ} → Option A → Bool
is_none none = true
is_none (some _) = false

-- The transaction of `revoke_device`.
unfoldable pub store_revocation :
    App → ℕ → String → String → AuthenticatedDevice → RevocationForm → Tx Db (Unit {0})
store_revocation app now vault_id target_id device form = do
  require_root device
  vaults ← gets (λ db. db.vaults)
  vault ← or_raise (find_vault vault_id vaults) not_found
  raise_if (not (vault.head_commit_id == form.expected_head)) cas_conflict
  found ← gets (λ db. member target_id vault_id db.devices)
  target ← or_raise found not_found
  raise_if (is_none target.approved_by_device_id) root_revoke_forbidden
  raise_if (is_revoked target.status) already_revoked
  modify λ db. record db {
    devices = update_device target_id (revoke_row now device.device_id form) db.devices;
  }
  within_budget app.limits vault_id true

-- `revoke_device`
unfoldable pub revoke_device :
    App → ℕ → String → String → Payload → AuthenticatedDevice → Db → Result (Unit {0}) × Db
revoke_device app now vault_id target_id payload device =
    submit (read_revocation vault_id target_id payload device)
      (store_revocation app now vault_id target_id device)
