-- ===== src/SyncServer/Storage.antt =====
-- What sync_server.py stores, in the measure of relay_storage.py: each row's size by the columns of
-- `_V1_STORAGE_COLUMNS`, and the usage of a vault and of the whole relay.
use keys_keeper_skill.Prelude.{
  ℕ, suc, ◌+◌, String, Bool, true, Option, none, some, List, [], ◌∷◌, ◌==◌, if◌then◌else◌, nat_eq,
  string_eq, option_eq, list_eq, length, utf8_size,
}
use keys_keeper_skill.SyncServer.Outcome.{Tx, lift}
use keys_keeper_skill.SyncServer.Tables.{
  Vault, Device, DeviceStatus, pending, active, revoked, Commit, Invite, InviteStatus, opened,
  claimed, approved, expired, Db,
}
use keys_keeper_skill.RelayStorage.{Limits, Usage, budget}

-- `COALESCE(length(CAST(column AS BLOB)), 0)`
abbrev text_size : Option String → ℕ
text_size none = 0
text_size (some s) = utf8_size s

abbrev device_status_size : DeviceStatus → ℕ
device_status_size pending = 7
device_status_size active = 6
device_status_size revoked = 7

abbrev invite_status_size : InviteStatus → ℕ
invite_status_size opened = 4
invite_status_size claimed = 7
invite_status_size approved = 8
invite_status_size expired = 7

pub vault_size : Vault → ℕ
vault_size r = 256 + utf8_size r.vault_id + text_size r.head_commit_id

pub device_size : Device → ℕ
device_size r =
    256
    + utf8_size r.device_id
    + utf8_size r.sign_public_key
    + utf8_size r.wrap_public_key
    + length r.token_hash
    + device_status_size r.status
    + text_size r.approved_by_device_id
    + text_size r.membership_statement
    + text_size r.membership_signature
    + text_size r.wrapped_vault_key
    + text_size r.revoked_by_device_id
    + text_size r.revocation_statement
    + text_size r.revocation_signature

pub commit_size : Commit → ℕ
commit_size r =
    256
    + utf8_size r.commit_id
    + text_size r.parent_commit_id
    + utf8_size r.manifest_hash
    + length r.commit_blob
    + length r.snapshot_ciphertext
    + utf8_size r.author_device_id

pub invite_size : Invite → ℕ
invite_size r =
    256
    + utf8_size r.invite_id
    + length r.secret_hash
    + invite_status_size r.status
    + utf8_size r.created_by_device_id
    + text_size r.claimant_device_id

-- one row, and all rows
abbrev pub add_row : ℕ → Usage → Usage
add_row n u = record { bytes = n + u.bytes; records = suc u.records }

module _ {R : Type 0} (counts : R → Bool) (size : R → ℕ) where
  unfoldable pub tally : List R → Usage → Usage
  tally [] u = u
  tally (r ∷ rows) u = let rest = tally rows u in if counts r then add_row (size r) rest else rest

abbrev pub in_scope : Option String → String → Bool
in_scope none v = true
in_scope (some s) v = v == s

abbrev pub nothing : Usage
nothing = record { bytes = 0; records = 0 }

-- `usage(connection, scope_id)`. `scope = none` is the relay's total. The source keeps both by
-- triggers on each write; the model adds them up.
unfoldable pub usage : Option String → Db → Usage
unfolding tally vault_size device_size commit_size invite_size
usage scope db =
    tally (λ r. in_scope scope r.vault_id) vault_size db.vaults
      (tally (λ r. in_scope scope r.vault_id) device_size db.devices
        (tally (λ r. in_scope scope r.vault_id) commit_size db.commits
          (tally (λ r. in_scope scope r.vault_id) invite_size db.invites nothing)))

-- `self.storage.budget(connection, vault_id, limits, control=…)`
unfoldable pub within_budget : Limits → String → Bool → Tx Db (Unit {0})
within_budget l v control db = lift (budget l (usage (some v) db) (usage none db) control) db
