-- ===== src/SyncServer/Commits.antt =====
-- The transactions of sync_server.py that create a vault and append a commit to it.
use keys_keeper_skill.Prelude.{
  ℕ, suc, String, false, not, ◌&&◌, ◌||◌, Option, none, some, List, ◌∷◌, ◌==◌, if◌then◌else◌,
  nat_eq, string_eq, option_eq, list_eq, any,
}
use keys_keeper_skill.SyncServer.Outcome.{
  SyncError, http, integrity, Result, ok, err, done, failed, Tx, pure, lift, gets, or_raise, submit,
  ◌>>=◌, ◌>>◌, raise_if,
}
use keys_keeper_skill.SyncServer.Tables.{
  Vault, Device, active, Commit, Db, find_vault, find_device, history, find_commit, clashes,
  set_head,
}
use keys_keeper_skill.SyncServer.Requests.{Payload}
use keys_keeper_skill.SyncServer.Storage.{within_budget}
use keys_keeper_skill.SyncServer.Access.{App, AuthenticatedDevice, require_active}
use keys_keeper_skill.SyncServer.Forms.{VaultForm, read_vault}
use keys_keeper_skill.SyncServer.Prepare.{
  Verified, Verifier, Prepared, prepare_commit, not_found, cas_conflict, invalid_commit,
}

abbrev pub root_device : String → String → ℕ → VaultForm → Device
root_device device_id vault_id now form = record {
  device_id = device_id;
  vault_id = vault_id;
  sign_public_key = form.sign_public_key;
  wrap_public_key = form.wrap_public_key;
  token_hash = form.token_hash;
  status = active;
  approved_by_device_id = none;
  membership_statement = none;
  membership_signature = none;
  wrapped_vault_key = none;
  created_at = now;
  approved_at = some now;
  revoked_at = none;
  revoked_by_device_id = none;
  revocation_statement = none;
  revocation_signature = none;
}

-- `INSERT INTO vaults` and `INSERT INTO devices`, with their primary keys
unfoldable pub insert_vault : Vault → Tx Db (Unit {0})
insert_vault r db = elim (find_vault r.vault_id db.vaults) [
  | some _ ↦ failed integrity
  | none ↦ done tt (record db { vaults = r ∷ db.vaults })
]

unfoldable pub insert_device : SyncError → Device → Tx Db (Unit {0})
insert_device e r db = elim (find_device r.device_id db.devices) [
  | some _ ↦ failed e
  | none ↦ done tt (record db { devices = r ∷ db.devices })
]

-- The transaction of `create_vault`; the two ids are the `_new_id(…)`.
unfoldable pub store_vault : App → ℕ → String → String → VaultForm → Tx Db (Unit {0})
store_vault app now vault_id device_id form = do
  insert_vault (record { vault_id = vault_id; head_commit_id = none; created_at = now })
  insert_device integrity (root_device device_id vault_id now form)
  within_budget app.limits vault_id false

-- `create_vault`
unfoldable pub create_vault :
    App → ℕ → String → String → Payload → Option String → Db → Result (Unit {0}) × Db
create_vault app now vault_id device_id payload authorization =
    submit (read_vault app payload authorization) (store_vault app now vault_id device_id)

-- the ancestry that a commit must have on top of the current head
abbrev ancestry_ok : Option Commit → Verified → Result (Unit {0})
ancestry_ok none v = err (http 500 "storage_error")
ancestry_ok (some previous) v =
    if not (v.sequence == suc previous.sequence)
    then err invalid_commit
    else if not (v.parent_manifest_hash == some previous.manifest_hash)
    then err invalid_commit
    else ok tt

unfoldable pub check_ancestry : Option String → List Commit → Verified → Result (Unit {0})
check_ancestry none commits v =
    if not (v.sequence == 1) || not (v.parent_manifest_hash == none)
    then err invalid_commit
    else ok tt
check_ancestry (some head) commits v = ancestry_ok (find_commit head commits) v

unfoldable pub insert_commit : Commit → Tx Db (Unit {0})
insert_commit c db =
    if clashes c (history c.vault_id db.commits)
    then failed (http 409 "commit_conflict")
    else done tt (record db { commits = c ∷ db.commits })

-- `UPDATE vaults SET head_commit_id = ? …`, with the test of `rowcount`
unfoldable pub advance_head : String → Option String → String → Tx Db (Unit {0})
advance_head vault_id expected commit_id db =
    if any (λ r. r.vault_id == vault_id && r.head_commit_id == expected) db.vaults
    then done tt (record db { vaults = set_head vault_id expected (some commit_id) db.vaults })
    else failed cas_conflict

abbrev pub commit_row : ℕ → String → AuthenticatedDevice → Prepared → Commit
commit_row now vault_id device p = record {
  vault_id = vault_id;
  commit_id = p.commit_id;
  sequence = p.sequence;
  parent_commit_id = p.parent_commit_id;
  manifest_hash = p.manifest_hash;
  commit_blob = p.commit_blob;
  snapshot_ciphertext = p.snapshot;
  author_device_id = device.device_id;
  created_at = now;
}

-- The transaction of `append_commit`: all is checked again at the head that is now there.
unfoldable pub store_commit : App → ℕ → String → AuthenticatedDevice → Prepared → Tx Db (String × ℕ)
store_commit app now vault_id device p = do
  require_active device
  vaults ← gets (λ db. db.vaults)
  vault ← or_raise (find_vault vault_id vaults) not_found
  raise_if (not (vault.head_commit_id == p.expected)) cas_conflict
  commits ← gets (λ db. history vault_id db.commits)
  lift (check_ancestry vault.head_commit_id commits p.verified)
  insert_commit (commit_row now vault_id device p)
  advance_head vault_id p.expected p.commit_id
  within_budget app.limits vault_id false
  pure (p.commit_id, p.sequence)

-- `append_commit`; its answer is the new commit's id and sequence. `read_db` is what the first
-- connection reads, `db` what the transaction finds: other requests may come between.
unfoldable pub append_commit :
    App → Verifier → ℕ → String → Payload → AuthenticatedDevice → Db → Db → Result (String × ℕ) × Db
append_commit app verify now vault_id payload device read_db =
    submit (prepare_commit app verify vault_id payload device read_db)
      (store_commit app now vault_id device)
