-- ===== src/SyncServer/Prepare.antt =====
-- What `append_commit` of sync_server.py checks before its transaction.
use keys_keeper_skill.Prelude.{
  ℕ, ◌*◌, String, not, ◌||◌, Option, none, some, [], ◌∷◌, ltb, ◌==◌, if◌then◌else◌, nat_eq,
  string_eq, option_eq, list_eq,
}
use keys_keeper_skill.SyncServer.Outcome.{SyncError, http, Result, ok, err}
use keys_keeper_skill.SyncServer.ResultMonad.{◌>>=◌, ◌>>◌, present}
use keys_keeper_skill.SyncServer.Tables.{Bytes, Db, member}
use keys_keeper_skill.SyncServer.Requests.{
  Payload, require_fields, decode_text, decode_member, is_opaque_id, optional_commit_id,
}
use keys_keeper_skill.SyncServer.Access.{App, AuthenticatedDevice, require_vault, wrong_vault}

abbrev pub not_found : SyncError
not_found = http 404 "not_found"

abbrev pub cas_conflict : SyncError
cas_conflict = http 409 "cas_conflict"

abbrev pub invalid_commit : SyncError
invalid_commit = http 422 "invalid_commit"

-- the fields of a `VerifiedCommit` (sync_protocol_v2.py) that the relay reads
pub record Verified : Type 0 where
  pub commit_id : String
  pub sequence : ℕ
  pub parent_commit_id : Option String
  pub parent_manifest_hash : Option String
  pub manifest_hash : String

-- `verify_commit_signature`, with its exceptions as `none`: the commit blob, the signing key, the
-- snapshot, the vault and the author that it must name
abbrev pub Verifier : Type 0
Verifier = Bytes → Bytes → Bytes → String → String → Option Verified

-- the checks on what the verifier returned
unfoldable pub check_verified : Option String → Option Verified → Result Verified
check_verified expected none = err invalid_commit
check_verified expected (some v) =
    if not (is_opaque_id v.commit_id) || ltb v.sequence 1 || not (v.parent_commit_id == expected)
    then err invalid_commit
    else ok v

-- what `append_commit` has before its transaction
pub record Prepared : Type 0 where
  pub expected : Option String
  pub verified : Verified
  pub open verified use *
  pub commit_blob : Bytes
  pub snapshot : Bytes

-- The part of `append_commit` before its transaction: it reads the signing key on a connection of
-- its own.
unfoldable pub prepare_commit :
    App → Verifier → String → Payload → AuthenticatedDevice → Db → Result Prepared
prepare_commit app verify vault_id payload device db = do
  require_vault device vault_id
  require_fields payload ("expected_parent_commit_id" ∷ "commit_blob" ∷ "snapshot_ciphertext" ∷ [])
      []
  expected ← optional_commit_id payload "expected_parent_commit_id"
  blob ← decode_member app.codec payload "commit_blob" none (some (32 * 1024))
  snapshot ← decode_member app.codec payload "snapshot_ciphertext" none (some (24 * 1024 * 1024))
  row ← present (member device.device_id vault_id db.devices) wrong_vault
  key ← decode_text app.codec row.sign_public_key (some 32) none
  v ← check_verified expected (verify blob key snapshot vault_id device.device_id)
  ok (record { expected = expected; verified = v; commit_blob = blob; snapshot = snapshot })
