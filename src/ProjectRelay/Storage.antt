-- ===== src/ProjectRelay/Storage.antt =====
-- The sizes of the rows of project_server.py, and _storage_budget.
use keys_keeper_skill.Prelude.{
  ℕ, ◌+◌, String, Bool, Option, none, some, List, nat_eq, string_eq, option_eq, list_eq, length,
  utf8_size,
}
use keys_keeper_skill.SyncServer.Outcome.{Tx, lift}
use keys_keeper_skill.ProjectRelay.Tables.{
  ScopeRow, PolicyRow, SnapshotRow, WrapRow, GrantRow, BlockRow, OperationRow, SubmissionRow,
  ProjectDb,
}
use keys_keeper_skill.SyncServer.Storage.{tally, in_scope, nothing}
use keys_keeper_skill.RelayStorage.{Limits, Usage, budget}

-- the size of each row by `_STORAGE_COLUMNS`
abbrev optional_size : Option String → ℕ
optional_size none = 0
optional_size (some text) = utf8_size text

abbrev optional_length : Option (List ℕ) → ℕ
optional_length none = 0
optional_length (some blob) = length blob

abbrev pub scope_size : ScopeRow → ℕ
scope_size r = 256 + utf8_size r.pinned_key + length r.policy + optional_size r.head_hash

abbrev pub policy_size : PolicyRow → ℕ
policy_size r = 256 + utf8_size r.hash + length r.content

abbrev pub snapshot_size : SnapshotRow → ℕ
snapshot_size r = 256 + utf8_size r.hash + length r.content

abbrev pub wrap_size : WrapRow → ℕ
wrap_size r = 256 + utf8_size r.device_id + length r.content

abbrev pub grant_size : GrantRow → ℕ
grant_size r = 256 + utf8_size r.grant_id + utf8_size r.device_id + length r.content

abbrev pub block_size : BlockRow → ℕ
block_size r = 256 + utf8_size r.grant_id + length r.content

abbrev pub operation_size : OperationRow → ℕ
operation_size r = 256 + utf8_size r.operation_id + utf8_size r.digest + length r.response

abbrev pub submission_size : SubmissionRow → ℕ
submission_size r =
    256
    + utf8_size r.device_id
    + utf8_size r.grant_id
    + utf8_size r.request_id
    + utf8_size r.digest
    + utf8_size r.policy_hash
    + length r.content
    + optional_length r.receipt

-- `storage_usage`, added up over the rows
unfoldable pub project_usage : Option String → ProjectDb → Usage
project_usage scope db =
    tally (λ r. in_scope scope r.scope_id) scope_size db.scopes
      (tally (λ r. in_scope scope r.scope_id) policy_size db.policies
        (tally (λ r. in_scope scope r.scope_id) snapshot_size db.snapshots
          (tally (λ r. in_scope scope r.scope_id) wrap_size db.wraps
            (tally (λ r. in_scope scope r.scope_id) grant_size db.grants
              (tally (λ r. in_scope scope r.scope_id) block_size db.blocks
                (tally (λ r. in_scope scope r.scope_id) operation_size db.operations
                  (tally (λ r. in_scope scope r.scope_id) submission_size db.submissions
                    nothing)))))))

-- `_storage_budget`
unfoldable pub storage_budget : Limits → String → Bool → Tx ProjectDb (Unit {0})
storage_budget l s control db =
    lift (budget l (project_usage (some s) db) (project_usage none db) control) db
