-- ===== src/ProjectRelay/Tables.antt =====
-- The tables kk3_* of project_server.py as lists of rows, and the statements on them.
use keys_keeper_skill.Prelude.{
  ℕ, String, Bool, false, ◌&&◌, Option, none, some, List, [], ◌∷◌, map, leb, ◌==◌, if◌then◌else◌,
  nat_eq, string_eq, option_eq, list_eq, any, find,
}
use keys_keeper_skill.SyncServer.Tables.{Bytes}

-- kk3_scopes
pub record ScopeRow : Type 0 where
  pub scope_id : String
  pub pinned_key : String
  pub policy : Bytes
  pub head_hash : Option String
  pub sequence : ℕ

-- kk3_policies
pub record PolicyRow : Type 0 where
  pub scope_id : String
  pub hash : String
  pub version : ℕ
  pub content : Bytes

-- kk3_snapshots
pub record SnapshotRow : Type 0 where
  pub scope_id : String
  pub hash : String
  pub sequence : ℕ
  pub content : Bytes

-- kk3_wraps
pub record WrapRow : Type 0 where
  pub scope_id : String
  pub device_id : String
  pub content : Bytes

-- kk3_grants
pub record GrantRow : Type 0 where
  pub scope_id : String
  pub grant_id : String
  pub device_id : String
  pub generation : ℕ
  pub content : Bytes

-- kk3_blocks
pub record BlockRow : Type 0 where
  pub scope_id : String
  pub grant_id : String
  pub content : Bytes

-- kk3_operations
pub record OperationRow : Type 0 where
  pub scope_id : String
  pub operation_id : String
  pub digest : String
  pub response : Bytes

-- kk3_submissions
pub record SubmissionRow : Type 0 where
  pub scope_id : String
  pub device_id : String
  pub grant_id : String
  pub request_id : String
  pub digest : String
  pub policy_hash : String
  pub content : Bytes
  pub size : ℕ
  pub created : ℕ
  pub receipt : Option Bytes

pub record ProjectDb : Type 0 where
  pub scopes : List ScopeRow
  pub policies : List PolicyRow
  pub snapshots : List SnapshotRow
  pub wraps : List WrapRow
  pub grants : List GrantRow
  pub blocks : List BlockRow
  pub operations : List OperationRow
  pub submissions : List SubmissionRow

abbrev pub no_projects : ProjectDb
no_projects = record {
  scopes = [];
  policies = [];
  snapshots = [];
  wraps = [];
  grants = [];
  blocks = [];
  operations = [];
  submissions = [];
}

-- the statements that read one row
abbrev pub find_scope : String → List ScopeRow → Option ScopeRow
find_scope s rows = find (λ r. r.scope_id == s) rows

abbrev pub find_policy : String → String → List PolicyRow → Option PolicyRow
find_policy s hash rows = find (λ r. r.scope_id == s && r.hash == hash) rows

abbrev pub first_policy : String → List PolicyRow → Option PolicyRow
first_policy s rows = find (λ r. r.scope_id == s && r.version == 1) rows

abbrev pub find_grant : String → String → List GrantRow → Option GrantRow
find_grant s g rows = find (λ r. r.scope_id == s && r.grant_id == g) rows

abbrev pub find_block : String → String → List BlockRow → Option BlockRow
find_block s g rows = find (λ r. r.scope_id == s && r.grant_id == g) rows

abbrev pub is_blocked : String → String → List BlockRow → Bool
is_blocked s g rows = any (λ r. r.scope_id == s && r.grant_id == g) rows

abbrev pub find_operation : String → String → List OperationRow → Option OperationRow
find_operation s o rows = find (λ r. r.scope_id == s && r.operation_id == o) rows

abbrev pub is_submission : String → String → String → SubmissionRow → Bool
is_submission s d q r = r.scope_id == s && r.device_id == d && r.request_id == q

abbrev pub find_submission : String → String → String → List SubmissionRow → Option SubmissionRow
find_submission s d q rows = find (is_submission s d q) rows

abbrev pub at_least : Option ℕ → ℕ → Bool
at_least none n = false
at_least (some m) n = leb n m

abbrev pub or_zero : Option ℕ → ℕ
or_zero none = 0
or_zero (some m) = m

-- `MAX(generation)` of the device's grants
abbrev pub highest_generation : String → String → List GrantRow → Option ℕ
highest_generation s d [] = none
highest_generation s d (r ∷ rows) =
    let rest = highest_generation s d rows in
    if r.scope_id == s && r.device_id == d
    then some (if at_least rest r.generation then or_zero rest else r.generation)
    else rest

-- the statements that change rows
abbrev pub update_scope : String → (ScopeRow → ScopeRow) → List ScopeRow → List ScopeRow
update_scope s f rows = map (λ r. if r.scope_id == s then f r else r) rows

abbrev pub update_submission :
    String
    → String
    → String
    → (SubmissionRow → SubmissionRow)
    → List SubmissionRow
    → List SubmissionRow
update_submission s d q f rows = map (λ r. if is_submission s d q r then f r else r) rows
