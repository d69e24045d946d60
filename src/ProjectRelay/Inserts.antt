-- ===== src/ProjectRelay/Inserts.antt =====
-- Each kind of write of the project relay keeps every row that is there.
use keys_keeper_skill.Prelude.{
  ℕ, String, refl, Bool, ◌&&◌, ◌||◌, some, ◌∷◌, arith, eq_iff, ◌==◌, if◌then◌else◌, nat_eq,
  string_eq, option_eq, list_eq, any,
}
use keys_keeper_skill.SyncServer.Tables.{Bytes}
use keys_keeper_skill.ProjectProtocol.Json.{Primitives}
use keys_keeper_skill.ProjectRelay.Tables.{
  ScopeRow, PolicyRow, SnapshotRow, GrantRow, BlockRow, OperationRow, ProjectDb,
}
use keys_keeper_skill.SyncServer.Access.{App}
use keys_keeper_skill.ProjectRelay.Scopes.{insert_scope, insert_policy, insert_grant}
use keys_keeper_skill.ProjectRelay.Publish.{insert_snapshot, insert_operation, move_head}
use keys_keeper_skill.ProjectRelay.Blocks.{insert_block}
use keys_keeper_skill.ProjectRelay.Contracts.{Post, answers}
use keys_keeper_skill.ProjectRelay.Frames.{
  policy_key, snapshot_key, grant_key, block_key, operation_key, Extends, Extends-refl,
  insert_unless_post, find_fresh, find_update_scope,
}

-- Each kind of write extends the database.
pub insert_policy-Extends :
    (row : PolicyRow) (db : ProjectDb) → Post (λ a s. Extends db s) (insert_policy row db)
unfolding insert_policy
insert_policy-Extends row db =
    let clash : PolicyRow → Bool =
      λ x. x.scope_id == row.scope_id && (x.hash == row.hash || x.version == row.version) in
    let (c₁, c₂, c₃, c₄, c₅, c₆) = Extends-refl db in
    insert_unless_post (Extends db) (any clash db.policies)
      (λ d. record d { policies = row ∷ d.policies }) db
      λ fresh. (
        c₁,
        λ k r found.
            find_fresh (policy_key k) clash row db.policies r
              (λ hit x same. ground (
                arith,
                eq_iff row.scope_id k.0,
                eq_iff row.hash k.1,
                eq_iff x.scope_id k.0,
                eq_iff x.hash k.1,
                eq_iff x.scope_id row.scope_id,
                eq_iff x.hash row.hash,
              ))
              fresh found,
        c₃,
        c₄,
        c₅,
        c₆,
      )

pub insert_snapshot-Extends :
    (row : SnapshotRow) (db : ProjectDb) → Post (λ a s. Extends db s) (insert_snapshot row db)
unfolding insert_snapshot
insert_snapshot-Extends row db =
    let clash : SnapshotRow → Bool =
      λ x. x.scope_id == row.scope_id && (x.hash == row.hash || x.sequence == row.sequence) in
    let (c₁, c₂, c₃, c₄, c₅, c₆) = Extends-refl db in
    insert_unless_post (Extends db) (any clash db.snapshots)
      (λ d. record d { snapshots = row ∷ d.snapshots }) db
      λ fresh. (
        c₁,
        c₂,
        λ k r found.
            find_fresh (snapshot_key k) clash row db.snapshots r
              (λ hit x same. ground (
                arith,
                eq_iff row.scope_id k.0,
                eq_iff row.hash k.1,
                eq_iff x.scope_id k.0,
                eq_iff x.hash k.1,
                eq_iff x.scope_id row.scope_id,
                eq_iff x.hash row.hash,
              ))
              fresh found,
        c₄,
        c₅,
        c₆,
      )

pub insert_grant-Extends :
    (row : GrantRow) (db : ProjectDb) → Post (λ a s. Extends db s) (insert_grant row db)
unfolding insert_grant
insert_grant-Extends row db =
    let clash : GrantRow → Bool = λ x.
      x.scope_id == row.scope_id
      && (x.grant_id == row.grant_id
          || (x.device_id == row.device_id && x.generation == row.generation)) in
    let (c₁, c₂, c₃, c₄, c₅, c₆) = Extends-refl db in
    insert_unless_post (Extends db) (any clash db.grants)
      (λ d. record d { grants = row ∷ d.grants }) db
      λ fresh. (
        c₁,
        c₂,
        c₃,
        λ k r found.
            find_fresh (grant_key k) clash row db.grants r
              (λ hit x same. ground (
                arith,
                eq_iff row.scope_id k.0,
                eq_iff row.grant_id k.1,
                eq_iff x.scope_id k.0,
                eq_iff x.grant_id k.1,
                eq_iff x.scope_id row.scope_id,
                eq_iff x.grant_id row.grant_id,
              ))
              fresh found,
        c₅,
        c₆,
      )

pub insert_block-Extends :
    (row : BlockRow) (db : ProjectDb) → Post (λ a s. Extends db s) (insert_block row db)
unfolding insert_block
insert_block-Extends row db =
    let clash : BlockRow → Bool = λ x. x.scope_id == row.scope_id && x.grant_id == row.grant_id in
    let (c₁, c₂, c₃, c₄, c₅, c₆) = Extends-refl db in
    insert_unless_post (Extends db) (any clash db.blocks)
      (λ d. record d { blocks = row ∷ d.blocks }) db
      λ fresh. (
        c₁,
        c₂,
        c₃,
        c₄,
        λ k r found.
            find_fresh (block_key k) clash row db.blocks r
              (λ hit x same. ground (
                arith,
                eq_iff row.scope_id k.0,
                eq_iff row.grant_id k.1,
                eq_iff x.scope_id k.0,
                eq_iff x.grant_id k.1,
                eq_iff x.scope_id row.scope_id,
                eq_iff x.grant_id row.grant_id,
              ))
              fresh found,
        c₆,
      )

pub insert_operation-Extends :
    (row : OperationRow) (db : ProjectDb) → Post (λ a s. Extends db s) (insert_operation row db)
unfolding insert_operation
insert_operation-Extends row db =
    let clash : OperationRow → Bool =
      λ x. x.scope_id == row.scope_id && x.operation_id == row.operation_id in
    let (c₁, c₂, c₃, c₄, c₅, c₆) = Extends-refl db in
    insert_unless_post (Extends db) (any clash db.operations)
      (λ d. record d { operations = row ∷ d.operations }) db
      λ fresh. (
        c₁,
        c₂,
        c₃,
        c₄,
        c₅,
        λ k r found.
            find_fresh (operation_key k) clash row db.operations r
              (λ hit x same. ground (
                arith,
                eq_iff row.scope_id k.0,
                eq_iff row.operation_id k.1,
                eq_iff x.scope_id k.0,
                eq_iff x.operation_id k.1,
                eq_iff x.scope_id row.scope_id,
                eq_iff x.operation_id row.operation_id,
              ))
              fresh found,
      )

pub insert_scope-Extends :
    (row : ScopeRow) (db : ProjectDb) → Post (λ a s. Extends db s) (insert_scope row db)
unfolding insert_scope
insert_scope-Extends row db =
    let clash : ScopeRow → Bool = λ x. x.scope_id == row.scope_id in
    let (c₁, c₂, c₃, c₄, c₅, c₆) = Extends-refl db in
    insert_unless_post (Extends db) (any clash db.scopes)
      (λ d. record d { scopes = row ∷ d.scopes }) db
      λ fresh. (
        λ s r found. (
          r,
          find_fresh (λ x. x.scope_id == s) clash row db.scopes r
              (λ hit x same.
                ground (
                  arith,
                  eq_iff row.scope_id s,
                  eq_iff x.scope_id s,
                  eq_iff x.scope_id row.scope_id,
                ))
              fresh found,
          refl,
        ),
        c₂,
        c₃,
        c₄,
        c₅,
        c₆,
      )

pub move_head-Extends :
    (app : App) (P : Primitives) (scope_id : String) (encoded : Bytes) (head : String)
    (sequence : ℕ) (db : ProjectDb)
    → Post (λ a s. Extends db s) (move_head app P scope_id encoded head sequence db)
unfolding move_head
move_head-Extends app P scope_id encoded head sequence db =
    let moved : ScopeRow → ScopeRow =
      λ r. record r { policy = encoded; head_hash = some head; sequence = sequence } in
    let (c₁, c₂, c₃, c₄, c₅, c₆) = Extends-refl db in
    answers (
      λ s r found. (
        if r.scope_id == scope_id then moved r else r,
        find_update_scope scope_id moved s db.scopes r (λ x. refl) found,
        ground arith,
      ),
      c₂,
      c₃,
      c₄,
      c₅,
      c₆,
    )
