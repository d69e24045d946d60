-- ===== src/ProjectRelay/Growth.antt =====
-- A whole handler of the project relay only adds rows.
use keys_keeper_skill.Prelude.{
  ℕ, suc, String, false, not, Option, none, some, List, ◌==◌, nat_eq, string_eq, option_eq, list_eq,
  any,
}
use keys_keeper_skill.SyncServer.Outcome.{http, done, failed, pure, ◌>>=◌}
use keys_keeper_skill.SyncServer.Tables.{Bytes}
use keys_keeper_skill.SyncServer.Requests.{Json}
use keys_keeper_skill.ProjectProtocol.Json.{
  Primitives, parse_bytes, canonical_hash, max_record_size,
}
use keys_keeper_skill.ProjectProtocol.Records.{is_optional_text}
use keys_keeper_skill.ProjectProtocol.Policy.{Policy}
use keys_keeper_skill.ProjectProtocol.Messages.{Snapshot, verify_snapshot}
use keys_keeper_skill.ProjectRelay.Tables.{
  ScopeRow, PolicyRow, SnapshotRow, WrapRow, OperationRow, ProjectDb, first_policy, is_blocked,
  find_operation,
}
use keys_keeper_skill.ProjectRelay.Access.{Headers, Caller, publishes, check}
use keys_keeper_skill.SyncServer.Access.{App}
use keys_keeper_skill.ProjectRelay.Storage.{storage_budget}
use keys_keeper_skill.ProjectRelay.Scopes.{scope_answer}
use keys_keeper_skill.ProjectRelay.Contracts.{
  answers, raises, lift_post, check_post, raise_if_post, if_post,
}
use keys_keeper_skill.ProjectRelay.Scopes.{insert_scope, insert_policy, dump}
use keys_keeper_skill.ProjectRelay.Scopes.{ScopeForm, store_scope, store_scope_unless, new_scope}
use keys_keeper_skill.ProjectRelay.Publish.{
  PublishForm, insert_snapshot, insert_operation, next_policy, check_wraps, wrap_rows,
  replace_wraps, move_head, check_publication, write_publication, publish_new, publish_unless,
  publish_body, is_reduction, publish_response,
}
use keys_keeper_skill.ProjectRelay.Inserts.{
  insert_policy-Extends, insert_snapshot-Extends, insert_grant-Extends, insert_block-Extends,
  insert_operation-Extends, insert_scope-Extends, move_head-Extends,
}
use keys_keeper_skill.ProjectRelay.Frames.{Extends, Extends-refl, Extends-trans}
use keys_keeper_skill.ProjectRelay.Additions.{
  Frame, Adds, add_then, add_bind, budget_adds, dump_adds, after_auth, next_policy_adds,
}

-- the relation holds of the other writes of a publication, and of a new scope
pub record Writes (F : Frame) (app : App) (P : Primitives) : Type 0 where
  pub add_scope : (row : ScopeRow) (db : ProjectDb) → Adds F db (insert_scope row db)
  pub add_snapshot : (row : SnapshotRow) (db : ProjectDb) → Adds F db (insert_snapshot row db)
  pub add_operation : (row : OperationRow) (db : ProjectDb) → Adds F db (insert_operation row db)
  pub set_wraps :
      (s : String) (rows : List WrapRow) (db : ProjectDb)
      → Adds F db (replace_wraps app P s rows db)
  pub set_head :
      (s : String) (encoded : Bytes) (head : String) (n : ℕ) (db : ProjectDb)
      → Adds F db (move_head app P s encoded head n db)

-- the rows that stay
abbrev pub extends_frame : Frame
extends_frame = record {
  Rel = Extends;
  refl_rel = Extends-refl;
  trans_rel = Extends-trans;
  add_policy = insert_policy-Extends;
  add_grant = insert_grant-Extends;
  add_block = insert_block-Extends;
}

extends_wraps :
    (app : App) (P : Primitives) (s : String) (rows : List WrapRow) (db : ProjectDb)
    → Adds extends_frame db (replace_wraps app P s rows db)
unfolding replace_wraps
extends_wraps app P s rows db = answers (Extends-refl db)

pub extends_writes : (app : App) (P : Primitives) → Writes extends_frame app P
extends_writes app P = record {
  add_scope = insert_scope-Extends;
  add_snapshot = insert_snapshot-Extends;
  add_operation = insert_operation-Extends;
  set_wraps = extends_wraps app P;
  set_head = move_head-Extends app P;
}

module _ (F : Frame) (app : App) (P : Primitives) (W : Writes F app P) where
  pub replace_wraps_adds :
      (scope_id : String) (rows : List WrapRow) (db : ProjectDb)
      → Adds F db (replace_wraps app P scope_id rows db)
  replace_wraps_adds scope_id rows db = W.set_wraps scope_id rows db

  -- the writes of a publication
  write_adds :
      (scope_id : String) (c : Caller) (form : PublishForm) (body : Policy) (x : Snapshot)
      (pairs : List (String × Json)) (db : ProjectDb)
      → Adds F db (write_publication app P scope_id c form body x pairs db)
  unfolding write_publication
  write_adds scope_id c form body x pairs db =
      check_post {c = canonical_hash P form.snapshot} _ λ head e₁.
        add_bind F (dump P form.snapshot) _ db (dump_adds F app P form.snapshot db) λ encoded s₁.
          add_then F
            (insert_snapshot (record {
              scope_id = scope_id;
              hash = head;
              sequence = x.sequence;
              content = encoded;
            }))
            _ s₁
            (W.add_snapshot
              (record {
                scope_id = scope_id;
                hash = head;
                sequence = x.sequence;
                content = encoded;
              })
              s₁)
            λ s₂. check_post {c = wrap_rows app P scope_id pairs} _ λ rows e₂.
              add_then F (replace_wraps app P scope_id rows) _ s₂
                (replace_wraps_adds scope_id rows s₂)
                λ s₃.
                  add_bind F (dump P form.policy) _ s₃ (dump_adds F app P form.policy s₃)
                    λ policy s₄.
                      add_then F (move_head app P scope_id policy head x.sequence) _ s₄
                        (W.set_head scope_id policy head x.sequence s₄)
                        λ s₅.
                          add_bind F (dump P (publish_response app P head x.sequence body.version))
                            _ s₅
                            (dump_adds F app P (publish_response app P head x.sequence body.version)
                              s₅)
                            λ response s₆.
                              add_then F
                                (insert_operation (record {
                                  scope_id = scope_id;
                                  operation_id = form.operation_id;
                                  digest = form.digest;
                                  response = response;
                                }))
                                _ s₆
                                (W.add_operation
                                  (record {
                                    scope_id = scope_id;
                                    operation_id = form.operation_id;
                                    digest = form.digest;
                                    response = response;
                                  })
                                  s₆)
                                λ s₇.
                                  add_then F
                                    (storage_budget app.limits scope_id
                                      (is_reduction body.grants c.policy.grants))
                                    _ s₇
                                    (budget_adds F app P scope_id
                                      (is_reduction body.grants c.policy.grants) s₇)
                                    λ s₈. answers (F.refl_rel s₈)

  pub check_publication_adds :
      (scope_id : String) (c : Caller) (form : PublishForm) (body : Policy) (db : ProjectDb)
      → Adds F db (check_publication app P scope_id c form body db)
  unfolding check_publication
  check_publication_adds scope_id c form body db =
      check_post
        {c = verify_snapshot P form.snapshot form.policy c.pin c.row.sequence c.row.head_hash} _
        λ x e₁.
          raise_if_post {b = not (x.sequence == suc c.row.sequence)} (http 409 "sequence_conflict")
            _
            λ e₂. lift_post {r = check_wraps app P form.policy c.pin body form.wraps} _ λ pairs e₃.
              raise_if_post {b = any (λ g. is_blocked scope_id g.grant_id db.blocks) body.grants}
                (http 409 "grant_revoked") _ λ e₄. answers (F.refl_rel db)

  publish_new_adds :
      (scope_id : String) (c : Caller) (form : PublishForm) (db : ProjectDb)
      → Adds F db (publish_new app P scope_id c form db)
  unfolding publish_new
  publish_new_adds scope_id c form db =
      raise_if_post {b = not (is_optional_text c.row.head_hash (some form.expected_head_hash))}
        (http 409 "cas_conflict") _
        λ e₁.
          add_bind F (next_policy app P scope_id c form.policy) _ db
            (next_policy_adds F app P scope_id c form.policy db)
            λ body s₁.
              add_bind F (check_publication app P scope_id c form body) _ s₁
                (check_publication_adds scope_id c form body s₁)
                λ opened s₂. write_adds scope_id c form body opened.0 opened.1 s₂

  publish_unless_adds :
      (scope_id : String) (c : Caller) (form : PublishForm) (stored : Option OperationRow)
      (db : ProjectDb)
      → Adds F db (publish_unless app P scope_id c form stored db)
  publish_unless_adds scope_id c form none db = publish_new_adds scope_id c form db
  publish_unless_adds scope_id c form (some stored) db =
      if_post {b = not (stored.digest == form.digest)} {x = failed (http 409 "operation_conflict")}
        {y = (check (parse_bytes P max_record_size stored.response) >>= λ response.
            pure (200, response))
          db}
        (λ other. raises)
        λ same.
          check_post {c = parse_bytes P max_record_size stored.response} _
            λ response e. answers (F.refl_rel db)

  pub publish_adds :
      (scope_id : String) (h : Headers) (form : PublishForm) (db : ProjectDb)
      → Adds F db (publish_body app P scope_id h form db)
  unfolding publish_body
  publish_adds scope_id h form db = after_auth F app P scope_id h publishes _ db λ c.
      publish_unless_adds scope_id c form (find_operation scope_id form.operation_id db.operations)
        db

  -- a new scope
  new_scope_adds : (form : ScopeForm) (db : ProjectDb) → Adds F db (new_scope app P form db)
  unfolding new_scope
  new_scope_adds form db =
      let row : ScopeRow = record {
        scope_id = form.scope_id;
        pinned_key = form.pinned_key;
        policy = form.encoded;
        head_hash = none;
        sequence = 0;
      } in
      let first : PolicyRow = record {
        scope_id = form.scope_id;
        hash = form.hash;
        version = 1;
        content = form.encoded;
      } in
      add_then F (insert_scope row) _ db (W.add_scope row db) λ s₁.
        add_then F (insert_policy first) _ s₁ (F.add_policy first s₁) λ s₂.
          add_then F (storage_budget app.limits form.scope_id false) _ s₂
            (budget_adds F app P form.scope_id false s₂)
            λ s₃. answers {a = scope_answer 201 form.scope_id} {s = s₃} (F.refl_rel s₃)

  pub store_scope_adds : (form : ScopeForm) (db : ProjectDb) → Adds F db (store_scope app P form db)
  unfolding store_scope
  store_scope_adds form db = unless (first_policy form.scope_id db.policies)
    where
      unless : (row : Option PolicyRow) → Adds F db (store_scope_unless app P form row db)
      unless none = new_scope_adds form db
      unless (some row) =
          if_post {b = not (row.content == form.encoded)} {x = failed (http 409 "scope_exists")}
            {y = done (scope_answer 200 form.scope_id) db} (λ other. raises)
            λ same. answers {a = scope_answer 200 form.scope_id} {s = db} (F.refl_rel db)
