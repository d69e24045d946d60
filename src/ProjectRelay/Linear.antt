-- ===== src/ProjectRelay/Linear.antt =====
-- A publication puts the next snapshot at the end of its scope's chain.
use keys_keeper_skill.Prelude.{
  ℕ, suc, String, ◌≡◌, refl, sym, ap, ◌∙◌, subst, not, ◌&&◌, ◌||◌, none, some, List, ◌∷◌, arith,
  ◌==◌, nat_eq, string_eq, option_eq, list_eq, any,
}
use keys_keeper_skill.SyncServer.Outcome.{http}
use keys_keeper_skill.SyncServer.Tables.{Bytes}
use keys_keeper_skill.SyncServer.Requests.{Json}
use keys_keeper_skill.ProjectProtocol.Json.{
  Primitives, canonical_bytes, canonical_hash, max_record_size,
}
use keys_keeper_skill.ProjectProtocol.Policy.{Policy}
use keys_keeper_skill.ProjectProtocol.Checked.{Checked, valid, invalid}
use keys_keeper_skill.ProjectProtocol.Messages.{Snapshot, verify_snapshot}
use keys_keeper_skill.ProjectRelay.Tables.{
  ScopeRow, PolicyRow, SnapshotRow, WrapRow, GrantRow, BlockRow, OperationRow, SubmissionRow,
  ProjectDb, find_scope, is_blocked, update_scope,
}
use keys_keeper_skill.ProjectRelay.Access.{Caller, check}
use keys_keeper_skill.SyncServer.Access.{App}
use keys_keeper_skill.ProjectRelay.Storage.{storage_budget}
use keys_keeper_skill.ProjectRelay.Contracts.{
  Post, answers, raises, bind_post, lift_post, check_post, raise_if_post, then_post, then_post,
}
use keys_keeper_skill.ProjectRelay.Scopes.{insert_policy, insert_grant, dump}
use keys_keeper_skill.ProjectRelay.Publish.{
  PublishForm, insert_snapshot, insert_operation, check_wraps, wrap_rows, replace_wraps, move_head,
  check_publication, write_publication, is_reduction, publish_response,
}
use keys_keeper_skill.ProjectRelay.Blocks.{insert_block}
use keys_keeper_skill.ProjectRelay.Additions.{Frame}
use keys_keeper_skill.ProjectRelay.Frames.{insert_unless_post}
use keys_keeper_skill.ProjectRelay.Retries.{budget_leaves}
use keys_keeper_skill.ProjectRelay.History.{
  IsSnapshotAfter, History, snapshots_of, Linked, IsChained, no_head, snapshot_checked,
  check_snapshot-parent, linear_step,
}

-- the scopes and the snapshots are the same
abbrev pub Fixed : ProjectDb → ProjectDb → Type 0
Fixed a b = (b.scopes ≡ a.scopes) × (b.snapshots ≡ a.snapshots)

pub insert_policy-Fixed :
    (row : PolicyRow) (db : ProjectDb) → Post (λ a s. Fixed db s) (insert_policy row db)
unfolding insert_policy
insert_policy-Fixed row db =
    insert_unless_post (Fixed db)
      (any (λ r. r.scope_id == row.scope_id && (r.hash == row.hash || r.version == row.version))
        db.policies)
      (λ d. record d { policies = row ∷ d.policies }) db λ fresh. (refl, refl)

pub insert_grant-Fixed :
    (row : GrantRow) (db : ProjectDb) → Post (λ a s. Fixed db s) (insert_grant row db)
unfolding insert_grant
insert_grant-Fixed row db =
    insert_unless_post (Fixed db)
      (any
        (λ r.
          r.scope_id == row.scope_id
          && (r.grant_id == row.grant_id
              || (r.device_id == row.device_id && r.generation == row.generation)))
        db.grants)
      (λ d. record d { grants = row ∷ d.grants }) db λ fresh. (refl, refl)

pub insert_block-Fixed :
    (row : BlockRow) (db : ProjectDb) → Post (λ a s. Fixed db s) (insert_block row db)
unfolding insert_block
insert_block-Fixed row db =
    insert_unless_post (Fixed db) (is_blocked row.scope_id row.grant_id db.blocks)
      (λ d. record d { blocks = row ∷ d.blocks }) db λ fresh. (refl, refl)

insert_operation-Fixed :
    (row : OperationRow) (db : ProjectDb) → Post (λ a s. Fixed db s) (insert_operation row db)
unfolding insert_operation
insert_operation-Fixed row db =
    insert_unless_post (Fixed db)
      (any (λ r. r.scope_id == row.scope_id && r.operation_id == row.operation_id) db.operations)
      (λ d. record d { operations = row ∷ d.operations }) db λ fresh. (refl, refl)

abbrev pub fixed_frame : Frame
fixed_frame = record {
  Rel = Fixed;
  refl_rel = λ db. (refl, refl);
  trans_rel = λ a b c (e₁, e₂) (f₁, f₂). (f₁ ∙ e₁, f₂ ∙ e₂);
  add_policy = insert_policy-Fixed;
  add_grant = insert_grant-Fixed;
  add_block = insert_block-Fixed;
}

pub submissions-Fixed :
    (db : ProjectDb) (rows : List SubmissionRow) → Fixed db (record db { submissions = rows })
submissions-Fixed db rows = (refl, refl)

pub Fixed-IsChained : (P : Primitives) (a b : ProjectDb) → Fixed a b → IsChained P a → IsChained P b
Fixed-IsChained P a b (scopes, snapshots) linear s =
    let here : Linked P (find_scope s b.scopes) (snapshots_of s a.snapshots) =
      subst (λ ys. Linked P (find_scope s ys) (snapshots_of s a.snapshots)) (sym scopes)
        (linear s) in
    subst (λ ys. Linked P (find_scope s b.scopes) (snapshots_of s ys)) (sym snapshots) here

insert_snapshot_post :
    (row : SnapshotRow) (db : ProjectDb)
    → Post
        (λ a s. (s.scopes ≡ db.scopes) × (s.snapshots ≡ row ∷ db.snapshots))
        (insert_snapshot row db)
unfolding insert_snapshot
insert_snapshot_post row db =
    insert_unless_post (λ s. (s.scopes ≡ db.scopes) × (s.snapshots ≡ row ∷ db.snapshots))
      (any (λ r. r.scope_id == row.scope_id && (r.hash == row.hash || r.sequence == row.sequence))
        db.snapshots)
      (λ d. record d { snapshots = row ∷ d.snapshots }) db λ fresh. (refl, refl)

check_ends :
    {A : Type 0} (c : Checked A) (db : ProjectDb)
    → Post (λ a s. (s ≡ db) × (c ≡ valid a)) (check c db)
check_ends (valid a) db = answers (refl, refl)
check_ends (invalid e) db = raises

pub dump_post :
    (P : Primitives) (value : Json) (db : ProjectDb)
    → Post (λ a s. (s ≡ db) × (canonical_bytes P max_record_size value ≡ valid a)) (dump P value db)
unfolding dump
dump_post P value db = check_ends (canonical_bytes P max_record_size value) db

module _ (app : App) (P : Primitives) where
  move_head_post :
      (k : String) (policy : Bytes) (head : String) (n : ℕ) (db : ProjectDb)
      → Post
          (λ a s.
            (s.scopes
              ≡ update_scope k
                  (λ y. record y { policy = policy; head_hash = some head; sequence = n })
                  db.scopes)
            × (s.snapshots ≡ db.snapshots))
          (move_head app P k policy head n db)
  unfolding move_head
  move_head_post k policy head n db = answers (refl, refl)

  replace_wraps_post :
      (k : String) (rows : List WrapRow) (db : ProjectDb)
      → Post (λ a s. Fixed db s) (replace_wraps app P k rows db)
  unfolding replace_wraps
  replace_wraps_post k rows db = answers (refl, refl)

  pub check_publication_post :
      (k : String) (c : Caller) (form : PublishForm) (body : Policy) (db : ProjectDb)
      → Post
          (λ x s.
            (s ≡ db)
            × (verify_snapshot P form.snapshot form.policy c.pin c.row.sequence c.row.head_hash
                ≡ valid x.0)
            × (x.0.sequence ≡ suc c.row.sequence))
          (check_publication app P k c form body db)
  unfolding check_publication
  check_publication_post k c form body db =
      check_post
        {c = verify_snapshot P form.snapshot form.policy c.pin c.row.sequence c.row.head_hash} _
        λ x verified.
          raise_if_post {b = not (x.sequence == suc c.row.sequence)} (http 409 "sequence_conflict")
            _
            λ place.
              lift_post {r = check_wraps app P form.policy c.pin body form.wraps} _ λ pairs e₃.
                raise_if_post {b = any (λ g. is_blocked k g.grant_id db.blocks) body.grants}
                  (http 409 "grant_revoked") _ λ e₄. answers (refl, verified, ground arith)

  pub write-IsChained :
      (k : String) (c : Caller) (form : PublishForm) (body : Policy) (x : Snapshot)
      (pairs : List (String × Json)) (db : ProjectDb)
      → find_scope k db.scopes ≡ some c.row
      → IsChained P db
      → verify_snapshot P form.snapshot form.policy c.pin c.row.sequence c.row.head_hash ≡ valid x
      → x.sequence ≡ suc c.row.sequence
      → Post (λ a s. IsChained P s) (write_publication app P k c form body x pairs db)
  unfolding write_publication
  write-IsChained k c form body x pairs db found linear verified place =
      check_post {c = canonical_hash P form.snapshot} _ λ head hashed.
        bind_post (dump P form.snapshot) _ (dump_post P form.snapshot db)
          λ encoded s₁ (same₁, dumped).
            then_post (insert_snapshot (row head encoded)) _
              (insert_snapshot_post (row head encoded) s₁)
              λ s₂ (scopes₂, snapshots₂). check_post {c = wrap_rows app P k pairs} _ λ rows e₂.
                then_post (replace_wraps app P k rows) _ (replace_wraps_post k rows s₂)
                  λ s₃ (scopes₃, snapshots₃).
                    bind_post (dump P form.policy) _ (dump_post P form.policy s₃)
                      λ policy s₄ (same₄, d₄).
                        then_post (move_head app P k policy head x.sequence) _
                          (move_head_post k policy head x.sequence s₄)
                          λ s₅ (scopes₅, snapshots₅).
                            bind_post (dump P (publish_response app P head x.sequence body.version))
                              _
                              (dump_post P (publish_response app P head x.sequence body.version) s₅)
                              λ response s₆ (same₆, d₆).
                                then_post (insert_operation (stored response)) _
                                  (insert_operation-Fixed (stored response) s₆)
                                  λ s₇ (scopes₇, snapshots₇).
                                    then_post
                                      (storage_budget app.limits k
                                        (is_reduction body.grants c.policy.grants))
                                      _
                                      (budget_leaves app P k
                                        (is_reduction body.grants c.policy.grants) s₇)
                                      λ s₈ same₈.
                                        answers
                                          {a = (
                                            201,
                                            publish_response app P head x.sequence body.version,
                                          )}
                                          {s = s₈}
                                          (linear_step P k c.row (row head encoded) policy db s₈
                                            linear found refl (after head encoded hashed dumped)
                                            (ap (λ d. d.scopes) same₈
                                              ∙ scopes₇
                                              ∙ ap (λ d. d.scopes) same₆
                                              ∙ scopes₅
                                              ∙ ap
                                                  (λ n.
                                                    update_scope k (moved policy head n) s₄.scopes)
                                                  place
                                              ∙ ap
                                                  (λ ys.
                                                    update_scope k
                                                      (moved policy head (suc c.row.sequence)) ys)
                                                  (ap (λ d. d.scopes) same₄
                                                    ∙ scopes₃
                                                    ∙ scopes₂
                                                    ∙ ap (λ d. d.scopes) same₁))
                                            (ap (λ d. d.snapshots) same₈
                                              ∙ snapshots₇
                                              ∙ ap (λ d. d.snapshots) same₆
                                              ∙ snapshots₅
                                              ∙ ap (λ d. d.snapshots) same₄
                                              ∙ snapshots₃
                                              ∙ snapshots₂
                                              ∙ ap (λ d. row head encoded ∷ d.snapshots) same₁))
    where
      row : String → Bytes → SnapshotRow
      row head encoded = record {
        scope_id = k;
        hash = head;
        sequence = x.sequence;
        content = encoded;
      }

      stored : Bytes → OperationRow
      stored response = record {
        scope_id = k;
        operation_id = form.operation_id;
        digest = form.digest;
        response = response;
      }

      moved : Bytes → String → ℕ → ScopeRow → ScopeRow
      moved policy head n y = record y { policy = policy; head_hash = some head; sequence = n }

      first : c.row.head_hash ≡ none → c.row.sequence ≡ 0
      first e = no_head P c.row.sequence (snapshots_of k db.snapshots) (
          subst (λ h. History P h c.row.sequence (snapshots_of k db.snapshots)) e
            (subst (λ o. Linked P o (snapshots_of k db.snapshots)) found (linear k)))

      after :
          (head : String) (encoded : Bytes)
          → canonical_hash P form.snapshot ≡ valid head
          → canonical_bytes P max_record_size form.snapshot ≡ valid encoded
          → IsSnapshotAfter P c.row.head_hash c.row.sequence (row head encoded)
      after head encoded hashed dumped =
          let (p, passed) =
            snapshot_checked P form.snapshot form.policy c.pin c.row.sequence c.row.head_hash x
              verified in
          record {
            snapshot = form.snapshot;
            policy = form.policy;
            pin = c.pin;
            body = x;
            verified = verified;
            linked = check_snapshot-parent p x c.row.sequence c.row.head_hash passed place first;
            place = place;
            encoded = dumped;
            hashed = hashed;
            sequence = place;
          }
