-- ===== src/ProjectRelay/Retries.antt =====
-- A publication that is sent again is not written again.
use keys_keeper_skill.Prelude.{
  ℕ, String, ◌≡◌, refl, sym, subst, Bool, true, false, not, ◌&&◌, Option, none, some, List, ◌∷◌,
  arith, eq_iff, ◌==◌, nat_eq, string_eq, option_eq, list_eq, any,
}
use keys_keeper_skill.SyncServer.Outcome.{http, Result, ok, err, failed, pure, lift, submit, ◌>>=◌}
use keys_keeper_skill.SyncServer.Tables.{Bytes}
use keys_keeper_skill.SyncServer.Requests.{Json}
use keys_keeper_skill.ProjectProtocol.Json.{
  Primitives, parse_bytes, canonical_hash, max_record_size,
}
use keys_keeper_skill.ProjectProtocol.Records.{is_optional_text}
use keys_keeper_skill.ProjectProtocol.Policy.{Policy}
use keys_keeper_skill.ProjectProtocol.Messages.{Snapshot}
use keys_keeper_skill.ProjectRelay.Tables.{OperationRow, ProjectDb, find_operation}
use keys_keeper_skill.ProjectRelay.Access.{Headers, Caller, publishes, check}
use keys_keeper_skill.SyncServer.Access.{App}
use keys_keeper_skill.ProjectRelay.Storage.{storage_budget, project_usage}
use keys_keeper_skill.ProjectRelay.Contracts.{
  Post, answers, raises, bind_post, check_post, raise_if_post, then_post, submit_answered,
  transaction_post, answered, weaken_post, if_post, then_post, submit_answered, transaction_post,
  answered,
}
use keys_keeper_skill.ProjectRelay.Scopes.{insert_unless, dump}
use keys_keeper_skill.ProjectRelay.Publish.{
  PublishForm, insert_snapshot, insert_operation, read_publish, next_policy, wrap_rows,
  replace_wraps, move_head, check_publication, write_publication, publish_new, publish_unless,
  publish_body, publish, is_reduction, publish_response,
}
use keys_keeper_skill.ProjectRelay.Relay.{Request, run}
use keys_keeper_skill.ProjectRelay.Inserts.{insert_snapshot-Extends, move_head-Extends}
use keys_keeper_skill.ProjectRelay.Frames.{}
use keys_keeper_skill.ProjectRelay.Admission.{authenticate_post}
use keys_keeper_skill.ProjectRelay.Additions.{dump_adds, next_policy_adds}
use keys_keeper_skill.ProjectRelay.Growth.{
  extends_frame, extends_writes, check_publication_adds, replace_wraps_adds,
}
use keys_keeper_skill.ProjectRelay.Permanence.{run-Extends}
use keys_keeper_skill.RelayStorage.{budget}

-- the operation is stored, with the digest of this form
abbrev IsStored : String → PublishForm → ProjectDb → Type 0
IsStored s form db =
    (row : OperationRow) × (find_operation s form.operation_id db.operations ≡ some row)
    × (row.digest ≡ form.digest)

lift_leaves : {A : Type 0} (r : Result A) (db : ProjectDb) → Post (λ a s. s ≡ db) (lift r db)
lift_leaves (ok a) db = answers refl
lift_leaves (err e) db = raises

insert_operation-IsStored :
    (s : String) (form : PublishForm) (response : Bytes) (db : ProjectDb)
    → Post
        (λ a x. IsStored s form x)
        (insert_operation
          (record {
            scope_id = s;
            operation_id = form.operation_id;
            digest = form.digest;
            response = response;
          })
          db)
unfolding insert_operation
insert_operation-IsStored s form response db =
    unless (any (λ r. r.scope_id == s && r.operation_id == form.operation_id) db.operations)
  where
    row : OperationRow
    row = record {
      scope_id = s;
      operation_id = form.operation_id;
      digest = form.digest;
      response = response;
    }

    unless :
        (b : Bool)
        → Post
            (λ a x. IsStored s form x)
            (insert_unless b (λ d. record d { operations = row ∷ d.operations }) db)
    unless true = raises
    unless false =
        answers (row, ground (arith, eq_iff s s, eq_iff form.operation_id form.operation_id), refl)

module _ (app : App) (P : Primitives) where
  pub budget_leaves :
      (s : String) (control : Bool) (db : ProjectDb)
      → Post (λ a x. x ≡ db) (storage_budget app.limits s control db)
  unfolding storage_budget
  budget_leaves s control db =
      lift_leaves (budget app.limits (project_usage (some s) db) (project_usage none db) control) db

  write-IsStored :
      (s : String) (c : Caller) (form : PublishForm) (body : Policy) (x : Snapshot)
      (pairs : List (String × Json)) (db : ProjectDb)
      → Post (λ a x. IsStored s form x) (write_publication app P s c form body x pairs db)
  unfolding write_publication
  write-IsStored s c form body x pairs db =
      check_post {c = canonical_hash P form.snapshot} _ λ head e₁.
        bind_post (dump P form.snapshot) _ (dump_adds extends_frame app P form.snapshot db)
          λ encoded s₁ f₁.
            then_post
              (insert_snapshot
                (record { scope_id = s; hash = head; sequence = x.sequence; content = encoded }))
              _
              (insert_snapshot-Extends
                (record { scope_id = s; hash = head; sequence = x.sequence; content = encoded }) s₁)
              λ s₂ f₂. check_post {c = wrap_rows app P s pairs} _ λ rows e₂.
                then_post (replace_wraps app P s rows) _
                  (replace_wraps_adds extends_frame app P (extends_writes app P) s rows s₂)
                  λ s₃ f₃.
                    bind_post (dump P form.policy) _ (dump_adds extends_frame app P form.policy s₃)
                      λ policy s₄ f₄.
                        then_post (move_head app P s policy head x.sequence) _
                          (move_head-Extends app P s policy head x.sequence s₄)
                          λ s₅ f₅.
                            bind_post (dump P (publish_response app P head x.sequence body.version))
                              _
                              (dump_adds extends_frame app P
                                (publish_response app P head x.sequence body.version) s₅)
                              λ response s₆ f₆.
                                then_post
                                  (insert_operation (record {
                                    scope_id = s;
                                    operation_id = form.operation_id;
                                    digest = form.digest;
                                    response = response;
                                  }))
                                  _ (insert_operation-IsStored s form response s₆)
                                  λ s₇ stored.
                                    then_post
                                      (storage_budget app.limits s
                                        (is_reduction body.grants c.policy.grants))
                                      _
                                      (budget_leaves s (is_reduction body.grants c.policy.grants)
                                        s₇)
                                      λ s₈ same.
                                        answers
                                          {a = (
                                            201,
                                            publish_response app P head x.sequence body.version,
                                          )}
                                          {s = s₈}
                                          (subst (λ d. IsStored s form d) (sym same) stored)

  publish_new-IsStored :
      (s : String) (c : Caller) (form : PublishForm) (db : ProjectDb)
      → Post (λ a x. IsStored s form x) (publish_new app P s c form db)
  unfolding publish_new
  publish_new-IsStored s c form db =
      raise_if_post {b = not (is_optional_text c.row.head_hash (some form.expected_head_hash))}
        (http 409 "cas_conflict") _
        λ e₁.
          bind_post (next_policy app P s c form.policy) _
            (next_policy_adds extends_frame app P s c form.policy db)
            λ body s₁ f₁.
              bind_post (check_publication app P s c form body) _
                (check_publication_adds extends_frame app P (extends_writes app P) s c form body s₁)
                λ opened s₂ f₂. write-IsStored s c form body opened.0 opened.1 s₂

  -- a stored operation answers as it did, or refuses; either way nothing is written
  pub publish_stored :
      (s : String) (c : Caller) (form : PublishForm) (row : OperationRow) (db : ProjectDb)
      → Post
          (λ a x. (x ≡ db) × (row.digest ≡ form.digest) × (a.0 ≡ 200))
          (publish_unless app P s c form (some row) db)
  publish_stored s c form row db =
      if_post {b = not (row.digest == form.digest)} {x = failed (http 409 "operation_conflict")}
        {y = (check (parse_bytes P max_record_size row.response) >>= λ response.
            pure (200, response))
          db}
        (λ other. raises)
        λ same.
          check_post {c = parse_bytes P max_record_size row.response} _
            λ response e. answers (refl, ground (arith, eq_iff row.digest form.digest), refl)

  publish_body-IsStored :
      (s : String) (h : Headers) (form : PublishForm) (db : ProjectDb)
      → Post (λ a x. IsStored s form x) (publish_body app P s h form db)
  unfolding publish_body
  publish_body-IsStored s h form db =
      authenticate_post app P s h.authorization h.device publishes _
        λ c token bearer admitted. unless c (find_operation s form.operation_id db.operations) refl
    where
      unless :
          (c : Caller) (o : Option OperationRow)
          → find_operation s form.operation_id db.operations ≡ o
          → Post (λ a x. IsStored s form x) (publish_unless app P s c form o db)
      unless c none e = publish_new-IsStored s c form db
      unless c (some row) e =
          weaken_post
            (λ a x (same, digest, status).
              subst (λ d. IsStored s form d) (sym same) (row, e, digest))
            (publish_stored s c form row db)

  publish_again :
      (s : String) (h : Headers) (form : PublishForm) (row : OperationRow) (db : ProjectDb)
      → find_operation s form.operation_id db.operations ≡ some row
      → Post (λ a x. (x ≡ db) × (a.0 ≡ 200)) (publish_body app P s h form db)
  unfolding publish_body
  publish_again s h form row db found =
      authenticate_post app P s h.authorization h.device publishes _ λ c token bearer admitted.
        subst (λ o. Post (λ a x. (x ≡ db) × (a.0 ≡ 200)) (publish_unless app P s c form o db))
          (sym found)
          (weaken_post (λ a x (same, digest, status). (same, status))
            (publish_stored s c form row db))

-- Once a publication is answered, whatever is requested in between, the same payload writes nothing
-- more, by whomever it is sent; and if it is answered again, the status is 200.
pub publish-once :
    (app : App) (P : Primitives) (s : String) (payload : Json) (h h' : Headers) (qs : List Request)
    (db : ProjectDb) (a : ℕ × Json)
    → (publish app P s h payload db).0 ≡ ok a
    → ((publish app P s h' payload (run app P qs (publish app P s h payload db).1)).1
        ≡ run app P qs (publish app P s h payload db).1)
      × ((b : ℕ × Json)
          → (publish app P s h' payload (run app P qs (publish app P s h payload db).1)).0 ≡ ok b
          → b.0 ≡ 200)
unfolding publish
publish-once app P s payload h h' qs db a e =
    let (form, read, (row, found, digest)) =
      submit_answered {Q = λ f b x. IsStored s f x} (read_publish app P payload)
        (publish_body app P s h) db a (λ f. publish_body-IsStored app P s h f db) e in
    let (e₁, e₂, e₃, e₄, e₅, operations) = run-Extends app P qs (publish app P s h payload db).1 in
    let there : find_operation s form.operation_id
          (run app P qs (publish app P s h payload db).1).operations
        ≡ some row =
      operations (s, form.operation_id) row found in
    second (read_publish app P payload) (run app P qs (publish app P s h payload db).1) form read
      row there
  where
    second :
        (r : Result PublishForm) (d : ProjectDb) (form : PublishForm)
        → r ≡ ok form
        → (row : OperationRow) → find_operation s form.operation_id d.operations ≡ some row
        → ((submit r (publish_body app P s h') d).1 ≡ d)
          × ((b : ℕ × Json) → (submit r (publish_body app P s h') d).0 ≡ ok b → b.0 ≡ 200)
    second (err x) d form read row there = cc read
    second (ok f) d form read row there =
        let same : f ≡ form = ground arith in
        let again : Post (λ b x. (x ≡ d) × (b.0 ≡ 200)) (publish_body app P s h' f d) =
          publish_again app P s h' f row d (
            subst (λ k. find_operation s k.operation_id d.operations ≡ some row) (sym same)
              there) in
        (
          transaction_post (λ x. x ≡ d) (publish_body app P s h' f d) d refl
              (weaken_post (λ b x (kept, status). kept) again),
          λ b answer.
              answered (publish_body app P s h' f d) d b
                (weaken_post (λ b' x (kept, status). status) again) answer,
        )
