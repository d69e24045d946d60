-- ===== src/ProjectRelay/Ordered.antt =====
-- Every request leaves the snapshots of each scope in one chain.
use keys_keeper_skill.Prelude.{
  String, ◌≡◌, refl, sym, ap, ◌∙◌, subst, inl, inr, false, not, Option, none, some, List, [], ◌∷◌,
  arith, eq_iff, ◌==◌, nat_eq, string_eq, option_eq, list_eq, Bool-cases, any,
}
use keys_keeper_skill.SyncServer.Outcome.{http, Outcome, done, failed}
use keys_keeper_skill.ProjectProtocol.Json.{Primitives}
use keys_keeper_skill.ProjectProtocol.Records.{is_optional_text}
use keys_keeper_skill.ProjectRelay.Tables.{
  ScopeRow, PolicyRow, OperationRow, ProjectDb, find_scope, first_policy, find_operation,
}
use keys_keeper_skill.ProjectRelay.Access.{Headers, Caller, publishes}
use keys_keeper_skill.SyncServer.Access.{App}
use keys_keeper_skill.ProjectRelay.Storage.{storage_budget}
use keys_keeper_skill.ProjectRelay.Contracts.{
  Post, answers, raises, bind_post, raise_if_post, then_post, weaken_post, submit_post, if_post,
  then_post,
}
use keys_keeper_skill.ProjectRelay.Scopes.{insert_scope, insert_policy}
use keys_keeper_skill.ProjectRelay.Scopes.{
  ScopeForm, read_scope, store_scope, store_scope_unless, new_scope, create_scope,
}
use keys_keeper_skill.ProjectRelay.Publish.{
  PublishForm, read_publish, next_policy, check_publication, publish_new, publish_unless,
  publish_body, publish,
}
use keys_keeper_skill.ProjectRelay.Submissions.{read_submit, submit_body, submit_record}
use keys_keeper_skill.ProjectRelay.Receipts.{read_receipt, acknowledge_body, acknowledge}
use keys_keeper_skill.ProjectRelay.Blocks.{read_block, block_body, block}
use keys_keeper_skill.ProjectRelay.Relay.{Request, run, Kept, run_induction}
use keys_keeper_skill.ProjectRelay.Admission.{authenticate_post}
use keys_keeper_skill.ProjectRelay.Additions.{Adds, block_adds, next_policy_adds}
use keys_keeper_skill.ProjectRelay.Frames.{insert_unless_post}
use keys_keeper_skill.ProjectRelay.Scopes.{scope_answer}
use keys_keeper_skill.ProjectRelay.Retries.{publish_stored, budget_leaves}
use keys_keeper_skill.ProjectRelay.Beside.{acknowledge_adds, submit_adds}
use keys_keeper_skill.ProjectRelay.History.{History, start, snapshots_of, Linked, IsChained}
use keys_keeper_skill.ProjectRelay.Linear.{
  fixed_frame, submissions-Fixed, insert_policy-Fixed, Fixed-IsChained, write-IsChained,
  check_publication_post,
}

no_scope :
    (k : String) (rows : List ScopeRow)
    → any (λ r. r.scope_id == k) rows ≡ false
    → find_scope k rows ≡ none
no_scope k [] e = refl
no_scope k (x ∷ rows) e = ground (arith, no_scope k rows)

-- a scope that nothing was known of begins with no history
linear_start :
    (P : Primitives) (row : ScopeRow) (db : ProjectDb)
    → any (λ r. r.scope_id == row.scope_id) db.scopes ≡ false
    → row.head_hash ≡ none
    → row.sequence ≡ 0
    → IsChained P db
    → IsChained P (record db { scopes = row ∷ db.scopes })
linear_start P row db fresh head zero_ linear s = elim (Bool-cases (row.scope_id == s)) [
  | inl e ↦
      let same : row.scope_id ≡ s = ground (arith, e, eq_iff row.scope_id s) in
      let empty : snapshots_of s db.snapshots ≡ [] =
        subst (λ o. Linked P o (snapshots_of s db.snapshots))
          (subst (λ z. find_scope z db.scopes ≡ none) same (no_scope row.scope_id db.scopes fresh))
          (linear s) in
      let found : find_scope s (row ∷ db.scopes) ≡ some row = rw e in
      subst (λ o. Linked P o (snapshots_of s db.snapshots)) (sym found)
        (subst (λ ys. History P row.head_hash row.sequence ys) (sym empty)
          (subst (λ h. History P h row.sequence []) (sym head)
            (subst (λ n. History P none n []) (sym zero_) start)))
  | inr e ↦
      let found : find_scope s (row ∷ db.scopes) ≡ find_scope s db.scopes = rw e in
      subst (λ o. Linked P o (snapshots_of s db.snapshots)) (sym found) (linear s)
]

module _ (app : App) (P : Primitives) where
  insert_scope-IsChained :
      (row : ScopeRow) (db : ProjectDb)
      → row.head_hash ≡ none
      → row.sequence ≡ 0
      → IsChained P db
      → Post (λ a s. IsChained P s) (insert_scope row db)
  unfolding insert_scope
  insert_scope-IsChained row db head zero_ linear =
      insert_unless_post (IsChained P) (any (λ r. r.scope_id == row.scope_id) db.scopes)
        (λ d. record d { scopes = row ∷ d.scopes }) db
        λ fresh. linear_start P row db fresh head zero_ linear

  new_scope-IsChained :
      (form : ScopeForm) (db : ProjectDb)
      → IsChained P db
      → Post (λ a s. IsChained P s) (new_scope app P form db)
  unfolding new_scope
  new_scope-IsChained form db linear =
      let row : ScopeRow = record {
        scope_id = form.scope_id;
        pinned_key = form.pinned_key;
        policy = form.encoded;
        head_hash = none;
        sequence = 0;
      } in
      let first : PolicyRow = record {
        scope_id = form.scope_id;
        hash = form.hash;
        version = 1;
        content = form.encoded;
      } in
      then_post (insert_scope row) _ (insert_scope-IsChained row db refl refl linear) λ s₁ l₁.
        then_post (insert_policy first) _ (insert_policy-Fixed first s₁) λ s₂ f₂.
          then_post (storage_budget app.limits form.scope_id false) _
            (budget_leaves app P form.scope_id false s₂)
            λ s₃ same.
              answers {a = scope_answer 201 form.scope_id} {s = s₃}
                (subst (IsChained P) (sym same) (Fixed-IsChained P s₁ s₂ f₂ l₁))

  store_scope-IsChained :
      (form : ScopeForm) (db : ProjectDb)
      → IsChained P db
      → Post (λ a s. IsChained P s) (store_scope app P form db)
  unfolding store_scope
  store_scope-IsChained form db linear = unless (first_policy form.scope_id db.policies)
    where
      unless :
          (row : Option PolicyRow)
          → Post (λ a s. IsChained P s) (store_scope_unless app P form row db)
      unless none = new_scope-IsChained form db linear
      unless (some row) =
          if_post {b = not (row.content == form.encoded)} {x = failed (http 409 "scope_exists")}
            {y = done (scope_answer 200 form.scope_id) db} (λ other. raises)
            λ same. answers {a = scope_answer 200 form.scope_id} {s = db} linear

  publish_new-IsChained :
      (k : String) (c : Caller) (form : PublishForm) (db : ProjectDb)
      → find_scope k db.scopes ≡ some c.row
      → IsChained P db
      → Post (λ a s. IsChained P s) (publish_new app P k c form db)
  unfolding publish_new
  publish_new-IsChained k c form db found linear =
      raise_if_post {b = not (is_optional_text c.row.head_hash (some form.expected_head_hash))}
        (http 409 "cas_conflict") _
        λ e₁.
          bind_post (next_policy app P k c form.policy) _
            (next_policy_adds fixed_frame app P k c form.policy db)
            λ body s₁ f₁.
              bind_post (check_publication app P k c form body) _
                (check_publication_post app P k c form body s₁)
                λ opened s₂ (same, verified, place).
                  write-IsChained app P k c form body opened.0 opened.1 s₂
                    (subst (λ ys. find_scope k ys ≡ some c.row)
                      (sym (ap (λ d. d.scopes) same ∙ f₁.0)) found)
                    (subst (IsChained P) (sym same) (Fixed-IsChained P db s₁ f₁ linear)) verified
                    place

  publish-IsChained :
      (k : String) (h : Headers) (form : PublishForm) (db : ProjectDb)
      → IsChained P db
      → Post (λ a s. IsChained P s) (publish_body app P k h form db)
  unfolding publish_body
  publish-IsChained k h form db linear =
      authenticate_post app P k h.authorization h.device publishes _ λ c token bearer admitted.
        unless c admitted.row (find_operation k form.operation_id db.operations)
    where
      unless :
          (c : Caller)
          → find_scope k db.scopes ≡ some c.row
          → (o : Option OperationRow)
          → Post (λ a s. IsChained P s) (publish_unless app P k c form o db)
      unless c found none = publish_new-IsChained k c form db found linear
      unless c found (some row) =
          weaken_post (λ a s (same, digest, status). subst (IsChained P) (sym same) linear)
            (publish_stored app P k c form row db)

  fixed-IsChained :
      {A : Type 0} {o : Outcome ProjectDb A} (db : ProjectDb)
      → IsChained P db
      → Adds fixed_frame db o
      → Post (λ a s. IsChained P s) o
  fixed-IsChained db linear fixed = weaken_post (λ a s f. Fixed-IsChained P db s f linear) fixed

  kept_by_IsChained : Kept app P (IsChained P)
  unfolding create_scope publish submit_record acknowledge block
  kept_by_IsChained = record {
    by_create_scope = λ h payload db l.
        submit_post (IsChained P) (read_scope app P h payload) (store_scope app P) db l
          λ form. store_scope-IsChained form db l;
    by_publish = λ s h payload db l.
        submit_post (IsChained P) (read_publish app P payload) (publish_body app P s h) db l
          λ form. publish-IsChained s h form db l;
    by_submit = λ s h now payload db l.
        submit_post (IsChained P) (read_submit app P payload) (submit_body app P s h now) db l
          λ form.
            fixed-IsChained db l (submit_adds fixed_frame submissions-Fixed app P s h now form db);
    by_receipt = λ s h q payload db l.
        submit_post (IsChained P) (read_receipt app P q payload) (acknowledge_body app P s h) db l
          λ form.
            fixed-IsChained db l (acknowledge_adds fixed_frame submissions-Fixed app P s h form db);
    by_block = λ s h payload db l.
        submit_post (IsChained P) (read_block app P payload) (block_body app P s h) db l
          λ form. fixed-IsChained db l (block_adds fixed_frame app P s h form db);
  }

-- Over any requests, answered or refused, from a database where it holds: the snapshots of a scope
-- are one chain without forks or gaps, each verified against a policy for the place after the one
-- before it and naming that one's hash as its parent, and the scope's row holds the hash and the
-- number of the last. A scope that has no row has no snapshots.
pub run-IsChained :
    (app : App) (P : Primitives) (qs : List Request) (db : ProjectDb)
    → IsChained P db
    → IsChained P (run app P qs db)
run-IsChained app P qs db linear =
    run_induction app P (IsChained P) (kept_by_IsChained app P) qs db linear
