-- ===== src/ProjectRelay/Permanence.antt =====
-- No request takes a row of the project relay away, and a blocked grant admits nobody again.
use keys_keeper_skill.Prelude.{
  String, ◌≡◌, subst, ◌≢◌, ◌⊎◌, inl, inr, true, false, some, List, arith, nat_eq, string_eq,
  option_eq, list_eq,
}
use keys_keeper_skill.SyncServer.Outcome.{Outcome, done}
use keys_keeper_skill.ProjectProtocol.Json.{Primitives}
use keys_keeper_skill.ProjectProtocol.Policy.{Grant, grant_of}
use keys_keeper_skill.ProjectRelay.Tables.{
  BlockRow, SubmissionRow, ProjectDb, find_block, is_blocked,
}
use keys_keeper_skill.ProjectRelay.Access.{Headers, Caller, Action, authenticate}
use keys_keeper_skill.SyncServer.Access.{App}
use keys_keeper_skill.ProjectRelay.Contracts.{Post, weaken_post, post_done, submit_post}
use keys_keeper_skill.ProjectRelay.Scopes.{read_scope, store_scope, create_scope}
use keys_keeper_skill.ProjectRelay.Publish.{read_publish, publish_body, publish}
use keys_keeper_skill.ProjectRelay.Submissions.{read_submit, submit_body, submit_record}
use keys_keeper_skill.ProjectRelay.Receipts.{read_receipt, acknowledge_body, acknowledge}
use keys_keeper_skill.ProjectRelay.Blocks.{read_block, block_body, block}
use keys_keeper_skill.ProjectRelay.Relay.{Request, run, Kept, run_induction}
use keys_keeper_skill.ProjectRelay.Frames.{found_any}
use keys_keeper_skill.ProjectRelay.Frames.{block_key, Extends, Extends-refl, Extends-trans}
use keys_keeper_skill.ProjectRelay.Admission.{authenticated}
use keys_keeper_skill.ProjectRelay.Additions.{Adds, block_adds}
use keys_keeper_skill.ProjectRelay.Beside.{acknowledge_adds, submit_adds}
use keys_keeper_skill.ProjectRelay.Growth.{
  extends_frame, extends_writes, publish_adds, store_scope_adds,
}

-- Whatever the database extends, each handler leaves extending it.
kept_by_Extends :
    (app : App) (P : Primitives) (first : ProjectDb) → Kept app P (λ db. Extends first db)
unfolding create_scope publish submit_record acknowledge block
kept_by_Extends app P first = record {
  by_create_scope = λ h payload db i.
      submit_post (λ s. Extends first s) (read_scope app P h payload) (store_scope app P) db i
        λ form. onto db i (store_scope_adds extends_frame app P (extends_writes app P) form db);
  by_publish = λ s h payload db i.
      submit_post (λ x. Extends first x) (read_publish app P payload) (publish_body app P s h) db i
        λ form. onto db i (publish_adds extends_frame app P (extends_writes app P) s h form db);
  by_submit = λ s h now payload db i.
      submit_post (λ x. Extends first x) (read_submit app P payload) (submit_body app P s h now) db
        i λ form. onto db i (submit_adds extends_frame beside app P s h now form db);
  by_receipt = λ s h q payload db i.
      submit_post (λ x. Extends first x) (read_receipt app P q payload) (acknowledge_body app P s h)
        db i λ form. onto db i (acknowledge_adds extends_frame beside app P s h form db);
  by_block = λ s h payload db i.
      submit_post (λ x. Extends first x) (read_block app P payload) (block_body app P s h) db i
        λ form. onto db i (block_adds extends_frame app P s h form db);
}
  where
    beside :
        (db : ProjectDb) (rows : List SubmissionRow) → Extends db (record db { submissions = rows })
    beside db rows = Extends-refl db

    onto :
        {A : Type 0} {o : Outcome ProjectDb A} (db : ProjectDb)
        → Extends first db
        → Adds extends_frame db o
        → Post (λ a s. Extends first s) o
    onto db i added = weaken_post (λ a s e. Extends-trans first db s i e) added

-- Over any requests, answered or refused, nothing that the relay has recorded goes away or changes:
-- each policy, snapshot, grant, block and operation is found by its key as it was, and a scope stays
-- with the key of the master that it was created with.
pub run-Extends :
    (app : App) (P : Primitives) (qs : List Request) (db : ProjectDb) → Extends db (run app P qs db)
run-Extends app P qs db =
    run_induction app P (λ s. Extends db s) (kept_by_Extends app P db) qs db (Extends-refl db)

-- a caller whose grant is not this one
abbrev pub IsFreeOf : String → Caller → Type 0
IsFreeOf g c =
    (c.device ≡ c.policy.master_device_id)
    ⊎ ((x : Grant) × (grant_of c.device c.policy.grants ≡ some x) × (x.grant_id ≢ g))

admitted-IsFreeOf :
    (app : App) (P : Primitives) (s g : String) (b : BlockRow) (h : Headers) (action : Action)
    (db : ProjectDb) (c : Caller) (db' : ProjectDb)
    → find_block s g db.blocks ≡ some b
    → authenticate app P s h.authorization h.device action db ≡ done c db'
    → IsFreeOf g c
admitted-IsFreeOf app P s g b h action db c db' found e =
    let (same, token, bearer, a) =
      post_done (authenticated app P s h.authorization h.device action db) e in
    elim a.caller [
      | inl (master, token_ok) ↦ inl master
      | inr (x, op, delegate, held, allowed, token_ok, free) ↦ inr (
        x,
        held,
        λ out.
            let blocked : is_blocked s g db.blocks ≡ true =
              found_any (block_key (s, g)) (block_key (s, g)) db.blocks b (λ r i. i) found in
            let unblocked : is_blocked s g db.blocks ≡ false =
              subst (λ k. is_blocked s k db.blocks ≡ false) out free in
            ground arith,
      )
    ]

-- Once a grant of a scope is blocked, whatever is requested afterwards, new policies included: a
-- caller that the relay admits to the scope, for any action, is the master or holds another grant.
pub run-IsFreeOf :
    (app : App) (P : Primitives) (qs : List Request) (s g : String) (b : BlockRow) (db : ProjectDb)
    (h : Headers) (action : Action) (c : Caller) (db' : ProjectDb)
    → find_block s g db.blocks ≡ some b
    → authenticate app P s h.authorization h.device action (run app P qs db) ≡ done c db'
    → IsFreeOf g c
run-IsFreeOf app P qs s g b db h action c db' found e =
    let (e₁, e₂, e₃, e₄, blocks, e₆) = run-Extends app P qs db in
    admitted-IsFreeOf app P s g b h action (run app P qs db) c db' (blocks (s, g) b found) e
