-- ===== src/ProjectRelay/Queue.antt =====
-- The queue of pending submissions: what is let in, and what a receipt takes out.
use keys_keeper_skill.Prelude.{
  ℕ, ◌≤◌, String, ◌≡◌, refl, sym, ◌∙◌, subst, true, false, not, ◌&&◌, ◌||◌, Option, none, some,
  List, [], ◌∷◌, arith, eq_iff, leb, ◌==◌, ◌!=◌, ◌+◌, if◌then◌else◌, length, nat_eq, string_eq,
  option_eq, list_eq, any,
}
use keys_keeper_skill.SyncServer.Outcome.{http, done, failed, modify}
use keys_keeper_skill.SyncServer.Tables.{Bytes}
use keys_keeper_skill.ProjectProtocol.Json.{Primitives}
use keys_keeper_skill.ProjectRelay.Tables.{
  ScopeRow, PolicyRow, SnapshotRow, WrapRow, GrantRow, BlockRow, OperationRow, SubmissionRow,
  ProjectDb, is_blocked, is_submission, find_submission, update_submission,
}
use keys_keeper_skill.ProjectRelay.Access.{Headers, creates}
use keys_keeper_skill.SyncServer.Access.{App}
use keys_keeper_skill.ProjectRelay.Storage.{storage_budget}
use keys_keeper_skill.ProjectRelay.Contracts.{
  Post, answers, raises, bind_post, raise_if_post, then_post, if_post, then_post,
}
use keys_keeper_skill.ProjectRelay.Scopes.{insert_scope, insert_policy, insert_grant}
use keys_keeper_skill.ProjectRelay.Publish.{
  insert_snapshot, insert_operation, replace_wraps, move_head,
}
use keys_keeper_skill.ProjectRelay.Submissions.{
  SubmitForm, Arrival, insert_submission, verify_submission, enqueue, enqueue_unless, submit_body,
  is_pending, is_pending_of, count, total_size, queue_full, max_scope_pending, max_device_pending,
  max_scope_pending_bytes,
}
use keys_keeper_skill.ProjectRelay.Receipts.{store_receipt}
use keys_keeper_skill.ProjectRelay.Blocks.{insert_block}
use keys_keeper_skill.ProjectRelay.Admission.{authenticate_post}
use keys_keeper_skill.ProjectRelay.Additions.{Frame}
use keys_keeper_skill.ProjectRelay.Frames.{insert_unless_post}
use keys_keeper_skill.ProjectRelay.Receipts.{recorded}
use keys_keeper_skill.ProjectRelay.Submissions.{
  pending_row, uploaded, recent_creates, max_creates_per_minute,
}
use keys_keeper_skill.ProjectRelay.Retries.{budget_leaves}
use keys_keeper_skill.ProjectRelay.Growth.{Writes}
use keys_keeper_skill.ProjectRelay.Beside.{verify_submission_adds}

-- the stored bytes of a scope's submissions that have no receipt
abbrev pub pending_bytes : String → List SubmissionRow → ℕ
pending_bytes s [] = 0
pending_bytes s (r ∷ rows) = (if is_pending s r then length r.content else 0) + pending_bytes s rows

-- the limits of `submit`, for every scope and every device of it
abbrev pub IsWithinLimits : List SubmissionRow → Type 0
IsWithinLimits rows =
    (s d : String)
    → (count (is_pending s) rows ≤ max_scope_pending)
      × (pending_bytes s rows ≤ max_scope_pending_bytes)
      × (count (is_pending_of s d) rows ≤ max_device_pending)

-- and the size that each row records is the length of what it stores
abbrev pub IsBounded : List SubmissionRow → Type 0
IsBounded rows = (any (λ r. r.size != length r.content) rows ≡ false) × IsWithinLimits rows

pending_bytes-total_size :
    (s : String) (rows : List SubmissionRow)
    → any (λ r. r.size != length r.content) rows ≡ false
    → total_size (is_pending s) rows ≡ pending_bytes s rows
pending_bytes-total_size s [] sized = refl
pending_bytes-total_size s (r ∷ rows) sized = ground (arith, pending_bytes-total_size s rows)

-- a submission that is let in
enqueue-IsBounded :
    (k : String) (a : Arrival) (rows : List SubmissionRow)
    → IsBounded rows
    → queue_full k a rows ≡ false
    → IsBounded (pending_row k a ∷ rows)
enqueue-IsBounded k a rows (sized, bounded) room = (
  ground (arith, sized),
  λ s d.
      let (scope, size, device) = bounded s d in
      (
        ground (arith, eq_iff k s),
        ground (arith, eq_iff k s, pending_bytes-total_size s rows sized),
        ground (arith, eq_iff k s, eq_iff a.device d),
      ),
)

-- a receipt takes a submission out of the queue
module _ (k device request_id : String) (blob : Bytes) where
  abbrev answer_row : List SubmissionRow → List SubmissionRow
  answer_row rows =
      update_submission k device request_id (λ r. record r { receipt = some blob }) rows

  answer-count :
      (s : String) (rows : List SubmissionRow)
      → count (is_pending s) (answer_row rows) ≤ count (is_pending s) rows
  answer-count s [] = omega arith
  answer-count s (r ∷ rows) = ground (arith, answer-count s rows)

  answer-pending_bytes :
      (s : String) (rows : List SubmissionRow)
      → pending_bytes s (answer_row rows) ≤ pending_bytes s rows
  answer-pending_bytes s [] = omega arith
  answer-pending_bytes s (r ∷ rows) = ground (arith, answer-pending_bytes s rows)

  answer-sized :
      (rows : List SubmissionRow)
      → any (λ r. r.size != length r.content) rows ≡ false
      → any (λ r. r.size != length r.content) (answer_row rows) ≡ false
  answer-sized [] sized = refl
  answer-sized (r ∷ rows) sized = ground (arith, answer-sized rows)

  answer-count_of :
      (s d : String) (rows : List SubmissionRow)
      → count (is_pending_of s d) (answer_row rows) ≤ count (is_pending_of s d) rows
  answer-count_of s d [] = omega arith
  answer-count_of s d (r ∷ rows) = ground (arith, answer-count_of s d rows)

  answer-IsBounded : (rows : List SubmissionRow) → IsBounded rows → IsBounded (answer_row rows)
  answer-IsBounded rows (sized, bounded) = (
    answer-sized rows sized,
    λ s d.
        let (scope, size, of_device) = bounded s d in
        (
          omega (arith, scope, answer-count s rows),
          omega (arith, size, answer-pending_bytes s rows),
          omega (arith, of_device, answer-count_of s d rows),
        ),
  )

-- the writes to the other tables
abbrev pub SameQueue : ProjectDb → ProjectDb → Type 0
SameQueue a b = b.submissions ≡ a.submissions

pub queue_policy :
    (row : PolicyRow) (db : ProjectDb) → Post (λ a s. SameQueue db s) (insert_policy row db)
unfolding insert_policy
queue_policy row db =
    insert_unless_post (SameQueue db)
      (any (λ r. r.scope_id == row.scope_id && (r.hash == row.hash || r.version == row.version))
        db.policies)
      (λ d. record d { policies = row ∷ d.policies }) db λ fresh. refl

pub queue_grant :
    (row : GrantRow) (db : ProjectDb) → Post (λ a s. SameQueue db s) (insert_grant row db)
unfolding insert_grant
queue_grant row db =
    insert_unless_post (SameQueue db)
      (any
        (λ r.
          r.scope_id == row.scope_id
          && (r.grant_id == row.grant_id
              || (r.device_id == row.device_id && r.generation == row.generation)))
        db.grants)
      (λ d. record d { grants = row ∷ d.grants }) db λ fresh. refl

pub queue_block :
    (row : BlockRow) (db : ProjectDb) → Post (λ a s. SameQueue db s) (insert_block row db)
unfolding insert_block
queue_block row db =
    insert_unless_post (SameQueue db) (is_blocked row.scope_id row.grant_id db.blocks)
      (λ d. record d { blocks = row ∷ d.blocks }) db λ fresh. refl

abbrev pub queue_frame : Frame
queue_frame = record {
  Rel = SameQueue;
  refl_rel = λ db. refl;
  trans_rel = λ a b c e f. f ∙ e;
  add_policy = queue_policy;
  add_grant = queue_grant;
  add_block = queue_block;
}

queue_scope : (row : ScopeRow) (db : ProjectDb) → Post (λ a s. SameQueue db s) (insert_scope row db)
unfolding insert_scope
queue_scope row db =
    insert_unless_post (SameQueue db) (any (λ r. r.scope_id == row.scope_id) db.scopes)
      (λ d. record d { scopes = row ∷ d.scopes }) db λ fresh. refl

queue_snapshot :
    (row : SnapshotRow) (db : ProjectDb) → Post (λ a s. SameQueue db s) (insert_snapshot row db)
unfolding insert_snapshot
queue_snapshot row db =
    insert_unless_post (SameQueue db)
      (any (λ r. r.scope_id == row.scope_id && (r.hash == row.hash || r.sequence == row.sequence))
        db.snapshots)
      (λ d. record d { snapshots = row ∷ d.snapshots }) db λ fresh. refl

queue_operation :
    (row : OperationRow) (db : ProjectDb) → Post (λ a s. SameQueue db s) (insert_operation row db)
unfolding insert_operation
queue_operation row db =
    insert_unless_post (SameQueue db)
      (any (λ r. r.scope_id == row.scope_id && r.operation_id == row.operation_id) db.operations)
      (λ d. record d { operations = row ∷ d.operations }) db λ fresh. refl

module _ (app : App) (P : Primitives) where
  queue_wraps :
      (k : String) (rows : List WrapRow) (db : ProjectDb)
      → Post (λ a s. SameQueue db s) (replace_wraps app P k rows db)
  unfolding replace_wraps
  queue_wraps k rows db = answers refl

  queue_head :
      (k : String) (encoded : Bytes) (head : String) (n : ℕ) (db : ProjectDb)
      → Post (λ a s. SameQueue db s) (move_head app P k encoded head n db)
  unfolding move_head
  queue_head k encoded head n db = answers refl

  pub queue_writes : Writes queue_frame app P
  queue_writes = record {
    add_scope = queue_scope;
    add_snapshot = queue_snapshot;
    add_operation = queue_operation;
    set_wraps = queue_wraps;
    set_head = queue_head;
  }

  insert_submission-IsBounded :
      (k : String) (a : Arrival) (db : ProjectDb)
      → IsBounded db.submissions
      → queue_full k a db.submissions ≡ false
      → Post (λ x s. IsBounded s.submissions) (insert_submission (pending_row k a) db)
  unfolding insert_submission
  insert_submission-IsBounded k a db bounded room =
      insert_unless_post (λ s. IsBounded s.submissions)
        (any (is_submission k a.device a.request_id) db.submissions)
        (λ d. record d { submissions = pending_row k a ∷ d.submissions }) db
        λ fresh. enqueue-IsBounded k a db.submissions bounded room

  enqueue_post :
      (k : String) (a : Arrival) (db : ProjectDb)
      → IsBounded db.submissions
      → Post (λ x s. IsBounded s.submissions) (enqueue app P k a db)
  unfolding enqueue
  enqueue_post k a db bounded =
      raise_if_post {b = queue_full k a db.submissions} (http 429 "queue_full") _ λ room.
        raise_if_post {b = leb max_creates_per_minute (recent_creates k a db.submissions)}
          (http 429 "rate_limited") _
          λ rate.
            then_post (insert_submission (pending_row k a)) _
              (insert_submission-IsBounded k a db bounded room)
              λ s₁ b₁.
                then_post (storage_budget app.limits k false) _ (budget_leaves app P k false s₁)
                  λ s₂ same.
                    answers {a = uploaded 201 a.request_id} {s = s₂}
                      (subst (λ d. IsBounded d.submissions) (sym same) b₁)

  enqueue_unless_post :
      (k : String) (a : Arrival) (row : Option SubmissionRow) (db : ProjectDb)
      → IsBounded db.submissions
      → Post (λ x s. IsBounded s.submissions) (enqueue_unless app P k a row db)
  enqueue_unless_post k a none db bounded = enqueue_post k a db bounded
  enqueue_unless_post k a (some row) db bounded =
      if_post {b = not (row.digest == a.digest)} {x = failed (http 409 "submission_conflict")}
        {y = done (uploaded 200 a.request_id) db} (λ other. raises)
        λ same. answers {a = uploaded 200 a.request_id} {s = db} bounded

  pub submit-IsBounded :
      (k : String) (h : Headers) (now : ℕ) (form : SubmitForm) (db : ProjectDb)
      → IsBounded db.submissions
      → Post (λ x s. IsBounded s.submissions) (submit_body app P k h now form db)
  unfolding submit_body
  submit-IsBounded k h now form db bounded =
      authenticate_post app P k h.authorization h.device creates _ λ c token bearer admitted.
        bind_post (verify_submission app P k c form now) _
          (verify_submission_adds queue_frame app P k c form now db)
          λ a s same.
            enqueue_unless_post k a (find_submission k a.device a.request_id s.submissions) s
              (subst IsBounded (sym same) bounded)

  pub store_receipt-IsBounded :
      (k request_id : String) (row : SubmissionRow) (encoded : Bytes) (db : ProjectDb)
      → IsBounded db.submissions
      → Post (λ x s. IsBounded s.submissions) (store_receipt app P k request_id row encoded db)
  unfolding store_receipt
  store_receipt-IsBounded k request_id row encoded db bounded =
      then_post {Q = λ a s. IsBounded s.submissions}
        (modify (λ (d : ProjectDb). record d {
          submissions = answer_row k row.device_id request_id encoded d.submissions;
        }))
        _ (answers (answer-IsBounded k row.device_id request_id encoded db.submissions bounded))
        λ s b.
          then_post (storage_budget app.limits k true) _ (budget_leaves app P k true s) λ s' same.
            answers {a = recorded request_id} {s = s'}
              (subst (λ d. IsBounded d.submissions) (sym same) b)
