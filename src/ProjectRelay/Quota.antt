-- ===== src/ProjectRelay/Quota.antt =====
-- The queue of pending submissions stays within its limits.
use keys_keeper_skill.Prelude.{
  ◌*◌, String, sym, ◌∙◌, subst, Bool, true, false, not, ◌||◌, Option, none, some, List, ◌==◌,
  nat_eq, string_eq, option_eq, list_eq,
}
use keys_keeper_skill.SyncServer.Outcome.{http, Outcome}
use keys_keeper_skill.SyncServer.Tables.{Bytes}
use keys_keeper_skill.ProjectProtocol.Json.{Primitives, parse_bytes, max_record_size}
use keys_keeper_skill.ProjectProtocol.Messages.{Receipt, verify_receipt}
use keys_keeper_skill.ProjectRelay.Tables.{ProjectDb}
use keys_keeper_skill.ProjectRelay.Access.{Headers, Caller, receipts, unsigned_payload}
use keys_keeper_skill.SyncServer.Access.{App}
use keys_keeper_skill.ProjectRelay.Contracts.{
  Post, answers, bind_post, lift_post, check_post, raise_if_post, then_post, weaken_post,
  submit_post, then_post,
}
use keys_keeper_skill.ProjectRelay.Scopes.{dump}
use keys_keeper_skill.ProjectRelay.Scopes.{read_scope, store_scope, create_scope}
use keys_keeper_skill.ProjectRelay.Publish.{read_publish, publish_body, publish}
use keys_keeper_skill.ProjectRelay.Submissions.{read_submit, submit_body, submit_record}
use keys_keeper_skill.ProjectRelay.Receipts.{
  ReceiptForm, Subject, read_receipt, find_subject, advance_receipt, check_first, record_receipt,
  acknowledge_body, acknowledge, is_overtaken, is_progress,
}
use keys_keeper_skill.ProjectRelay.Blocks.{read_block, block_body, block}
use keys_keeper_skill.ProjectRelay.Relay.{Request, run, Kept, run_induction}
use keys_keeper_skill.ProjectRelay.Admission.{authenticate_post}
use keys_keeper_skill.ProjectRelay.Additions.{Adds, dump_adds, block_adds}
use keys_keeper_skill.ProjectRelay.Receipts.{is_success}
use keys_keeper_skill.ProjectRelay.Growth.{publish_adds, store_scope_adds}
use keys_keeper_skill.ProjectRelay.Beside.{check_first_adds, find_subject_adds}
use keys_keeper_skill.ProjectRelay.Queue.{
  IsBounded, queue_frame, queue_writes, submit-IsBounded, store_receipt-IsBounded,
}

module _ (app : App) (P : Primitives) where
  advance-IsBounded :
      (k request_id : String) (x : Subject) (encoded : Bytes) (before now : Receipt) (same : Bool)
      (db : ProjectDb)
      → IsBounded db.submissions
      → Post
          (λ a s. IsBounded s.submissions)
          (advance_receipt app P k request_id x encoded before now same db)
  unfolding advance_receipt
  advance-IsBounded k request_id x encoded before now true db bounded = answers bounded
  advance-IsBounded k request_id x encoded before now false db bounded =
      raise_if_post {b = not (is_progress before now)} (http 409 "receipt_conflict") _
        λ progress. store_receipt-IsBounded app P k request_id x.row encoded db bounded

  record-IsBounded :
      (k : String) (c : Caller) (form : ReceiptForm) (x : Subject) (encoded : Bytes) (now : Receipt)
      (stored : Option Bytes) (db : ProjectDb)
      → IsBounded db.submissions
      → Post
          (λ a s. IsBounded s.submissions)
          (record_receipt app P k c form x encoded now stored db)
  record-IsBounded k c form x encoded now (some stored) db bounded =
      check_post {c = parse_bytes P max_record_size stored} _ λ previous e₁.
        check_post {c = verify_receipt P previous x.submission x.policy c.pin} _ λ before e₂.
          advance-IsBounded k form.request_id x encoded before now
            (stored == encoded || is_overtaken before now) db bounded
  record-IsBounded k c form x encoded now none db bounded =
      then_post (check_first app P k c x (is_success now.status)) _
        (check_first_adds queue_frame app P k c x (is_success now.status) db)
        λ s same.
          store_receipt-IsBounded app P k form.request_id x.row encoded s
            (subst IsBounded (sym same) bounded)

  acknowledge-IsBounded :
      (k : String) (h : Headers) (form : ReceiptForm) (db : ProjectDb)
      → IsBounded db.submissions
      → Post (λ a s. IsBounded s.submissions) (acknowledge_body app P k h form db)
  unfolding acknowledge_body
  acknowledge-IsBounded k h form db bounded =
      authenticate_post app P k h.authorization h.device receipts _ λ c token bearer admitted.
        lift_post {r = unsigned_payload app P (16 * 1024) form.receipt} _ λ opened e₁.
          bind_post (find_subject app P k form.request_id opened.1) _
            (find_subject_adds queue_frame app P k form.request_id opened.1 db)
            λ x s₁ same₁.
              check_post {c = verify_receipt P opened.0 x.submission x.policy c.pin} _ λ now e₂.
                bind_post (dump P opened.0) _ (dump_adds queue_frame app P opened.0 s₁)
                  λ encoded s₂ same₂.
                    record-IsBounded k c form x encoded now x.row.receipt s₂
                      (subst IsBounded (sym (same₂ ∙ same₁)) bounded)

  same-IsBounded :
      {A : Type 0} {o : Outcome ProjectDb A} (db : ProjectDb)
      → IsBounded db.submissions
      → Adds queue_frame db o
      → Post (λ a s. IsBounded s.submissions) o
  same-IsBounded db bounded kept = weaken_post (λ a s e. subst IsBounded (sym e) bounded) kept

  kept_by_IsBounded : Kept app P (λ db. IsBounded db.submissions)
  unfolding create_scope publish submit_record acknowledge block
  kept_by_IsBounded = record {
    by_create_scope = λ h payload db b.
        submit_post (λ x. IsBounded x.submissions) (read_scope app P h payload) (store_scope app P)
          db b
          λ form.
            same-IsBounded db b (store_scope_adds queue_frame app P (queue_writes app P) form db);
    by_publish = λ s h payload db b.
        submit_post (λ x. IsBounded x.submissions) (read_publish app P payload)
          (publish_body app P s h) db b
          λ form.
            same-IsBounded db b (publish_adds queue_frame app P (queue_writes app P) s h form db);
    by_submit = λ s h now payload db b.
        submit_post (λ x. IsBounded x.submissions) (read_submit app P payload)
          (submit_body app P s h now) db b λ form. submit-IsBounded app P s h now form db b;
    by_receipt = λ s h q payload db b.
        submit_post (λ x. IsBounded x.submissions) (read_receipt app P q payload)
          (acknowledge_body app P s h) db b λ form. acknowledge-IsBounded s h form db b;
    by_block = λ s h payload db b.
        submit_post (λ x. IsBounded x.submissions) (read_block app P payload) (block_body app P s h)
          db b λ form. same-IsBounded db b (block_adds queue_frame app P s h form db);
  }

-- Over any requests, from a database where it holds: the size recorded for each submission is the
-- length of what is stored of it, no scope has more than 1000 submissions without a receipt, what
-- it stores of them is at most 64 MiB, and no device of it has more than 100.
pub run-IsBounded :
    (app : App) (P : Primitives) (qs : List Request) (db : ProjectDb)
    → IsBounded db.submissions
    → IsBounded (run app P qs db).submissions
run-IsBounded app P qs db bounded =
    run_induction app P (λ x. IsBounded x.submissions) (kept_by_IsBounded app P) qs db bounded
