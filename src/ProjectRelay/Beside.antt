-- ===== src/ProjectRelay/Beside.antt =====
-- The queue of the project relay, as far as it concerns the tables beside it.
use keys_keeper_skill.Prelude.{
  ℕ, ◌*◌, String, Bool, true, false, not, ◌||◌, Option, none, some, List, ◌∷◌, leb, ◌==◌, nat_eq,
  string_eq, option_eq, list_eq, any,
}
use keys_keeper_skill.SyncServer.Outcome.{http, done, failed, modify}
use keys_keeper_skill.SyncServer.Tables.{Bytes}
use keys_keeper_skill.SyncServer.Requests.{Members}
use keys_keeper_skill.ProjectProtocol.Json.{
  Primitives, parse_bytes, canonical_hash, max_record_size,
}
use keys_keeper_skill.ProjectProtocol.Records.{get_member}
use keys_keeper_skill.ProjectProtocol.Messages.{Receipt, verify_create, verify_receipt}
use keys_keeper_skill.ProjectRelay.Tables.{
  SubmissionRow, ProjectDb, find_policy, is_blocked, is_submission, find_submission,
  update_submission,
}
use keys_keeper_skill.ProjectRelay.Access.{
  Headers, Caller, creates, receipts, text_of, digest_text, uuid_text, unsigned_payload,
}
use keys_keeper_skill.SyncServer.Access.{App}
use keys_keeper_skill.ProjectRelay.Storage.{storage_budget}
use keys_keeper_skill.ProjectRelay.Receipts.{is_success, recorded}
use keys_keeper_skill.ProjectRelay.Submissions.{
  pending_row, uploaded, recent_creates, max_creates_per_minute, max_submission,
}
use keys_keeper_skill.ProjectRelay.Contracts.{
  answers, raises, lift_post, check_post, or_raise_post, raise_if_post, if_post,
}
use keys_keeper_skill.ProjectRelay.Scopes.{insert_unless, dump}
use keys_keeper_skill.ProjectRelay.Submissions.{
  SubmitForm, Arrival, insert_submission, verify_submission, enqueue, enqueue_unless, submit_body,
  queue_full,
}
use keys_keeper_skill.ProjectRelay.Receipts.{
  ReceiptForm, Subject, find_subject, store_receipt, advance_receipt, check_first, record_receipt,
  acknowledge_body, is_overtaken, is_progress,
}
use keys_keeper_skill.ProjectRelay.Additions.{
  Frame, Adds, add_then, add_bind, raise_if_adds, budget_adds, dump_adds, after_auth,
}

-- the parts of the queue's handlers that write nothing
module _ (F : Frame) (app : App) (P : Primitives) where
  pub check_first_adds :
      (scope_id : String) (c : Caller) (x : Subject) (success : Bool) (db : ProjectDb)
      → Adds F db (check_first app P scope_id c x success db)
  unfolding check_first
  check_first_adds scope_id c x false db = answers (F.refl_rel db)
  check_first_adds scope_id c x true db =
      check_post {c = verify_create P x.submission x.policy c.pin (some c.policy_record)} _
        λ again e.
          raise_if_adds F (is_blocked scope_id x.row.grant_id db.blocks) (http 403 "grant_revoked")
            db

  pub find_subject_adds :
      (scope_id request_id : String) (candidate : Members) (db : ProjectDb)
      → Adds F db (find_subject app P scope_id request_id candidate db)
  unfolding find_subject
  find_subject_adds scope_id request_id candidate db =
      lift_post {r = uuid_text app P (text_of (get_member "device_id" candidate))} _ λ device e₁.
        or_raise_post {o = find_submission scope_id device request_id db.submissions}
          (http 404 "not_found") _
          λ row e₂.
            or_raise_post {o = find_policy scope_id row.policy_hash db.policies}
              (http 409 "policy_history_missing") _
              λ old e₃. check_post {c = parse_bytes P max_record_size old.content} _ λ policy e₄.
                check_post {c = parse_bytes P max_record_size row.content} _
                  λ submission e₅. answers (F.refl_rel db)

  pub verify_submission_adds :
      (scope_id : String) (c : Caller) (form : SubmitForm) (now : ℕ) (db : ProjectDb)
      → Adds F db (verify_submission app P scope_id c form now db)
  unfolding verify_submission
  verify_submission_adds scope_id c form now db =
      lift_post {r = unsigned_payload app P max_submission form.submission} _ λ opened e₁.
        lift_post {r = digest_text (text_of (get_member "policy_hash" opened.1))} _ λ named e₂.
          or_raise_post {o = find_policy scope_id named db.policies} (http 422 "unknown_policy") _
            λ old e₃. check_post {c = parse_bytes P max_record_size old.content} _ λ policy e₄.
              check_post {c = verify_create P form.submission policy c.pin (some c.policy_record)} _
                λ body e₅.
                  raise_if_post {b = not (body.device_id == c.device)} (http 403 "device_mismatch")
                    _
                    λ e₆. lift_post {r = uuid_text app P (some body.request_id)} _ λ request_id e₇.
                      check_post {c = canonical_hash P form.submission} _
                        λ digest e₈. answers (F.refl_rel db)

-- The relation is about no table of the queue.
abbrev pub IsBeside : Frame → Type 0
IsBeside F =
    (db : ProjectDb) (rows : List SubmissionRow) → F.Rel db (record db { submissions = rows })

module _ (F : Frame) (beside : IsBeside F) (app : App) (P : Primitives) where
  -- the queue and its receipts are in none of these tables
  store_receipt_adds :
      (scope_id request_id : String) (row : SubmissionRow) (encoded : Bytes) (db : ProjectDb)
      → Adds F db (store_receipt app P scope_id request_id row encoded db)
  unfolding store_receipt
  store_receipt_adds scope_id request_id row encoded db =
      add_then F
        (modify (λ (d : ProjectDb). record d {
          submissions =
              update_submission scope_id row.device_id request_id
                (λ r. record r { receipt = some encoded }) d.submissions;
        }))
        _ db
        (answers (
          beside db (
            update_submission scope_id row.device_id request_id
              (λ r. record r { receipt = some encoded }) db.submissions)))
        λ s.
          add_then F (storage_budget app.limits scope_id true) _ s
            (budget_adds F app P scope_id true s)
            λ s'. answers {a = recorded request_id} {s = s'} (F.refl_rel s')

  advance_adds :
      (scope_id request_id : String) (x : Subject) (encoded : Bytes) (before now : Receipt)
      (same : Bool) (db : ProjectDb)
      → Adds F db (advance_receipt app P scope_id request_id x encoded before now same db)
  unfolding advance_receipt
  advance_adds scope_id request_id x encoded before now true db = answers (F.refl_rel db)
  advance_adds scope_id request_id x encoded before now false db =
      raise_if_post {b = not (is_progress before now)} (http 409 "receipt_conflict") _
        λ progress. store_receipt_adds scope_id request_id x.row encoded db

  record_receipt_adds :
      (scope_id : String) (c : Caller) (form : ReceiptForm) (x : Subject) (encoded : Bytes)
      (now : Receipt) (stored : Option Bytes) (db : ProjectDb)
      → Adds F db (record_receipt app P scope_id c form x encoded now stored db)
  record_receipt_adds scope_id c form x encoded now (some stored) db =
      check_post {c = parse_bytes P max_record_size stored} _ λ previous e₁.
        check_post {c = verify_receipt P previous x.submission x.policy c.pin} _ λ before e₂.
          advance_adds scope_id form.request_id x encoded before now
            (stored == encoded || is_overtaken before now) db
  record_receipt_adds scope_id c form x encoded now none db =
      add_then F (check_first app P scope_id c x (is_success now.status)) _ db
        (check_first_adds F app P scope_id c x (is_success now.status) db)
        λ s. store_receipt_adds scope_id form.request_id x.row encoded s

  pub acknowledge_adds :
      (scope_id : String) (h : Headers) (form : ReceiptForm) (db : ProjectDb)
      → Adds F db (acknowledge_body app P scope_id h form db)
  unfolding acknowledge_body
  acknowledge_adds scope_id h form db = after_auth F app P scope_id h receipts _ db λ c.
      lift_post {r = unsigned_payload app P (16 * 1024) form.receipt} _ λ opened e₁.
        add_bind F (find_subject app P scope_id form.request_id opened.1) _ db
          (find_subject_adds F app P scope_id form.request_id opened.1 db)
          λ x s₁. check_post {c = verify_receipt P opened.0 x.submission x.policy c.pin} _ λ now e₂.
            add_bind F (dump P opened.0) _ s₁ (dump_adds F app P opened.0 s₁)
              λ encoded s₂. record_receipt_adds scope_id c form x encoded now x.row.receipt s₂

  -- submissions
  insert_submission_adds :
      (row : SubmissionRow) (db : ProjectDb) → Adds F db (insert_submission row db)
  unfolding insert_submission
  insert_submission_adds row db =
      unless (any (is_submission row.scope_id row.device_id row.request_id) db.submissions)
    where
      unless :
          (b : Bool)
          → Adds F db (insert_unless b (λ x. record x { submissions = row ∷ x.submissions }) db)
      unless true = raises
      unless false = answers (beside db (row ∷ db.submissions))

  enqueue_adds :
      (scope_id : String) (a : Arrival) (db : ProjectDb) → Adds F db (enqueue app P scope_id a db)
  unfolding enqueue
  enqueue_adds scope_id a db =
      raise_if_post {b = queue_full scope_id a db.submissions} (http 429 "queue_full") _ λ room.
        raise_if_post {b = leb max_creates_per_minute (recent_creates scope_id a db.submissions)}
          (http 429 "rate_limited") _
          λ rate.
            add_then F (insert_submission (pending_row scope_id a)) _ db
              (insert_submission_adds (pending_row scope_id a) db)
              λ s.
                add_then F (storage_budget app.limits scope_id false) _ s
                  (budget_adds F app P scope_id false s)
                  λ s'. answers {a = uploaded 201 a.request_id} {s = s'} (F.refl_rel s')

  enqueue_unless_adds :
      (scope_id : String) (a : Arrival) (row : Option SubmissionRow) (db : ProjectDb)
      → Adds F db (enqueue_unless app P scope_id a row db)
  enqueue_unless_adds scope_id a none db = enqueue_adds scope_id a db
  enqueue_unless_adds scope_id a (some row) db =
      if_post {b = not (row.digest == a.digest)} {x = failed (http 409 "submission_conflict")}
        {y = done (uploaded 200 a.request_id) db} (λ other. raises)
        λ same. answers {a = uploaded 200 a.request_id} {s = db} (F.refl_rel db)

  pub submit_adds :
      (scope_id : String) (h : Headers) (now : ℕ) (form : SubmitForm) (db : ProjectDb)
      → Adds F db (submit_body app P scope_id h now form db)
  unfolding submit_body
  submit_adds scope_id h now form db = after_auth F app P scope_id h creates _ db λ c.
      add_bind F (verify_submission app P scope_id c form now) _ db
        (verify_submission_adds F app P scope_id c form now db)
        λ a s.
          enqueue_unless_adds scope_id a
            (find_submission scope_id a.device a.request_id s.submissions) s
