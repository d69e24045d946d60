-- ===== src/ProjectRelay/Progress.antt =====
-- What a receipt may change: a first answer, or the publication of what was accepted.
use keys_keeper_skill.Prelude.{
  ◌*◌, ◌≤◌, String, ◌≡◌, refl, sym, ap, ◌∙◌, subst, ◌⊎◌, inl, inr, Bool, true, false, not, ◌||◌,
  Option, none, some, arith, ◌==◌, nat_eq, string_eq, option_eq, list_eq, option_beq_iff,
}
use keys_keeper_skill.SyncServer.Outcome.{http, Result, ok, err, pure, submit, ◌>>◌, raise_if}
use keys_keeper_skill.SyncServer.Tables.{Bytes}
use keys_keeper_skill.SyncServer.Requests.{Json, str, Members}
use keys_keeper_skill.ProjectProtocol.Json.{
  Primitives, parse_bytes, canonical_bytes, max_record_size,
}
use keys_keeper_skill.ProjectProtocol.Records.{get_member, decode_key}
use keys_keeper_skill.ProjectProtocol.Checked.{valid}
use keys_keeper_skill.ProjectProtocol.Messages.{
  accepted, published, Receipt, verify_create, verify_receipt,
}
use keys_keeper_skill.ProjectProtocol.Bindings.{IsBound, verify_receipt-IsBound}
use keys_keeper_skill.ProjectRelay.Tables.{
  ScopeRow, PolicyRow, SubmissionRow, ProjectDb, find_scope, find_policy, is_blocked,
  find_submission, update_submission,
}
use keys_keeper_skill.ProjectRelay.Access.{
  Headers, Caller, receipts, text_of, uuid_text, unsigned_payload,
}
use keys_keeper_skill.SyncServer.Access.{App}
use keys_keeper_skill.ProjectRelay.Storage.{storage_budget}
use keys_keeper_skill.ProjectRelay.Contracts.{
  Post, answers, raises, bind_post, lift_post, check_post, or_raise_post, raise_if_post, then_post,
  transaction_post, weaken_post, then_post,
}
use keys_keeper_skill.ProjectRelay.Scopes.{dump}
use keys_keeper_skill.ProjectRelay.Receipts.{
  ReceiptForm, Subject, read_receipt, find_subject, store_receipt, advance_receipt, check_first,
  record_receipt, acknowledge_body, acknowledge, is_overtaken, is_progress,
}
use keys_keeper_skill.ProjectRelay.Admission.{authenticate_post}
use keys_keeper_skill.ProjectRelay.Receipts.{is_success, recorded}
use keys_keeper_skill.ProjectRelay.Retries.{budget_leaves}
use keys_keeper_skill.ProjectRelay.Linear.{dump_post}

-- the receipt that may follow the one that is stored
abbrev pub Allowed :
    Primitives → String → Bytes → ProjectDb → Subject → Receipt → Option Bytes → Type 0
Allowed P k pin db x now none =
    is_success now.status ≡ true → is_blocked k x.row.grant_id db.blocks ≡ false
Allowed P k pin db x now (some stored) =
    (previous : Json) × (before : Receipt) × (parse_bytes P max_record_size stored ≡ valid previous)
    × (verify_receipt P previous x.submission x.policy pin ≡ valid before)
    × (before.status ≡ accepted)
    × (now.status ≡ published)
    × (now.canonical_entry_id ≡ before.canonical_entry_id)
    × (before.revision ≤ now.revision)

-- the rows that a receipt is checked against
pub record Grounds (P : Primitives) (k : String) (db : ProjectDb) (x : Subject) (pin : Bytes)
    : Type 0 where
  pub scope : ScopeRow
  pub scope_found : find_scope k db.scopes ≡ some scope
  pub pinned : decode_key P (str scope.pinned_key) ≡ valid pin
  pub old : PolicyRow
  pub old_found : find_policy k x.row.policy_hash db.policies ≡ some old
  pub policy : parse_bytes P max_record_size old.content ≡ valid x.policy
  pub submission : parse_bytes P max_record_size x.row.content ≡ valid x.submission

-- a receipt that was stored: the submission it is about, as it was, and what was checked
pub record Stored (P : Primitives) (k q : String) (db after : ProjectDb) : Type 0 where
  pub subject : Subject
  pub device : String
  pub found : find_submission k device q db.submissions ≡ some subject.row
  pub pin : Bytes
  pub grounds : Grounds P k db subject pin
  pub receipt : Json
  pub now : Receipt
  pub verified : verify_receipt P receipt subject.submission subject.policy pin ≡ valid now
  pub bound : IsBound P receipt subject.submission subject.policy pin
  pub encoded : Bytes
  pub canonical : canonical_bytes P max_record_size receipt ≡ valid encoded
  pub allowed : Allowed P k pin db subject now subject.row.receipt
  pub written :
      after.submissions
      ≡ update_submission k subject.row.device_id q
          (λ r. record r { receipt = some encoded })
          db.submissions
  pub blocks : after.blocks ≡ db.blocks

progress_step :
    (before now : Receipt)
    → is_progress before now ≡ true
    → (before.status ≡ accepted)
      × (now.status ≡ published)
      × (now.canonical_entry_id ≡ before.canonical_entry_id)
      × (before.revision ≤ now.revision)
progress_step before now e = (
  ground arith,
  ground arith,
  ground (arith, option_beq_iff now.canonical_entry_id before.canonical_entry_id),
  ground arith,
)

module _ (app : App) (P : Primitives) where
  find_subject_post :
      (k q : String) (candidate : Members) (db : ProjectDb)
      → Post
          (λ x s.
            (s ≡ db)
            × (device : String) × (find_submission k device q db.submissions ≡ some x.row)
            × (old : PolicyRow) × (find_policy k x.row.policy_hash db.policies ≡ some old)
            × (parse_bytes P max_record_size old.content ≡ valid x.policy)
            × (parse_bytes P max_record_size x.row.content ≡ valid x.submission))
          (find_subject app P k q candidate db)
  unfolding find_subject
  find_subject_post k q candidate db =
      lift_post {r = uuid_text app P (text_of (get_member "device_id" candidate))} _ λ device e₁.
        or_raise_post {o = find_submission k device q db.submissions} (http 404 "not_found") _
          λ row found.
            or_raise_post {o = find_policy k row.policy_hash db.policies}
              (http 409 "policy_history_missing") _
              λ old e₃. check_post {c = parse_bytes P max_record_size old.content} _ λ policy e₄.
                check_post {c = parse_bytes P max_record_size row.content} _
                  λ submission e₅. answers (refl, device, found, old, e₃, e₄, e₅)

  check_first_post :
      (k : String) (c : Caller) (x : Subject) (success : Bool) (db : ProjectDb)
      → Post
          (λ a s. (s ≡ db) × (success ≡ true → is_blocked k x.row.grant_id db.blocks ≡ false))
          (check_first app P k c x success db)
  unfolding check_first
  check_first_post k c x false db = answers (refl, λ e. absurd (ground (arith, e)))
  check_first_post k c x true db =
      check_post {c = verify_create P x.submission x.policy c.pin (some c.policy_record)} _
        λ again e. unless (is_blocked k x.row.grant_id db.blocks)
    where
      unless :
          (b : Bool)
          → Post
              (λ a s. (s ≡ db) × (true ≡ true → b ≡ false))
              (raise_if b (http 403 "grant_revoked") db)
      unless true = raises
      unless false = answers (refl, λ e. refl)

  store_receipt_post :
      (k q : String) (row : SubmissionRow) (encoded : Bytes) (db : ProjectDb)
      → Post
          (λ a s.
            (s.submissions
              ≡ update_submission k row.device_id q
                  (λ r. record r { receipt = some encoded })
                  db.submissions)
            × (s.blocks ≡ db.blocks))
          (store_receipt app P k q row encoded db)
  unfolding store_receipt
  store_receipt_post k q row encoded db =
      weaken_post (λ a s same. (ap (λ d. d.submissions) same, ap (λ d. d.blocks) same))
        (ends (record db {
          submissions =
              update_submission k row.device_id q (λ r. record r { receipt = some encoded })
                db.submissions;
        }))
    where
      ends :
          (d : ProjectDb)
          → Post (λ a s. s ≡ d) ((storage_budget app.limits k true >> pure (recorded q)) d)
      ends d =
          then_post (storage_budget app.limits k true) _ (budget_leaves app P k true d)
            λ s same. answers {a = recorded q} {s = s} same

  -- the database is the same, or it has one more receipt
  abbrev Outcomes : String → String → ProjectDb → ProjectDb → Type 0
  Outcomes k q db s = (s ≡ db) ⊎ Stored P k q db s

  module _ (k : String) (c : Caller) (form : ReceiptForm) (x : Subject) (device : String)
      (db : ProjectDb)
      (found : find_submission k device form.request_id db.submissions ≡ some x.row)
      (grounds : Grounds P k db x c.pin) (receipt : Json) (now : Receipt) (encoded : Bytes)
      (verified : verify_receipt P receipt x.submission x.policy c.pin ≡ valid now)
      (canonical : canonical_bytes P max_record_size receipt ≡ valid encoded) where
    stored_post :
        Allowed P k c.pin db x now x.row.receipt
        → Post
            (λ a s. Outcomes k form.request_id db s)
            (store_receipt app P k form.request_id x.row encoded db)
    stored_post allowed =
        weaken_post
          (λ a s (written, blocks). inr (record {
            subject = x;
            device = device;
            found = found;
            pin = c.pin;
            grounds = grounds;
            receipt = receipt;
            now = now;
            verified = verified;
            bound = verify_receipt-IsBound P receipt x.submission x.policy c.pin now verified;
            encoded = encoded;
            canonical = canonical;
            allowed = allowed;
            written = written;
            blocks = blocks;
          }))
          (store_receipt_post k form.request_id x.row encoded db)

    advance_post :
        (before : Receipt) (same : Bool)
        → (is_progress before now ≡ true → Allowed P k c.pin db x now x.row.receipt)
        → Post
            (λ a s. Outcomes k form.request_id db s)
            (advance_receipt app P k form.request_id x encoded before now same db)
    unfolding advance_receipt
    advance_post before true allowed = answers (inl refl)
    advance_post before false allowed =
        raise_if_post {b = not (is_progress before now)} (http 409 "receipt_conflict") _
          λ progress. stored_post (allowed (ground (arith, progress)))

    record_post :
        (stored : Option Bytes)
        → x.row.receipt ≡ stored
        → Post
            (λ a s. Outcomes k form.request_id db s)
            (record_receipt app P k c form x encoded now stored db)
    record_post (some stored) e =
        check_post {c = parse_bytes P max_record_size stored} _ λ previous parsed.
          check_post {c = verify_receipt P previous x.submission x.policy c.pin} _
            λ before checked_.
              advance_post before (stored == encoded || is_overtaken before now) λ progress.
                let (was, is, entry_kept, later) = progress_step before now progress in
                subst (Allowed P k c.pin db x now) (sym e)
                  (previous, before, parsed, checked_, was, is, entry_kept, later)
    record_post none e =
        then_post (check_first app P k c x (is_success now.status)) _
          (check_first_post k c x (is_success now.status) db)
          λ s (same, free).
            subst
              (λ d.
                Post (λ a s'. Outcomes k form.request_id db s')
                  (store_receipt app P k form.request_id x.row encoded d))
              (sym same) (stored_post (subst (Allowed P k c.pin db x now) (sym e) free))

  acknowledge_post :
      (k : String) (h : Headers) (form : ReceiptForm) (db : ProjectDb)
      → Post (λ a s. Outcomes k form.request_id db s) (acknowledge_body app P k h form db)
  unfolding acknowledge_body
  acknowledge_post k h form db =
      authenticate_post app P k h.authorization h.device receipts _ λ c token bearer admitted.
        lift_post {r = unsigned_payload app P (16 * 1024) form.receipt} _ λ opened e₁.
          bind_post (find_subject app P k form.request_id opened.1) _
            (find_subject_post k form.request_id opened.1 db)
            λ x s₁ (same₁, device, found, old, old_found, policy, submission).
              check_post {c = verify_receipt P opened.0 x.submission x.policy c.pin} _
                λ now verified.
                  bind_post (dump P opened.0) _ (dump_post P opened.0 s₁)
                    λ encoded s₂ (same₂, canonical).
                      subst
                        (λ d.
                          Post (λ a s. Outcomes k form.request_id db s)
                            (record_receipt app P k c form x encoded now x.row.receipt d))
                        (sym (same₂ ∙ same₁))
                        (record_post k c form x device db found
                          (record {
                            scope = c.row;
                            scope_found = admitted.row;
                            pinned = admitted.pin;
                            old = old;
                            old_found = old_found;
                            policy = policy;
                            submission = submission;
                          })
                          opened.0 now encoded verified canonical x.row.receipt refl)

  same_request :
      (q : String) (payload : Json) (form : ReceiptForm)
      → read_receipt app P q payload ≡ ok form
      → form.request_id ≡ q
  unfolding read_receipt
  same_request q payload form e = ground arith

  -- Whatever is sent as a receipt: it changes nothing, or it is a receipt that the scope's pinned key
  -- signed over the request id and the hash of a submission that is stored under this request. The submission had no receipt, and then a success needs that
  -- its grant is not blocked; or it was accepted, and is now published as the same entry with no
  -- lower revision. Only the receipt of that submission is written, and no block.
  pub acknowledge-Stored :
      (k : String) (h : Headers) (q : String) (payload : Json) (db : ProjectDb)
      → ((acknowledge app P k h q payload db).1 ≡ db)
        ⊎ Stored P k q db (acknowledge app P k h q payload db).1
  unfolding acknowledge
  acknowledge-Stored k h q payload db = serve (read_receipt app P q payload) refl
    where
      serve :
          (r : Result ReceiptForm)
          → read_receipt app P q payload ≡ r
          → Outcomes k q db (submit r (acknowledge_body app P k h) db).1
      serve (err x) e = inl refl
      serve (ok form) e =
          transaction_post (Outcomes k q db) (acknowledge_body app P k h form db) db (inl refl) (
            subst (λ z. Post (λ a s. Outcomes k z db s) (acknowledge_body app P k h form db))
              (same_request q payload form e) (acknowledge_post k h form db))
