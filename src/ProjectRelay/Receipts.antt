-- ===== src/ProjectRelay/Receipts.antt =====
-- `acknowledge` of project_server.py: the master answers a submission with a signed receipt.
use keys_keeper_skill.Prelude.{
  ℕ, ◌*◌, String, Bool, true, false, not, ◌&&◌, ◌||◌, Option, none, some, [], ◌∷◌, leb, ◌==◌,
  nat_eq, string_eq, option_eq, list_eq,
}
use keys_keeper_skill.SyncServer.Outcome.{
  http, Result, ok, Tx, pure, lift, gets, or_raise, submit, ◌>>=◌, ◌>>◌, raise_if, modify, and_then,
}
use keys_keeper_skill.SyncServer.Tables.{Bytes}
use keys_keeper_skill.SyncServer.Requests.{Json, str, object, Members, end, field}
use keys_keeper_skill.ProjectProtocol.Json.{Primitives, parse_bytes, max_record_size}
use keys_keeper_skill.ProjectProtocol.Records.{get_member}
use keys_keeper_skill.ProjectProtocol.Messages.{
  Status, accepted, published, conflict, rejected, quarantined, Receipt, verify_create,
  verify_receipt,
}
use keys_keeper_skill.ProjectRelay.Tables.{
  SubmissionRow, ProjectDb, find_policy, is_blocked, find_submission, update_submission,
}
use keys_keeper_skill.ProjectRelay.Access.{
  Headers, Caller, receipts, check, relay_fields, entry, text_of, uuid_text, unsigned_payload,
  authenticate,
}
use keys_keeper_skill.SyncServer.Access.{App}
use keys_keeper_skill.ProjectRelay.Storage.{storage_budget}
use keys_keeper_skill.ProjectRelay.Scopes.{dump}

pub record ReceiptForm : Type 0 where
  pub request_id : String
  pub receipt : Json

-- the submission that a receipt is about, with the records it is checked against
pub record Subject : Type 0 where
  pub row : SubmissionRow
  pub policy : Json
  pub submission : Json

abbrev is_status : Status → Status → Bool
is_status accepted s = elim s [ accepted ↦ true | _ ↦ false ]
is_status published s = elim s [ published ↦ true | _ ↦ false ]
is_status conflict s = elim s [ conflict ↦ true | _ ↦ false ]
is_status rejected s = elim s [ rejected ↦ true | _ ↦ false ]
is_status quarantined s = elim s [ quarantined ↦ true | _ ↦ false ]

abbrev same_entry : Receipt → Receipt → Bool
same_entry a b = a.canonical_entry_id == b.canonical_entry_id

-- an acceptance that arrives after the publication it led to
abbrev pub is_overtaken : Receipt → Receipt → Bool
is_overtaken before now =
    is_status published before.status
    && is_status accepted now.status
    && same_entry now before
    && leb now.revision before.revision

-- a publication of what was accepted
abbrev pub is_progress : Receipt → Receipt → Bool
is_progress before now =
    is_status accepted before.status
    && is_status published now.status
    && same_entry now before
    && leb before.revision now.revision

abbrev pub is_success : Status → Bool
is_success accepted = true
is_success published = true
is_success conflict = false
is_success rejected = false
is_success quarantined = false

abbrev pub recorded : String → ℕ × Json
recorded request_id =
    (200, object (field "request_id" (str request_id) (field "status" (str "recorded") end)))

module _ (app : App) (P : Primitives) where
  unfoldable pub read_receipt : String → Json → Result ReceiptForm
  read_receipt request_id payload = and_then (uuid_text app P (some request_id)) λ id.
      and_then (relay_fields ("receipt" ∷ []) payload) λ ms.
        and_then (entry "receipt" ms) λ receipt. ok (record { request_id = id; receipt = receipt })

  -- the rows that the receipt names
  unfoldable pub find_subject : String → String → Members → Tx ProjectDb Subject
  find_subject scope_id request_id candidate = do
    device ← lift (uuid_text app P (text_of (get_member "device_id" candidate)))
    rows ← gets (λ db. db.submissions)
    row ← or_raise (find_submission scope_id device request_id rows) (http 404 "not_found")
    policies ← gets (λ db. db.policies)
    old ←
        or_raise (find_policy scope_id row.policy_hash policies) (http 409 "policy_history_missing")
    policy ← check (parse_bytes P max_record_size old.content)
    submission ← check (parse_bytes P max_record_size row.content)
    pure (record { row = row; policy = policy; submission = submission })

  -- the `UPDATE`, and what it may cost
  unfoldable pub store_receipt : String → String → SubmissionRow → Bytes → Tx ProjectDb (ℕ × Json)
  store_receipt scope_id request_id row encoded = do
    modify (λ db. record db {
      submissions =
          update_submission scope_id row.device_id request_id
            (λ r. record r { receipt = some encoded }) db.submissions;
    })
    storage_budget app.limits scope_id true
    pure (recorded request_id)

  -- the submission has a receipt
  unfoldable pub advance_receipt :
      String → String → Subject → Bytes → Receipt → Receipt → Bool → Tx ProjectDb (ℕ × Json)
  advance_receipt scope_id request_id x encoded before now true = pure (recorded request_id)
  advance_receipt scope_id request_id x encoded before now false =
      raise_if (not (is_progress before now)) (http 409 "receipt_conflict")
      >> store_receipt scope_id request_id x.row encoded

  -- the submission has none: a success needs a grant that still holds
  unfoldable pub check_first : String → Caller → Subject → Bool → Tx ProjectDb (Unit {0})
  check_first scope_id c x false = pure tt
  check_first scope_id c x true =
      check (verify_create P x.submission x.policy c.pin (some c.policy_record)) >>= λ again.
      gets (λ db. db.blocks) >>= λ blocks.
      raise_if (is_blocked scope_id x.row.grant_id blocks) (http 403 "grant_revoked")

  abbrev pub record_receipt :
      String
      → Caller
      → ReceiptForm
      → Subject
      → Bytes
      → Receipt
      → Option Bytes
      → Tx ProjectDb (ℕ × Json)
  record_receipt scope_id c form x encoded now (some stored) db =
      (check (parse_bytes P max_record_size stored) >>= λ previous.
      check (verify_receipt P previous x.submission x.policy c.pin) >>= λ before.
      advance_receipt scope_id form.request_id x encoded before now
        (stored == encoded || is_overtaken before now))
        db
  record_receipt scope_id c form x encoded now none db =
      (check_first scope_id c x (is_success now.status)
          >> store_receipt scope_id form.request_id x.row encoded)
        db

  unfoldable pub acknowledge_body : String → Headers → ReceiptForm → Tx ProjectDb (ℕ × Json)
  acknowledge_body scope_id h form = do
    c ← authenticate app P scope_id h.authorization h.device receipts
    opened ← lift (unsigned_payload app P (16 * 1024) form.receipt)
    x ← find_subject scope_id form.request_id opened.1
    now ← check (verify_receipt P opened.0 x.submission x.policy c.pin)
    encoded ← dump P opened.0
    record_receipt scope_id c form x encoded now x.row.receipt

  -- `acknowledge`
  unfoldable pub acknowledge :
      String → Headers → String → Json → ProjectDb → Result (ℕ × Json) × ProjectDb
  acknowledge scope_id h request_id payload db =
      submit (read_receipt request_id payload) (acknowledge_body scope_id h) db
