-- ===== src/ProjectRelay/Submissions.antt =====
-- `submit` of project_server.py: a device puts a signed `create` into the queue of its scope.
use keys_keeper_skill.Prelude.{
  ℕ, ◌+◌, ◌-◌, ◌*◌, String, Bool, true, false, not, ◌&&◌, ◌||◌, Option, none, some, List, [], ◌∷◌,
  ltb, leb, ◌==◌, if◌then◌else◌, nat_eq, string_eq, option_eq, list_eq, any, length,
}
use keys_keeper_skill.SyncServer.Outcome.{
  http, Result, ok, done, failed, Tx, pure, lift, gets, or_raise, submit, ◌>>=◌, ◌>>◌, raise_if,
  and_then,
}
use keys_keeper_skill.SyncServer.Tables.{Bytes}
use keys_keeper_skill.SyncServer.Requests.{Json, str, object, end, field}
use keys_keeper_skill.ProjectProtocol.Json.{
  Primitives, parse_bytes, canonical_bytes, canonical_hash, max_record_size,
}
use keys_keeper_skill.ProjectProtocol.Records.{get_member}
use keys_keeper_skill.ProjectProtocol.Messages.{verify_create}
use keys_keeper_skill.ProjectRelay.Tables.{
  SubmissionRow, ProjectDb, find_policy, is_submission, find_submission,
}
use keys_keeper_skill.ProjectRelay.Access.{
  Headers, Caller, creates, check, checked, relay_fields, entry, text_of, digest_text, uuid_text,
  unsigned_payload, authenticate,
}
use keys_keeper_skill.SyncServer.Access.{App}
use keys_keeper_skill.ProjectRelay.Storage.{storage_budget}
use keys_keeper_skill.ProjectRelay.Scopes.{insert_unless}

abbrev pub max_submission : ℕ
max_submission = 2 * 1024 * 1024

abbrev pub max_scope_pending_bytes : ℕ
max_scope_pending_bytes = 64 * 1024 * 1024

abbrev pub max_scope_pending : ℕ
max_scope_pending = 1000

abbrev pub max_device_pending : ℕ
max_device_pending = 100

abbrev pub max_creates_per_minute : ℕ
max_creates_per_minute = 30

abbrev is_none : Option Bytes → Bool
is_none none = true
is_none (some blob) = false

-- `receipt IS NULL` in a scope
abbrev pub is_pending : String → SubmissionRow → Bool
is_pending s r = r.scope_id == s && is_none r.receipt

abbrev pub is_pending_of : String → String → SubmissionRow → Bool
is_pending_of s d r = is_pending s r && r.device_id == d

abbrev pub is_recent : String → String → ℕ → SubmissionRow → Bool
is_recent s d since r = r.scope_id == s && r.device_id == d && ltb since r.created

-- `COUNT(*)`
abbrev pub count : (SubmissionRow → Bool) → List SubmissionRow → ℕ
count test [] = 0
count test (r ∷ rows) = (if test r then 1 else 0) + count test rows

-- `COALESCE(SUM(size), 0)`
abbrev pub total_size : (SubmissionRow → Bool) → List SubmissionRow → ℕ
total_size test [] = 0
total_size test (r ∷ rows) = (if test r then r.size else 0) + total_size test rows

unfoldable pub insert_submission : SubmissionRow → Tx ProjectDb (Unit {0})
insert_submission row db =
    insert_unless (any (is_submission row.scope_id row.device_id row.request_id) db.submissions)
      (λ d. record d { submissions = row ∷ d.submissions }) db

-- `payload["submission"]`, and its canonical bytes
pub record SubmitForm : Type 0 where
  pub submission : Json
  pub encoded : Bytes

-- what is stored of a submission, with the time of the request
pub record Arrival : Type 0 where
  pub device : String
  pub request_id : String
  pub digest : String
  pub grant_id : String
  pub policy_hash : String
  pub encoded : Bytes
  pub now : ℕ

-- the row of a submission that has just arrived
abbrev pub pending_row : String → Arrival → SubmissionRow
pending_row scope_id a = record {
  scope_id = scope_id;
  device_id = a.device;
  grant_id = a.grant_id;
  request_id = a.request_id;
  digest = a.digest;
  policy_hash = a.policy_hash;
  content = a.encoded;
  size = length a.encoded;
  created = a.now;
  receipt = none;
}

abbrev pub uploaded : ℕ → String → ℕ × Json
uploaded status request_id =
    (status, object (field "request_id" (str request_id) (field "status" (str "uploaded") end)))

abbrev pub queue_full : String → Arrival → List SubmissionRow → Bool
queue_full scope_id a rows =
    leb max_scope_pending (count (is_pending scope_id) rows)
    || leb max_device_pending (count (is_pending_of scope_id a.device) rows)
    || ltb max_scope_pending_bytes (total_size (is_pending scope_id) rows + length a.encoded)

-- `now - 60` is below zero only on a clock that has just begun; then every row is recent
abbrev pub recent_creates : String → Arrival → List SubmissionRow → ℕ
recent_creates scope_id a rows =
    if ltb a.now 60
    then count (λ r. r.scope_id == scope_id && r.device_id == a.device) rows
    else count (is_recent scope_id a.device (a.now - 60)) rows

module _ (app : App) (P : Primitives) where
  unfoldable pub read_submit : Json → Result SubmitForm
  read_submit payload = and_then (relay_fields ("submission" ∷ []) payload) λ ms.
      and_then (entry "submission" ms) λ submission.
        and_then (checked (canonical_bytes P max_submission submission))
          λ encoded. ok (record { submission = submission; encoded = encoded })

  -- the record under its historical policy and under the current one
  unfoldable pub verify_submission : String → Caller → SubmitForm → ℕ → Tx ProjectDb Arrival
  verify_submission scope_id c form now = do
    opened ← lift (unsigned_payload app P max_submission form.submission)
    named ← lift (digest_text (text_of (get_member "policy_hash" opened.1)))
    policies ← gets (λ db. db.policies)
    old ← or_raise (find_policy scope_id named policies) (http 422 "unknown_policy")
    policy ← check (parse_bytes P max_record_size old.content)
    body ← check (verify_create P form.submission policy c.pin (some c.policy_record))
    raise_if (not (body.device_id == c.device)) (http 403 "device_mismatch")
    request_id ← lift (uuid_text app P (some body.request_id))
    digest ← check (canonical_hash P form.submission)
    pure (record {
      device = c.device;
      request_id = request_id;
      digest = digest;
      grant_id = body.grant_id;
      policy_hash = body.policy_hash;
      encoded = form.encoded;
      now = now;
    })

  unfoldable pub enqueue : String → Arrival → Tx ProjectDb (ℕ × Json)
  enqueue scope_id a = do
    rows ← gets (λ db. db.submissions)
    raise_if (queue_full scope_id a rows) (http 429 "queue_full")
    raise_if (leb max_creates_per_minute (recent_creates scope_id a rows)) (http 429 "rate_limited")
    insert_submission (pending_row scope_id a)
    storage_budget app.limits scope_id false
    pure (uploaded 201 a.request_id)

  -- a retry of a submission that is stored, or a new one
  abbrev pub enqueue_unless : String → Arrival → Option SubmissionRow → Tx ProjectDb (ℕ × Json)
  enqueue_unless scope_id a (some row) db =
      if not (row.digest == a.digest)
      then failed (http 409 "submission_conflict")
      else done (uploaded 200 a.request_id) db
  enqueue_unless scope_id a none db = enqueue scope_id a db

  unfoldable pub submit_body : String → Headers → ℕ → SubmitForm → Tx ProjectDb (ℕ × Json)
  submit_body scope_id h now form = do
    c ← authenticate app P scope_id h.authorization h.device creates
    a ← verify_submission scope_id c form now
    rows ← gets (λ db. db.submissions)
    enqueue_unless scope_id a (find_submission scope_id a.device a.request_id rows)

  -- `submit`
  unfoldable pub submit_record :
      String → Headers → ℕ → Json → ProjectDb → Result (ℕ × Json) × ProjectDb
  submit_record scope_id h now payload db =
      submit (read_submit payload) (submit_body scope_id h now) db
