-- ===== src/ProjectRelay/Publish.antt =====
-- `publish` of project_server.py.
use keys_keeper_skill.Prelude.{
  ℕ, suc, String, Bool, true, false, not, ◌&&◌, ◌||◌, Option, none, some, List, [], ◌∷◌, ◌++◌, map,
  ◌==◌, if◌then◌else◌, nat_eq, string_eq, option_eq, list_eq, any, keep, length, elem,
}
use keys_keeper_skill.SyncServer.Outcome.{
  http, Result, ok, err, done, failed, Tx, pure, lift, gets, submit, ◌>>=◌, ◌>>◌, raise_if, modify,
  and_then,
}
use keys_keeper_skill.SyncServer.Tables.{Bytes}
use keys_keeper_skill.SyncServer.Requests.{
  Json, int, str, array, object, Items, nil, item, end, field,
}
use keys_keeper_skill.ProjectProtocol.Json.{
  Primitives, parse_bytes, canonical_bytes, canonical_hash, max_record_size,
}
use keys_keeper_skill.ProjectProtocol.Records.{is_optional_text}
use keys_keeper_skill.ProjectProtocol.Policy.{Grant, Policy}
use keys_keeper_skill.ProjectProtocol.Checked.{Checked, valid, invalid}
use keys_keeper_skill.ProjectProtocol.Messages.{Snapshot, verify_snapshot, verify_scope_key_wrap}
use keys_keeper_skill.ProjectProtocol.Transition.{validate_policy_transition}
use keys_keeper_skill.ProjectRelay.Tables.{
  SnapshotRow, WrapRow, OperationRow, ProjectDb, is_blocked, find_operation, update_scope,
}
use keys_keeper_skill.ProjectRelay.Access.{
  Headers, Caller, publishes, check, checked, relay_fields, entry, text_of, uuid_text, authenticate,
}
use keys_keeper_skill.SyncServer.Access.{App}
use keys_keeper_skill.ProjectRelay.Storage.{storage_budget}
use keys_keeper_skill.ProjectRelay.Scopes.{
  insert_unless, insert_policy, grant_json, dump, remember_grants,
}

-- the members of the payload, with the digest of the whole
pub record PublishForm : Type 0 where
  pub operation_id : String
  pub digest : String
  pub expected_head_hash : Json
  pub policy : Json
  pub snapshot : Json
  pub wraps : Json

abbrev items_of : Json → Option Items
items_of j = elim j [ array js ↦ some js | _ ↦ none ]

abbrev item_count : Items → ℕ
item_count nil = 0
item_count (item j js) = suc (item_count js)

-- each text of the first list is in the second
abbrev pub is_subset : List String → List String → Bool
is_subset xs ys = not (any (λ x. not (elem x ys)) xs)

abbrev pub grant_ids : List Grant → List String
grant_ids gs = map (λ g. g.grant_id) gs

-- `new_ids < old_ids`, the order of sets
abbrev pub is_reduction : List Grant → List Grant → Bool
is_reduction new old =
    is_subset (grant_ids new) (grant_ids old) && not (is_subset (grant_ids old) (grant_ids new))

unfoldable pub insert_snapshot : SnapshotRow → Tx ProjectDb (Unit {0})
insert_snapshot row db =
    insert_unless
      (any (λ r. r.scope_id == row.scope_id && (r.hash == row.hash || r.sequence == row.sequence))
        db.snapshots)
      (λ d. record d { snapshots = row ∷ d.snapshots }) db

unfoldable pub insert_operation : OperationRow → Tx ProjectDb (Unit {0})
insert_operation row db =
    insert_unless
      (any (λ r. r.scope_id == row.scope_id && r.operation_id == row.operation_id) db.operations)
      (λ d. record d { operations = row ∷ d.operations }) db

module _ (app : App) (P : Primitives) where
  unfoldable pub read_publish : Json → Result PublishForm
  read_publish payload =
      and_then
        (relay_fields ("operation_id" ∷ "expected_head_hash" ∷ "policy" ∷ "snapshot" ∷ "wraps" ∷ [])
          payload)
        λ ms. and_then (entry "operation_id" ms) λ given.
          and_then (uuid_text app P (text_of (some given))) λ operation_id.
            and_then (checked (canonical_hash P payload)) λ digest.
              and_then (entry "expected_head_hash" ms) λ expected.
                and_then (entry "policy" ms) λ policy. and_then (entry "snapshot" ms) λ snapshot.
                  and_then (entry "wraps" ms) λ wraps. ok (record {
                    operation_id = operation_id;
                    digest = digest;
                    expected_head_hash = expected;
                    policy = policy;
                    snapshot = snapshot;
                    wraps = wraps;
                  })

  -- the branch of a policy that is not the current one
  unfoldable pub change_policy : String → Caller → Json → Tx ProjectDb Policy
  change_policy scope_id c policy = do
    body ← check (validate_policy_transition P c.policy_record policy c.pin)
    raise_if
        (not (body.checkpoint_sequence == c.row.sequence)
          || not (body.checkpoint_hash == c.row.head_hash))
        (http 409 "checkpoint_conflict")
    remember_grants P scope_id c.policy.grants body.grants
    hash ← check (canonical_hash P policy)
    encoded ← dump P policy
    insert_policy
        (record { scope_id = scope_id; hash = hash; version = body.version; content = encoded })
    pure body

  abbrev pub policy_unless : Bool → String → Caller → Json → Tx ProjectDb Policy
  policy_unless true scope_id c policy db = done c.policy db
  policy_unless false scope_id c policy db = change_policy scope_id c policy db

  unfoldable pub next_policy : String → Caller → Json → Tx ProjectDb Policy
  next_policy scope_id c policy = do
    hash ← check (canonical_hash P policy)
    current ← check (canonical_hash P c.policy_record)
    policy_unless (hash == current) scope_id c policy

  -- the loop over the wraps: each verified, with its recipient, and no recipient twice
  unfoldable pub verify_wraps : Json → Bytes → List String → Items → Result (List (String × Json))
  verify_wraps policy pin seen nil = ok []
  verify_wraps policy pin seen (item j js) =
      and_then (checked (verify_scope_key_wrap P j policy pin grant_json)) λ device.
        if elem device seen
        then err (http 422 "duplicate_wrap")
        else and_then (verify_wraps policy pin (device ∷ seen) js) λ rest. ok ((device, j) ∷ rest)

  -- the wraps of a publication: one for the device of each grant
  unfoldable pub check_wraps : Json → Bytes → Policy → Json → Result (List (String × Json))
  check_wraps policy pin body wraps = elim (items_of wraps) [
    | none ↦ err (http 422 "incomplete_wraps")
    | some js ↦
        if not (item_count js == length body.grants)
        then err (http 422 "incomplete_wraps")
        else and_then (verify_wraps policy pin [] js) λ pairs.
          let recipients : List String = map (λ x. x.0) pairs in
          let devices : List String = map (λ g. g.device_id) body.grants in
          if is_subset recipients devices && is_subset devices recipients
          then ok pairs
          else err (http 422 "incomplete_wraps")
  ]

  -- the rows of the new wraps
  unfoldable pub wrap_rows : String → List (String × Json) → Checked (List WrapRow)
  wrap_rows scope_id [] = valid []
  wrap_rows scope_id ((device, j) ∷ rest) = elim (canonical_bytes P max_record_size j) [
    | invalid e ↦ invalid e
    | valid encoded ↦ elim (wrap_rows scope_id rest) [
      | invalid e ↦ invalid e
      | valid rows ↦
          valid (record { scope_id = scope_id; device_id = device; content = encoded } ∷ rows)
    ]
  ]

  -- `DELETE` of the scope's wraps, and an `INSERT` for each new one
  unfoldable pub replace_wraps : String → List WrapRow → Tx ProjectDb (Unit {0})
  replace_wraps scope_id rows =
      modify (λ db. record db { wraps = rows ++ keep (λ r. not (r.scope_id == scope_id)) db.wraps })

  unfoldable pub move_head : String → Bytes → String → ℕ → Tx ProjectDb (Unit {0})
  move_head scope_id encoded head sequence = modify (λ db. record db {
    scopes =
        update_scope scope_id
          (λ r. record r { policy = encoded; head_hash = some head; sequence = sequence })
          db.scopes;
  })

  -- a publication that is not a retry, up to its first write to the snapshots
  unfoldable pub check_publication :
      String → Caller → PublishForm → Policy → Tx ProjectDb (Snapshot × List (String × Json))
  check_publication scope_id c form body = do
    s ← check (verify_snapshot P form.snapshot form.policy c.pin c.row.sequence c.row.head_hash)
    raise_if (not (s.sequence == suc c.row.sequence)) (http 409 "sequence_conflict")
    pairs ← lift (check_wraps form.policy c.pin body form.wraps)
    blocks ← gets (λ db. db.blocks)
    raise_if (any (λ g. is_blocked scope_id g.grant_id blocks) body.grants)
        (http 409 "grant_revoked")
    pure (s, pairs)

  abbrev pub publish_response : String → ℕ → ℕ → Json
  publish_response head sequence version = object (
      field "head_hash" (str head)
        (field "sequence" (int sequence) (field "policy_version" (int version) end)))

  unfoldable pub write_publication :
      String
      → Caller
      → PublishForm
      → Policy
      → Snapshot
      → List (String × Json)
      → Tx ProjectDb (ℕ × Json)
  write_publication scope_id c form body s pairs = do
    head ← check (canonical_hash P form.snapshot)
    encoded ← dump P form.snapshot
    insert_snapshot
        (record { scope_id = scope_id; hash = head; sequence = s.sequence; content = encoded })
    rows ← check (wrap_rows scope_id pairs)
    replace_wraps scope_id rows
    policy ← dump P form.policy
    move_head scope_id policy head s.sequence
    response ← dump P (publish_response head s.sequence body.version)
    insert_operation (record {
      scope_id = scope_id;
      operation_id = form.operation_id;
      digest = form.digest;
      response = response;
    })
    storage_budget app.limits scope_id (is_reduction body.grants c.policy.grants)
    pure (201, publish_response head s.sequence body.version)

  unfoldable pub publish_new : String → Caller → PublishForm → Tx ProjectDb (ℕ × Json)
  publish_new scope_id c form = do
    raise_if (not (is_optional_text c.row.head_hash (some form.expected_head_hash)))
        (http 409 "cas_conflict")
    body ← next_policy scope_id c form.policy
    opened ← check_publication scope_id c form body
    write_publication scope_id c form body opened.0 opened.1

  -- the operation was stored before, or it was not
  abbrev pub publish_unless :
      String → Caller → PublishForm → Option OperationRow → Tx ProjectDb (ℕ × Json)
  publish_unless scope_id c form (some stored) db =
      if not (stored.digest == form.digest)
      then failed (http 409 "operation_conflict")
      else (check (parse_bytes P max_record_size stored.response) >>= λ response.
            pure (200, response))
          db
  publish_unless scope_id c form none db = publish_new scope_id c form db

  unfoldable pub publish_body : String → Headers → PublishForm → Tx ProjectDb (ℕ × Json)
  publish_body scope_id h form = do
    c ← authenticate app P scope_id h.authorization h.device publishes
    operations ← gets (λ db. db.operations)
    publish_unless scope_id c form (find_operation scope_id form.operation_id operations)

  -- `publish`
  unfoldable pub publish : String → Headers → Json → ProjectDb → Result (ℕ × Json) × ProjectDb
  publish scope_id h payload db = submit (read_publish payload) (publish_body scope_id h) db
