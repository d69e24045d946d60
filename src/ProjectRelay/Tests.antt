-- ===== src/ProjectRelay/Tests.antt =====
-- A small relay of project_server.py: one scope, its first publication, and the theorems on it.
use keys_keeper_skill.Prelude.{◌⊎◌}
use keys_keeper_skill.ProjectRelay.Receipts.{acknowledge}
use keys_keeper_skill.SyncServer.Requests.{object, field, end}
use keys_keeper_skill.Prelude.{
  ℕ, String, ◌≡◌, refl, none, some, List, [], ◌∷◌, arith, nat_eq, string_eq, option_eq, list_eq,
  codes, is_sha256_hex,
}
use keys_keeper_skill.SyncServer.Outcome.{err, http}
use keys_keeper_skill.SyncServer.Outcome.{ok, done}
use keys_keeper_skill.SyncServer.Requests.{Json}
use keys_keeper_skill.ProjectProtocol.Json.{
  parse_record, parse_bytes, canonical_bytes, canonical_hash,
}
use keys_keeper_skill.ProjectProtocol.Records.{
  require_members, read_uint, read_hash, read_optional_hash, read_id, read_key, decode_key, verify,
  validate_sealed,
}
use keys_keeper_skill.ProjectProtocol.Policy.{read_policy, verify_policy, check_context}
use keys_keeper_skill.ProjectProtocol.Messages.{verify_snapshot}
use keys_keeper_skill.ProjectRelay.Tables.{ScopeRow, BlockRow, ProjectDb, no_projects}
use keys_keeper_skill.ProjectRelay.Access.{
  Headers, Caller, publishes, relay_fields, authenticate, open_scope,
}
use keys_keeper_skill.SyncServer.Access.{App}
use keys_keeper_skill.ProjectRelay.Storage.{storage_budget, project_usage}
use keys_keeper_skill.ProjectRelay.Scopes.{dump}
use keys_keeper_skill.ProjectRelay.Publish.{verify_wraps}
use keys_keeper_skill.ProjectRelay.Publish.{
  insert_snapshot, insert_operation, read_publish, next_policy, check_wraps, wrap_rows,
  replace_wraps, move_head, check_publication, write_publication, publish_new, publish_body,
  publish, publish_response,
}
use keys_keeper_skill.ProjectRelay.Relay.{
  Request, create_scope_request, publish_request, received, respond, run,
}
use keys_keeper_skill.RelayStorage.{default_limits, budget}
use keys_keeper_skill.SyncServer.Storage.{tally}
use keys_keeper_skill.ProjectRelay.Relay.{in_route}
use keys_keeper_skill.SyncServer.Requests.{Codec, bearer_token}
use keys_keeper_skill.ProjectProtocol.Policy.{read_terms, read_grants}
use keys_keeper_skill.ProjectProtocol.Records.{read_base64}
use keys_keeper_skill.ProjectProtocol.Json.{walk, walk_items, walk_members}
use keys_keeper_skill.ProjectProtocol.Messages.{check_snapshot}
use keys_keeper_skill.ProjectProtocol.Tests.{
  hash, scope_name, master_name, first_policy_record, scope_request, publish_payload, primitives,
  master_key, first_body,
}
use keys_keeper_skill.ProjectRelay.Frames.{Extends}
use keys_keeper_skill.ProjectRelay.Permanence.{run-Extends, IsFreeOf, run-IsFreeOf}
use keys_keeper_skill.ProjectRelay.Retries.{publish-once}
use keys_keeper_skill.ProjectRelay.History.{IsChained}
use keys_keeper_skill.ProjectRelay.Ordered.{run-IsChained}
use keys_keeper_skill.ProjectRelay.Queue.{IsBounded}
use keys_keeper_skill.ProjectRelay.Refusals.{respond-refused}
use keys_keeper_skill.ProjectRelay.Progress.{Stored, acknowledge-Stored}
use keys_keeper_skill.ProjectRelay.Reading.{pending_page, page_rows}
use mathlib.Core.List.{Perm, IsChain}
use keys_keeper_skill.ProjectRelay.Order.{RowOrder}
use keys_keeper_skill.ProjectRelay.Pages.{IsPage, pending_page-IsPage}
use keys_keeper_skill.ProjectRelay.Tables.{SubmissionRow}
use keys_keeper_skill.ProjectRelay.Quota.{run-IsBounded}

abbrev codec : Codec
codec = record {
  b64decode = λ s. none;
  sha256 = λ b. b;
  encode = codes;
  from_hex = codes;
  lower = λ s. s;
}

abbrev app : App
app = record { codec = codec; limits = default_limits; bootstrap_token_hash = codes "admin" }

abbrev admin : Headers
admin = record { authorization = some "bearer admin"; device = none }

abbrev master : Headers
master = record { authorization = some "bearer token"; device = some master_name }

abbrev scope_row : ScopeRow
scope_row = record {
  scope_id = scope_name;
  pinned_key = "M";
  policy = 1 ∷ [];
  head_hash = none;
  sequence = 0;
}

abbrev old_grant : String
old_grant = "00000000-0000-4000-8000-000000000009"

abbrev block_row : BlockRow
block_row = record { scope_id = scope_name; grant_id = old_grant; content = [] }

-- the scope as it is created, with one block
abbrev scope_db : ProjectDb
scope_db = record no_projects {
  scopes = scope_row ∷ [];
  policies = record { scope_id = scope_name; hash = hash; version = 1; content = 1 ∷ [] } ∷ [];
  blocks = block_row ∷ [];
}

abbrev requests : List Request
requests =
    create_scope_request admin scope_request
    ∷ publish_request scope_name master publish_payload
    ∷ []

abbrev master_caller : Caller
master_caller = record {
  row = scope_row;
  policy_record = first_policy_record;
  pin = master_key;
  policy = first_body;
  device = master_name;
}

abbrev publish_answer : ℕ × Json
publish_answer = (201, publish_response app primitives hash 1 1)

run-Extends_example : Extends scope_db (run app primitives requests scope_db)
run-Extends_example = run-Extends app primitives requests scope_db

run-IsChained_example : IsChained primitives (run app primitives requests no_projects)
run-IsChained_example = run-IsChained app primitives requests no_projects (λ s. refl)

run-IsBounded_example : IsBounded (run app primitives requests scope_db).submissions
run-IsBounded_example =
    run-IsBounded app primitives requests scope_db
      (refl, λ s d. (omega arith, omega arith, omega arith))

-- the publication has moved the scope's row
abbrev master_caller_after : Caller
master_caller_after = record master_caller {
  row = record scope_row { head_hash = some hash; sequence = 1 };
}

abbrev later : List Request
later = publish_request scope_name master publish_payload ∷ []

abbrev published_db : ProjectDb
published_db = (publish app primitives scope_name master publish_payload scope_db).1

master_admitted :
    authenticate app primitives scope_name
      (some "bearer token")
      (some master_name)
      publishes
      (run app primitives later scope_db)
    ≡ done master_caller_after (run app primitives later scope_db)
unfolding run respond received in_route publish read_publish publish_body publish_new next_policy
    check_publication check_wraps verify_wraps write_publication insert_snapshot wrap_rows
    replace_wraps move_head insert_operation storage_budget budget tally project_usage dump
    relay_fields verify_snapshot check_snapshot check_context validate_sealed canonical_hash
    authenticate open_scope bearer_token verify_policy verify read_policy read_terms read_grants
    read_hash read_optional_hash read_uint read_id read_key decode_key read_base64 require_members
    parse_record parse_bytes canonical_bytes walk walk_items walk_members is_sha256_hex
master_admitted = refl

run-IsFreeOf_example : IsFreeOf old_grant master_caller_after
run-IsFreeOf_example =
    run-IsFreeOf app primitives later scope_name old_grant block_row scope_db master publishes
      master_caller_after (run app primitives later scope_db) refl master_admitted

publish_answered :
    (publish app primitives scope_name master publish_payload scope_db).0 ≡ ok publish_answer
unfolding publish read_publish publish_body publish_new next_policy check_publication check_wraps
    verify_wraps write_publication insert_snapshot wrap_rows replace_wraps move_head
    insert_operation storage_budget budget tally project_usage dump relay_fields verify_snapshot
    check_snapshot check_context validate_sealed canonical_hash authenticate open_scope bearer_token
    verify_policy verify read_policy read_terms read_grants read_hash read_optional_hash read_uint
    read_id read_key decode_key read_base64 require_members parse_record parse_bytes canonical_bytes
    walk walk_items walk_members is_sha256_hex
publish_answered = refl

publish-once_example :
    ((publish app primitives scope_name admin publish_payload
        (run app primitives requests published_db)).1
      ≡ run app primitives requests published_db)
    × ((b : ℕ × Json)
        → (publish app primitives scope_name admin publish_payload
            (run app primitives requests published_db)).0
          ≡ ok b
        → b.0 ≡ 200)
publish-once_example =
    publish-once app primitives scope_name publish_payload master admin requests scope_db
      publish_answer publish_answered

-- a relay with room for 1000 bytes of a scope: a publication fails after its last write
abbrev small_app : App
small_app = record app { limits = record default_limits { scope_bytes = 1000 } }

publish_full :
    (respond small_app primitives (publish_request scope_name master publish_payload) scope_db).0
    ≡ err (http 429 "storage_full")
unfolding respond received in_route publish read_publish publish_body publish_new next_policy
    check_publication check_wraps verify_wraps write_publication insert_snapshot wrap_rows
    replace_wraps move_head insert_operation storage_budget budget tally project_usage dump
    relay_fields verify_snapshot check_snapshot check_context validate_sealed canonical_hash
    authenticate open_scope bearer_token verify_policy verify read_policy read_terms read_grants
    read_hash read_optional_hash read_uint read_id read_key decode_key read_base64 require_members
    parse_record parse_bytes canonical_bytes walk walk_items walk_members is_sha256_hex
publish_full = refl

respond-refused_example :
    (respond small_app primitives (publish_request scope_name master publish_payload) scope_db).1
    ≡ scope_db
respond-refused_example =
    respond-refused small_app primitives (publish_request scope_name master publish_payload)
      scope_db (http 429 "storage_full") publish_full

acknowledge-Stored_example :
    ((acknowledge app primitives scope_name master scope_name
        (object (field "receipt" first_policy_record end))
        scope_db).1
      ≡ scope_db)
    ⊎ Stored primitives scope_name scope_name scope_db
        (acknowledge app primitives scope_name master scope_name
          (object (field "receipt" first_policy_record end))
          scope_db).1
acknowledge-Stored_example =
    acknowledge-Stored app primitives scope_name master scope_name
      (object (field "receipt" first_policy_record end)) scope_db

abbrev waiting : SubmissionRow
waiting = record {
  scope_id = scope_name;
  device_id = master_name;
  grant_id = old_grant;
  request_id = old_grant;
  digest = hash;
  policy_hash = hash;
  content = 1 ∷ 2 ∷ [];
  size = 2;
  created = 5;
  receipt = none;
}

abbrev answered_before : SubmissionRow
answered_before = record waiting { receipt = some (1 ∷ []) }

abbrev waiting_first : SubmissionRow
waiting_first = record waiting { created = 3 }

first_page :
    pending_page scope_name (waiting ∷ answered_before ∷ waiting_first ∷ [])
    ≡ waiting_first ∷ waiting ∷ []
unfolding pending_page page_rows
first_page = refl

pending_page-IsPage_example :
    (queue : List SubmissionRow) × Perm queue (waiting ∷ waiting_first ∷ [])
    × IsChain RowOrder queue
    × IsPage queue (waiting_first ∷ waiting ∷ [])
unfolding pending_page page_rows
pending_page-IsPage_example =
    pending_page-IsPage scope_name (waiting ∷ answered_before ∷ waiting_first ∷ [])
