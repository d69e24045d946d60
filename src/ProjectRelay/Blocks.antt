-- ===== src/ProjectRelay/Blocks.antt =====
-- `block` of project_server.py: the master revokes a grant at once, before the next epoch.
use keys_keeper_skill.Prelude.{
  ℕ, ◌*◌, String, Bool, true, not, Option, none, some, [], ◌∷◌, ◌==◌, if◌then◌else◌, nat_eq,
  string_eq, option_eq, list_eq,
}
use keys_keeper_skill.SyncServer.Outcome.{
  http, Result, Tx, pure, lift, gets, or_raise, submit, ◌>>=◌, ◌>>◌, raise_if, and_then,
}
use keys_keeper_skill.SyncServer.Tables.{Bytes}
use keys_keeper_skill.SyncServer.Requests.{Json, str, object, end, field}
use keys_keeper_skill.ProjectProtocol.Json.{Primitives, parse_bytes, max_record_size}
use keys_keeper_skill.ProjectProtocol.Records.{get_member}
use keys_keeper_skill.ProjectProtocol.Policy.{read_operation, authorize_grant}
use keys_keeper_skill.ProjectProtocol.Messages.{Revocation, verify_revocation}
use keys_keeper_skill.ProjectRelay.Tables.{BlockRow, ProjectDb, find_policy, find_block, is_blocked}
use keys_keeper_skill.ProjectRelay.Access.{
  Headers, Caller, revokes, check, relay_fields, entry, text_of, digest_text, unsigned_payload,
  authenticate,
}
use keys_keeper_skill.SyncServer.Access.{App}
use keys_keeper_skill.ProjectRelay.Storage.{storage_budget}
use keys_keeper_skill.ProjectRelay.Scopes.{insert_unless, holds, dump}

unfoldable pub insert_block : BlockRow → Tx ProjectDb (Unit {0})
insert_block row db =
    insert_unless (is_blocked row.scope_id row.grant_id db.blocks)
      (λ d. record d { blocks = row ∷ d.blocks }) db

abbrev blocked_answer : Bool → ℕ × Json
blocked_answer still_current = (
  200,
  object (
      field "status" (str "blocked")
        (field "rekey" (str (if still_current then "pending" else "complete")) end)),
)

module _ (app : App) (P : Primitives) where
  unfoldable pub read_block : Json → Result Json
  read_block payload =
      and_then (relay_fields ("revocation" ∷ []) payload) λ ms. entry "revocation" ms

  -- the revocation, under the policy it names
  unfoldable pub verify_block : String → Caller → Json → Tx ProjectDb (Json × Revocation)
  verify_block scope_id c given = do
    opened ← lift (unsigned_payload app P (16 * 1024) given)
    named ← lift (digest_text (text_of (get_member "policy_hash" opened.1)))
    policies ← gets (λ db. db.policies)
    old ← or_raise (find_policy scope_id named policies) (http 422 "unknown_policy")
    policy ← check (parse_bytes P max_record_size old.content)
    body ← check (verify_revocation P opened.0 policy c.pin)
    pure (opened.0, body)

  -- the grant is blocked already, or it must be one of the current policy
  unfoldable pub block_unless :
      String → Caller → Revocation → Bytes → Option BlockRow → Tx ProjectDb (Unit {0})
  block_unless scope_id c body encoded (some prior) =
      raise_if (not (prior.content == encoded)) (http 409 "revocation_conflict")
  block_unless scope_id c body encoded none =
      check (
        authorize_grant c.policy body.device_id read_operation (some body.grant_id)
          (some body.generation))
      >>= λ active.
          insert_block (record { scope_id = scope_id; grant_id = body.grant_id; content = encoded })

  unfoldable pub block_body : String → Headers → Json → Tx ProjectDb (ℕ × Json)
  block_body scope_id h given = do
    c ← authenticate app P scope_id h.authorization h.device revokes
    verified ← verify_block scope_id c given
    let (signed, body) = verified
    encoded ← dump P signed
    blocks ← gets (λ db. db.blocks)
    block_unless scope_id c body encoded (find_block scope_id body.grant_id blocks)
    storage_budget app.limits scope_id true
    pure (blocked_answer (holds body.grant_id c.policy.grants))

  -- `block`
  unfoldable pub block : String → Headers → Json → ProjectDb → Result (ℕ × Json) × ProjectDb
  block scope_id h payload db = submit (read_block payload) (block_body scope_id h) db
