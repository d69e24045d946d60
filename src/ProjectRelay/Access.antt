-- ===== src/ProjectRelay/Access.antt =====
-- Who calls: _scope and _auth of project_server.py, and the checks on a request before them.
use keys_keeper_skill.Prelude.{
  ℕ, String, Bool, true, false, Option, none, some, List, [], ◌∷◌, ◌==◌, ◌!=◌, if◌then◌else◌,
  nat_eq, string_eq, option_eq, list_eq, codes, is_sha256_hex,
}
use keys_keeper_skill.SyncServer.Outcome.{
  SyncError, http, Result, ok, err, done, failed, Tx, pure, lift, gets, or_raise, ◌>>=◌, ◌>>◌,
  raise_if, and_then,
}
use keys_keeper_skill.ProjectProtocol.Checked.{
  Checked, valid, invalid, ProtocolError, validation, authentication, authorization, replay,
}
use keys_keeper_skill.SyncServer.Tables.{Bytes}
use keys_keeper_skill.SyncServer.Requests.{Json, str, Members}
use keys_keeper_skill.ProjectProtocol.Json.{
  Primitives, members_of, parse_record, parse_bytes, max_record_size,
}
use keys_keeper_skill.ProjectProtocol.Records.{get_member, require_members, decode_key}
use keys_keeper_skill.ProjectProtocol.Policy.{
  Grant, Policy, verify_policy, Operation, read_operation, create_operation, authorize_grant,
}
use keys_keeper_skill.ProjectRelay.Tables.{ScopeRow, ProjectDb, find_scope, is_blocked}
use keys_keeper_skill.SyncServer.Requests.{bearer_token}
use keys_keeper_skill.SyncServer.Access.{App}

-- `_error(422, …)`
abbrev pub invalid_record : SyncError
invalid_record = http 422 "invalid_project_record"

abbrev pub invalid_fields : SyncError
invalid_fields = http 422 "invalid_fields"

abbrev pub invalid_identifier : SyncError
invalid_identifier = http 422 "invalid_identifier"

-- how `handle` answers an exception of the protocol
abbrev pub protocol_error : ProtocolError → SyncError
protocol_error authorization = http 403 "project_authorization_failed"
protocol_error validation = invalid_record
protocol_error authentication = invalid_record
protocol_error replay = invalid_record

abbrev pub checked {ℓ} : {A : Type ℓ} → Checked A → Result A
checked (valid a) = ok a
checked (invalid e) = err (protocol_error e)

-- a check of the protocol inside a transaction
abbrev pub check : {A : Type 0} → Checked A → Tx ProjectDb A
check c db = lift (checked c) db

-- `_fields` of the relay, and `_unsigned_payload`
abbrev pub fields_result : Checked Members → Result Members
fields_result (valid ms) = ok ms
fields_result (invalid e) = err invalid_fields

abbrev pub object_result : Checked Members → Result Members
object_result (valid ms) = ok ms
object_result (invalid e) = err invalid_record

unfoldable pub relay_fields : List String → Json → Result Members
relay_fields names value = fields_result (require_members names value)

abbrev pub text_of : Option Json → Option String
text_of none = none
text_of (some j) = elim j [ str text ↦ some text | _ ↦ none ]

-- an entry that `_fields` has found
abbrev pub entry : String → Members → Result Json
entry name ms = elim (get_member name ms) [ none ↦ err invalid_fields | some j ↦ ok j ]

-- `_digest(body.get("policy_hash"))`
abbrev pub digest_text : Option String → Result String
digest_text none = err (http 422 "invalid_digest")
digest_text (some text) = if is_sha256_hex text then ok text else err (http 422 "invalid_digest")

-- the two headers that a request is authenticated by
pub record Headers : Type 0 where
  pub authorization : Option String
  pub device : Option String

-- The caller that `_auth` admits, with the scope's row and policy.
pub record Caller : Type 0 where
  pub row : ScopeRow
  pub policy_record : Json
  pub pin : Bytes
  pub policy : Policy
  pub device : String

-- what a caller wants to do; the master alone may do the last three
pub data Action : Type 0 where
  reads creates publishes receipts revokes : Action

abbrev pub delegated : Action → Option Operation
delegated reads = some read_operation
delegated creates = some create_operation
delegated publishes = none
delegated receipts = none
delegated revokes = none

-- the grant that the policy gives the device, if it gives one
abbrev pub delegate_grant : String → String → Checked Grant → Tx ProjectDb (Unit {0})
delegate_grant scope_id token_hash (invalid e) db = failed (protocol_error e)
delegate_grant scope_id token_hash (valid g) db =
    if token_hash != g.token_hash
    then failed (http 401 "unauthorized")
    else if is_blocked scope_id g.grant_id db.blocks
    then failed (http 403 "grant_revoked")
    else done tt db

-- a device that is not the master: its grant, its token, and no block
unfoldable pub check_delegate :
    String → String → String → Policy → Option Operation → Tx ProjectDb (Unit {0})
check_delegate scope_id device token_hash body none db = failed (http 403 "master_required")
check_delegate scope_id device token_hash body (some operation) db =
    delegate_grant scope_id token_hash (authorize_grant body device operation none none) db

abbrev pub check_caller :
    String → String → String → Policy → Option Operation → Bool → Tx ProjectDb (Unit {0})
check_caller scope_id device token_hash body operation true db =
    raise_if (token_hash != body.master_token_hash) (http 401 "unauthorized") db
check_caller scope_id device token_hash body operation false db =
    check_delegate scope_id device token_hash body operation db

module _ (app : App) (P : Primitives) where
  abbrev pub uuid_text : Option String → Result String
  uuid_text none = err invalid_identifier
  uuid_text (some text) = if P.uuid4 (codes text) then ok text else err invalid_identifier

  -- the object and its payload, before any signature is verified
  unfoldable pub unsigned_payload : ℕ → Json → Result (Json × Members)
  unsigned_payload maximum value = and_then (checked (parse_record P maximum value)) λ obj.
      and_then (relay_fields ("profile" ∷ "kind" ∷ "payload" ∷ "signature" ∷ []) obj) λ ms.
        and_then (entry "payload" ms)
          λ payload. and_then (object_result (members_of payload)) λ body. ok (obj, body)

  abbrev pub token_digest : String → String
  token_digest token = P.sha256_hex (app.encode token)

  -- `_scope`: the row, its policy, the pinned key, and what the policy says
  unfoldable pub open_scope : String → Tx ProjectDb (ScopeRow × Json × Bytes × Policy)
  open_scope scope_id = do
    scopes ← gets (λ db. db.scopes)
    row ← or_raise (find_scope scope_id scopes) (http 403 "scope_access_denied")
    policy ← check (parse_bytes P max_record_size row.policy)
    pin ← check (decode_key P (str row.pinned_key))
    body ← check (
        verify_policy P policy pin
          (record { scope = some scope_id; vault = none; minimum_version = 0; minimum_epoch = 0 }))
    pure (row, policy, pin, body)

  -- `_auth`
  unfoldable pub authenticate :
      String → Option String → Option String → Action → Tx ProjectDb Caller
  authenticate scope_id authorization_header device_header action = do
    token ← lift (bearer_token app.codec authorization_header)
    named ← or_raise device_header (http 401 "unauthorized")
    device ← lift (uuid_text (some named))
    opened ← open_scope scope_id
    let (row, policy, pin, body) = opened
    check_caller scope_id device (token_digest token) body (delegated action)
        (device == body.master_device_id)
    pure (record { row = row; policy_record = policy; pin = pin; policy = body; device = device })
