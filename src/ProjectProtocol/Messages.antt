-- ===== src/ProjectProtocol/Messages.antt =====
-- The other signed records: snapshots, wrapped keys, creates, receipts and revocations.
use keys_keeper_skill.Prelude.{
  ℕ, suc, ◌-◌, ◌*◌, String, Bool, true, false, not, ◌&&◌, ◌||◌, Option, none, some, List, [], ◌∷◌,
  ltb, leb, ◌==◌, if◌then◌else◌, nat_eq, string_eq, option_eq, list_eq,
}
use keys_keeper_skill.Prelude.{◌^◌}
use keys_keeper_skill.SyncServer.Tables.{Bytes}
use keys_keeper_skill.SyncServer.Requests.{Json, str, Members}
use keys_keeper_skill.ProjectProtocol.Checked.{
  Checked, valid, invalid, validation, authentication, authorization, replay, ◌>>=◌, ◌>>◌,
  refuse_if,
}
use keys_keeper_skill.ProjectProtocol.Json.{
  Primitives, members_of, parse_record, canonical_hash, max_record_size, max_plaintext_size,
  max_create_size,
}
use keys_keeper_skill.ProjectProtocol.Records.{
  get_member, require_members, at_member, is_text, is_number, is_optional_text, read_text,
  read_uint, read_optional_hash, read_id, decode_key, verify, validate_sealed,
}
use keys_keeper_skill.ProjectProtocol.Policy.{
  Grant, Policy, grant_beq, anything, verify_policy, check_context, read_operation,
  create_operation, authorize_grant,
}

-- what the relay reads of a snapshot that was verified
pub record Snapshot : Type 0 where
  pub sequence : ℕ
  pub parent_hash : Option String

-- of a `create` record
pub record Create : Type 0 where
  pub device_id : String
  pub grant_id : String
  pub generation : ℕ
  pub request_id : String
  pub policy_hash : String

-- of a revocation
pub record Revocation : Type 0 where
  pub device_id : String
  pub grant_id : String
  pub generation : ℕ

pub data Status : Type 0 where
  accepted published conflict rejected quarantined : Status

-- of a receipt
pub record Receipt : Type 0 where
  pub status : Status
  pub canonical_entry_id : Option String
  pub revision : ℕ

abbrev pub max_epoch_publications : ℕ
max_epoch_publications = 2 ^ 16

abbrev context_fields : List String
context_fields = "scope_id" ∷ "vault_id" ∷ "epoch" ∷ "policy_version" ∷ "policy_hash" ∷ []

-- `max(a, b)`
abbrev pub max : ℕ → ℕ → ℕ
max a b = if leb a b then b else a

abbrev has_value : Option String → Bool
has_value none = false
has_value (some text) = true

-- the comparisons of `verify_snapshot`
unfoldable pub check_snapshot : Policy → Snapshot → ℕ → Option String → Checked (Unit {0})
check_snapshot p s minimum expected_parent = do
  refuse_if (if s.sequence == 1 then has_value s.parent_hash else not (has_value s.parent_hash))
      validation
  refuse_if (leb s.sequence (max minimum p.checkpoint_sequence)) replay
  refuse_if (ltb max_epoch_publications (s.sequence - p.checkpoint_sequence)) replay
  refuse_if (has_value expected_parent && not (s.parent_hash == expected_parent)) replay
  refuse_if (s.sequence == suc p.checkpoint_sequence && not (s.parent_hash == p.checkpoint_hash))
      replay

abbrev pub read_status : Json → Checked Status
read_status j = elim j [
  | str text ↦
      if text == "accepted"
      then valid accepted
      else if text == "published"
      then valid published
      else if text == "conflict"
      then valid conflict
      else if text == "rejected"
      then valid rejected
      else if text == "quarantined"
      then valid quarantined
      else invalid validation
  | _ ↦ invalid validation
]

abbrev pub is_success : Status → Bool
is_success accepted = true
is_success published = true
is_success conflict = false
is_success rejected = false
is_success quarantined = false

unfoldable pub success_outcome : Primitives → Status → Json → ℕ → Checked Receipt
success_outcome P status entry revision = do
  id ← read_id P entry
  refuse_if (ltb revision 1) validation
  valid (record { status = status; canonical_entry_id = some id; revision = revision })

-- the entry and the revision that a receipt's status asks for
unfoldable pub read_outcome : Primitives → Status → Json → ℕ → Checked Receipt
read_outcome P status entry revision =
    if is_success status
    then success_outcome P status entry revision
    else if is_optional_text none (some entry) && revision == 0
    then valid (record { status = status; canonical_entry_id = none; revision = 0 })
    else invalid validation

abbrev pub create_fields : List String
create_fields =
    "device_id" ∷ "grant_id" ∷ "generation" ∷ "request_id" ∷ "operation" ∷ "inbox_public_key"
    ∷ "sealed" ∷ context_fields

abbrev pub receipt_fields : List String
receipt_fields =
    "device_id" ∷ "grant_id" ∷ "generation" ∷ "request_id" ∷ "submission_hash" ∷ "status"
    ∷ "canonical_entry_id" ∷ "revision" ∷ context_fields

-- `body.get(key) != value` for some of the values that `verify_receipt` expects
abbrev pub unbound : Policy → Create → String → Members → Bool
unbound p source submission_hash body = not (
    is_text p.scope_id (get_member "scope_id" body)
    && is_text p.vault_id (get_member "vault_id" body)
    && is_number p.epoch (get_member "epoch" body)
    && is_number p.version (get_member "policy_version" body)
    && is_text source.policy_hash (get_member "policy_hash" body)
    && is_text source.device_id (get_member "device_id" body)
    && is_text source.grant_id (get_member "grant_id" body)
    && is_number source.generation (get_member "generation" body)
    && is_text source.request_id (get_member "request_id" body)
    && is_text submission_hash (get_member "submission_hash" body))

module _ (P : Primitives) where
  -- `verify_snapshot`; the minimum is a number already, and the expected parent a hash
  unfoldable pub verify_snapshot : Json → Json → Bytes → ℕ → Option String → Checked Snapshot
  verify_snapshot record_ policy pin minimum expected_parent = do
    p ← verify_policy P policy pin anything
    payload ← verify P max_record_size record_ "snapshot" pin
    body ← require_members ("sequence" ∷ "parent_hash" ∷ "sealed" ∷ context_fields) payload
    check_context P body policy p
    sequence ← at_member "sequence" body >>= read_uint 1
    parent_hash ← at_member "parent_hash" body >>= read_optional_hash
    let s : Snapshot = record { sequence = sequence; parent_hash = parent_hash }
    check_snapshot p s minimum expected_parent
    sealed ← at_member "sealed" body
    validate_sealed P false max_plaintext_size sealed
    valid s

  -- `verify_scope_key_wrap` with no expected recipient; its answer is the recipient
  unfoldable pub verify_scope_key_wrap : Json → Json → Bytes → (Grant → Json) → Checked String
  verify_scope_key_wrap record_ policy pin as_json = do
    p ← verify_policy P policy pin anything
    payload ← verify P (16 * 1024) record_ "scope-key-wrap" pin
    ms ← members_of payload
    device_id ← at_member "device_id" ms >>= read_id P
    grant ← authorize_grant p device_id read_operation none none
    body ←
        require_members
          ("device_id" ∷ "grant_id" ∷ "generation" ∷ "recipient_public_key" ∷ "grant_hash"
            ∷ "sealed" ∷ context_fields)
          payload
    check_context P body policy p
    grant_hash ← canonical_hash P (as_json grant)
    refuse_if
        (not (
          is_text grant.grant_id (get_member "grant_id" body)
          && is_number grant.generation (get_member "generation" body)
          && is_text grant.agreement_public_key (get_member "recipient_public_key" body)
          && is_text grant_hash (get_member "grant_hash" body)))
        authorization
    sealed ← at_member "sealed" body
    validate_sealed P true 32 sealed
    valid device_id

  -- the check of `verify_create` against the policy that is current
  unfoldable pub check_current : Policy → Grant → Create → Option Json → Bytes → Checked (Unit {0})
  check_current p grant c none pin = valid tt
  check_current p grant c (some current_record) pin = do
    current ← verify_policy P current_record pin (record {
      scope = some p.scope_id;
      vault = some p.vault_id;
      minimum_version = p.version;
      minimum_epoch = p.epoch;
    })
    active ←
        authorize_grant current c.device_id create_operation (some c.grant_id) (some c.generation)
    refuse_if (not (grant_beq active grant) || not (current.inbox_public_key == p.inbox_public_key))
        authorization

  -- `verify_create` of the payload, once the signature with the grant's key has been checked
  unfoldable pub read_create :
      Json → Policy → Grant → String → ℕ → String → Option Json → Bytes → Members → Checked Create
  read_create policy p grant grant_id generation device_id current_policy pin body = do
    check_context P body policy p
    request_id ← at_member "request_id" body >>= read_id P
    refuse_if
        (not (
          is_text "create" (get_member "operation" body)
          && is_text p.inbox_public_key (get_member "inbox_public_key" body)))
        authorization
    policy_hash ← at_member "policy_hash" body >>= read_text
    let c : Create = record {
      device_id = device_id;
      grant_id = grant_id;
      generation = generation;
      request_id = request_id;
      policy_hash = policy_hash;
    }
    check_current p grant c current_policy pin
    sealed ← at_member "sealed" body
    validate_sealed P true max_create_size sealed
    valid c

  -- `verify_create`
  unfoldable pub verify_create : Json → Json → Bytes → Option Json → Checked Create
  verify_create record_ policy pin current_policy = do
    p ← verify_policy P policy pin anything
    obj ← parse_record P (2 * max_create_size) record_
    ms ← members_of obj
    candidate ← at_member "payload" ms >>= require_members create_fields
    grant_id ← at_member "grant_id" candidate >>= read_id P
    generation ← at_member "generation" candidate >>= read_uint 1
    device_id ← at_member "device_id" candidate >>= read_id P
    grant ← authorize_grant p device_id create_operation (some grant_id) (some generation)
    key ← decode_key P (str grant.signing_public_key)
    payload ← verify P (2 * max_create_size) obj "create" key
    body ← members_of payload
    read_create policy p grant grant_id generation device_id current_policy pin body

  -- `verify_receipt`
  unfoldable pub verify_receipt : Json → Json → Json → Bytes → Checked Receipt
  verify_receipt record_ submission policy pin = do
    p ← verify_policy P policy pin anything
    source ← verify_create submission policy pin none
    payload ← verify P (16 * 1024) record_ "receipt" pin
    body ← require_members receipt_fields payload
    copy ← parse_record P max_record_size submission
    submission_hash ← canonical_hash P copy
    refuse_if (unbound p source submission_hash body) authentication
    status ← at_member "status" body >>= read_status
    revision ← at_member "revision" body >>= read_uint 0
    entry ← at_member "canonical_entry_id" body
    read_outcome P status entry revision

  -- `verify_revocation`
  unfoldable pub verify_revocation : Json → Json → Bytes → Checked Revocation
  verify_revocation record_ policy pin = do
    p ← verify_policy P policy pin anything
    payload ← verify P (16 * 1024) record_ "revocation" pin
    body ← require_members ("device_id" ∷ "grant_id" ∷ "generation" ∷ context_fields) payload
    check_context P body policy p
    grant_id ← at_member "grant_id" body >>= read_id P
    generation ← at_member "generation" body >>= read_uint 1
    device_id ← at_member "device_id" body >>= read_id P
    grant ← authorize_grant p device_id read_operation (some grant_id) (some generation)
    valid (record { device_id = device_id; grant_id = grant_id; generation = generation })
