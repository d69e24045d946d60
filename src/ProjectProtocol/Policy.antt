-- ===== src/ProjectProtocol/Policy.antt =====
-- The policy of a scope: _policy, verify_policy, _check_context and authorize_grant.
use keys_keeper_skill.Prelude.{
  ℕ, suc, String, Bool, true, false, not, ◌&&◌, ◌||◌, Option, none, some, List, [], ◌∷◌, ltb, leb,
  ◌==◌, ◌!=◌, if◌then◌else◌, nat_eq, string_eq, option_eq, list_eq, any, find,
}
use keys_keeper_skill.SyncServer.Tables.{Bytes}
use keys_keeper_skill.SyncServer.Requests.{Json, str, array, Items, nil, item, Members}
use keys_keeper_skill.ProjectProtocol.Checked.{
  Checked, valid, invalid, validation, authorization, replay, ◌>>=◌, ◌>>◌, refuse_if,
}
use keys_keeper_skill.ProjectProtocol.Json.{
  Primitives, parse_record, canonical_hash, max_record_size, max_policy_size, int_limit,
}
use keys_keeper_skill.ProjectProtocol.Records.{
  get_member, require_members, at_member, is_text, is_number, read_uint, read_hash,
  read_optional_hash, read_id, read_key, decode_key, verify,
}

pub data Role : Type 0 where
  reader contributor : Role

-- a grant whose fields `_policy` has checked; keys stay in their encoded form
pub record Grant : Type 0 where
  pub grant_id : String
  pub generation : ℕ
  pub device_id : String
  pub role : Role
  pub signing_public_key : String
  pub agreement_public_key : String
  pub token_hash : String

-- a payload that `_policy` has checked
pub record Policy : Type 0 where
  pub scope_id : String
  pub vault_id : String
  pub version : ℕ
  pub epoch : ℕ
  pub master_public_key : String
  pub inbox_public_key : String
  pub master_device_id : String
  pub master_token_hash : String
  pub grants : List Grant
  pub checkpoint_sequence : ℕ
  pub checkpoint_hash : Option String
  pub parent_policy_hash : Option String

abbrev pub max_grants : ℕ
max_grants = 512

abbrev pub read_role : Json → Checked Role
read_role j =
    if is_text "reader" (some j)
    then valid reader
    else if is_text "contributor" (some j)
    then valid contributor
    else invalid validation

abbrev pub role_beq : Role → Role → Bool
role_beq reader reader = true
role_beq reader contributor = false
role_beq contributor reader = false
role_beq contributor contributor = true

-- Python's `==` of two grants
abbrev pub grant_beq : Grant → Grant → Bool
grant_beq g h =
    g.grant_id == h.grant_id
    && g.generation == h.generation
    && g.device_id == h.device_id
    && role_beq g.role h.role
    && g.signing_public_key == h.signing_public_key
    && g.agreement_public_key == h.agreement_public_key
    && g.token_hash == h.token_hash

-- the sets of `_policy` share one value with the grant
abbrev pub clashes_with : Grant → Grant → Bool
clashes_with g h =
    g.device_id == h.device_id
    || g.grant_id == h.grant_id
    || g.signing_public_key == h.signing_public_key
    || g.agreement_public_key == h.agreement_public_key
    || g.token_hash == h.token_hash

-- the grant has something of the master's
abbrev pub is_masters : Policy → Grant → Bool
is_masters p g =
    g.device_id == p.master_device_id
    || g.token_hash == p.master_token_hash
    || g.signing_public_key == p.master_public_key
    || g.agreement_public_key == p.inbox_public_key

abbrev has_value {ℓ} : {A : Type ℓ} → Option A → Bool
has_value none = false
has_value (some a) = true

abbrev same : Bool → Bool → Bool
same true b = b
same false b = not b

-- the keyword arguments of `verify_policy`
pub record Expected : Type 0 where
  pub scope : Option String
  pub vault : Option String
  pub minimum_version : ℕ
  pub minimum_epoch : ℕ

abbrev pub anything : Expected
anything = record { scope = none; vault = none; minimum_version = 0; minimum_epoch = 0 }

abbrev pub differs : Option String → String → Bool
differs none text = false
differs (some expected) text = text != expected

abbrev pub policy_fields : List String
policy_fields =
    "scope_id" ∷ "vault_id" ∷ "version" ∷ "epoch" ∷ "master_public_key" ∷ "inbox_public_key"
    ∷ "master_device_id" ∷ "master_token_hash" ∷ "grants" ∷ "checkpoint_sequence"
    ∷ "checkpoint_hash" ∷ "parent_policy_hash" ∷ []

module _ (P : Primitives) where
  -- the fields of one grant
  unfoldable pub read_grant : Json → Checked Grant
  read_grant j = do
    ms ←
        require_members
          ("grant_id" ∷ "generation" ∷ "device_id" ∷ "role" ∷ "signing_public_key"
            ∷ "agreement_public_key" ∷ "token_hash" ∷ [])
          j
    grant_id ← at_member "grant_id" ms >>= read_id P
    device_id ← at_member "device_id" ms >>= read_id P
    generation ← at_member "generation" ms >>= read_uint 1
    token_hash ← at_member "token_hash" ms >>= read_hash
    role ← at_member "role" ms >>= read_role
    signing ← at_member "signing_public_key" ms >>= read_key P
    agreement ← at_member "agreement_public_key" ms >>= read_key P
    valid (record {
      grant_id = grant_id;
      generation = generation;
      device_id = device_id;
      role = role;
      signing_public_key = signing;
      agreement_public_key = agreement;
      token_hash = token_hash;
    })

  -- The loop over the grants: each is none of the master's, and shares nothing with one before it.
  unfoldable pub read_grants : Policy → List Grant → Items → Checked (List Grant)
  read_grants p seen nil = valid []
  read_grants p seen (item j js) = read_grant j >>= λ g.
      if is_masters p g || any (clashes_with g) seen
      then invalid validation
      else read_grants p (g ∷ seen) js >>= λ gs. valid (g ∷ gs)

  abbrev pub items_of : Json → Checked Items
  items_of j = elim j [ array js ↦ valid js | _ ↦ invalid validation ]

  abbrev pub item_count : Items → ℕ
  item_count nil = 0
  item_count (item j js) = suc (item_count js)

  -- the fields of a policy but its grants
  unfoldable pub read_terms : Members → Checked Policy
  read_terms ms = do
    scope_id ← at_member "scope_id" ms >>= read_id P
    vault_id ← at_member "vault_id" ms >>= read_id P
    master_device_id ← at_member "master_device_id" ms >>= read_id P
    version ← at_member "version" ms >>= read_uint 1
    epoch ← at_member "epoch" ms >>= read_uint 1
    checkpoint_sequence ← at_member "checkpoint_sequence" ms >>= read_uint 0
    checkpoint_hash ← at_member "checkpoint_hash" ms >>= read_optional_hash
    parent ← at_member "parent_policy_hash" ms >>= read_optional_hash
    refuse_if (same (checkpoint_sequence == 0) (has_value checkpoint_hash)) validation
    refuse_if (same (version == 1) (has_value parent)) validation
    master ← at_member "master_public_key" ms >>= read_key P
    inbox ← at_member "inbox_public_key" ms >>= read_key P
    master_token_hash ← at_member "master_token_hash" ms >>= read_hash
    valid (record {
      scope_id = scope_id;
      vault_id = vault_id;
      version = version;
      epoch = epoch;
      master_public_key = master;
      inbox_public_key = inbox;
      master_device_id = master_device_id;
      master_token_hash = master_token_hash;
      grants = [];
      checkpoint_sequence = checkpoint_sequence;
      checkpoint_hash = checkpoint_hash;
      parent_policy_hash = parent;
    })

  -- `_policy`
  unfoldable pub read_policy : Json → Checked Policy
  read_policy payload = do
    ms ← require_members policy_fields payload
    terms ← read_terms ms
    js ← at_member "grants" ms >>= items_of
    refuse_if (ltb max_grants (item_count js)) validation
    gs ← read_grants terms [] js
    valid (record terms { grants = gs })

  -- `verify_policy`; `_uint` of the two minima, which are not negative here, is their bound
  unfoldable pub verify_policy : Json → Bytes → Expected → Checked Policy
  verify_policy record_ pin expected = do
    payload ← verify P max_policy_size record_ "policy" pin
    p ← read_policy payload
    key ← decode_key P (str p.master_public_key)
    refuse_if (key != pin) authorization
    refuse_if (differs expected.scope p.scope_id || differs expected.vault p.vault_id) authorization
    refuse_if (leb int_limit expected.minimum_version || leb int_limit expected.minimum_epoch)
        validation
    refuse_if (ltb p.version expected.minimum_version || ltb p.epoch expected.minimum_epoch) replay
    valid p

  -- `_context`, as the members that a record must have
  unfoldable pub check_context : Members → Json → Policy → Checked (Unit {0})
  check_context body policy_record p = do
    copy ← parse_record P max_record_size policy_record
    policy_hash ← canonical_hash P copy
    refuse_if
        (not (
          is_text p.scope_id (get_member "scope_id" body)
          && is_text p.vault_id (get_member "vault_id" body)
          && is_number p.epoch (get_member "epoch" body)
          && is_number p.version (get_member "policy_version" body)
          && is_text policy_hash (get_member "policy_hash" body)))
        authorization

-- the operations that are delegated to a device
pub data Operation : Type 0 where
  read_operation create_operation : Operation

abbrev pub allows : Operation → Role → Bool
allows read_operation role = true
allows create_operation contributor = true
allows create_operation reader = false

abbrev pub matches : Option String → Option ℕ → Operation → Grant → Bool
matches grant_id generation operation g =
    not (differs grant_id g.grant_id)
    && elim generation [ none ↦ true | some n ↦ g.generation == n ]
    && allows operation g.role

abbrev pub grant_of : String → List Grant → Option Grant
grant_of device gs = find (λ g. g.device_id == device) gs

-- `authorize_grant` on a policy that was verified: the first grant of the device decides
unfoldable pub authorize_grant :
    Policy → String → Operation → Option String → Option ℕ → Checked Grant
authorize_grant p device operation grant_id generation = elim (grant_of device p.grants) [
  | none ↦ invalid authorization
  | some g ↦ if matches grant_id generation operation g then valid g else invalid authorization
]
