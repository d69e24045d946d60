-- ===== src/SyncServer/Tables.antt =====
-- The tables of sync_server.py, a list of rows each, and the statements that the handlers run.
-- An `INSERT` puts the row in front; no query depends on that order.
use keys_keeper_skill.Prelude.{
  ℕ, String, Bool, true, false, ◌&&◌, ◌||◌, Option, none, some, List, [], ◌∷◌, ◌==◌, if◌then◌else◌,
  any, string_eq, nat_eq, option_eq,
}

-- Python's `bytes`
abbrev pub Bytes : Type 0
Bytes = List ℕ

pub record Vault : Type 0 where
  pub vault_id : String
  pub head_commit_id : Option String
  pub created_at : ℕ

pub data DeviceStatus : Type 0 where
  pending active revoked : DeviceStatus

pub record Device : Type 0 where
  pub device_id : String
  pub vault_id : String
  pub sign_public_key : String
  pub wrap_public_key : String
  pub token_hash : Bytes
  pub status : DeviceStatus
  pub approved_by_device_id : Option String
  pub membership_statement : Option String
  pub membership_signature : Option String
  pub wrapped_vault_key : Option String
  pub created_at : ℕ
  pub approved_at : Option ℕ
  pub revoked_at : Option ℕ
  pub revoked_by_device_id : Option String
  pub revocation_statement : Option String
  pub revocation_signature : Option String

pub record Commit : Type 0 where
  pub vault_id : String
  pub commit_id : String
  pub sequence : ℕ
  pub parent_commit_id : Option String
  pub manifest_hash : String
  pub commit_blob : Bytes
  pub snapshot_ciphertext : Bytes
  pub author_device_id : String
  pub created_at : ℕ

pub data InviteStatus : Type 0 where
  opened claimed approved expired : InviteStatus

pub record Invite : Type 0 where
  pub invite_id : String
  pub vault_id : String
  pub secret_hash : Bytes
  pub status : InviteStatus
  pub created_by_device_id : String
  pub claimant_device_id : Option String
  pub created_at : ℕ
  pub expires_at : ℕ
  pub claimed_at : Option ℕ
  pub approved_at : Option ℕ

pub record Db : Type 0 where
  pub vaults : List Vault
  pub devices : List Device
  pub commits : List Commit
  pub invites : List Invite

abbrev pub empty : Db
empty = record { vaults = []; devices = []; commits = []; invites = [] }

abbrev pub is_active : DeviceStatus → Bool
is_active active = true
is_active _ = false

abbrev pub is_pending : DeviceStatus → Bool
is_pending pending = true
is_pending _ = false

abbrev pub is_revoked : DeviceStatus → Bool
is_revoked revoked = true
is_revoked _ = false

-- `status in ("open", "claimed")`
abbrev pub is_expirable : InviteStatus → Bool
is_expirable opened = true
is_expirable claimed = true
is_expirable _ = false

-- SELECT … FROM vaults WHERE vault_id = ?
abbrev pub find_vault : String → List Vault → Option Vault
find_vault v [] = none
find_vault v (r ∷ rows) = let rest = find_vault v rows in if r.vault_id == v then some r else rest

-- SELECT … FROM devices WHERE device_id = ?
abbrev pub find_device : String → List Device → Option Device
find_device d [] = none
find_device d (r ∷ rows) =
    let rest = find_device d rows in if r.device_id == d then some r else rest

-- SELECT … FROM devices WHERE device_id = ? AND vault_id = ?; the key makes the row unique
abbrev pub member : String → String → List Device → Option Device
member d v rows = elim (find_device d rows) [
  | none ↦ none
  | some r ↦ if r.vault_id == v then some r else none
]

-- SELECT … FROM invites WHERE invite_id = ?
abbrev pub find_invite : String → List Invite → Option Invite
find_invite i [] = none
find_invite i (r ∷ rows) =
    let rest = find_invite i rows in if r.invite_id == i then some r else rest

-- SELECT … FROM commits WHERE vault_id = ?
abbrev pub history : String → List Commit → List Commit
history v [] = []
history v (c ∷ rows) = let rest = history v rows in if c.vault_id == v then c ∷ rest else rest

-- SELECT … FROM commits WHERE vault_id = ? AND commit_id = ?, given the commits of the vault
abbrev pub find_commit : String → List Commit → Option Commit
find_commit c [] = none
find_commit c (r ∷ rows) =
    let rest = find_commit c rows in if r.commit_id == c then some r else rest

-- PRIMARY KEY (vault_id, commit_id) and UNIQUE (vault_id, sequence), given the vault's commits
abbrev pub clashes : Commit → List Commit → Bool
clashes c rows = any (λ r. r.commit_id == c.commit_id || r.sequence == c.sequence) rows

-- UPDATE vaults SET head_commit_id = ? WHERE vault_id = ? AND head_commit_id IS ?
abbrev pub set_head : String → Option String → Option String → List Vault → List Vault
set_head v old new [] = []
set_head v old new (r ∷ rows) =
    (if r.vault_id == v && r.head_commit_id == old then record r { head_commit_id = new } else r)
    ∷ set_head v old new rows

-- UPDATE devices SET … WHERE device_id = ?
abbrev pub update_device : String → (Device → Device) → List Device → List Device
update_device d f [] = []
update_device d f (r ∷ rows) = (if r.device_id == d then f r else r) ∷ update_device d f rows

-- UPDATE invites SET … WHERE invite_id = ?
abbrev pub update_invite : String → (Invite → Invite) → List Invite → List Invite
update_invite i f [] = []
update_invite i f (r ∷ rows) = (if r.invite_id == i then f r else r) ∷ update_invite i f rows
