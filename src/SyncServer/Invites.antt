-- ===== src/SyncServer/Invites.antt =====
-- Invitations of sync_server.py: an invite is created by the root device, claimed once by a new device,
-- and approved by the root device, unless it expires first.
use keys_keeper_skill.Prelude.{
  ℕ, ◌+◌, String, Bool, true, false, not, ◌&&◌, Option, none, some, List, ◌∷◌, leb, ◌==◌,
  if◌then◌else◌, nat_eq, string_eq, option_eq, list_eq,
}
use keys_keeper_skill.SyncServer.Outcome.{
  SyncError, http, integrity, Result, done, failed, failed_after, Tx, pure, raise, lift, gets,
  or_raise, transaction, submit, ◌>>=◌, ◌>>◌, raise_if, modify,
}
use keys_keeper_skill.SyncServer.Tables.{
  Device, DeviceStatus, pending, active, Invite, InviteStatus, opened, claimed, approved, expired,
  Db, is_pending, is_expirable, find_device, member, find_invite, update_device, update_invite,
}
use keys_keeper_skill.SyncServer.Requests.{Payload, opaque_id}
use keys_keeper_skill.SyncServer.Storage.{within_budget}
use keys_keeper_skill.SyncServer.Access.{
  App, AuthenticatedDevice, require_vault, require_root, wrong_vault,
}
use keys_keeper_skill.SyncServer.Forms.{
  InviteForm, read_invite, ClaimForm, read_claim, ApprovalForm, read_approval,
}
use keys_keeper_skill.SyncServer.Prepare.{not_found}
use keys_keeper_skill.SyncServer.Commits.{insert_device}

abbrev pub invite_expired : SyncError
invite_expired = http 410 "invite_expired"

abbrev pub invite_used : SyncError
invite_used = http 409 "invite_used"

unfoldable pub insert_invite : Invite → Tx Db (Unit {0})
insert_invite r db = elim (find_invite r.invite_id db.invites) [
  | some _ ↦ failed integrity
  | none ↦ done tt (record db { invites = r ∷ db.invites })
]

abbrev pub open_invite : ℕ → String → String → String → InviteForm → Invite
open_invite now invite_id vault_id creator form = record {
  invite_id = invite_id;
  vault_id = vault_id;
  secret_hash = form.secret_hash;
  status = opened;
  created_by_device_id = creator;
  claimant_device_id = none;
  created_at = now;
  expires_at = now + form.ttl;
  claimed_at = none;
  approved_at = none;
}

-- The transaction of `create_invite`; `invite_id` is the `_new_id("inv")`, and the answer `expires_at`.
unfoldable pub store_invite : App → ℕ → String → String → AuthenticatedDevice → InviteForm → Tx Db ℕ
store_invite app now invite_id vault_id device form = do
  require_root device
  insert_invite (open_invite now invite_id vault_id device.device_id form)
  within_budget app.limits vault_id false
  pure (now + form.ttl)

-- `create_invite`
unfoldable pub create_invite :
    App → ℕ → String → String → Payload → AuthenticatedDevice → Db → Result ℕ × Db
create_invite app now invite_id vault_id payload device =
    submit (read_invite app vault_id payload device)
      (store_invite app now invite_id vault_id device)

abbrev pub expire_row : Invite → Invite
expire_row r = record r { status = expired }

-- by whether the time has come, and whether the invite still waits for it
abbrev pub expire : Bool → Bool → Invite → Tx Db (Unit {0})
expire false _ invite db = done tt db
expire true true invite db =
    failed_after invite_expired
      (record db { invites = update_invite invite.invite_id expire_row db.invites })
expire true false invite db = failed invite_expired

-- `if int(invite["expires_at"]) <= now: …`: the mark is committed, and then the error is raised
unfoldable pub check_expiry : ℕ → Invite → Tx Db (Unit {0})
check_expiry now invite = expire (leb invite.expires_at now) (is_expirable invite.status) invite

abbrev pub pending_device : ℕ → String → ClaimForm → Device
pending_device now vault_id form = record {
  device_id = form.device_id;
  vault_id = vault_id;
  sign_public_key = form.sign_public_key;
  wrap_public_key = form.wrap_public_key;
  token_hash = form.token_hash;
  status = pending;
  approved_by_device_id = none;
  membership_statement = none;
  membership_signature = none;
  wrapped_vault_key = none;
  created_at = now;
  approved_at = none;
  revoked_at = none;
  revoked_by_device_id = none;
  revocation_statement = none;
  revocation_signature = none;
}

abbrev pub claim_row : ℕ → String → Invite → Invite
claim_row now device_id r = record r {
  status = claimed;
  claimant_device_id = some device_id;
  claimed_at = some now;
}

-- the claimant as it registered, against a repeated claim
abbrev pub same_claimant : Invite → Device → Option Device → Bool
same_claimant invite claimant none = false
same_claimant invite claimant (some existing) =
    (invite.claimant_device_id == some claimant.device_id)
    && (existing.vault_id == invite.vault_id)
    && (existing.sign_public_key == claimant.sign_public_key)
    && (existing.wrap_public_key == claimant.wrap_public_key)
    && (existing.token_hash == claimant.token_hash)

-- `WHERE device_id = NULL` finds nothing
abbrev pub find_claimant : Option String → List Device → Option Device
find_claimant none rows = none
find_claimant (some d) rows = find_device d rows

-- a claim that finds the invite claimed or approved: the same device may ask again
unfoldable pub repeat_claim : Invite → Device → Tx Db DeviceStatus
repeat_claim invite claimant db =
    let existing = find_claimant invite.claimant_device_id db.devices in
    if same_claimant invite claimant existing
    then elim existing [ none ↦ failed invite_used | some r ↦ done r.status db ]
    else failed invite_used

unfoldable pub first_claim : App → ℕ → Invite → Device → Tx Db DeviceStatus
first_claim app now invite claimant = do
  insert_device (http 409 "device_conflict") claimant
  modify λ db. record db {
    invites = update_invite invite.invite_id (claim_row now claimant.device_id) db.invites;
  }
  within_budget app.limits invite.vault_id false
  pure pending

abbrev pub claim_by_status : App → ℕ → Invite → Device → InviteStatus → Tx Db DeviceStatus
claim_by_status app now invite claimant opened = first_claim app now invite claimant
claim_by_status app now invite claimant claimed = repeat_claim invite claimant
claim_by_status app now invite claimant approved = repeat_claim invite claimant
claim_by_status app now invite claimant expired = raise invite_used

-- The transaction of `claim_invite`. The claimant's row gets the vault of the invite.
unfoldable pub store_claim : App → ℕ → String → ClaimForm → Tx Db (DeviceStatus × Invite)
store_claim app now invite_id form = do
  invites ← gets (λ db. db.invites)
  invite ← or_raise (find_invite invite_id invites) not_found
  check_expiry now invite
  raise_if (not (invite.secret_hash == form.secret_hash)) (http 401 "invalid_invite_secret")
  status ← claim_by_status app now invite (pending_device now invite.vault_id form) invite.status
  pure (status, invite)

-- `claim_invite`
unfoldable pub claim_invite : App → ℕ → String → Payload → Db → Result (DeviceStatus × Invite) × Db
claim_invite app now invite_id payload =
    submit (read_claim app invite_id payload) (store_claim app now invite_id)

abbrev pub approve_row : ℕ → String → ApprovalForm → Device → Device
approve_row now by form r = record r {
  status = active;
  approved_at = some now;
  approved_by_device_id = some by;
  membership_statement = some form.statement;
  membership_signature = some form.signature;
  wrapped_vault_key = some form.wrapped_vault_key;
}

-- `UPDATE devices … WHERE device_id = ? AND vault_id = ? AND status = 'pending'`, with `rowcount`
unfoldable pub activate : String → String → (Device → Device) → Tx Db (Unit {0})
activate device_id vault_id f db = elim (member device_id vault_id db.devices) [
  | none ↦ failed invite_used
  | some r ↦
      if is_pending r.status
      then done tt (record db { devices = update_device device_id f db.devices })
      else failed invite_used
]

abbrev pub is_claimed : InviteStatus → Bool
is_claimed claimed = true
is_claimed _ = false

abbrev pub approve_invite_row : ℕ → Invite → Invite
approve_invite_row now r = record r { status = approved; approved_at = some now }

abbrev pub in_vault : String → Option Invite → Option Invite
in_vault v none = none
in_vault v (some r) = if r.vault_id == v then some r else none

-- The transaction of `approve_invite`; its answer is the device that was approved.
unfoldable pub store_approval :
    App → ℕ → String → String → AuthenticatedDevice → ApprovalForm → Tx Db String
store_approval app now vault_id invite_id device form = do
  require_root device
  invites ← gets (λ db. db.invites)
  invite ← or_raise (in_vault vault_id (find_invite invite_id invites)) not_found
  check_expiry now invite
  raise_if (not (is_claimed invite.status)) (http 409 "invite_not_claimed")
  claimant ← or_raise invite.claimant_device_id (http 409 "invite_not_claimed")
  raise_if (not (invite.created_by_device_id == device.device_id)) (http 403 "wrong_approver")
  activate claimant vault_id (approve_row now device.device_id form)
  modify λ db. record db { invites = update_invite invite_id (approve_invite_row now) db.invites }
  within_budget app.limits vault_id false
  pure claimant

-- `approve_invite`
unfoldable pub approve_invite :
    App → ℕ → String → String → Payload → AuthenticatedDevice → Db → Result String × Db
approve_invite app now vault_id invite_id payload device =
    submit (read_approval vault_id invite_id payload device)
      (store_approval app now vault_id invite_id device)

-- the lazy expiry of `inspect_invite` and `invite_status`, by its test
abbrev pub refresh_if : Bool → Invite → Tx Db Invite
refresh_if true invite db =
    done (expire_row invite)
      (record db { invites = update_invite invite.invite_id expire_row db.invites })
refresh_if false invite db = done invite db

unfoldable pub refresh : ℕ → Invite → Tx Db Invite
refresh now invite = refresh_if (leb invite.expires_at now && is_expirable invite.status) invite

-- `inspect_invite`: the invite and its claimant
unfoldable pub inspect_invite :
    ℕ → String → String → AuthenticatedDevice → Db → Result (Invite × Option Device) × Db
inspect_invite now vault_id invite_id device = transaction do
  lift (require_vault device vault_id)
  lift (opaque_id invite_id)
  invites ← gets (λ db. db.invites)
  found ← or_raise (in_vault vault_id (find_invite invite_id invites)) not_found
  invite ← refresh now found
  claimant ← gets (λ db. find_claimant invite.claimant_device_id db.devices)
  pure (invite, claimant)

-- what an approved claimant is handed
pub record Membership : Type 0 where
  pub wrapped_vault_key : String
  pub membership_statement : Option String
  pub membership_signature : Option String

abbrev pub delivered : Option Device → Option Membership
delivered none = none
delivered (some r) = elim r.wrapped_vault_key [
  | none ↦ none
  | some wrapped ↦ some (record {
    wrapped_vault_key = wrapped;
    membership_statement = r.membership_statement;
    membership_signature = r.membership_signature;
  })
]

-- `invite_status`: the invite, and the vault key if it is the claimant that asks
unfoldable pub invite_status :
    ℕ → String → AuthenticatedDevice → Db → Result (Invite × Option Membership) × Db
invite_status now invite_id device = transaction do
  lift (opaque_id invite_id)
  invites ← gets (λ db. db.invites)
  found ← or_raise (find_invite invite_id invites) not_found
  raise_if (not (found.vault_id == device.vault_id)) wrong_vault
  raise_if (is_pending device.status && not (found.claimant_device_id == some device.device_id))
      (http 403 "forbidden")
  invite ← refresh now found
  own ← gets (λ db.
      if invite.claimant_device_id == some device.device_id
      then find_device device.device_id db.devices
      else none)
  pure (invite, delivered own)
