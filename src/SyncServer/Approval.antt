-- ===== src/SyncServer/Approval.antt =====
-- When `approve_invite` and `claim_invite` of sync_server.py succeed, and what they then have done.
use keys_keeper_skill.Prelude.{
  ℕ, ◌<◌, String, ◌≡◌, inl, inr, some, none, Option, ◌==◌, if◌then◌else◌, ◌≢◌, refl, ◌∙◌, List,
  arith, eq_iff, nat_eq, string_eq, option_eq, list_eq, Option-cases,
}
use keys_keeper_skill.SyncServer.DeviceTable.{find_device-update_device}
use keys_keeper_skill.SyncServer.Invitations.{find_invite-update_invite}
use keys_keeper_skill.SyncServer.Server.{submit_done}
use keys_keeper_skill.SyncServer.Outcome.{ok, done}
use keys_keeper_skill.SyncServer.Tables.{
  Device, active, pending, Invite, claimed, approved, find_device, Db, member, find_invite,
  update_device, update_invite,
}
use keys_keeper_skill.SyncServer.Access.{App, AuthenticatedDevice, require_active, require_root}
use keys_keeper_skill.SyncServer.Requests.{Payload}
use keys_keeper_skill.SyncServer.Storage.{within_budget}
use keys_keeper_skill.SyncServer.Forms.{ApprovalForm, read_approval}
use keys_keeper_skill.SyncServer.Invites.{
  check_expiry, activate, approve_row, approve_invite_row, store_approval, approve_invite,
}

-- What holds when an approval is answered with the claimant `c`.
pub record Approved (now : ℕ) (v i : String) (device : AuthenticatedDevice) (form : ApprovalForm)
    (c : String) (db db' : Db) : Type 0 where
  pub invite : Invite
  pub invite_found : find_invite i db.invites ≡ some invite
  pub in_this_vault : invite.vault_id ≡ v
  pub was_claimed : invite.status ≡ claimed
  pub by_claimant : invite.claimant_device_id ≡ some c
  pub by_creator : invite.created_by_device_id ≡ device.device_id
  pub in_time : now < invite.expires_at
  pub by_root : require_root device db ≡ done tt db
  -- the invite afterwards; every other invite is as it was
  pub invite_after : Invite
  pub invite_kept : find_invite i db'.invites ≡ some invite_after
  pub is_approved : invite_after ≡ record invite { status = approved; approved_at = some now }
  pub other_invites : (j : String) → j ≢ i → find_invite j db'.invites ≡ find_invite j db.invites
  -- the claimant's row, before and after
  pub claimant : Device
  pub claimant_found : member c v db.devices ≡ some claimant
  pub was_pending : claimant.status ≡ pending
  pub claimant_after : Device
  pub claimant_kept : member c v db'.devices ≡ some claimant_after
  pub is_active : claimant_after ≡ record claimant {
    status = active;
    approved_at = some now;
    approved_by_device_id = some device.device_id;
    membership_statement = some form.statement;
    membership_signature = some form.signature;
    wrapped_vault_key = some form.wrapped_vault_key;
  }
  pub other_devices : (d : String) → d ≢ c → find_device d db'.devices ≡ find_device d db.devices

-- a write to one row, seen at another
other_row {ℓ} :
    {A : Type ℓ} (i j : String) (f : A → A)
    → j ≢ i
    → (o : Option A) → elim o [ none ↦ none | some r ↦ some (if i == j then f r else r) ] ≡ o
other_row i j f other none = refl
other_row i j f other (some r) = ground (arith, eq_iff i j)

member-update_device :
    (d v : String) (f : Device → Device) (rows : List Device) (r : Device)
    → ((y : Device) → (f y).device_id ≡ y.device_id)
    → ((y : Device) → (f y).vault_id ≡ y.vault_id)
    → member d v rows ≡ some r
    → member d v (update_device d f rows) ≡ some (f r)
member-update_device d v f rows r same_id same_vault at = elim (Option-cases (find_device d rows)) [
  | inl missing ↦ ground arith
  | inr (y, found) ↦
      ground (arith, same_vault y, find_device-update_device d d f rows same_id, eq_iff d d)
]

module _ (app : App) (now : ℕ) (v i : String) (device : AuthenticatedDevice) (db : Db) where
  store_approval-Approved :
      (form : ApprovalForm) (c : String) (db' : Db)
      → store_approval app now v i device form db ≡ done c db'
      → Approved now v i device form c db db'
  unfolding store_approval check_expiry require_root require_active activate within_budget
  store_approval-Approved form c db' e = elim (Option-cases (find_invite i db.invites)) [
    | inl missing ↦ ground arith
    | inr (x, found) ↦ elim (Option-cases (member c v db.devices)) [
      | inl nobody ↦ ground arith
      | inr (r, at) ↦
          let invites : db'.invites ≡ update_invite i (approve_invite_row now) db.invites =
            ground arith in
          let devices : db'.devices
              ≡ update_device c (approve_row now device.device_id form) db.devices =
            ground arith in
          record {
            invite = x;
            invite_found = found;
            in_this_vault = ground (arith, eq_iff x.vault_id v);
            was_claimed = ground arith;
            by_claimant = ground arith;
            by_creator = ground (arith, eq_iff x.created_by_device_id device.device_id);
            in_time = ground arith;
            by_root = ground arith;
            invite_after = approve_invite_row now x;
            invite_kept = rw invites (
                find_invite-update_invite i i (approve_invite_row now) db.invites (λ y. refl)
                ∙ rw found (ground (arith, eq_iff i i)));
            is_approved = refl;
            other_invites = λ j other. rw invites (
                find_invite-update_invite j i (approve_invite_row now) db.invites (λ y. refl)
                ∙ other_row i j (approve_invite_row now) other (find_invite j db.invites));
            claimant = r;
            claimant_found = at;
            was_pending = ground arith;
            claimant_after = approve_row now device.device_id form r;
            claimant_kept = rw devices (
                member-update_device c v (approve_row now device.device_id form) db.devices r
                  (λ y. refl) (λ y. refl) at);
            is_active = refl;
            other_devices = λ d other. rw devices (
                find_device-update_device d c (approve_row now device.device_id form) db.devices
                  (λ y. refl)
                ∙ other_row c d (approve_row now device.device_id form) other
                    (find_device d db.devices));
          }
    ]
  ]

  -- An approval succeeds for a claimed invite of this vault that has not expired, when the active
  -- root device that created it asks and the claimant is pending. The invite is then approved, and
  -- the claimant, which is the answer, is active with the key and the membership that were sent and
  -- keeps its other fields. No other invite and no other device has changed.
  pub approve_invite-Approved :
      (payload : Payload) (c : String)
      → (approve_invite app now v i payload device db).0 ≡ ok c
      → (form : ApprovalForm) × (read_approval v i payload device ≡ ok form)
        × Approved now v i device form c db (approve_invite app now v i payload device db).1
  unfolding approve_invite
  approve_invite-Approved payload c e =
      let (form, read, run) =
        submit_done (read_approval v i payload device) (store_approval app now v i device) db c e in
      (
        form,
        read,
        store_approval-Approved form c (approve_invite app now v i payload device db).1 run,
      )
