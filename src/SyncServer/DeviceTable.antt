-- ===== src/SyncServer/DeviceTable.antt =====
-- What each transaction of sync_server.py does to one row of the table of devices.
use keys_keeper_skill.Prelude.{
  ℕ, String, ◌≡◌, refl, ◌∙◌, subst, ◌≢◌, inl, inr, true, false, Option, none, some, List, [], ◌∷◌,
  arith, eq_iff, ◌==◌, if◌then◌else◌, nat_eq, string_eq, option_eq, list_eq, Bool-cases,
}
use keys_keeper_skill.SyncServer.Outcome.{
  SyncError, Outcome, done, failed, failed_after, transaction,
}
use keys_keeper_skill.SyncServer.Tables.{
  Device, DeviceStatus, pending, Db, is_pending, is_revoked, find_device, update_device,
}
use keys_keeper_skill.SyncServer.Access.{App, AuthenticatedDevice, require_active, require_root}
use keys_keeper_skill.SyncServer.Storage.{within_budget}
use keys_keeper_skill.SyncServer.Forms.{
  VaultForm, RevocationForm, InviteForm, ClaimForm, ApprovalForm,
}
use keys_keeper_skill.SyncServer.Commits.{insert_vault, insert_device, store_vault}
use keys_keeper_skill.SyncServer.Devices.{revoke_row, is_none, store_revocation}
use keys_keeper_skill.SyncServer.Invites.{
  insert_invite, store_invite, check_expiry, repeat_claim, first_claim, store_claim, approve_row,
  activate, store_approval,
}

-- the row of a device before and after a request
pub data Evolves (r r' : Device) : Type 0 where
  unchanged : r' ≡ r → Evolves r r'
  approved_now :
      (now : ℕ) (by : String) (form : ApprovalForm)
      → r.status ≡ pending
      → r' ≡ approve_row now by form r
      → Evolves r r'
  revoked_now :
      (now : ℕ) (by : String) (form : RevocationForm)
      → is_none r.approved_by_device_id ≡ false
      → is_revoked r.status ≡ false
      → r' ≡ revoke_row now by form r
      → Evolves r r'

-- the row is still there, and has evolved
pub record Follows (r : Device) (d : String) (rows : List Device) : Type 0 where
  pub row : Device
  pub found : find_device d rows ≡ some row
  pub evolves : Evolves r row

pub find_device-update_device :
    (d e : String) (f : Device → Device) (rows : List Device)
    → ((r : Device) → (f r).device_id ≡ r.device_id)
    → find_device d (update_device e f rows)
      ≡ elim (find_device d rows) [ none ↦ none | some r ↦ some (if e == d then f r else r) ]
find_device-update_device d e f [] h = refl
find_device-update_device d e f (r ∷ rows) h = ground (
  arith,
  h r,
  eq_iff r.device_id d,
  eq_iff r.device_id e,
  eq_iff e d,
  find_device-update_device d e f rows h,
)

module _ (d : String) (r : Device) (db : Db) (found : find_device d db.devices ≡ some r) where
  pub Follows-same : (rows : List Device) → rows ≡ db.devices → Follows r d rows
  Follows-same rows e = record { row = r; found = rw e found; evolves = unchanged refl }

  pub store_vault-Follows :
      (app : App) (now : ℕ) (vault_id device_id : String) (form : VaultForm)
      → find_device d (transaction (store_vault app now vault_id device_id form) db).1.devices
        ≡ some r
  unfolding store_vault insert_vault insert_device within_budget
  store_vault-Follows app now vault_id device_id form = ground (arith, eq_iff device_id d)

  pub store_claim-Follows :
      (app : App) (now : ℕ) (invite_id : String) (form : ClaimForm)
      → find_device d (transaction (store_claim app now invite_id form) db).1.devices ≡ some r
  unfolding store_claim first_claim repeat_claim check_expiry insert_device within_budget
  store_claim-Follows app now invite_id form = ground (arith, eq_iff form.device_id d)

  pub store_invite-devices :
      (app : App) (now : ℕ) (invite_id vault_id : String) (device : AuthenticatedDevice)
      (form : InviteForm)
      → (transaction (store_invite app now invite_id vault_id device form) db).1.devices
        ≡ db.devices
  unfolding store_invite require_root require_active insert_invite within_budget
  store_invite-devices app now invite_id vault_id device form = ground arith

  -- a revocation, and an approval, that go through
  module _ (app : App) (now : ℕ) (vault_id target : String) (device : AuthenticatedDevice) where
    revoked_row :
        (form : RevocationForm) (u : Unit {0}) (db' : Db)
        → store_revocation app now vault_id target device form db ≡ done u db'
        → (x : Device) × (find_device target db.devices ≡ some x)
          × (is_none x.approved_by_device_id ≡ false)
          × (is_revoked x.status ≡ false)
          × (db'.devices ≡ update_device target (revoke_row now device.device_id form) db.devices)
    unfolding store_revocation require_root require_active within_budget
    revoked_row form u db' e = ground arith

    store_revocation-no_commit :
        (form : RevocationForm) (x : SyncError) (db' : Db)
        → store_revocation app now vault_id target device form db ≢ failed_after x db'
    unfolding store_revocation require_root require_active within_budget
    store_revocation-no_commit form x db' e = ground arith

    activated :
        (form : ApprovalForm) (claimant : String) (db' : Db)
        → store_approval app now vault_id target device form db ≡ done claimant db'
        → (db₁ : Db) × (activate claimant vault_id (approve_row now device.device_id form) db
            ≡ done tt db₁)
          × (db'.devices ≡ db₁.devices)
    unfolding store_approval require_root require_active check_expiry within_budget
    activated form claimant db' e = (
      (transaction (activate claimant vault_id (approve_row now device.device_id form)) db).1,
      ground arith,
      ground arith,
    )

    activate_row :
        (claimant : String) (f : Device → Device) (db₁ : Db)
        → activate claimant vault_id f db ≡ done tt db₁
        → (x : Device) × (find_device claimant db.devices ≡ some x)
          × (is_pending x.status ≡ true)
          × (db₁.devices ≡ update_device claimant f db.devices)
    unfolding activate
    activate_row claimant f db₁ e = ground arith

    approved_row :
        (form : ApprovalForm) (claimant : String) (db' : Db)
        → store_approval app now vault_id target device form db ≡ done claimant db'
        → (x : Device) × (find_device claimant db.devices ≡ some x)
          × (is_pending x.status ≡ true)
          × (db'.devices
              ≡ update_device claimant (approve_row now device.device_id form) db.devices)
    approved_row form claimant db' e =
        let (db₁, run, same) = activated form claimant db' e in
        let (x, at, waiting, rows) =
          activate_row claimant (approve_row now device.device_id form) db₁ run in
        (x, at, waiting, same ∙ rows)

    expired_only :
        (form : ApprovalForm) (x : SyncError) (db' : Db)
        → store_approval app now vault_id target device form db ≡ failed_after x db'
        → db'.devices ≡ db.devices
    unfolding store_approval require_root require_active check_expiry activate within_budget
    expired_only form x db' e = ground arith

pending_status : (s : DeviceStatus) → is_pending s ≡ true → s ≡ pending
pending_status s e = ground arith

-- An update of one row, seen at any row.
update-Follows :
    (d e : String) (f : Device → Device) (rows : List Device) (r x : Device)
    → ((y : Device) → (f y).device_id ≡ y.device_id)
    → find_device d rows ≡ some r
    → find_device e rows ≡ some x
    → Evolves x (f x)
    → Follows r d (update_device e f rows)
update-Follows d e f rows r x keeps found target evolves = elim (Bool-cases (e == d)) [
  | inl same ↦ record {
    row = f r;
    found = at same (some (f r)) (rw same);
    evolves = subst (λ y. Evolves y (f y)) (one same) evolves;
  }
  | inr other ↦ record { row = r; found = here ∙ rw other; evolves = unchanged refl }
]
  where
    here : find_device d (update_device e f rows) ≡ some (if e == d then f r else r)
    here = find_device-update_device d e f rows keeps ∙ rw found

    at :
        (e == d) ≡ true
        → (o : Option Device) → some (if e == d then f r else r) ≡ o
        → find_device d (update_device e f rows) ≡ o
    at same o q = here ∙ q

    one : (e == d) ≡ true → x ≡ r
    one same = ground (arith, eq_iff e d)

module _ (app : App) (now : ℕ) (vault_id target : String) (device : AuthenticatedDevice)
    (d : String) (r : Device) (db : Db) (found : find_device d db.devices ≡ some r) where
  pub store_revocation-Follows :
      (form : RevocationForm)
      → Follows r d
          (transaction (store_revocation app now vault_id target device form) db).1.devices
  store_revocation-Follows form = go (store_revocation app now vault_id target device form db) refl
    where
      go :
          (o : Outcome Db (Unit {0}))
          → store_revocation app now vault_id target device form db ≡ o
          → Follows r d (transaction (λ (s : Db). o) db).1.devices
      go (failed x) e = Follows-same d r db found db.devices refl
      go (failed_after x db') e =
          absurd
            (store_revocation-no_commit d r db found app now vault_id target device form x db' e)
      go (done u db') e =
          let (x, at, kept, live, rows) =
            revoked_row d r db found app now vault_id target device form u db' e in
          rw rows (
            update-Follows d target (revoke_row now device.device_id form) db.devices r x
              (λ y. refl) found at (revoked_now now device.device_id form kept live refl))

  pub store_approval-Follows :
      (form : ApprovalForm)
      → Follows r d (transaction (store_approval app now vault_id target device form) db).1.devices
  store_approval-Follows form = go (store_approval app now vault_id target device form db) refl
    where
      go :
          (o : Outcome Db String)
          → store_approval app now vault_id target device form db ≡ o
          → Follows r d (transaction (λ (s : Db). o) db).1.devices
      go (failed x) e = Follows-same d r db found db.devices refl
      go (failed_after x db') e =
          Follows-same d r db found db'.devices
            (expired_only d r db found app now vault_id target device form x db' e)
      go (done claimant db') e =
          let (x, at, waiting, rows) =
            approved_row d r db found app now vault_id target device form claimant db' e in
          rw rows (
            update-Follows d claimant (approve_row now device.device_id form) db.devices r x
              (λ y. refl) found at
              (approved_now now device.device_id form (pending_status x.status waiting) refl))
