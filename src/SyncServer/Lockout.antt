-- ===== src/SyncServer/Lockout.antt =====
-- What a device that is not active, and one that is not the root, cannot do in sync_server.py.
use keys_keeper_skill.Prelude.{
  ℕ, String, ◌≡◌, refl, sym, subst, ◌≢◌, Bool, false, Option, some, List, arith, nat_eq, string_eq,
  option_eq, list_eq,
}
use keys_keeper_skill.SyncServer.Tables.{DeviceStatus}
use keys_keeper_skill.SyncServer.Outcome.{SyncError, Result, ok, err, failed, Tx, submit}
use keys_keeper_skill.SyncServer.Tables.{Device, revoked, Db, is_active, find_device}
use keys_keeper_skill.SyncServer.Access.{
  App, AuthenticatedDevice, require_active, require_root, authenticate_device, device_inactive,
}
use keys_keeper_skill.SyncServer.Requests.{Payload}
use keys_keeper_skill.SyncServer.Forms.{
  RevocationForm, read_revocation, InviteForm, read_invite, ApprovalForm, read_approval,
}
use keys_keeper_skill.SyncServer.Prepare.{Verifier, Prepared, prepare_commit}
use keys_keeper_skill.SyncServer.Commits.{store_commit, append_commit}
use keys_keeper_skill.SyncServer.Devices.{store_revocation, revoke_device}
use keys_keeper_skill.SyncServer.Invites.{
  store_invite, create_invite, store_approval, approve_invite,
}
use keys_keeper_skill.SyncServer.Server.{Request, run}
use keys_keeper_skill.SyncServer.Members.{revoked_stays}

submit_refused :
    {F A : Type 0} (r : Result F) (body : F → Tx Db A) (db : Db) (x : SyncError)
    → ((form : F) → body form db ≡ failed x)
    → (e : SyncError) × (submit r body db ≡ (err e, db))
submit_refused (err e) body db x h = (e, refl)
submit_refused (ok form) body db x h = (x, ground (arith, h form))

require_active_fails :
    (device : AuthenticatedDevice) (db : Db) (r : Device)
    → find_device device.device_id db.devices ≡ some r
    → is_active r.status ≡ false
    → require_active device db ≡ failed device_inactive
unfolding require_active
require_active_fails device db r found idle = ground arith

abbrev pub authenticated : String → String → DeviceStatus → AuthenticatedDevice
authenticated d w s = record { device_id = d; vault_id = w; status = s }

-- The calls of a device in this database, with whatever vault and status it was authenticated.
pub record LockedOut (app : App) (verify : Verifier) (d : String) (db : Db) : Type 0 where
  pub no_login :
      (authorization vault_id : Option String) (allow_pending : Bool) (a : AuthenticatedDevice)
      → authenticate_device app (some d) authorization vault_id allow_pending db ≢ ok a
  pub no_append :
      (now : ℕ) (v : String) (payload : Payload) (w : String) (s : DeviceStatus) (read_db : Db)
      → (e : SyncError) × (append_commit app verify now v payload (authenticated d w s) read_db db
          ≡ (err e, db))
  pub no_revocation :
      (now : ℕ) (v target : String) (payload : Payload) (w : String) (s : DeviceStatus)
      → (e : SyncError) × (revoke_device app now v target payload (authenticated d w s) db
          ≡ (err e, db))
  pub no_invite :
      (now : ℕ) (i v : String) (payload : Payload) (w : String) (s : DeviceStatus)
      → (e : SyncError) × (create_invite app now i v payload (authenticated d w s) db ≡ (err e, db))
  pub no_approval :
      (now : ℕ) (v i : String) (payload : Payload) (w : String) (s : DeviceStatus)
      → (e : SyncError) × (approve_invite app now v i payload (authenticated d w s) db
          ≡ (err e, db))

module _ (app : App) (verify : Verifier) (d : String) (r : Device) (db : Db)
    (found : find_device d db.devices ≡ some r) (out : r.status ≡ revoked) where
  inactive :
      (device : AuthenticatedDevice)
      → device.device_id ≡ d
      → require_active device db ≡ failed device_inactive
  inactive device same =
      require_active_fails device db r
        (subst (λ k. find_device k db.devices ≡ some r) (sym same) found) (rw out)

  login_fails :
      (authorization vault_id : Option String) (allow_pending : Bool) (a : AuthenticatedDevice)
      → authenticate_device app (some d) authorization vault_id allow_pending db ≢ ok a
  unfolding authenticate_device
  login_fails authorization vault_id allow_pending a h = ground arith

  append_fails :
      (now : ℕ) (v : String) (device : AuthenticatedDevice) (p : Prepared)
      → device.device_id ≡ d
      → store_commit app now v device p db ≡ failed device_inactive
  unfolding store_commit
  append_fails now v device p same = ground (arith, inactive device same)

  revocation_fails :
      (now : ℕ) (v target : String) (device : AuthenticatedDevice) (form : RevocationForm)
      → device.device_id ≡ d
      → store_revocation app now v target device form db ≡ failed device_inactive
  unfolding store_revocation require_root
  revocation_fails now v target device form same = ground (arith, inactive device same)

  invite_fails :
      (now : ℕ) (i v : String) (device : AuthenticatedDevice) (form : InviteForm)
      → device.device_id ≡ d
      → store_invite app now i v device form db ≡ failed device_inactive
  unfolding store_invite require_root
  invite_fails now i v device form same = ground (arith, inactive device same)

  approval_fails :
      (now : ℕ) (v i : String) (device : AuthenticatedDevice) (form : ApprovalForm)
      → device.device_id ≡ d
      → store_approval app now v i device form db ≡ failed device_inactive
  unfolding store_approval require_root
  approval_fails now v i device form same = ground (arith, inactive device same)

  revoked-LockedOut : LockedOut app verify d db
  unfolding append_commit revoke_device create_invite approve_invite
  revoked-LockedOut = record {
    no_login = login_fails;
    no_append = λ now v payload w s read_db.
        submit_refused (prepare_commit app verify v payload (authenticated d w s) read_db)
          (store_commit app now v (authenticated d w s)) db device_inactive
          (λ p. append_fails now v (authenticated d w s) p refl);
    no_revocation = λ now v target payload w s.
        submit_refused (read_revocation v target payload (authenticated d w s))
          (store_revocation app now v target (authenticated d w s)) db device_inactive
          (λ form. revocation_fails now v target (authenticated d w s) form refl);
    no_invite = λ now i v payload w s.
        submit_refused (read_invite app v payload (authenticated d w s))
          (store_invite app now i v (authenticated d w s)) db device_inactive
          (λ form. invite_fails now i v (authenticated d w s) form refl);
    no_approval = λ now v i payload w s.
        submit_refused (read_approval v i payload (authenticated d w s))
          (store_approval app now v i (authenticated d w s)) db device_inactive
          (λ form. approval_fails now v i (authenticated d w s) form refl);
  }

-- Once a device is revoked, whatever is requested afterwards: it cannot log in, and its appends,
-- revocations, invites and approvals are refused and change nothing, even those that were
-- authenticated or prepared before the revocation.
pub run-LockedOut :
    (app : App) (verify : Verifier) (qs : List Request) (d : String) (r : Device) (db : Db)
    → find_device d db.devices ≡ some r
    → r.status ≡ revoked
    → LockedOut app verify d (run app verify qs db)
run-LockedOut app verify qs d r db found out =
    revoked-LockedOut app verify d r (run app verify qs db)
      (revoked_stays app verify qs d r db found out) out
