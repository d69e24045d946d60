-- ===== src/SyncServer/Budgets.antt =====
-- What a write of sync_server.py leaves in store: no more than the budgets of relay_storage.py allow.
use keys_keeper_skill.Prelude.{
  ℕ, ◌+◌, ◌≤◌, String, ◌≡◌, refl, Bool, true, false, none, some, arith, nat_eq, string_eq,
  option_eq, list_eq,
}
use keys_keeper_skill.SyncServer.Outcome.{Result, ok, err, done}
use keys_keeper_skill.SyncServer.Tables.{Db}
use keys_keeper_skill.SyncServer.Access.{App, AuthenticatedDevice}
use keys_keeper_skill.SyncServer.Requests.{Payload}
use keys_keeper_skill.SyncServer.Storage.{within_budget}
use keys_keeper_skill.SyncServer.Forms.{
  RevocationForm, read_revocation, InviteForm, read_invite, ApprovalForm, read_approval,
}
use keys_keeper_skill.SyncServer.Prepare.{Verifier, Prepared, prepare_commit}
use keys_keeper_skill.SyncServer.Commits.{store_commit, append_commit}
use keys_keeper_skill.SyncServer.Devices.{store_revocation, revoke_device}
use keys_keeper_skill.SyncServer.Invites.{
  store_invite, create_invite, store_approval, approve_invite,
}
use keys_keeper_skill.RelayStorage.{Limits, Usage, budget, allowance}
use keys_keeper_skill.SyncServer.Storage.{usage}
use keys_keeper_skill.SyncServer.Server.{submit_done}

-- a usage below a limit of bytes and a limit of records
abbrev pub AtMost : Usage → ℕ → ℕ → Type 0
AtMost u byte_limit record_limit = (u.bytes ≤ byte_limit) × (u.records ≤ record_limit)

-- both budgets, with the reserve that a control operation may use
abbrev pub IsWithin : Limits → Bool → String → Db → Type 0
IsWithin l control v db =
    AtMost (usage (some v) db) (l.scope_bytes + allowance control l.control_scope_bytes)
      (l.scope_records + allowance control l.control_scope_records)
    × AtMost (usage none db) (l.relay_bytes + allowance control l.control_relay_bytes)
        (l.relay_records + allowance control l.control_relay_records)

module _ (app : App) (v : String) where
  store_commit-IsWithin :
      (now : ℕ) (device : AuthenticatedDevice) (p : Prepared) (db : Db) (a : String × ℕ) (db' : Db)
      → store_commit app now v device p db ≡ done a db'
      → IsWithin app.limits false v db'
  unfolding store_commit within_budget budget
  store_commit-IsWithin now device p db a db' e = ground arith

  store_invite-IsWithin :
      (now : ℕ) (i : String) (device : AuthenticatedDevice) (form : InviteForm) (db : Db) (a : ℕ)
      (db' : Db)
      → store_invite app now i v device form db ≡ done a db'
      → IsWithin app.limits false v db'
  unfolding store_invite within_budget budget
  store_invite-IsWithin now i device form db a db' e = ground arith

  store_approval-IsWithin :
      (now : ℕ) (i : String) (device : AuthenticatedDevice) (form : ApprovalForm) (db : Db)
      (a : String) (db' : Db)
      → store_approval app now v i device form db ≡ done a db'
      → IsWithin app.limits false v db'
  unfolding store_approval within_budget budget
  store_approval-IsWithin now i device form db a db' e = ground arith

  store_revocation-IsWithin :
      (now : ℕ) (d : String) (device : AuthenticatedDevice) (form : RevocationForm) (db db' : Db)
      → store_revocation app now v d device form db ≡ done tt db'
      → IsWithin app.limits true v db'
  unfolding store_revocation within_budget budget
  store_revocation-IsWithin now d device form db db' e = ground arith

-- the writes of a vault by one of its devices, with what each brings
pub data Write : Type 0 where
  append_write : Payload → Db → Write
  invite_write : String → Payload → Write
  approve_write : String → Payload → Write
  revoke_write : String → Payload → Write

-- a revocation may use the control reserve
abbrev pub is_control : Write → Bool
is_control (revoke_write d payload) = true
is_control (append_write payload read_db) = false
is_control (invite_write i payload) = false
is_control (approve_write i payload) = false

abbrev pub is_ok {ℓ} : {A : Type ℓ} → Result A → Bool
is_ok (ok a) = true
is_ok (err e) = false

-- whether a write is answered without an error, and what it leaves
abbrev pub serve : App → Verifier → String → ℕ → AuthenticatedDevice → Write → Db → Bool × Db
serve app verify v now device (append_write payload read_db) db =
    let served = append_commit app verify now v payload device read_db db in
    (is_ok served.0, served.1)
serve app verify v now device (invite_write i payload) db =
    let served = create_invite app now i v payload device db in (is_ok served.0, served.1)
serve app verify v now device (approve_write i payload) db =
    let served = approve_invite app now v i payload device db in (is_ok served.0, served.1)
serve app verify v now device (revoke_write d payload) db =
    let served = revoke_device app now v d payload device db in (is_ok served.0, served.1)

ok_cases : {A : Type 0} (r : Result A) → is_ok r ≡ true → (a : A) × (r ≡ ok a)
ok_cases (ok a) e = (a, refl)
ok_cases (err x) e = ground arith

-- Whenever an append, a new invite or an approval is answered without an error, the vault and the
-- whole relay store no more bytes and rows than their limits, and after a revocation no more than
-- the limits with the reserve for control operations.
pub serve-IsWithin :
    (app : App) (verify : Verifier) (v : String) (now : ℕ) (device : AuthenticatedDevice)
    (w : Write) (db : Db)
    → (serve app verify v now device w db).0 ≡ true
    → IsWithin app.limits (is_control w) v (serve app verify v now device w db).1
unfolding append_commit create_invite approve_invite revoke_device
serve-IsWithin app verify v now device (append_write payload read_db) db e =
    let (a, answered) = ok_cases (append_commit app verify now v payload device read_db db).0 e in
    let (p, read, stored) =
      submit_done (prepare_commit app verify v payload device read_db)
        (store_commit app now v device) db a answered in
    store_commit-IsWithin app v now device p db a
      (append_commit app verify now v payload device read_db db).1 stored
serve-IsWithin app verify v now device (invite_write i payload) db e =
    let (a, answered) = ok_cases (create_invite app now i v payload device db).0 e in
    let (form, read, stored) =
      submit_done (read_invite app v payload device) (store_invite app now i v device) db a
        answered in
    store_invite-IsWithin app v now i device form db a
      (create_invite app now i v payload device db).1 stored
serve-IsWithin app verify v now device (approve_write i payload) db e =
    let (a, answered) = ok_cases (approve_invite app now v i payload device db).0 e in
    let (form, read, stored) =
      submit_done (read_approval v i payload device) (store_approval app now v i device) db a
        answered in
    store_approval-IsWithin app v now i device form db a
      (approve_invite app now v i payload device db).1 stored
serve-IsWithin app verify v now device (revoke_write d payload) db e =
    let (a, answered) = ok_cases (revoke_device app now v d payload device db).0 e in
    let (form, read, stored) =
      submit_done (read_revocation v d payload device) (store_revocation app now v d device) db a
        answered in
    store_revocation-IsWithin app v now d device form db
      (revoke_device app now v d payload device db).1 stored
