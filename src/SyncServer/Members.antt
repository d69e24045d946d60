-- ===== src/SyncServer/Members.antt =====
-- Devices of sync_server.py over any sequence of requests: who they are is fixed, the root device
-- stays, and a revoked device stays out.
use keys_keeper_skill.Prelude.{
  ℕ, String, ◌≡◌, refl, ap, ◌∙◌, none, some, List, arith, nat_eq, string_eq, option_eq, list_eq,
}
use keys_keeper_skill.SyncServer.Outcome.{Result}
use keys_keeper_skill.SyncServer.Tables.{
  Device, DeviceStatus, active, revoked, Invite, Db, find_device,
}
use keys_keeper_skill.SyncServer.Access.{App, AuthenticatedDevice}
use keys_keeper_skill.SyncServer.Requests.{Payload}
use keys_keeper_skill.SyncServer.Forms.{
  read_vault, read_revocation, read_invite, read_claim, read_approval,
}
use keys_keeper_skill.SyncServer.Prepare.{Verifier}
use keys_keeper_skill.SyncServer.Commits.{store_vault, create_vault, append_commit}
use keys_keeper_skill.SyncServer.Devices.{store_revocation, revoke_device}
use keys_keeper_skill.SyncServer.Invites.{
  store_invite, create_invite, store_claim, claim_invite, store_approval, approve_invite, refresh,
  inspect_invite, invite_status,
}
use keys_keeper_skill.SyncServer.DeviceTable.{
  Evolves, unchanged, approved_now, revoked_now, Follows, Follows-same, store_vault-Follows,
  store_claim-Follows, store_invite-devices, store_revocation-Follows, store_approval-Follows,
}
use keys_keeper_skill.SyncServer.Append.{refused, stored, append_commit-Appended}
use keys_keeper_skill.SyncServer.Server.{
  Request, create_vault_request, append_request, revoke_request, create_invite_request,
  claim_request, approve_request, inspect_request, status_request, apply, run, run_induction,
  submit_left,
}

module _ (app : App) (verify : Verifier) (d : String) (r : Device) (db : Db)
    (found : find_device d db.devices ≡ some r) where
  abbrev Kept : Db → Type 0
  Kept db' = Follows r d db'.devices

  here : Kept db
  here = Follows-same d r db found db.devices refl

  as_kept : (rows : List Device) → find_device d rows ≡ some r → Follows r d rows
  as_kept rows e = record { row = r; found = e; evolves = unchanged refl }

  append-Kept :
      (now : ℕ) (v : String) (payload : Payload) (device : AuthenticatedDevice) (read_db : Db)
      → Kept (append_commit app verify now v payload device read_db db).1
  append-Kept now v payload device read_db =
      elim (append_commit-Appended app verify now v payload device read_db db) [
        | refused e same ↦
            Follows-same d r db found _ (ap (λ (x : Result (String × ℕ) × Db). x.1.devices) same)
        | stored p live parent asked st answer ↦ Follows-same d r db found _ st.devices
      ]

  inspect-devices :
      (now : ℕ) (v i : String) (device : AuthenticatedDevice)
      → (inspect_invite now v i device db).1.devices ≡ db.devices
  unfolding inspect_invite refresh
  inspect-devices now v i device = ground arith

  status-devices :
      (now : ℕ) (i : String) (device : AuthenticatedDevice)
      → (invite_status now i device db).1.devices ≡ db.devices
  unfolding invite_status refresh
  status-devices now i device = ground arith

  -- One request takes a row to itself, to its approval or to its revocation.
  pub apply-Follows : (q : Request) → Follows r d (apply app verify q db).devices
  unfolding apply create_vault revoke_device create_invite claim_invite approve_invite
  apply-Follows (create_vault_request now v n payload authorization) =
      submit_left {A = Unit {0}} Kept (read_vault app payload authorization)
        (store_vault app now v n) db here
        λ form. as_kept _ (store_vault-Follows d r db found app now v n form)
  apply-Follows (append_request now v payload device read_db) =
      append-Kept now v payload device read_db
  apply-Follows (revoke_request now v target payload device) =
      submit_left {A = Unit {0}} Kept (read_revocation v target payload device)
        (store_revocation app now v target device) db here
        λ form. store_revocation-Follows app now v target device d r db found form
  apply-Follows (create_invite_request now i v payload device) =
      submit_left {A = ℕ} Kept (read_invite app v payload device) (store_invite app now i v device)
        db here
        λ form.
          Follows-same d r db found _ (store_invite-devices d r db found app now i v device form)
  apply-Follows (claim_request now i payload) =
      submit_left {A = DeviceStatus × Invite} Kept (read_claim app i payload)
        (store_claim app now i) db here
        λ form. as_kept _ (store_claim-Follows d r db found app now i form)
  apply-Follows (approve_request now v i payload device) =
      submit_left {A = String} Kept (read_approval v i payload device)
        (store_approval app now v i device) db here
        λ form. store_approval-Follows app now v i device d r db found form
  apply-Follows (inspect_request now v i device) =
      Follows-same d r db found _ (inspect-devices now v i device)
  apply-Follows (status_request now i device) =
      Follows-same d r db found _ (status-devices now i device)

-- what a registration fixes for ever
pub record SameIdentity (r r' : Device) : Type 0 where
  pub device_id : r'.device_id ≡ r.device_id
  pub vault_id : r'.vault_id ≡ r.vault_id
  pub sign_public_key : r'.sign_public_key ≡ r.sign_public_key
  pub wrap_public_key : r'.wrap_public_key ≡ r.wrap_public_key
  pub token_hash : r'.token_hash ≡ r.token_hash
  pub created_at : r'.created_at ≡ r.created_at

Evolves-SameIdentity : (r r' : Device) → Evolves r r' → SameIdentity r r'
Evolves-SameIdentity r r' (unchanged e) = ground arith
Evolves-SameIdentity r r' (approved_now now by form p e) = ground arith
Evolves-SameIdentity r r' (revoked_now now by form p q e) = ground arith

Evolves-revoked : (r r' : Device) → Evolves r r' → r.status ≡ revoked → r' ≡ r
Evolves-revoked r r' (unchanged e) h = e
Evolves-revoked r r' (approved_now now by form p e) h = cc (p, h)
Evolves-revoked r r' (revoked_now now by form p q e) h = ground arith

Evolves-root :
    (r r' : Device) → Evolves r r' → r.status ≡ active → r.approved_by_device_id ≡ none → r' ≡ r
Evolves-root r r' (unchanged e) h k = e
Evolves-root r r' (approved_now now by form p e) h k = cc (p, h)
Evolves-root r r' (revoked_now now by form p q e) h k = ground arith

module _ (app : App) (verify : Verifier) (qs : List Request) (d : String) (r : Device) (db : Db)
    (found : find_device d db.devices ≡ some r) where
  -- What every step of a row keeps is kept by any sequence of requests.
  fixed :
      ((r' : Device) → Evolves r r' → r' ≡ r)
      → find_device d (run app verify qs db).devices ≡ some r
  fixed stays =
      run_induction app verify (λ db'. find_device d db'.devices ≡ some r)
        (λ q db' h.
          let f = apply-Follows app verify d r db' h q in f.found ∙ ap some (stays f.row f.evolves))
        qs db found

  -- No request brings a revoked device back, and none removes or changes its row.
  pub revoked_stays : r.status ≡ revoked → find_device d (run app verify qs db).devices ≡ some r
  revoked_stays h = fixed (λ r' e. Evolves-revoked r r' e h)

  -- No request revokes, removes or changes the root device: an active device that nobody approved.
  pub root_stays :
      r.status ≡ active
      → r.approved_by_device_id ≡ none
      → find_device d (run app verify qs db).devices ≡ some r
  root_stays h k = fixed (λ r' e. Evolves-root r r' e h k)

  -- A registered device keeps its vault, its keys and its token, whatever is requested.
  pub identity_stays :
      (r' : Device) × (find_device d (run app verify qs db).devices ≡ some r') × SameIdentity r r'
  identity_stays =
      run_induction app verify
        (λ db'. (r' : Device) × (find_device d db'.devices ≡ some r') × SameIdentity r r')
        (λ q db' (r₁, at, same).
          let f = apply-Follows app verify d r₁ db' at q in
          let next = Evolves-SameIdentity r₁ f.row f.evolves in (f.row, f.found, ground arith))
        qs db (r, found, ground arith)
