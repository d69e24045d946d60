-- ===== src/SyncServer/Invitations.antt =====
-- Invites of sync_server.py over any sequence of requests: one claimant at most, and two final
-- states.
use keys_keeper_skill.Prelude.{
  ℕ, String, ◌≡◌, refl, sym, ap, ◌∙◌, subst, ◌≢◌, ◌⊎◌, inl, inr, none, some, List, [], ◌∷◌, arith,
  eq_iff, ◌==◌, if◌then◌else◌, nat_eq, string_eq, option_eq, list_eq, Bool-cases,
}
use keys_keeper_skill.SyncServer.Outcome.{Result, transaction}
use keys_keeper_skill.SyncServer.Tables.{
  DeviceStatus, Invite, InviteStatus, opened, approved, expired, Db, find_invite, update_invite,
}
use keys_keeper_skill.SyncServer.Access.{App, AuthenticatedDevice, require_active, require_root}
use keys_keeper_skill.SyncServer.Requests.{Payload}
use keys_keeper_skill.SyncServer.Storage.{within_budget}
use keys_keeper_skill.SyncServer.Forms.{
  VaultForm, read_vault, RevocationForm, read_revocation, read_invite, read_claim, read_approval,
}
use keys_keeper_skill.SyncServer.Prepare.{Verifier}
use keys_keeper_skill.SyncServer.Commits.{
  insert_vault, insert_device, store_vault, create_vault, append_commit,
}
use keys_keeper_skill.SyncServer.Devices.{store_revocation, revoke_device}
use keys_keeper_skill.SyncServer.Invites.{
  store_invite, create_invite, store_claim, claim_invite, store_approval, approve_invite,
}
use keys_keeper_skill.SyncServer.Server.{
  Request, create_vault_request, append_request, revoke_request, create_invite_request,
  claim_request, approve_request, inspect_request, status_request, apply, run, run_induction,
  submit_left,
}
use keys_keeper_skill.SyncServer.Append.{refused, stored, append_commit-Appended}
use keys_keeper_skill.SyncServer.InviteTable.{
  InviteEvolves, unchanged, expires, claims, approves, Writes, nothing, one_row, new_row,
  store_claim-Writes, store_approval-Writes, inspect_invite-Writes, invite_status-Writes,
  store_invite-Writes,
}

module _ (app : App) (verify : Verifier) (db : Db) where
  abbrev W : Db → Type 0
  W db' = Writes db.invites db'.invites

  append-W :
      (now : ℕ) (v : String) (payload : Payload) (device : AuthenticatedDevice) (read_db : Db)
      → W (append_commit app verify now v payload device read_db db).1
  append-W now v payload device read_db =
      elim (append_commit-Appended app verify now v payload device read_db db) [
        | refused e same ↦ nothing (ap (λ (x : Result (String × ℕ) × Db). x.1.invites) same)
        | stored p live parent asked st answer ↦ nothing st.invites
      ]

  vault-W :
      (now : ℕ) (v d : String) (form : VaultForm)
      → (transaction (store_vault app now v d form) db).1.invites ≡ db.invites
  unfolding store_vault insert_vault insert_device within_budget
  vault-W now v d form = ground arith

  revocation-W :
      (now : ℕ) (v target : String) (device : AuthenticatedDevice) (form : RevocationForm)
      → (transaction (store_revocation app now v target device form) db).1.invites ≡ db.invites
  unfolding store_revocation require_root require_active within_budget
  revocation-W now v target device form = ground arith

  apply-Writes : (q : Request) → W (apply app verify q db)
  unfolding apply create_vault revoke_device create_invite claim_invite approve_invite
  apply-Writes (create_vault_request now v d payload authorization) =
      submit_left {A = Unit {0}} W (read_vault app payload authorization) (store_vault app now v d)
        db (nothing refl) (λ form. nothing (vault-W now v d form))
  apply-Writes (append_request now v payload device read_db) = append-W now v payload device read_db
  apply-Writes (revoke_request now v target payload device) =
      submit_left {A = Unit {0}} W (read_revocation v target payload device)
        (store_revocation app now v target device) db (nothing refl)
        (λ form. nothing (revocation-W now v target device form))
  apply-Writes (create_invite_request now i v payload device) =
      submit_left {A = ℕ} W (read_invite app v payload device) (store_invite app now i v device) db
        (nothing refl) (store_invite-Writes app now i db v device)
  apply-Writes (claim_request now i payload) =
      submit_left {A = DeviceStatus × Invite} W (read_claim app i payload) (store_claim app now i)
        db (nothing refl) (store_claim-Writes app now i db)
  apply-Writes (approve_request now v i payload device) =
      submit_left {A = String} W (read_approval v i payload device)
        (store_approval app now v i device) db (nothing refl)
        (store_approval-Writes app now i db v device)
  apply-Writes (inspect_request now v i device) = inspect_invite-Writes app now i db v device
  apply-Writes (status_request now i device) = invite_status-Writes app now i db i device

pub find_invite-update_invite :
    (i j : String) (f : Invite → Invite) (rows : List Invite)
    → ((r : Invite) → (f r).invite_id ≡ r.invite_id)
    → find_invite i (update_invite j f rows)
      ≡ elim (find_invite i rows) [ none ↦ none | some r ↦ some (if j == i then f r else r) ]
find_invite-update_invite i j f [] h = refl
find_invite-update_invite i j f (r ∷ rows) h = ground (
  arith,
  h r,
  eq_iff r.invite_id i,
  eq_iff r.invite_id j,
  eq_iff j i,
  find_invite-update_invite i j f rows h,
)

-- One write takes an invite to itself, or to what one transition makes of it.
Writes-evolve :
    (i : String) (r : Invite) (rows rows' : List Invite)
    → find_invite i rows ≡ some r
    → Writes rows rows'
    → (r' : Invite) × (find_invite i rows' ≡ some r') × InviteEvolves r r'
Writes-evolve i r rows rows' found (nothing e) = (r, rw e found, unchanged refl)
Writes-evolve i r rows rows' found (new_row x free e) =
    (r, rw e (ground (arith, eq_iff x.invite_id i)), unchanged refl)
Writes-evolve i r rows rows' found (one_row j x f keeps at ev e) = elim (Bool-cases (j == i)) [
  | inl same ↦ (
    f r,
    rw e (find_invite-update_invite i j f rows keeps ∙ rw (found, same)),
    subst (λ y. InviteEvolves y (f y)) (ground (arith, eq_iff j i)) ev,
  )
  | inr other ↦
      (r, rw e (find_invite-update_invite i j f rows keeps ∙ rw (found, other)), unchanged refl)
]

-- what an invite is from its creation on
pub record SameInvite (r r' : Invite) : Type 0 where
  pub invite_id : r'.invite_id ≡ r.invite_id
  pub vault_id : r'.vault_id ≡ r.vault_id
  pub secret_hash : r'.secret_hash ≡ r.secret_hash
  pub created_by_device_id : r'.created_by_device_id ≡ r.created_by_device_id
  pub created_at : r'.created_at ≡ r.created_at
  pub expires_at : r'.expires_at ≡ r.expires_at

-- An invite that is no longer open: the claimant is fixed.
abbrev pub Taken : Invite → Invite → Type 0
Taken r r' = (r'.status ≢ opened) × (r'.claimant_device_id ≡ r.claimant_device_id)

step-Taken : (r r' : Invite) → InviteEvolves r r' → r.status ≢ opened → Taken r r'
step-Taken r r' (unchanged e) h = (λ k. h (ap (λ (x : Invite). x.status) (sym e) ∙ k), ground arith)
step-Taken r r' (expires now late waits e) h = ground arith
step-Taken r r' (claims now d early free e) h = absurd (h free)
step-Taken r r' (approves now early held e) h = ground arith

step-SameInvite : (r r' : Invite) → InviteEvolves r r' → SameInvite r r'
step-SameInvite r r' (unchanged e) = ground arith
step-SameInvite r r' (expires now late waits e) = ground arith
step-SameInvite r r' (claims now d early free e) = ground arith
step-SameInvite r r' (approves now early held e) = ground arith

abbrev pub IsFinal : InviteStatus → Type 0
IsFinal s = (s ≡ approved) ⊎ (s ≡ expired)

step-final : (r r' : Invite) → InviteEvolves r r' → IsFinal r.status → r' ≡ r
step-final r r' (unchanged e) h = e
step-final r r' (expires now late waits e) h = ground arith
step-final r r' (claims now d early free e) h = ground arith
step-final r r' (approves now early held e) h = ground arith

module _ (app : App) (verify : Verifier) (qs : List Request) (i : String) (r : Invite) (db : Db)
    (found : find_invite i db.invites ≡ some r) where
  -- An invite that was approved or has expired is never changed again.
  pub final_stays : IsFinal r.status → find_invite i (run app verify qs db).invites ≡ some r
  final_stays h =
      run_induction app verify (λ db'. find_invite i db'.invites ≡ some r)
        (λ q db' at.
          let (r', at', ev) =
            Writes-evolve i r db'.invites (apply app verify q db').invites at
              (apply-Writes app verify db' q) in
          at' ∙ ap some (step-final r r' ev h))
        qs db found

  -- An invite that was claimed stays with its claimant, and its terms stay as they were created.
  pub claimant_stays :
      r.status ≢ opened
      → (r' : Invite) × (find_invite i (run app verify qs db).invites ≡ some r')
        × SameInvite r r'
        × Taken r r'
  claimant_stays h =
      run_induction app verify
        (λ db'.
          (r' : Invite) × (find_invite i db'.invites ≡ some r') × SameInvite r r' × Taken r r')
        (λ q db' (r₁, at, same, taken).
          let (r', at', ev) =
            Writes-evolve i r₁ db'.invites (apply app verify q db').invites at
              (apply-Writes app verify db' q) in
          let same' = step-SameInvite r₁ r' ev in
          let taken' = step-Taken r₁ r' ev taken.0 in
          (r', at', ground arith, (taken'.0, taken'.1 ∙ taken.1)))
        qs db (r, found, ground arith, (h, refl))
