-- ===== src/SyncServer/InviteTable.antt =====
-- What each transaction of sync_server.py does to the table of invites.
use keys_keeper_skill.Prelude.{
  ℕ, ◌≤◌, ◌<◌, String, ◌≡◌, refl, sym, subst, ◌⊎◌, inl, inr, true, none, some, List, [], ◌∷◌, arith,
  eq_iff, nat_eq, string_eq, option_eq, list_eq, Option-cases,
}
use keys_keeper_skill.SyncServer.Outcome.{transaction}
use keys_keeper_skill.SyncServer.Tables.{
  Invite, opened, claimed, Db, is_expirable, find_invite, update_invite,
}
use keys_keeper_skill.SyncServer.Access.{App, AuthenticatedDevice, require_active, require_root}
use keys_keeper_skill.SyncServer.Storage.{within_budget}
use keys_keeper_skill.SyncServer.Forms.{InviteForm, ClaimForm, ApprovalForm}
use keys_keeper_skill.SyncServer.Commits.{insert_device}
use keys_keeper_skill.SyncServer.Invites.{
  insert_invite, open_invite, store_invite, expire_row, check_expiry, claim_row, repeat_claim,
  first_claim, store_claim, activate, approve_invite_row, store_approval, refresh, inspect_invite,
  invite_status,
}

-- an invite before and after a request
pub data InviteEvolves (r r' : Invite) : Type 0 where
  unchanged : r' ≡ r → InviteEvolves r r'
  expires :
      (now : ℕ)
      → r.expires_at ≤ now
      → is_expirable r.status ≡ true
      → r' ≡ expire_row r
      → InviteEvolves r r'
  claims :
      (now : ℕ) (d : String)
      → now < r.expires_at
      → r.status ≡ opened
      → r' ≡ claim_row now d r
      → InviteEvolves r r'
  approves :
      (now : ℕ)
      → now < r.expires_at
      → r.status ≡ claimed
      → r' ≡ approve_invite_row now r
      → InviteEvolves r r'

-- What a transaction writes to the invites: nothing, or the row of one invite.
pub data Writes (rows rows' : List Invite) : Type 0 where
  nothing : rows' ≡ rows → Writes rows rows'
  one_row :
      (i : String) (x : Invite) (f : Invite → Invite)
      → ((y : Invite) → (f y).invite_id ≡ y.invite_id)
      → find_invite i rows ≡ some x
      → InviteEvolves x (f x)
      → rows' ≡ update_invite i f rows
      → Writes rows rows'
  new_row :
      (x : Invite) → find_invite x.invite_id rows ≡ none → rows' ≡ x ∷ rows → Writes rows rows'

find_invite-id :
    (i : String) (rows : List Invite) (x : Invite) → find_invite i rows ≡ some x → x.invite_id ≡ i
find_invite-id i [] x e = cc e
find_invite-id i (r ∷ rows) x e = ground (arith, eq_iff r.invite_id i, find_invite-id i rows x)

module _ (app : App) (now : ℕ) (i : String) (db : Db) where
  claim_effect :
      (form : ClaimForm) (x : Invite)
      → find_invite i db.invites ≡ some x
      → let rows = (transaction (store_claim app now i form) db).1.invites in
        (rows ≡ db.invites)
        ⊎ ((x.expires_at ≤ now)
            × (is_expirable x.status ≡ true)
            × (rows ≡ update_invite x.invite_id expire_row db.invites))
        ⊎ ((now < x.expires_at)
            × (x.status ≡ opened)
            × (rows ≡ update_invite x.invite_id (claim_row now form.device_id) db.invites))
  unfolding store_claim first_claim repeat_claim check_expiry insert_device within_budget
  claim_effect form x e = ground arith

  claim_missing :
      (form : ClaimForm)
      → find_invite i db.invites ≡ none
      → (transaction (store_claim app now i form) db).1.invites ≡ db.invites
  unfolding store_claim
  claim_missing form e = ground arith

  module _ (v : String) (device : AuthenticatedDevice) where
    approval_effect :
        (form : ApprovalForm) (x : Invite)
        → find_invite i db.invites ≡ some x
        → let rows = (transaction (store_approval app now v i device form) db).1.invites in
          (rows ≡ db.invites)
          ⊎ ((x.expires_at ≤ now)
              × (is_expirable x.status ≡ true)
              × (rows ≡ update_invite x.invite_id expire_row db.invites))
          ⊎ ((now < x.expires_at)
              × (x.status ≡ claimed)
              × (rows ≡ update_invite i (approve_invite_row now) db.invites))
    unfolding store_approval require_root require_active check_expiry activate within_budget
    approval_effect form x e = ground arith

    approval_missing :
        (form : ApprovalForm)
        → find_invite i db.invites ≡ none
        → (transaction (store_approval app now v i device form) db).1.invites ≡ db.invites
    unfolding store_approval require_root require_active
    approval_missing form e = ground arith

    inspect_effect :
        (x : Invite)
        → find_invite i db.invites ≡ some x
        → let rows = (inspect_invite now v i device db).1.invites in
          (rows ≡ db.invites)
          ⊎ ((x.expires_at ≤ now)
              × (is_expirable x.status ≡ true)
              × (rows ≡ update_invite x.invite_id expire_row db.invites))
    unfolding inspect_invite refresh
    inspect_effect x e = ground arith

    inspect_missing :
        find_invite i db.invites ≡ none → (inspect_invite now v i device db).1.invites ≡ db.invites
    unfolding inspect_invite
    inspect_missing e = ground arith

    status_effect :
        (x : Invite)
        → find_invite i db.invites ≡ some x
        → let rows = (invite_status now i device db).1.invites in
          (rows ≡ db.invites)
          ⊎ ((x.expires_at ≤ now)
              × (is_expirable x.status ≡ true)
              × (rows ≡ update_invite x.invite_id expire_row db.invites))
    unfolding invite_status refresh
    status_effect x e = ground arith

    status_missing :
        find_invite i db.invites ≡ none → (invite_status now i device db).1.invites ≡ db.invites
    unfolding invite_status
    status_missing e = ground arith

    create_effect :
        (form : InviteForm)
        → let rows = (transaction (store_invite app now i v device form) db).1.invites in
          (rows ≡ db.invites)
          ⊎ ((find_invite i db.invites ≡ none)
              × (rows ≡ open_invite now i v device.device_id form ∷ db.invites))
    unfolding store_invite require_root require_active insert_invite within_budget
    create_effect form = ground arith

  -- The lazy expiry, as a write.
  expiry_write :
      (x : Invite) (rows : List Invite)
      → find_invite i db.invites ≡ some x
      → x.expires_at ≤ now
      → is_expirable x.status ≡ true
      → rows ≡ update_invite x.invite_id expire_row db.invites
      → Writes db.invites rows
  expiry_write x rows e late waits w =
      one_row x.invite_id x expire_row (λ y. refl)
        (subst (λ j. find_invite j db.invites ≡ some x) (sym (find_invite-id i db.invites x e)) e)
        (expires now late waits refl) w

  pub store_claim-Writes :
      (form : ClaimForm) → Writes db.invites (transaction (store_claim app now i form) db).1.invites
  store_claim-Writes form = elim (Option-cases (find_invite i db.invites)) [
    | inl e ↦ nothing (claim_missing form e)
    | inr (x, e) ↦ elim (claim_effect form x e) [
      | inl same ↦ nothing same
      | inr (inl (late, waits, w)) ↦ expiry_write x _ e late waits w
      | inr (inr (early, free, w)) ↦
          one_row x.invite_id x (claim_row now form.device_id) (λ y. refl)
            (subst (λ j. find_invite j db.invites ≡ some x) (sym (find_invite-id i db.invites x e))
              e)
            (claims now form.device_id early free refl) w
    ]
  ]

  module _ (v : String) (device : AuthenticatedDevice) where
    pub store_approval-Writes :
        (form : ApprovalForm)
        → Writes db.invites (transaction (store_approval app now v i device form) db).1.invites
    store_approval-Writes form = elim (Option-cases (find_invite i db.invites)) [
      | inl e ↦ nothing (approval_missing v device form e)
      | inr (x, e) ↦ elim (approval_effect v device form x e) [
        | inl same ↦ nothing same
        | inr (inl (late, waits, w)) ↦ expiry_write x _ e late waits w
        | inr (inr (early, held, w)) ↦
            one_row i x (approve_invite_row now) (λ y. refl) e (approves now early held refl) w
      ]
    ]

    pub inspect_invite-Writes : Writes db.invites (inspect_invite now v i device db).1.invites
    inspect_invite-Writes = elim (Option-cases (find_invite i db.invites)) [
      | inl e ↦ nothing (inspect_missing v device e)
      | inr (x, e) ↦ elim (inspect_effect v device x e) [
        | inl same ↦ nothing same
        | inr (late, waits, w) ↦ expiry_write x _ e late waits w
      ]
    ]

    pub invite_status-Writes : Writes db.invites (invite_status now i device db).1.invites
    invite_status-Writes = elim (Option-cases (find_invite i db.invites)) [
      | inl e ↦ nothing (status_missing v device e)
      | inr (x, e) ↦ elim (status_effect v device x e) [
        | inl same ↦ nothing same
        | inr (late, waits, w) ↦ expiry_write x _ e late waits w
      ]
    ]

    pub store_invite-Writes :
        (form : InviteForm)
        → Writes db.invites (transaction (store_invite app now i v device form) db).1.invites
    store_invite-Writes form = elim (create_effect v device form) [
      | inl same ↦ nothing same
      | inr (free, w) ↦ new_row (open_invite now i v device.device_id form) free w
    ]
