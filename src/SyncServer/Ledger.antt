-- ===== src/SyncServer/Ledger.antt =====
-- The commits of sync_server.py over any sequence of requests: one chain for each vault, which only
-- grows.
use keys_keeper_skill.Prelude.{
  ℕ, String, ◌≡◌, refl, sym, ap, ◌∙◌, subst, ◌⊎◌, inl, inr, none, List, [], ◌∷◌, ◌++◌, arith,
  eq_iff, ◌==◌, nat_eq, string_eq, option_eq, list_eq, Bool-cases, keep,
}
use mathlib.Core.List.{append_assoc}
use keys_keeper_skill.SyncServer.Outcome.{Result, Outcome, done, failed, failed_after, transaction}
use keys_keeper_skill.SyncServer.Tables.{
  Vault, DeviceStatus, Commit, Invite, Db, empty, find_vault, history,
}
use keys_keeper_skill.SyncServer.Access.{App, AuthenticatedDevice, require_active, require_root}
use keys_keeper_skill.SyncServer.Requests.{Payload}
use keys_keeper_skill.SyncServer.Storage.{within_budget}
use keys_keeper_skill.SyncServer.Forms.{
  VaultForm, read_vault, RevocationForm, read_revocation, InviteForm, read_invite, ClaimForm,
  read_claim, ApprovalForm, read_approval,
}
use keys_keeper_skill.SyncServer.Prepare.{Verifier}
use keys_keeper_skill.SyncServer.Commits.{
  insert_vault, insert_device, store_vault, create_vault, append_commit, commit_row,
}
use keys_keeper_skill.SyncServer.Devices.{store_revocation, revoke_device}
use keys_keeper_skill.SyncServer.Invites.{
  insert_invite, store_invite, create_invite, check_expiry, repeat_claim, first_claim, store_claim,
  claim_invite, activate, store_approval, approve_invite, refresh, inspect_invite, invite_status,
}
use keys_keeper_skill.SyncServer.Server.{
  Request, create_vault_request, append_request, revoke_request, create_invite_request,
  claim_request, approve_request, inspect_request, status_request, apply, run, run_induction,
  submit_left,
}
use keys_keeper_skill.SyncServer.Chain.{IsLinear, head_of, history-cons_self, history-cons_ne}
use keys_keeper_skill.SyncServer.Append.{
  refused, stored, append_commit-Appended, append_commit-IsLinear,
}

-- no commit is added, and no vault or head changes
record SameHistory (db db' : Db) : Type 0 where
  vaults : db'.vaults ≡ db.vaults
  commits : db'.commits ≡ db.commits

-- a vault that is created has no commits, and its id was free
record NewVault (db db' : Db) : Type 0 where
  vault : Vault
  free : find_vault vault.vault_id db.vaults ≡ none
  headless : vault.head_commit_id ≡ none
  vaults : db'.vaults ≡ vault ∷ db.vaults
  commits : db'.commits ≡ db.commits

module _ (app : App) (now : ℕ) (db : Db) where
  store_revocation-Same :
      (v target : String) (device : AuthenticatedDevice) (form : RevocationForm)
      → SameHistory db (transaction (store_revocation app now v target device form) db).1
  unfolding store_revocation require_root require_active within_budget
  store_revocation-Same v target device form = ground arith

  store_invite-Same :
      (i v : String) (device : AuthenticatedDevice) (form : InviteForm)
      → SameHistory db (transaction (store_invite app now i v device form) db).1
  unfolding store_invite require_root require_active insert_invite within_budget
  store_invite-Same i v device form = ground arith

  store_claim-Same :
      (i : String) (form : ClaimForm)
      → SameHistory db (transaction (store_claim app now i form) db).1
  unfolding store_claim first_claim repeat_claim check_expiry insert_device within_budget
  store_claim-Same i form = ground arith

  store_approval-Same :
      (v i : String) (device : AuthenticatedDevice) (form : ApprovalForm)
      → SameHistory db (transaction (store_approval app now v i device form) db).1
  unfolding store_approval require_root require_active check_expiry activate within_budget
  store_approval-Same v i device form = ground arith

  inspect-Same :
      (v i : String) (device : AuthenticatedDevice)
      → SameHistory db (inspect_invite now v i device db).1
  unfolding inspect_invite refresh
  inspect-Same v i device = ground arith

  status-Same :
      (i : String) (device : AuthenticatedDevice) → SameHistory db (invite_status now i device db).1
  unfolding invite_status refresh
  status-Same i device = ground arith

  store_vault-outcome :
      (v d : String) (form : VaultForm)
      → SameHistory db (transaction (store_vault app now v d form) db).1
        ⊎ NewVault db (transaction (store_vault app now v d form) db).1
  store_vault-outcome v d form = go (store_vault app now v d form db) refl
    where
      go :
          (o : Outcome Db (Unit {0}))
          → store_vault app now v d form db ≡ o
          → SameHistory db (transaction (λ (s : Db). o) db).1
            ⊎ NewVault db (transaction (λ (s : Db). o) db).1
      go (failed x) e = inl (record { vaults = refl; commits = refl })
      go (failed_after x db') e =
          absurd (unfold store_vault insert_vault insert_device within_budget in ground arith)
      go (done u db') e = inr (record {
        vault = record { vault_id = v; head_commit_id = none; created_at = now };
        free = unfold store_vault insert_vault insert_device within_budget in ground arith;
        headless = refl;
        vaults = unfold store_vault insert_vault insert_device within_budget in ground arith;
        commits = unfold store_vault insert_vault insert_device within_budget in ground arith;
      })

head_of-cons :
    (r : Vault) (w : String) (rows : List Vault)
    → find_vault r.vault_id rows ≡ none
    → r.head_commit_id ≡ none
    → head_of w (r ∷ rows) ≡ head_of w rows
head_of-cons r w rows free headless = elim (Bool-cases (r.vault_id == w)) [
  | inl e ↦
      rw (e, head_of)
        (headless
          ∙ subst (λ u. none ≡ head_of u rows) ((eq_iff r.vault_id w).0 e) (rw (free, head_of)))
  | inr e ↦ rw (e, head_of)
]

SameHistory-IsLinear : (db db' : Db) → SameHistory db db' → IsLinear db → IsLinear db'
SameHistory-IsLinear db db' same lin w = rw (same.vaults, same.commits) (lin w)

NewVault-IsLinear : (db db' : Db) → NewVault db db' → IsLinear db → IsLinear db'
NewVault-IsLinear db db' n lin w =
    rw (n.vaults, n.commits, head_of-cons n.vault w db.vaults n.free n.headless) (lin w)

-- Later commits stand before the ones that are there.
abbrev pub Grows : String → Db → Db → Type 0
Grows v db db' = (new : List Commit) × (history v db'.commits ≡ new ++ history v db.commits)

-- What a request does to the commits: nothing, a new vault, or an append.
data Effect (db db' : Db) : Type 0 where
  no_effect : SameHistory db db' → Effect db db'
  new_vault : NewVault db db' → Effect db db'
  appends :
      (row : Commit) → (IsLinear db → IsLinear db') → db'.commits ≡ row ∷ db.commits → Effect db db'

module _ (app : App) (verify : Verifier) (db : Db) where
  abbrev E : Db → Type 0
  E db' = Effect db db'

  idle : E db
  idle = no_effect (record { vaults = refl; commits = refl })

  append-Effect :
      (now : ℕ) (v : String) (payload : Payload) (device : AuthenticatedDevice) (read_db : Db)
      → E (append_commit app verify now v payload device read_db db).1
  append-Effect now v payload device read_db =
      elim (append_commit-Appended app verify now v payload device read_db db) [
        | refused e same ↦ no_effect (record {
          vaults = ap (λ (x : Result (String × ℕ) × Db). x.1.vaults) same;
          commits = ap (λ (x : Result (String × ℕ) × Db). x.1.commits) same;
        })
        | stored p live parent asked st answer ↦
            appends (commit_row now v device p)
              (append_commit-IsLinear app verify now v payload device read_db db) st.commits
      ]

  created :
      (now : ℕ) (v d : String) (form : VaultForm)
      → E (transaction (store_vault app now v d form) db).1
  created now v d form = elim (store_vault-outcome app now db v d form) [
    | inl s ↦ no_effect s
    | inr n ↦ new_vault n
  ]

  apply-Effect : (q : Request) → E (apply app verify q db)
  unfolding apply create_vault revoke_device create_invite claim_invite approve_invite
  apply-Effect (create_vault_request now v d payload authorization) =
      submit_left {A = Unit {0}} E (read_vault app payload authorization) (store_vault app now v d)
        db idle (created now v d)
  apply-Effect (append_request now v payload device read_db) =
      append-Effect now v payload device read_db
  apply-Effect (revoke_request now v target payload device) =
      submit_left {A = Unit {0}} E (read_revocation v target payload device)
        (store_revocation app now v target device) db idle
        λ form. no_effect (store_revocation-Same app now db v target device form)
  apply-Effect (create_invite_request now i v payload device) =
      submit_left {A = ℕ} E (read_invite app v payload device) (store_invite app now i v device) db
        idle λ form. no_effect (store_invite-Same app now db i v device form)
  apply-Effect (claim_request now i payload) =
      submit_left {A = DeviceStatus × Invite} E (read_claim app i payload) (store_claim app now i)
        db idle λ form. no_effect (store_claim-Same app now db i form)
  apply-Effect (approve_request now v i payload device) =
      submit_left {A = String} E (read_approval v i payload device)
        (store_approval app now v i device) db idle
        λ form. no_effect (store_approval-Same app now db v i device form)
  apply-Effect (inspect_request now v i device) = no_effect (inspect-Same app now db v i device)
  apply-Effect (status_request now i device) = no_effect (status-Same app now db i device)

Effect-IsLinear : (db db' : Db) → Effect db db' → IsLinear db → IsLinear db'
Effect-IsLinear db db' (no_effect s) lin = SameHistory-IsLinear db db' s lin
Effect-IsLinear db db' (new_vault n) lin = NewVault-IsLinear db db' n lin
Effect-IsLinear db db' (appends row keep e) lin = keep lin

Effect-Grows : (v : String) (db db' : Db) → Effect db db' → Grows v db db'
Effect-Grows v db db' (no_effect s) = ([], rw s.commits)
Effect-Grows v db db' (new_vault n) = ([], rw n.commits)
Effect-Grows v db db' (appends row keep e) = elim (Bool-cases (row.vault_id == v)) [
  | inl here ↦
      (row ∷ [], rw e (history-cons_self row v db.commits ((eq_iff row.vault_id v).0 here)))
  | inr there ↦ ([], rw e (history-cons_ne row v db.commits there))
]

Grows-trans : (v : String) (a b c : Db) → Grows v a b → Grows v b c → Grows v a c
Grows-trans v a b c (xs, p) (ys, q) =
    (ys ++ xs, q ∙ ap (λ t. ys ++ t) p ∙ sym (append_assoc ys xs (history v a.commits)))

empty-IsLinear : IsLinear empty
empty-IsLinear v = refl

-- Whatever requests are served, by whomever, each vault's commits stay one chain from the first
-- commit to the head, numbered without a gap.
pub run-IsLinear :
    (app : App) (verify : Verifier) (qs : List Request) → IsLinear (run app verify qs empty)
run-IsLinear app verify qs =
    run_induction app verify IsLinear
      (λ q db. Effect-IsLinear db (apply app verify q db) (apply-Effect app verify db q)) qs empty
      empty-IsLinear

-- No request removes, changes or reorders a commit that is stored: a vault's history only gets new
-- commits at its end.
pub run-Grows :
    (app : App) (verify : Verifier) (qs : List Request) (db : Db) (v : String)
    → Grows v db (run app verify qs db)
run-Grows app verify qs db v =
    run_induction app verify (Grows v db)
      (λ q db' g.
        Grows-trans v db db' (apply app verify q db') g
          (Effect-Grows v db' (apply app verify q db') (apply-Effect app verify db' q)))
      qs db ([], refl)
