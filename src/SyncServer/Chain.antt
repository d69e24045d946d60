-- ===== src/SyncServer/Chain.antt =====
-- The commits of a vault form one chain, and an append adds its next link.
use keys_keeper_skill.Prelude.{
  ℕ, suc, String, ◌≡◌, refl, subst, ◌≢◌, inl, inr, true, false, Option, none, some, List, [], ◌∷◌,
  arith, eq_iff, ◌==◌, nat_eq, string_eq, option_eq, list_eq, option_beq_iff, Bool-cases, length,
}
use keys_keeper_skill.SyncServer.Outcome.{ok, done}
use keys_keeper_skill.SyncServer.Tables.{Vault, Commit, Db, find_vault, history, clashes, set_head}
use keys_keeper_skill.SyncServer.Access.{App, AuthenticatedDevice, require_active}
use keys_keeper_skill.SyncServer.Storage.{within_budget}
use keys_keeper_skill.SyncServer.Prepare.{Verified, Prepared}
use keys_keeper_skill.SyncServer.Commits.{
  check_ancestry, insert_commit, advance_head, store_commit, commit_row,
}

-- The commits from the newest to the first: each names the one before it, and they are numbered
-- from 1 without a gap.
abbrev pub IsChain : Option String → List Commit → Type 0
IsChain head [] = head ≡ none
IsChain head (c ∷ cs) =
    (head ≡ some c.commit_id) × (c.sequence ≡ suc (length cs)) × IsChain c.parent_commit_id cs

abbrev pub head_of : String → List Vault → Option String
head_of v vaults = elim (find_vault v vaults) [ none ↦ none | some r ↦ r.head_commit_id ]

-- Every vault's history is a chain that ends at the vault's head. A vault that is not there has none.
abbrev pub IsLinear : Db → Type 0
IsLinear db = (v : String) → IsChain (head_of v db.vaults) (history v db.commits)

-- What a successful transaction of `append_commit` has checked and written.
pub record Stored (now : ℕ) (vault_id : String) (device : AuthenticatedDevice) (p : Prepared)
    (db db' : Db) : Type 0 where
  pub is_active_member : require_active device db ≡ done tt db
  pub at_head : head_of vault_id db.vaults ≡ p.expected
  pub vault_exists : find_vault vault_id db.vaults ≢ none
  pub ancestry : check_ancestry p.expected (history vault_id db.commits) p.verified ≡ ok tt
  pub fresh : clashes (commit_row now vault_id device p) (history vault_id db.commits) ≡ false
  pub vaults : db'.vaults ≡ set_head vault_id p.expected (some p.commit_id) db.vaults
  pub commits : db'.commits ≡ commit_row now vault_id device p ∷ db.commits
  pub devices : db'.devices ≡ db.devices
  pub invites : db'.invites ≡ db.invites

module _ (app : App) (now : ℕ) (vault_id : String) (device : AuthenticatedDevice) (p : Prepared)
    (db : Db) {db' : Db} {answer : String × ℕ}
    (success : store_commit app now vault_id device p db ≡ done answer db') where
  vault_row :
      (r : Vault) × (find_vault vault_id db.vaults ≡ some r)
      × ((r.head_commit_id == p.expected) ≡ true)
      × (check_ancestry r.head_commit_id (history vault_id db.commits) p.verified ≡ ok tt)
  unfolding store_commit require_active insert_commit advance_head within_budget
  vault_row = ground arith

  pub store_commit-Stored : Stored now vault_id device p db db'
  unfolding store_commit insert_commit advance_head within_budget require_active
  store_commit-Stored =
      let (r, found, tested, ancestry) = vault_row in
      let same : r.head_commit_id ≡ p.expected =
        (option_beq_iff r.head_commit_id p.expected).0 tested in
      record {
        is_active_member = ground arith;
        at_head = rw (found, head_of) same;
        vault_exists = λ e. cc;
        ancestry =
            subst (λ h. check_ancestry h (history vault_id db.commits) p.verified ≡ ok tt) same
              ancestry;
        fresh = ground arith;
        vaults = ground arith;
        commits = ground arith;
        devices = ground arith;
        invites = ground arith;
      }

  pub store_commit-answer : answer ≡ (p.commit_id, p.sequence)
  unfolding store_commit insert_commit advance_head within_budget require_active
  store_commit-answer = ground arith

-- A commit that passes the ancestry test has the next number.
pub next_sequence :
    (head : Option String) (cs : List Commit) (v : Verified)
    → IsChain head cs
    → check_ancestry head cs v ≡ ok tt
    → v.sequence ≡ suc (length cs)
unfolding check_ancestry
next_sequence none [] v chain ok_v = ground arith
next_sequence none (c ∷ cs) v chain ok_v = cc (chain.0)
next_sequence (some h) [] v chain ok_v = cc chain
next_sequence (some h) (c ∷ cs) v (at_c, numbered, rest) ok_v =
    ground (arith, eq_iff c.commit_id h, nat_eq.beq_iff v.sequence (suc c.sequence))

pub head_of-set_head_ne :
    (v w : String) (old new : Option String) (rows : List Vault)
    → (v == w) ≡ false
    → head_of w (set_head v old new rows) ≡ head_of w rows
head_of-set_head_ne v w old new [] ne = refl
head_of-set_head_ne v w old new (r ∷ rows) ne = ground (
  arith,
  eq_iff r.vault_id v,
  eq_iff r.vault_id w,
  eq_iff v w,
  head_of-set_head_ne v w old new rows ne,
)

pub head_of-set_head_self :
    (v : String) (old new : Option String) (rows : List Vault)
    → find_vault v rows ≢ none
    → head_of v rows ≡ old
    → head_of v (set_head v old new rows) ≡ new
head_of-set_head_self v old new [] there here = absurd (there refl)
head_of-set_head_self v old new (r ∷ rows) there here = elim (Bool-cases (r.vault_id == v)) [
  | inl e ↦ ground (arith, option_beq_iff r.head_commit_id old)
  | inr e ↦ ground (arith, head_of-set_head_self v old new rows)
]

pub history-cons_self :
    (row : Commit) (v : String) (cs : List Commit)
    → row.vault_id ≡ v
    → history v (row ∷ cs) ≡ row ∷ history v cs
history-cons_self row v cs e = ground (arith, eq_iff row.vault_id v)

pub history-cons_ne :
    (row : Commit) (v : String) (cs : List Commit)
    → (row.vault_id == v) ≡ false
    → history v (row ∷ cs) ≡ history v cs
history-cons_ne row v cs e = rw e

-- The next link: what `Stored` records keeps every history a chain.
module _ (now : ℕ) (vault_id : String) (device : AuthenticatedDevice) (p : Prepared) (db db' : Db)
    (st : Stored now vault_id device p db db') (lin : IsLinear db) where
  pub IsChain-at_expected : IsChain p.expected (history vault_id db.commits)
  IsChain-at_expected =
      subst (λ h. IsChain h (history vault_id db.commits)) st.at_head (lin vault_id)

  pub numbered_next : p.sequence ≡ suc (length (history vault_id db.commits))
  numbered_next =
      next_sequence p.expected (history vault_id db.commits) p.verified IsChain-at_expected
        st.ancestry

  pub Stored-IsLinear : p.parent_commit_id ≡ p.expected → IsLinear db'
  Stored-IsLinear parent w = elim (Bool-cases (vault_id == w)) [
    | inl e ↦
        subst (λ u. IsChain (head_of u db'.vaults) (history u db'.commits))
          ((eq_iff vault_id w).0 e)
          (rw (st.vaults, st.commits, history-cons_self row vault_id db.commits refl)
            (
              head_of-set_head_self vault_id p.expected (some p.commit_id) db.vaults st.vault_exists
                  st.at_head,
              numbered_next,
              rw parent IsChain-at_expected,
            ))
    | inr e ↦
        rw
          (
            st.vaults,
            st.commits,
            head_of-set_head_ne vault_id w p.expected (some p.commit_id) db.vaults e,
            history-cons_ne row w db.commits e,
          )
          (lin w)
  ]
    where
      row : Commit
      row = commit_row now vault_id device p
