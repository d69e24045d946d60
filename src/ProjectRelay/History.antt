-- ===== src/ProjectRelay/History.antt =====
-- The snapshots of a scope are one chain: each is signed for the place after the one before it.
use keys_keeper_skill.Prelude.{
  ℕ, suc, String, ◌≡◌, refl, sym, ap, ◌∙◌, subst, ◌≢◌, ◌⊎◌, inl, inr, Option, none, some, List, [],
  ◌∷◌, arith, eq_iff, ◌==◌, if◌then◌else◌, nat_eq, string_eq, option_eq, list_eq, option_beq_iff,
  Bool-cases, keep,
}
use keys_keeper_skill.SyncServer.Tables.{Bytes}
use keys_keeper_skill.SyncServer.Requests.{Json}
use keys_keeper_skill.ProjectProtocol.Json.{
  Primitives, canonical_bytes, canonical_hash, max_record_size,
}
use keys_keeper_skill.ProjectProtocol.Policy.{Policy, anything, verify_policy}
use keys_keeper_skill.ProjectProtocol.Checked.{valid}
use keys_keeper_skill.ProjectProtocol.Messages.{Snapshot, verify_snapshot}
use keys_keeper_skill.ProjectRelay.Tables.{
  ScopeRow, SnapshotRow, ProjectDb, find_scope, update_scope,
}
use keys_keeper_skill.ProjectRelay.Frames.{find_update_scope}
use keys_keeper_skill.ProjectProtocol.Messages.{check_snapshot}
use keys_keeper_skill.ProjectProtocol.Checked.{>>=-eq-valid}

-- a stored snapshot, as it was verified: for the place `n + 1`, after the snapshot with this hash
pub record IsSnapshotAfter (P : Primitives) (parent : Option String) (n : ℕ) (x : SnapshotRow)
    : Type 0 where
  pub snapshot : Json
  pub policy : Json
  pub pin : Bytes
  pub body : Snapshot
  pub verified : verify_snapshot P snapshot policy pin n parent ≡ valid body
  pub linked : body.parent_hash ≡ parent
  pub place : body.sequence ≡ suc n
  pub encoded : canonical_bytes P max_record_size snapshot ≡ valid x.content
  pub hashed : canonical_hash P snapshot ≡ valid x.hash
  pub sequence : x.sequence ≡ suc n

-- The snapshots that lead to a head and a sequence, the last one first.
pub data History (P : Primitives) : Option String → ℕ → List SnapshotRow → Type 0 where
  start : History P none 0 []
  next :
      {h : Option String} {n : ℕ} {rows : List SnapshotRow} (x : SnapshotRow)
      → History P h n rows
      → IsSnapshotAfter P h n x
      → History P (some x.hash) (suc n) (x ∷ rows)

abbrev pub snapshots_of : String → List SnapshotRow → List SnapshotRow
snapshots_of s rows = keep (λ x. x.scope_id == s) rows

abbrev pub Linked : Primitives → Option ScopeRow → List SnapshotRow → Type 0
Linked P none rows = rows ≡ []
Linked P (some r) rows = History P r.head_hash r.sequence rows

-- every scope's row points at the end of its history; without a row there are no snapshots
abbrev pub IsChained : Primitives → ProjectDb → Type 0
IsChained P db = (s : String) → Linked P (find_scope s db.scopes) (snapshots_of s db.snapshots)

pub no_head : (P : Primitives) (n : ℕ) (rows : List SnapshotRow) → History P none n rows → n ≡ 0
no_head P n rows start = refl

pub snapshot_checked :
    (P : Primitives) (snapshot policy : Json) (pin : Bytes) (n : ℕ) (parent : Option String)
    (s : Snapshot)
    → verify_snapshot P snapshot policy pin n parent ≡ valid s
    → (p : Policy) × (check_snapshot p s n parent ≡ valid tt)
unfolding verify_snapshot
snapshot_checked P snapshot policy pin n parent s e =
    let (p, verified, e₁) = >>=-eq-valid (verify_policy P policy pin anything) _ s e in
    (p, ground arith)

pub check_snapshot-parent :
    (p : Policy) (s : Snapshot) (n : ℕ) (parent : Option String)
    → check_snapshot p s n parent ≡ valid tt
    → s.sequence ≡ suc n
    → (parent ≡ none → n ≡ 0)
    → s.parent_hash ≡ parent
unfolding check_snapshot
check_snapshot-parent p s n none e place first = ground (arith, first refl)
check_snapshot-parent p s n (some h) e place first =
    ground (arith, option_beq_iff s.parent_hash (some h))

pub find_scope-scope_id :
    (s : String) (rows : List ScopeRow) (r : ScopeRow) → find_scope s rows ≡ some r → r.scope_id ≡ s
find_scope-scope_id s [] r e = cc e
find_scope-scope_id s (x ∷ rows) r e =
    ground (arith, eq_iff x.scope_id s, find_scope-scope_id s rows r)

pub find_update_none :
    (k : String) (f : ScopeRow → ScopeRow) (s : String) (rows : List ScopeRow)
    → ((x : ScopeRow) → (f x).scope_id ≡ x.scope_id)
    → find_scope s rows ≡ none
    → find_scope s (update_scope k f rows) ≡ none
find_update_none k f s [] same e = refl
find_update_none k f s (x ∷ rows) same e =
    ground
      (arith, same x, eq_iff x.scope_id k, eq_iff x.scope_id s, find_update_none k f s rows same)

find_moved :
    (k : String) (f : ScopeRow → ScopeRow) (rows : List ScopeRow) (r : ScopeRow)
    → ((x : ScopeRow) → (f x).scope_id ≡ x.scope_id)
    → find_scope k rows ≡ some r
    → find_scope k (update_scope k f rows) ≡ some (f r)
find_moved k f rows r same found =
    let here : r.scope_id ≡ k = find_scope-scope_id k rows r found in
    let moved : find_scope k (update_scope k f rows) ≡ some (if r.scope_id == k then f r else r) =
      find_update_scope k f k rows r same found in
    ground (arith, eq_iff r.scope_id k)

find_others :
    (k s : String) (f : ScopeRow → ScopeRow) (rows : List ScopeRow) (o : Option ScopeRow)
    → ((x : ScopeRow) → (f x).scope_id ≡ x.scope_id)
    → k ≢ s
    → find_scope s rows ≡ o
    → find_scope s (update_scope k f rows) ≡ o
find_others k s f rows none same other found = find_update_none k f s rows same found
find_others k s f rows (some r) same other found =
    let here : r.scope_id ≡ s = find_scope-scope_id s rows r found in
    let moved : find_scope s (update_scope k f rows) ≡ some (if r.scope_id == k then f r else r) =
      find_update_scope k f s rows r same found in
    ground (arith, eq_iff r.scope_id k)

-- a snapshot that follows the scope's row, with the row moved to it
pub linear_step :
    (P : Primitives) (k : String) (r : ScopeRow) (x : SnapshotRow) (policy : Bytes)
    (db after : ProjectDb)
    → IsChained P db
    → find_scope k db.scopes ≡ some r
    → x.scope_id ≡ k
    → IsSnapshotAfter P r.head_hash r.sequence x
    → after.scopes
      ≡ update_scope k
          (λ y. record y { policy = policy; head_hash = some x.hash; sequence = suc r.sequence })
          db.scopes
    → after.snapshots ≡ x ∷ db.snapshots
    → IsChained P after
linear_step P k r x policy db after linear found mine follows scopes snapshots s =
    elim (eq_cases k s) [
      | inl same ↦
          let history : History P r.head_hash r.sequence (snapshots_of k db.snapshots) =
            subst (λ o. Linked P o (snapshots_of k db.snapshots)) found (linear k) in
          let row : find_scope s after.scopes ≡ some (move r) =
            ap (λ ys. find_scope s ys) scopes
            ∙ subst (λ z. find_scope z (update_scope k move db.scopes) ≡ some (move r)) same
                (find_moved k move db.scopes r (λ y. refl) found) in
          let kept : snapshots_of s after.snapshots ≡ x ∷ snapshots_of k db.snapshots =
            ap (λ ys. snapshots_of s ys) snapshots ∙ ground (arith, eq_iff x.scope_id s) in
          subst (λ o. Linked P o (snapshots_of s after.snapshots)) (sym row)
            (subst (History P (some x.hash) (suc r.sequence)) (sym kept) (next x history follows))
      | inr other ↦
          let row : find_scope s after.scopes ≡ find_scope s db.scopes =
            ap (λ ys. find_scope s ys) scopes
            ∙ find_others k s move db.scopes (find_scope s db.scopes) (λ y. refl) other refl in
          let kept : snapshots_of s after.snapshots ≡ snapshots_of s db.snapshots =
            ap (λ ys. snapshots_of s ys) snapshots ∙ ground (arith, eq_iff x.scope_id s) in
          subst (λ o. Linked P o (snapshots_of s after.snapshots)) (sym row)
            (subst (Linked P (find_scope s db.scopes)) (sym kept) (linear s))
    ]
  where
    move : ScopeRow → ScopeRow
    move y = record y { policy = policy; head_hash = some x.hash; sequence = suc r.sequence }

    eq_cases : (a b : String) → (a ≡ b) ⊎ (a ≢ b)
    eq_cases a b = elim (Bool-cases (a == b)) [
      | inl e ↦ inl (ground (arith, e, eq_iff a b))
      | inr e ↦ inr (λ h. ground (arith, e, h, eq_iff a b))
    ]
