-- ===== src/SyncServer/Append.antt =====
-- What `append_commit` does, refused or stored: the compare-and-swap on the head of a vault.
use keys_keeper_skill.Prelude.{
  ℕ, suc, String, ◌≡◌, refl, sym, ap, ◌∙◌, subst, ◌≢◌, false, Option, none, some, List, [], ◌∷◌,
  arith, eq_iff, ◌==◌, nat_eq, string_eq, option_eq, list_eq, option_beq_iff, length,
}
use keys_keeper_skill.SyncServer.Outcome.{
  SyncError, Result, ok, err, Outcome, done, failed, failed_after,
}
use keys_keeper_skill.SyncServer.Tables.{
  Device, active, member, Commit, Db, history, find_commit, clashes,
}
use keys_keeper_skill.SyncServer.Access.{active_row, App, AuthenticatedDevice, require_active}
use keys_keeper_skill.SyncServer.Requests.{Payload, optional_commit_id}
use keys_keeper_skill.SyncServer.Storage.{within_budget}
use keys_keeper_skill.SyncServer.Prepare.{
  Verified, Verifier, Prepared, prepare_commit, check_verified,
}
use keys_keeper_skill.SyncServer.Commits.{
  insert_commit, advance_head, store_commit, append_commit, commit_row,
}
use keys_keeper_skill.SyncServer.Chain.{
  IsChain, IsLinear, head_of, Stored, store_commit-Stored, store_commit-answer, numbered_next,
  Stored-IsLinear, head_of-set_head_self, head_of-set_head_ne, history-cons_self, history-cons_ne,
}

check_verified-parent :
    (expected : Option String) (o : Option Verified) (v : Verified)
    → check_verified expected o ≡ ok v
    → v.parent_commit_id ≡ expected
unfolding check_verified
check_verified-parent expected none v e = cc
check_verified-parent expected (some u) v e =
    ground (arith, option_beq_iff u.parent_commit_id expected)

-- What was asked for is what is stored on.
prepare_commit-ok :
    (app : App) (verify : Verifier) (vault_id : String) (payload : Payload)
    (device : AuthenticatedDevice) (db : Db) (p : Prepared)
    → prepare_commit app verify vault_id payload device db ≡ ok p
    → (p.parent_commit_id ≡ p.expected)
      × (optional_commit_id payload "expected_parent_commit_id" ≡ ok p.expected)
unfolding prepare_commit check_verified
prepare_commit-ok app verify vault_id payload device db p e =
    ground (arith, option_beq_iff p.parent_commit_id p.expected)

store_commit-no_commit :
    (app : App) (now : ℕ) (vault_id : String) (device : AuthenticatedDevice) (p : Prepared)
    (db : Db) (e : SyncError) (db' : Db)
    → store_commit app now vault_id device p db ≢ failed_after e db'
unfolding store_commit require_active insert_commit advance_head within_budget
store_commit-no_commit app now vault_id device p db e db' h = ground arith

active_row-active :
    (o : Option Device) → active_row o ≡ ok tt → (r : Device) × (o ≡ some r) × (r.status ≡ active)
active_row-active none e = ground arith
active_row-active (some r) e = (r, refl, ground arith)

-- only an active member of its vault stores a commit
store_commit-active :
    (app : App) (now : ℕ) (vault_id : String) (device : AuthenticatedDevice) (p : Prepared)
    (db : Db) (answer : String × ℕ) (db' : Db)
    → store_commit app now vault_id device p db ≡ done answer db'
    → active_row (member device.device_id device.vault_id db.devices) ≡ ok tt
unfolding store_commit require_active insert_commit advance_head within_budget
store_commit-active app now vault_id device p db answer db' h = ground arith

-- What a client is promised of an append that was answered with commit `c` and sequence `n`.
pub record Extends (vault_id : String) (payload : Payload) (device : AuthenticatedDevice)
    (c : String) (n : ℕ) (db db' : Db) : Type 0 where
  pub row : Commit
  -- the head was the one that the client named
  pub asked :
      optional_commit_id payload "expected_parent_commit_id" ≡ ok (head_of vault_id db.vaults)
  pub head : head_of vault_id db'.vaults ≡ some c
  pub grown : history vault_id db'.commits ≡ row ∷ history vault_id db.commits
  pub identified : row.commit_id ≡ c
  pub numbered : n ≡ suc (length (history vault_id db.commits))
  pub linked : row.parent_commit_id ≡ head_of vault_id db.vaults
  pub authored : row.author_device_id ≡ device.device_id
  -- the row of the sender when the commit is stored
  pub sender : Device
  pub sender_found : member device.device_id device.vault_id db.devices ≡ some sender
  pub sender_active : sender.status ≡ active
  pub fresh : find_commit c (history vault_id db.commits) ≡ none
  pub other_heads :
      (w : String) → (vault_id == w) ≡ false → head_of w db'.vaults ≡ head_of w db.vaults
  pub other_histories :
      (w : String) → (vault_id == w) ≡ false → history w db'.commits ≡ history w db.commits
  pub devices : db'.devices ≡ db.devices
  pub invites : db'.invites ≡ db.invites

not-clashes :
    (row : Commit) (cs : List Commit) → clashes row cs ≡ false → find_commit row.commit_id cs ≡ none
not-clashes row [] h = refl
not-clashes row (r ∷ cs) h = ground (arith, not-clashes row cs)

-- the head of a chain is one of its commits
head-not-fresh :
    (h : Option String) (cs : List Commit) (c : String)
    → IsChain h cs
    → find_commit c cs ≡ none
    → h ≢ some c
head-not-fresh h [] c chain absent e = cc (chain, e)
head-not-fresh h (r ∷ cs) c chain absent e = ground (arith, eq_iff r.commit_id c, chain.0)

module _ (app : App) (verify : Verifier) (now : ℕ) (vault_id : String) (payload : Payload)
    (device : AuthenticatedDevice) (read_db db : Db) where
  abbrev appended : Result (String × ℕ) × Db
  appended = append_commit app verify now vault_id payload device read_db db

  -- An append that raises leaves the database, and any other is what `Stored` says.
  pub data Appended : Type 0 where
    refused : (e : SyncError) → appended ≡ (err e, db) → Appended
    stored :
        (p : Prepared)
        → active_row (member device.device_id device.vault_id db.devices) ≡ ok tt
        → p.parent_commit_id ≡ p.expected
        → optional_commit_id payload "expected_parent_commit_id" ≡ ok p.expected
        → Stored now vault_id device p db appended.1
        → appended.0 ≡ ok (p.commit_id, p.sequence)
        → Appended

  written :
      (p : Prepared)
      → prepare_commit app verify vault_id payload device read_db ≡ ok p
      → (o : Outcome Db (String × ℕ)) → store_commit app now vault_id device p db ≡ o
      → Appended
  unfolding append_commit
  written p e (failed x) f = refused x (ground arith)
  written p e (failed_after x db') f =
      absurd (store_commit-no_commit app now vault_id device p db x db' f)
  written p e (done answer db') f =
      let all : appended ≡ (ok answer, db') = ground arith in
      let (parent, asked) = prepare_commit-ok app verify vault_id payload device read_db p e in
      stored p (store_commit-active app now vault_id device p db answer db' f) parent asked
        (rw all (store_commit-Stored app now vault_id device p db f))
        (ap (λ (r : Result (String × ℕ) × Db). r.0) all
          ∙ ap ok (store_commit-answer app now vault_id device p db f))

  prepared :
      (r : Result Prepared)
      → prepare_commit app verify vault_id payload device read_db ≡ r
      → Appended
  unfolding append_commit
  prepared (err x) e = refused x (ground arith)
  prepared (ok p) e = written p e (store_commit app now vault_id device p db) refl

  pub append_commit-Appended : Appended
  append_commit-Appended = prepared (prepare_commit app verify vault_id payload device read_db) refl

  -- Stored or refused, an append keeps the history of every vault one chain.
  pub append_commit-IsLinear : IsLinear db → IsLinear appended.1
  append_commit-IsLinear lin = elim append_commit-Appended [
    | refused e same ↦ subst IsLinear (sym (ap (λ (r : Result (String × ℕ) × Db). r.1) same)) lin
    | stored p live parent asked st answer ↦
        Stored-IsLinear now vault_id device p db appended.1 st lin parent
  ]

  Stored-Extends :
      (p : Prepared) (sender : Device)
      → member device.device_id device.vault_id db.devices ≡ some sender
      → sender.status ≡ active
      → p.parent_commit_id ≡ p.expected
      → optional_commit_id payload "expected_parent_commit_id" ≡ ok p.expected
      → Stored now vault_id device p db appended.1
      → IsLinear db
      → Extends vault_id payload device p.commit_id p.sequence db appended.1
  Stored-Extends p sender sender_found sender_active parent asked st lin =
      let row = commit_row now vault_id device p in
      record {
        row = row;
        asked = rw st.at_head asked;
        head = rw st.vaults (
            head_of-set_head_self vault_id p.expected (some p.commit_id) db.vaults st.vault_exists
              st.at_head);
        grown = rw st.commits (history-cons_self row vault_id db.commits refl);
        identified = refl;
        numbered = numbered_next now vault_id device p db appended.1 st lin;
        linked = parent ∙ sym st.at_head;
        authored = refl;
        sender = sender;
        sender_found = sender_found;
        sender_active = sender_active;
        fresh = not-clashes row (history vault_id db.commits) st.fresh;
        other_heads = λ w ne.
            rw st.vaults
              (head_of-set_head_ne vault_id w p.expected (some p.commit_id) db.vaults ne);
        other_histories = λ w ne. rw st.commits (history-cons_ne row w db.commits ne);
        devices = st.devices;
        invites = st.invites;
      }

  pub append_commit-Extends :
      (c : String) (n : ℕ)
      → IsLinear db
      → appended.0 ≡ ok (c, n)
      → Extends vault_id payload device c n db appended.1
  append_commit-Extends c n lin success = elim append_commit-Appended [
    | refused e same ↦ cc (success, ap (λ (r : Result (String × ℕ) × Db). r.0) same)
    | stored p live parent asked st answer ↦
        let (sender, sender_found, sender_active) =
          active_row-active (member device.device_id device.vault_id db.devices) live in
        let same_id : p.commit_id ≡ c = ground arith in
        let same_sequence : p.sequence ≡ n = ground arith in
        subst (λ k. Extends vault_id payload device k n db appended.1) same_id
          (subst (λ k. Extends vault_id payload device p.commit_id k db appended.1) same_sequence
            (Stored-Extends p sender sender_found sender_active parent asked st lin))
  ]

-- Two appends that name the same parent: once the first is acknowledged, the second is refused,
-- whoever sends it and whenever it was prepared, and leaves the database as it is.
pub append_commit-once :
    (app : App) (verify : Verifier) (now now' : ℕ) (vault_id : String) (payload payload' : Payload)
    (device device' : AuthenticatedDevice) (read_db read_db' db : Db) (c : String) (n : ℕ)
    → IsLinear db
    → optional_commit_id payload' "expected_parent_commit_id"
      ≡ optional_commit_id payload "expected_parent_commit_id"
    → (append_commit app verify now vault_id payload device read_db db).0 ≡ ok (c, n)
    → let db' = (append_commit app verify now vault_id payload device read_db db).1 in
      (e : SyncError) × (append_commit app verify now' vault_id payload' device' read_db' db'
        ≡ (err e, db'))
append_commit-once app verify now now' vault_id payload payload' device device' read_db read_db' db
      c n lin same first =
    let db' = (append_commit app verify now vault_id payload device read_db db).1 in
    let ext =
      append_commit-Extends app verify now vault_id payload device read_db db c n lin first in
    elim (append_commit-Appended app verify now' vault_id payload' device' read_db' db') [
      | refused e r ↦ (e, r)
      | stored p live parent asked st answer ↦ absurd (
          head-not-fresh (head_of vault_id db.vaults) (history vault_id db.commits) c (lin vault_id)
            ext.fresh (cc (ext.asked, same, asked, st.at_head, ext.head)))
    ]
