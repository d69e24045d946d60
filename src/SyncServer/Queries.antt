-- ===== src/SyncServer/Queries.antt =====
-- The queries of sync_server.py that change nothing: head, commits, and devices.
use keys_keeper_skill.Prelude.{
  ◌^◌, ℕ, zero, suc, String, not, ◌||◌, Option, none, some, List, [], ◌∷◌, ltb, if◌then◌else◌,
  nat_eq, string_eq, option_eq, list_eq, keep,
}
use keys_keeper_skill.SyncServer.Outcome.{Result, ok, err, and_then}
use keys_keeper_skill.SyncServer.Tables.{Commit, Db, find_vault, history, find_commit}
use keys_keeper_skill.SyncServer.Requests.{is_opaque_id, bad_request}
use keys_keeper_skill.SyncServer.Access.{AuthenticatedDevice, require_vault}
use keys_keeper_skill.SyncServer.Prepare.{not_found}

pub record Head : Type 0 where
  pub head_commit_id : Option String
  pub sequence : Option ℕ
  pub manifest_hash : Option String

-- the row of the LEFT JOIN; `c.commit_id = NULL` joins nothing
abbrev pub joined : Option String → List Commit → Head
joined none commits = record { head_commit_id = none; sequence = none; manifest_hash = none }
joined (some h) commits = elim (find_commit h commits) [
  | none ↦ record { head_commit_id = some h; sequence = none; manifest_hash = none }
  | some c ↦ record {
    head_commit_id = some h;
    sequence = some c.sequence;
    manifest_hash = some c.manifest_hash;
  }
]

-- `get_head`
unfoldable pub get_head : String → AuthenticatedDevice → Db → Result Head
get_head vault_id device db = and_then (require_vault device vault_id) λ _.
    elim (find_vault vault_id db.vaults) [
      | none ↦ err not_found
      | some v ↦ ok (joined v.head_commit_id (history vault_id db.commits))
    ]

-- `get_commit`; the answer has the row, and its snapshot if `include_snapshot`
unfoldable pub get_commit : String → String → AuthenticatedDevice → Db → Result Commit
get_commit vault_id commit_id device db = and_then (require_vault device vault_id) λ _.
    if not (is_opaque_id commit_id)
    then err not_found
    else elim (find_commit commit_id (history vault_id db.commits)) [
      | none ↦ err not_found
      | some c ↦ ok c
    ]

-- `ORDER BY sequence ASC`
unfoldable pub insert_by_sequence : Commit → List Commit → List Commit
insert_by_sequence c [] = c ∷ []
insert_by_sequence c (r ∷ rows) =
    let rest = insert_by_sequence c rows in
    if ltb r.sequence c.sequence then r ∷ rest else c ∷ r ∷ rows

unfoldable pub order_by_sequence : List Commit → List Commit
unfolding insert_by_sequence
order_by_sequence [] = []
order_by_sequence (c ∷ rows) = insert_by_sequence c (order_by_sequence rows)

-- `LIMIT ?`
abbrev pub take {ℓ} : {A : Type ℓ} → ℕ → List A → List A
take zero xs = []
take (suc n) [] = []
take (suc n) (x ∷ xs) = x ∷ take n xs

-- the rows of a page, given the vault's commits
unfoldable pub page : ℕ → ℕ → List Commit → List Commit
page after limit commits = take limit (order_by_sequence (keep (λ c. ltb after c.sequence) commits))

-- `list_commits`, with its rows and the head
unfoldable pub list_commits :
    String → AuthenticatedDevice → ℕ → ℕ → Db → Result (List Commit × Option String)
list_commits vault_id device after limit db = and_then (require_vault device vault_id) λ _.
    if not (ltb after (2 ^ 63)) || ltb limit 1 || ltb 100 limit
    then err bad_request
    else elim (find_vault vault_id db.vaults) [
      | none ↦ err not_found
      | some v ↦ ok (page after limit (history vault_id db.commits), v.head_commit_id)
    ]
