-- ===== src/ProjectRelay/Reading.antt =====
-- The reading routes of project_server.py: state, record and submissions.
use keys_keeper_skill.Prelude.{
  ℕ, zero, suc, ◌+◌, ◌*◌, ◌/◌, String, Bool, true, false, not, ◌&&◌, ◌||◌, Option, none, some, List,
  [], ◌∷◌, ltb, ◌==◌, if◌then◌else◌, nat_eq, string_eq, option_eq, list_eq, keep, find, codes,
  is_sha256_hex,
}
use keys_keeper_skill.SyncServer.Outcome.{
  http, done, Tx, pure, lift, gets, or_raise, ◌>>=◌, ◌>>◌, raise_if,
}
use keys_keeper_skill.SyncServer.Tables.{Bytes}
use keys_keeper_skill.SyncServer.Requests.{Json}
use keys_keeper_skill.ProjectProtocol.Json.{Primitives, parse_bytes, max_record_size}
use keys_keeper_skill.ProjectProtocol.Policy.{Grant}
use keys_keeper_skill.ProjectRelay.Tables.{
  SnapshotRow, WrapRow, SubmissionRow, ProjectDb, find_policy, find_block, find_submission,
}
use keys_keeper_skill.ProjectRelay.Access.{
  Headers, Caller, reads, check, uuid_text, authenticate, invalid_identifier,
}
use keys_keeper_skill.SyncServer.Access.{App}
use keys_keeper_skill.ProjectRelay.Submissions.{is_pending}

abbrev find_by_head : String → Option String → List SnapshotRow → Option SnapshotRow
find_by_head s none rows = none
find_by_head s (some h) rows = find (λ r. r.scope_id == s && r.hash == h) rows

abbrev find_wrap : String → String → List WrapRow → Option WrapRow
find_wrap s d rows = find (λ r. r.scope_id == s && r.device_id == d) rows

-- the answer of `state`
pub record State : Type 0 where
  pub policy : Json
  pub snapshot : Option Json
  pub wrap : Option Json
  pub head_hash : Option String
  pub sequence : ℕ
  pub revocations : List Json

pub data Kind : Type 0 where
  policies snapshots : Kind

-- one submission, with its receipt
pub record Inspection : Type 0 where
  pub request_id : String
  pub receipt : Option Json
  pub submission_hash : String

pub data Listing : Type 0 where
  inspected : Inspection → Listing
  items : List (Json × String) → Listing

-- `ORDER BY created,device_id,request_id`: SQLite compares text byte by byte
abbrev pub text_before : List ℕ → List ℕ → Bool
text_before [] cs = true
text_before (b ∷ bs) [] = false
text_before (b ∷ bs) (c ∷ cs) = let rest = text_before bs cs in ltb b c || (b == c && rest)

abbrev pub precedes : SubmissionRow → SubmissionRow → Bool
precedes a b =
    ltb a.created b.created
    || (a.created == b.created
        && (if a.device_id == b.device_id
            then text_before (codes a.request_id) (codes b.request_id)
            else text_before (codes a.device_id) (codes b.device_id)))

abbrev pub insert_ordered : SubmissionRow → List SubmissionRow → List SubmissionRow
insert_ordered a [] = a ∷ []
insert_ordered a (b ∷ rows) =
    let rest = insert_ordered a rows in if precedes a b then a ∷ b ∷ rows else b ∷ rest

abbrev pub in_order : List SubmissionRow → List SubmissionRow
in_order [] = []
in_order (a ∷ rows) = insert_ordered a (in_order rows)

-- `LIMIT`
abbrev pub limit : ℕ → List SubmissionRow → List SubmissionRow
limit zero rows = []
limit (suc n) [] = []
limit (suc n) (r ∷ rows) = r ∷ limit n rows

abbrev pub max_page : ℕ
max_page = 25

abbrev pub max_page_characters : ℕ
max_page_characters = 8 * 1024 * 1024

-- `len` of a stored text, given by its UTF-8: the bytes that do not continue a character
abbrev pub characters : Bytes → ℕ
characters [] = 0
characters (b ∷ bs) = (if b / 64 == 2 then 0 else 1) + characters bs

-- the loop over the rows: `started` is whether there is a record already, `total` their length
unfoldable pub page_rows : Bool → ℕ → List SubmissionRow → List SubmissionRow
page_rows started total [] = []
page_rows started total (r ∷ rows) =
    let rest = page_rows true (total + characters r.content) rows in
    if started && ltb max_page_characters (total + characters r.content) then [] else r ∷ rest

-- the rows of the page that the master is given
unfoldable pub pending_page : String → List SubmissionRow → List SubmissionRow
pending_page scope_id rows =
    page_rows false 0 (limit max_page (in_order (keep (is_pending scope_id) rows)))

module _ (app : App) (P : Primitives) where
  -- `_load`
  unfoldable pub load : Bytes → Tx ProjectDb Json
  load blob db = check (parse_bytes P max_record_size blob) db

  unfoldable pub load_optional : Option Bytes → Tx ProjectDb (Option Json)
  load_optional none db = done none db
  load_optional (some blob) db = (load blob >>= λ j. pure (some j)) db

  unfoldable pub load_items : List SubmissionRow → Tx ProjectDb (List (Json × String))
  load_items [] db = done [] db
  load_items (r ∷ rows) db =
      (load r.content >>= λ j. load_items rows >>= λ rest. pure ((j, r.policy_hash) ∷ rest)) db

  -- the revocations of the grants that are still active
  unfoldable pub load_blocks : String → List Grant → Tx ProjectDb (List Json)
  load_blocks scope_id [] db = done [] db
  load_blocks scope_id (g ∷ gs) db = elim (find_block scope_id g.grant_id db.blocks) [
    | none ↦ load_blocks scope_id gs db
    | some b ↦ (load b.content >>= λ j. load_blocks scope_id gs >>= λ rest. pure (j ∷ rest)) db
  ]

  unfoldable pub state : String → Headers → Tx ProjectDb State
  state scope_id h = do
    c ← authenticate app P scope_id h.authorization h.device reads
    snapshot_rows ← gets (λ db. db.snapshots)
    wrap_rows ← gets (λ db. db.wraps)
    let snapshot : Option SnapshotRow = find_by_head scope_id c.row.head_hash snapshot_rows
    let wrap : Option WrapRow = find_wrap scope_id c.device wrap_rows
    loaded ← load_optional (elim snapshot [ none ↦ none | some r ↦ some r.content ])
    loaded_wrap ← load_optional (elim wrap [ none ↦ none | some r ↦ some r.content ])
    revocations ← load_blocks scope_id c.policy.grants
    pure (record {
      policy = c.policy_record;
      snapshot = loaded;
      wrap = loaded_wrap;
      head_hash = c.row.head_hash;
      sequence = c.row.sequence;
      revocations = revocations;
    })

  abbrev record_content : Kind → String → String → ProjectDb → Option Bytes
  record_content policies s digest db = elim (find_policy s digest db.policies) [
    | none ↦ none
    | some r ↦ some r.content
  ]
  record_content snapshots s digest db = elim (find_by_head s (some digest) db.snapshots) [
    | none ↦ none
    | some r ↦ some r.content
  ]

  -- `record`
  unfoldable pub read_record : String → Headers → Kind → String → Tx ProjectDb Json
  read_record scope_id h kind digest = do
    raise_if (not (is_sha256_hex digest)) invalid_identifier
    c ← authenticate app P scope_id h.authorization h.device reads
    found ← gets (record_content kind scope_id digest)
    blob ← or_raise found (http 404 "not_found")
    load blob

  -- a device asks for one of its own submissions
  unfoldable pub inspect : String → Caller → String → Tx ProjectDb Listing
  inspect scope_id c request_id = do
    id ← lift (uuid_text app P (some request_id))
    rows ← gets (λ db. db.submissions)
    row ← or_raise (find_submission scope_id c.device id rows) (http 404 "not_found")
    receipt ← load_optional row.receipt
    pure (
        inspected
          (record { request_id = row.request_id; receipt = receipt; submission_hash = row.digest }))

  -- the master asks for the queue
  unfoldable pub list_pending : String → Caller → Tx ProjectDb Listing
  list_pending scope_id c = do
    raise_if (not (c.device == c.policy.master_device_id)) (http 403 "master_required")
    rows ← gets (λ db. db.submissions)
    loaded ← load_items (pending_page scope_id rows)
    pure (items loaded)

  abbrev list_or_inspect : String → Caller → Option String → Tx ProjectDb Listing
  list_or_inspect scope_id c (some request_id) = inspect scope_id c request_id
  list_or_inspect scope_id c none = list_pending scope_id c

  -- `submissions`
  unfoldable pub submissions : String → Headers → Option String → Tx ProjectDb Listing
  submissions scope_id h request_id = do
    c ← authenticate app P scope_id h.authorization h.device reads
    list_or_inspect scope_id c request_id
