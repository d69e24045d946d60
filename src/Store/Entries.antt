-- ===== src/Store/Entries.antt =====
-- The records of store.py: entries as in models.py, tombstones, and the errors of the store.
use keys_keeper_skill.Prelude.{String, Option, List}
use keys_keeper_skill.SyncServer.Requests.{Json}

-- a link from an entry to another one, by name
pub record Ref : Type 0 where
  pub role : String
  pub name : String

-- `EntryType` of models.py
pub data EntryType : Type 0 where
  api_key ssh_key server domain note_entry : EntryType

-- `Entry` of models.py
pub record Entry : Type 0 where
  pub id : String
  pub name : String
  pub type : EntryType
  pub fields : List (String × Json)
  pub tags : List String
  pub note : String
  pub refs : List Ref
  pub created_at : String
  pub updated_at : String
  pub folder_id : Option String
  pub distribution : String
  pub provenance : Option (List (String × Json))
  pub content_revision : Option String

pub record Tombstone : Type 0 where
  pub id : String
  pub name : String
  pub deleted_at : String

-- what the store reads and writes: `data["entries"]` and `data["tombstones"]`
pub record Data : Type 0 where
  pub entries : List Entry
  pub tombstones : List Tombstone

-- the exceptions of store.py, without their messages
pub data StoreError : Type 0 where
  store_error : StoreError
  name_conflict : StoreError
  not_found : StoreError

-- an operation of the store: it returns, or raises
pub data Answer {ℓ} (A : Type ℓ) : Type ℓ where
  returns : A → Answer A
  raises : StoreError → Answer A
