-- ===== src/Store/Transactions.antt =====
-- `MetadataTransaction` of store.py: records in numbered slots, indexed by name and by id.
use keys_keeper_skill.Prelude.{
  ℕ, suc, String, Bool, true, false, not, ◌&&◌, Option, none, some, List, [], ◌∷◌, ◌++◌, ◌==◌, ◌!=◌,
  if◌then◌else◌, nat_eq, string_eq, option_eq, any,
}
use keys_keeper_skill.Prelude.Dict.{Dict, get, put, remove, set_default}
use keys_keeper_skill.Store.Entries.{
  Ref, Entry, Tombstone, Data, store_error, name_conflict, not_found, Answer, returns, raises,
}

-- `_data["tombstones"]` is a field of its own; the rest of `_data` is not touched by these operations.
pub record Transaction : Type 0 where
  pub records_by_slot : Dict ℕ Entry
  pub slot_by_name : Dict String ℕ
  pub slot_by_id : Dict String ℕ
  pub order : List ℕ
  pub next_slot : ℕ
  pub tombstones : List Tombstone

-- `_append_record`
unfoldable pub append_record : Entry → Transaction → Transaction
append_record r t = record {
  records_by_slot = put t.records_by_slot t.next_slot r;
  slot_by_name = set_default t.slot_by_name r.name t.next_slot;
  slot_by_id = set_default t.slot_by_id r.id t.next_slot;
  order = t.order ++ t.next_slot ∷ [];
  next_slot = suc t.next_slot;
  tombstones = t.tombstones;
}

unfoldable pub append_records : List Entry → Transaction → Transaction
append_records [] t = t
append_records (r ∷ rs) t = append_records rs (append_record r t)

-- `_reset_entries`, and `__init__`, which calls it on the records that were read
unfoldable pub reset_entries : List Entry → List Tombstone → Transaction
reset_entries records tombstones = append_records records (record {
  records_by_slot = [];
  slot_by_name = [];
  slot_by_id = [];
  order = [];
  next_slot = 0;
  tombstones = tombstones;
})

unfoldable pub materialize : Dict ℕ Entry → List ℕ → List Entry
materialize records [] = []
materialize records (s ∷ order) =
    let rest = materialize records order in elim (get records s) [ none ↦ rest | some r ↦ r ∷ rest ]

-- `_materialize_entries`, as `_commit` writes them back, with the tombstones
abbrev pub commit : Transaction → Data
commit t = record { entries = materialize t.records_by_slot t.order; tombstones = t.tombstones }

-- `get_by_name` and `get_by_id`
unfoldable pub get_by_name : String → Transaction → Option Entry
get_by_name n t = elim (get t.slot_by_name n) [ none ↦ none | some s ↦ get t.records_by_slot s ]

unfoldable pub get_by_id : String → Transaction → Option Entry
get_by_id i t = elim (get t.slot_by_id i) [ none ↦ none | some s ↦ get t.records_by_slot s ]

abbrev pub is_taken : Option ℕ → Bool
is_taken none = false
is_taken (some s) = true

-- a slot other than `s` holds the name or the id
abbrev pub is_other : Option ℕ → ℕ → Bool
is_other none s = false
is_other (some s') s = s' != s

-- `add`
unfoldable pub add : Entry → Transaction → Answer Transaction
add e t =
    if is_taken (get t.slot_by_name e.name)
    then raises name_conflict
    else if is_taken (get t.slot_by_id e.id)
    then raises name_conflict
    else returns (append_record e t)

-- `replace_by_name` of a record that is there
unfoldable pub replace_slot : Entry → ℕ → Entry → Transaction → Transaction
replace_slot e s previous t = record t {
  records_by_slot = put t.records_by_slot s e;
  slot_by_id =
      if previous.id != e.id then put (remove t.slot_by_id previous.id) e.id s else t.slot_by_id;
}

abbrev pub replace_found : Entry → ℕ → Option Entry → Transaction → Answer Transaction
replace_found e s none t = raises store_error
replace_found e s (some previous) t =
    if is_other (get t.slot_by_id e.id) s
    then raises name_conflict
    else returns (replace_slot e s previous t)

-- `replace_by_name`. A name indexed to an empty slot is a `KeyError` in the source, here an error.
unfoldable pub replace_by_name : Entry → Transaction → Answer Transaction
replace_by_name e t = elim (get t.slot_by_name e.name) [
  | none ↦ add e t
  | some s ↦ replace_found e s (get t.records_by_slot s) t
]

abbrev pub tombstone : String → Entry → Tombstone
tombstone now e = record { id = e.id; name = e.name; deleted_at = now }

unfoldable pub delete_slot : String → ℕ → Entry → Transaction → Transaction
delete_slot now s r t = record t {
  records_by_slot = remove t.records_by_slot s;
  slot_by_name = remove t.slot_by_name r.name;
  slot_by_id = remove t.slot_by_id r.id;
  tombstones = t.tombstones ++ tombstone now r ∷ [];
}

abbrev pub delete_found : String → ℕ → Option Entry → Transaction → Answer (Entry × Transaction)
delete_found now s none t = raises store_error
delete_found now s (some r) t = returns (r, delete_slot now s r t)

-- `delete_by_name`; `now` is what `now_iso()` gives
unfoldable pub delete_by_name : String → String → Transaction → Answer (Entry × Transaction)
delete_by_name now n t = elim (get t.slot_by_name n) [
  | none ↦ raises not_found
  | some s ↦ delete_found now s (get t.records_by_slot s) t
]

-- `assert_rename_safe`: some record refers to the old name
unfoldable pub is_referenced : String → List (ℕ × Entry) → Bool
is_referenced old records = any (λ (s, r). any (λ (f : Ref). f.name == old) r.refs) records

unfoldable pub update_slot : Entry → ℕ → Entry → Transaction → Transaction
update_slot e s previous t = record t {
  records_by_slot = put t.records_by_slot s e;
  slot_by_name =
      if previous.name != e.name
      then put (remove t.slot_by_name previous.name) e.name s
      else t.slot_by_name;
}

abbrev pub update_found : Entry → ℕ → Option Entry → Transaction → Answer Transaction
update_found e s none t = raises store_error
update_found e s (some previous) t =
    if is_other (get t.slot_by_name e.name) s
    then raises name_conflict
    else if not (previous.name == e.name) && is_referenced previous.name t.records_by_slot
    then raises store_error
    else returns (update_slot e s previous t)

-- `update`
unfoldable pub update : Entry → Transaction → Answer Transaction
update e t = elim (get t.slot_by_id e.id) [
  | none ↦ raises not_found
  | some s ↦ update_found e s (get t.records_by_slot s) t
]
