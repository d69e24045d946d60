-- ===== src/Store/Direct.antt =====
-- The operations of `MetadataStore` in store.py that scan the list of entries.
use keys_keeper_skill.Prelude.{
  String, ◌&&◌, ◌||◌, Option, none, some, List, [], ◌∷◌, ◌++◌, ◌==◌, ◌!=◌, if◌then◌else◌, string_eq,
  any,
}
use keys_keeper_skill.Store.Entries.{Entry, Data, name_conflict, not_found, Answer, returns, raises}
use keys_keeper_skill.Store.Transactions.{tombstone}

-- `data["entries"].append(entry.to_dict())`
abbrev pub append_entry : Entry → Data → Data
append_entry e d = record d { entries = d.entries ++ e ∷ [] }

-- `MetadataStore.add` under the lock, before `_locked_write` checks what it writes
unfoldable pub add_body : Entry → Data → Answer Data
add_body e d =
    if any (λ r. r.name == e.name || r.id == e.id) d.entries
    then raises name_conflict
    else returns (append_entry e d)

-- `data["entries"][i] = entry.to_dict()` at the first entry of that name
unfoldable pub put_named : Entry → List Entry → List Entry
put_named e [] = []
put_named e (r ∷ rs) = let rest = put_named e rs in if r.name == e.name then e ∷ rs else r ∷ rest

-- `MetadataStore.replace_by_name` under the lock
unfoldable pub replace_body : Entry → Data → Answer Data
replace_body e d =
    if any (λ r. r.name == e.name) d.entries
    then if any (λ r. r.id == e.id && r.name != e.name) d.entries
      then raises name_conflict
      else returns (record d { entries = put_named e d.entries })
    else if any (λ r. r.id == e.id) d.entries
    then raises name_conflict
    else returns (append_entry e d)

-- `data["entries"].pop(i)` at the first entry of that name
unfoldable pub pop_named : String → List Entry → Option (Entry × List Entry)
pop_named n [] = none
pop_named n (r ∷ rs) =
    let rest = pop_named n rs in
    if r.name == n
    then some (r, rs)
    else elim rest [ none ↦ none | some (x, xs) ↦ some (x, r ∷ xs) ]

-- `MetadataStore.delete_by_name` under the lock
unfoldable pub delete_body : String → String → Data → Answer (Entry × Data)
delete_body now n d = elim (pop_named n d.entries) [
  | none ↦ raises not_found
  | some (r, rest) ↦
      returns (r, record { entries = rest; tombstones = d.tombstones ++ tombstone now r ∷ [] })
]
