-- ===== src/RelayStorage/Triggers.antt =====
-- relay_storage.py: the triggers that keep the usage of each scope, and the total.
use keys_keeper_skill.Prelude.{
  ℕ, zero, suc, ◌-◌, String, ◌||◌, Option, none, some, List, [], ◌∷◌, ltb, ◌==◌, if◌then◌else◌,
  nat_eq, string_eq, option_eq, list_eq,
}
use keys_keeper_skill.Prelude.Dict.{Dict, get, put}
use keys_keeper_skill.RelayStorage.{Usage}
use keys_keeper_skill.SyncServer.Storage.{add_row, nothing}

-- what a trigger reads of a row: its scope, and its size by `_size`
pub record Row : Type 0 where
  pub scope_id : String
  pub size : ℕ

-- the table relay_usage of one namespace, by scope; the empty scope is the total
abbrev pub Counters : Type 0
Counters = Dict String Usage

-- `bytes=bytes-size, records=records-1`, which `CHECK(bytes >= 0)` and `CHECK(records >= 0)` guard
abbrev pub minus_row : ℕ → Usage → Option Usage
minus_row n u =
    if ltb u.bytes n || ltb u.records 1
    then none
    else some (record { bytes = u.bytes - n; records = u.records - 1 })

-- `INSERT … ON CONFLICT DO UPDATE` of the scope's counters
unfoldable pub upsert : Row → Counters → Counters
upsert r c = elim (get c r.scope_id) [
  | none ↦ put c r.scope_id (add_row r.size nothing)
  | some u ↦ put c r.scope_id (add_row r.size u)
]

-- the trigger `add`: the scope, then the total
unfoldable pub add_trigger : Row → Counters → Counters
unfolding upsert
add_trigger r c =
    let c' = upsert r c in elim (get c' "") [ none ↦ c' | some u ↦ put c' "" (add_row r.size u) ]

-- one row of relay_usage in the trigger `remove`, if it is there
unfoldable pub subtract : String → ℕ → Counters → Option Counters
subtract scope n c = elim (get c scope) [
  | none ↦ some c
  | some u ↦ elim (minus_row n u) [ none ↦ none | some u' ↦ some (put c scope u') ]
]

-- the trigger `remove`: `scope_id IN ('', OLD.scope)`, which updates each row once
unfoldable pub remove_trigger : Row → Counters → Option Counters
remove_trigger r c = elim (subtract "" r.size c) [
  | none ↦ none
  | some c' ↦ if r.scope_id == "" then some c' else subtract r.scope_id r.size c'
]

-- the statements on the tables that the triggers watch, each on one row; a position out of range is
-- no row, and changes nothing
pub data Statement : Type 0 where
  insert_row : Row → Statement
  delete_row : ℕ → Statement
  update_row : ℕ → Row → Statement

-- The rows of all tables of the namespace, in no particular order, and their counters.
pub record Tracked : Type 0 where
  pub rows : List Row
  pub counters : Counters

-- the row at a position, and the others before and after it
abbrev pub split_at : ℕ → List Row → Option (Row × List Row)
split_at n [] = none
split_at zero (r ∷ rows) = some (r, rows)
split_at (suc n) (r ∷ rows) = elim (split_at n rows) [
  | none ↦ none
  | some (x, rest) ↦ some (x, r ∷ rest)
]

abbrev pub remove_from : Option (Row × List Row) → Tracked → Option Tracked
remove_from none t = some t
remove_from (some (r, rest)) t = elim (remove_trigger r t.counters) [
  | none ↦ none
  | some c ↦ some (record { rows = rest; counters = c })
]

abbrev pub replace_in : Row → Option (Row × List Row) → Tracked → Option Tracked
replace_in new none t = some t
replace_in new (some (r, rest)) t = elim (remove_trigger r t.counters) [
  | none ↦ none
  | some c ↦ some (record { rows = new ∷ rest; counters = add_trigger new c })
]

-- a statement and its trigger; `none` if a CHECK fails
unfoldable pub execute : Statement → Tracked → Option Tracked
execute (insert_row r) t = some (record { rows = r ∷ t.rows; counters = add_trigger r t.counters })
execute (delete_row n) t = remove_from (split_at n t.rows) t
execute (update_row n r) t = replace_in r (split_at n t.rows) t

unfoldable pub execute_all : List Statement → Tracked → Option Tracked
execute_all [] t = some t
execute_all (s ∷ ss) t = elim (execute s t) [ none ↦ none | some t' ↦ execute_all ss t' ]

-- `__init__` on a database without rows
abbrev pub installed : Tracked
installed = record { rows = []; counters = ("", nothing) ∷ [] }

-- `usage`: the total must be there; a scope without a counter has none in use
unfoldable pub counted : Option String → Counters → Option Usage
counted none c = get c ""
counted (some scope) c = elim (get c scope) [ none ↦ some nothing | some u ↦ some u ]
