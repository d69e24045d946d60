-- ===== src/RelayStorage/Tests.antt =====
-- Two scopes, filled, moved between and emptied by statements on relay_storage.py's tables.
use keys_keeper_skill.Prelude.{◌≡◌, refl, some, List, [], ◌∷◌, string_eq}
use keys_keeper_skill.Prelude.Dict.{get, put}
use keys_keeper_skill.RelayStorage.Triggers.{
  Statement, insert_row, delete_row, update_row, Tracked, execute, execute_all, installed, upsert,
  add_trigger, subtract, remove_trigger,
}
use keys_keeper_skill.RelayStorage.Totals.{Agrees}
use keys_keeper_skill.RelayStorage.Accounting.{execute_all-Agrees}

abbrev statements : List Statement
statements =
    insert_row (record { scope_id = "home"; size = 300 })
    ∷ insert_row (record { scope_id = "work"; size = 260 })
    ∷ update_row 0 (record { scope_id = "home"; size = 270 })
    ∷ delete_row 1
    ∷ []

abbrev one_row_left : Tracked
one_row_left = record {
  rows = (record { scope_id = "home"; size = 270 }) ∷ [];
  counters =
      ("", record { bytes = 270; records = 1 })
      ∷ ("home", record { bytes = 270; records = 1 })
      ∷ ("work", record { bytes = 0; records = 0 })
      ∷ [];
}

statements_result : execute_all statements installed ≡ some one_row_left
unfolding execute_all execute upsert add_trigger subtract remove_trigger get put
statements_result = refl

execute_all-Agrees_example :
    (t : Tracked) × (execute_all statements installed ≡ some t) × Agrees t.counters t.rows
execute_all-Agrees_example = execute_all-Agrees statements refl
