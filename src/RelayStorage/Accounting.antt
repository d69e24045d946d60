-- ===== src/RelayStorage/Accounting.antt =====
-- relay_storage.py over any sequence of statements: the counters stay the sums over the rows.
use keys_keeper_skill.Prelude.{
  ℕ, ◌≡◌, refl, ap, ◌∙◌, ◌≢◌, inl, inr, Bool, true, false, ◌&&◌, none, some, List, [], ◌∷◌, arith,
  eq_iff, ◌==◌, ◌!=◌, nat_eq, string_eq, option_eq, list_eq, Option-cases, any,
}
use keys_keeper_skill.Prelude.Dict.{get}
use keys_keeper_skill.SyncServer.Storage.{tally}
use keys_keeper_skill.RelayStorage.Triggers.{
  Row, Counters, add_trigger, Statement, insert_row, delete_row, update_row, Tracked, split_at,
  execute, execute_all, installed, counted,
}
use keys_keeper_skill.RelayStorage.Totals.{
  Agrees, in_use-split_at, named-split_at, remove_trigger-Agrees, add_trigger-total,
  add_trigger-scope,
}

-- The counters agree with the rows, and no row has the empty scope, under which the total is kept.
pub record Counts (t : Tracked) : Type 0 where
  pub agrees : Agrees t.counters t.rows
  pub named : any (λ r. r.scope_id == "") t.rows ≡ false

-- the statement brings no row of the empty scope
abbrev pub is_named : Statement → Bool
is_named (insert_row r) = r.scope_id != ""
is_named (delete_row n) = true
is_named (update_row n r) = r.scope_id != ""

add_trigger-Agrees :
    (r : Row) (c : Counters) (rows : List Row)
    → r.scope_id ≢ ""
    → Agrees c rows
    → Agrees (add_trigger r c) (r ∷ rows)
add_trigger-Agrees r c rows named (total, scope) =
    (add_trigger-total r c rows named total scope, add_trigger-scope r c rows named total scope)

Agrees-split_at :
    (n : ℕ) (c : Counters) (rows : List Row) (r : Row) (rest : List Row)
    → split_at n rows ≡ some (r, rest)
    → Agrees c rows
    → Agrees c (r ∷ rest)
Agrees-split_at n c rows r rest at (total, scope) = (
  total ∙ ap some (in_use-split_at none n rows r rest at),
  λ s other. scope s other ∙ ap some (in_use-split_at (some s) n rows r rest at),
)

execute-Counts :
    (s : Statement) (t : Tracked)
    → Counts t
    → is_named s ≡ true
    → (t' : Tracked) × (execute s t ≡ some t') × Counts t'
unfolding execute
execute-Counts (insert_row r) t ok named =
    let apart : r.scope_id ≢ "" = ground (arith, eq_iff r.scope_id "") in
    (
      record { rows = r ∷ t.rows; counters = add_trigger r t.counters },
      refl,
      record {
        agrees = add_trigger-Agrees r t.counters t.rows apart ok.agrees;
        named = ground (arith, ok.named);
      },
    )
execute-Counts (delete_row n) t ok named = elim (Option-cases (split_at n t.rows)) [
  | inl out ↦ (t, rw out refl, ok)
  | inr ((r, rest), at) ↦
      let clean = named-split_at n t.rows r rest at ok.named in
      let apart : r.scope_id ≢ "" = ground (arith, eq_iff r.scope_id "") in
      let (c, done, agrees) =
        remove_trigger-Agrees r t.counters rest apart
          (Agrees-split_at n t.counters t.rows r rest at ok.agrees) in
      (
        record { rows = rest; counters = c },
        ground arith,
        record { agrees = agrees; named = ground arith },
      )
]
execute-Counts (update_row n new) t ok named = elim (Option-cases (split_at n t.rows)) [
  | inl out ↦ (t, rw out refl, ok)
  | inr ((r, rest), at) ↦
      let clean = named-split_at n t.rows r rest at ok.named in
      let apart : r.scope_id ≢ "" = ground (arith, eq_iff r.scope_id "") in
      let apart' : new.scope_id ≢ "" = ground (arith, eq_iff new.scope_id "") in
      let (c, done, agrees) =
        remove_trigger-Agrees r t.counters rest apart
          (Agrees-split_at n t.counters t.rows r rest at ok.agrees) in
      (
        record { rows = new ∷ rest; counters = add_trigger new c },
        ground arith,
        record { agrees = add_trigger-Agrees new c rest apart' agrees; named = ground arith },
      )
]

installed-Counts : Counts installed
unfolding counted get tally
installed-Counts = record { agrees = (refl, λ s other. ground (arith, eq_iff "" s)); named = refl }

abbrev pub all_named : List Statement → Bool
all_named [] = true
all_named (s ∷ ss) = is_named s && all_named ss

execute_all-Counts :
    (ss : List Statement) (t : Tracked)
    → Counts t
    → all_named ss ≡ true
    → (t' : Tracked) × (execute_all ss t ≡ some t') × Counts t'
unfolding execute_all
execute_all-Counts [] t ok named = (t, refl, ok)
execute_all-Counts (s ∷ ss) t ok named =
    let (t₁, first, ok₁) = execute-Counts s t ok (ground arith) in
    let (t', rest, ok') = execute_all-Counts ss t₁ ok₁ (ground arith) in (t', ground arith, ok')

-- Whatever rows are inserted, deleted and updated in tables that start empty, none with an empty
-- scope, no CHECK of the triggers fails, and afterwards the relay's total and the counters of each
-- scope are the sizes and the number of the rows that are there.
pub execute_all-Agrees :
    (ss : List Statement)
    → all_named ss ≡ true
    → (t : Tracked) × (execute_all ss installed ≡ some t) × Agrees t.counters t.rows
execute_all-Agrees ss named =
    let (t, done, ok) = execute_all-Counts ss installed installed-Counts named in
    (t, done, ok.agrees)
