-- ===== src/Store/Lookups.antt =====
use keys_keeper_skill.Prelude.{
  ℕ, String, ◌≡◌, refl, inl, inr, Bool, true, false, none, some, List, [], ◌∷◌, arith, eq_iff, ◌==◌,
  nat_eq, string_eq, option_eq, list_eq, Option-cases, find, elem,
}
use keys_keeper_skill.Prelude.Dict.{Dict, get}
use keys_keeper_skill.Store.Entries.{Entry, Data, returns}
use keys_keeper_skill.Store.Identities.{Uuid4, validate_identities}
use keys_keeper_skill.Store.Transactions.{
  Transaction, commit, materialize, get_by_name, get_by_id, reset_entries,
}
use keys_keeper_skill.Store.Slots.{IsIndex, IsIndexed, IsIndex-only}
use keys_keeper_skill.Store.Opening.{reset_entries-IsIndexed}
use keys_keeper_skill.Store.Sessions.{Edit, edit_all, edit_all-IsIndexed}

module _ (p : Entry → Bool) (records : Dict ℕ Entry) where
  find-absent :
      (order : List ℕ)
      → ((s : ℕ) (r : Entry) → get records s ≡ some r → p r ≡ false)
      → find p (materialize records order) ≡ none
  unfolding materialize
  find-absent [] none_holds = refl
  find-absent (x ∷ order) none_holds = elim (Option-cases (get records x)) [
    | inl empty ↦ ground (arith, find-absent order none_holds)
    | inr (r, at) ↦ ground (arith, find-absent order none_holds, none_holds x r)
  ]

  find-present :
      (order : List ℕ) (s : ℕ) (r : Entry)
      → elem s order ≡ true
      → get records s ≡ some r
      → p r ≡ true
      → ((s' : ℕ) (r' : Entry) → get records s' ≡ some r' → p r' ≡ true → s' ≡ s)
      → find p (materialize records order) ≡ some r
  unfolding materialize
  find-present [] s r member at holds only = ground arith
  find-present (x ∷ order) s r member at holds only = elim (Option-cases (get records x)) [
    | inl empty ↦ ground (arith, find-present order s r)
    | inr (r', at') ↦ ground (arith, find-present order s r, only x r')
  ]

module _ (t : Transaction) (wf : IsIndexed t) where
  lookup :
      (key : Entry → String) (slots : Dict String ℕ)
      → IsIndex key slots t.records_by_slot
      → (k : String)
      → (elim (get slots k) [ none ↦ none | some s ↦ get t.records_by_slot s ])
        ≡ find (λ r. key r == k) (commit t).entries
  lookup key slots index k = elim (Option-cases (get slots k)) [
    | inl free ↦
        let absent =
          find-absent (λ r. key r == k) t.records_by_slot t.order
            (λ s r at. ground (arith, index.covers s r at, eq_iff (key r) k)) in
        ground arith
    | inr (s, used) ↦
        let (r, at, same) = index.leads k s used in
        let present =
          find-present (λ r. key r == k) t.records_by_slot t.order s r (wf.listed s r at) at
            (ground (arith, eq_iff (key r) k))
            (λ s' r' at' same'.
              IsIndex-only key slots t.records_by_slot index s s' r r' at at'
                (ground (arith, eq_iff (key r') k))) in
        ground arith
  ]

-- what the two look-ups of a transaction answer
pub record FindsEntries (t : Transaction) : Type 0 where
  pub by_name : (n : String) → get_by_name n t ≡ find (λ r. r.name == n) (commit t).entries
  pub by_id : (i : String) → get_by_id i t ≡ find (λ r. r.id == i) (commit t).entries

pub IsIndexed-FindsEntries : (t : Transaction) → IsIndexed t → FindsEntries t
unfolding get_by_name get_by_id
IsIndexed-FindsEntries t wf = record {
  by_name = lookup t wf (λ r. r.name) t.slot_by_name wf.by_name;
  by_id = lookup t wf (λ r. r.id) t.slot_by_id wf.by_id;
}

-- In a transaction on entries that have passed the check of their ids and names, a look-up by name
-- or by id, after any additions, replacements and deletions, answers what a scan of the entries in
-- order would.
pub edit_all-FindsEntries :
    (uuid4 : Uuid4) (qs : List Edit) (d : Data) (t : Transaction)
    → validate_identities uuid4 [] [] d.entries ≡ returns tt
    → edit_all qs (reset_entries d.entries d.tombstones) ≡ returns t
    → FindsEntries t
edit_all-FindsEntries uuid4 qs d t valid done = IsIndexed-FindsEntries t (
    edit_all-IsIndexed qs (reset_entries d.entries d.tombstones) t
      (reset_entries-IsIndexed uuid4 d valid) done)
