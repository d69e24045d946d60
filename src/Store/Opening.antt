-- ===== src/Store/Opening.antt =====
use keys_keeper_skill.Prelude.{
  String, ◌≡◌, refl, sym, ap, ◌∙◌, false, none, List, [], ◌∷◌, ◌++◌, arith, eq_iff, nat_eq,
  string_eq, option_eq, list_eq, elem,
}
use mathlib.Core.List.{append_assoc, append-nil}
use keys_keeper_skill.Prelude.Dict.{get, set_default, get-put}
use keys_keeper_skill.Store.Entries.{Entry, Tombstone, Data, returns}
use keys_keeper_skill.Store.Identities.{Uuid4, validate_identities}
use keys_keeper_skill.Store.Transactions.{
  Transaction, append_record, append_records, reset_entries, commit, materialize,
}
use keys_keeper_skill.Store.Slots.{IsIndexed, append_record-IsIndexed}
use keys_keeper_skill.Store.Refinement.{commit-append_record}

-- the names and ids that were met are all that the transaction indexes
record HasMet (ids names : List String) (t : Transaction) : Type 0 where
  no_id : (k : String) → elem k ids ≡ false → get t.slot_by_id k ≡ none
  no_name : (k : String) → elem k names ≡ false → get t.slot_by_name k ≡ none

append_record-HasMet :
    (r : Entry) (ids names : List String) (t : Transaction)
    → HasMet ids names t
    → elem r.id ids ≡ false
    → elem r.name names ≡ false
    → HasMet (r.id ∷ ids) (r.name ∷ names) (append_record r t)
unfolding append_record set_default
append_record-HasMet r ids names t met new_id new_name = record {
  no_id = λ k out. ground (
    arith,
    get-put t.slot_by_id r.id k t.next_slot,
    met.no_id k,
    met.no_id r.id,
    eq_iff r.id k,
    eq_iff k r.id,
  );
  no_name = λ k out. ground (
    arith,
    get-put t.slot_by_name r.name k t.next_slot,
    met.no_name k,
    met.no_name r.name,
    eq_iff r.name k,
    eq_iff k r.name,
  );
}

abbrev appended : Data → List Entry → Data
appended d records = record { entries = d.entries ++ records; tombstones = d.tombstones }

-- what `reset_entries` needs of the records is what the check of their identities gives
append_records-IsIndexed :
    (uuid4 : Uuid4) (records : List Entry) (ids names : List String) (t : Transaction)
    → IsIndexed t
    → HasMet ids names t
    → validate_identities uuid4 ids names records ≡ returns tt
    → IsIndexed (append_records records t)
      × (commit (append_records records t) ≡ appended (commit t) records)
unfolding append_records validate_identities
append_records-IsIndexed uuid4 [] ids names t wf met valid = (
  wf,
  ap (λ rows. record { entries = rows; tombstones = t.tombstones })
      (sym (append-nil (commit t).entries)),
)
append_records-IsIndexed uuid4 (r ∷ records) ids names t wf met valid =
    let new_id : elem r.id ids ≡ false = ground arith in
    let new_name : elem r.name names ≡ false = ground arith in
    let wf' =
      append_record-IsIndexed t wf r (met.no_name r.name new_name) (met.no_id r.id new_id) in
    let (indexed, same) =
      append_records-IsIndexed uuid4 records (r.id ∷ ids) (r.name ∷ names) (append_record r t) wf'
        (append_record-HasMet r ids names t met new_id new_name) (ground arith) in
    (
      indexed,
      same
          ∙ ap (λ d. appended d records) (commit-append_record t wf r)
          ∙ ap (λ rows. record { entries = rows; tombstones = t.tombstones })
              (append_assoc (commit t).entries (r ∷ []) records),
    )

abbrev no_entries : List Tombstone → Transaction
no_entries tombstones = record {
  records_by_slot = [];
  slot_by_name = [];
  slot_by_id = [];
  order = [];
  next_slot = 0;
  tombstones = tombstones;
}

no_entries-IsIndexed : (tombstones : List Tombstone) → IsIndexed (no_entries tombstones)
unfolding get
no_entries-IsIndexed tombstones = record {
  by_name = record { leads = λ k s at. ground arith; covers = λ s r at. ground arith };
  by_id = record { leads = λ k s at. ground arith; covers = λ s r at. ground arith };
  distinct = tt;
  below = λ s at. ground arith;
  listed = λ s r at. ground arith;
}

no_entries-HasMet : (tombstones : List Tombstone) → HasMet [] [] (no_entries tombstones)
unfolding get
no_entries-HasMet tombstones = record { no_id = λ k out. refl; no_name = λ k out. refl }

module _ (uuid4 : Uuid4) (d : Data)
    (valid : validate_identities uuid4 [] [] d.entries ≡ returns tt) where
  opened :
      IsIndexed (append_records d.entries (no_entries d.tombstones))
      × (commit (append_records d.entries (no_entries d.tombstones))
          ≡ appended (commit (no_entries d.tombstones)) d.entries)
  opened =
      append_records-IsIndexed uuid4 d.entries [] [] (no_entries d.tombstones)
        (no_entries-IsIndexed d.tombstones) (no_entries-HasMet d.tombstones) valid

  pub reset_entries-IsIndexed : IsIndexed (reset_entries d.entries d.tombstones)
  unfolding reset_entries
  reset_entries-IsIndexed = opened.0

  -- what is opened and not changed is written back as it was
  pub commit-reset_entries : commit (reset_entries d.entries d.tombstones) ≡ d
  unfolding reset_entries materialize
  commit-reset_entries = opened.1
