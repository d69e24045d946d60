-- ===== src/Store/Slots.antt =====
use keys_keeper_skill.Prelude.{
  ℕ, ◌<◌, String, ◌≡◌, refl, ◌≢◌, inl, inr, true, false, ◌||◌, none, some, List, [], ◌∷◌, ◌++◌,
  arith, eq_iff, ◌==◌, ◌!=◌, if◌then◌else◌, nat_eq, string_eq, option_eq, list_eq, Bool-cases,
  Option-cases, elem,
}
use keys_keeper_skill.Prelude.Dict.{Dict, get, put, remove, set_default, get-put, get-remove}
use keys_keeper_skill.Store.Entries.{Entry}
use keys_keeper_skill.Store.Transactions.{
  Transaction, is_other, append_record, replace_slot, update_slot, delete_slot,
}
use keys_keeper_skill.Store.Views.{IsDistinct}

-- An index leads to the record with that key, and every record is indexed by its key.
pub record IsIndex (key : Entry → String) (slots : Dict String ℕ) (records : Dict ℕ Entry)
    : Type 0 where
  pub leads :
      (k : String) (s : ℕ)
      → get slots k ≡ some s
      → (r : Entry) × (get records s ≡ some r) × (key r ≡ k)
  pub covers : (s : ℕ) (r : Entry) → get records s ≡ some r → get slots (key r) ≡ some s

-- Names and ids are indexed both ways, and the order lists each slot in use once.
pub record IsIndexed (t : Transaction) : Type 0 where
  pub by_name : IsIndex (λ r. r.name) t.slot_by_name t.records_by_slot
  pub by_id : IsIndex (λ r. r.id) t.slot_by_id t.records_by_slot
  pub distinct : IsDistinct t.order
  pub below : (s : ℕ) → elem s t.order ≡ true → s < t.next_slot
  pub listed : (s : ℕ) (r : Entry) → get t.records_by_slot s ≡ some r → elem s t.order ≡ true

module _ (key : Entry → String) (slots : Dict String ℕ) (records : Dict ℕ Entry)
    (index : IsIndex key slots records) where
  -- a record in a new slot, under a key that no record has
  pub IsIndex-set_default :
      (s : ℕ) (r : Entry)
      → get records s ≡ none
      → get slots (key r) ≡ none
      → IsIndex key (set_default slots (key r) s) (put records s r)
  unfolding set_default
  IsIndex-set_default s r free new = record {
    leads = λ k s' at. ground (
      arith,
      get-put slots (key r) k s,
      get-put records s s' r,
      index.leads k s',
      eq_iff (key r) k,
    );
    covers = λ s' r' at. ground (
      arith,
      get-put slots (key r) (key r') s,
      get-put records s s' r,
      index.covers s' r',
      eq_iff (key r) (key r'),
    );
  }

  pub IsIndex-remove :
      (s : ℕ) (r : Entry)
      → get records s ≡ some r
      → IsIndex key (remove slots (key r)) (remove records s)
  IsIndex-remove s r here = record {
    leads = λ k s' at. ground (
      arith,
      get-remove slots (key r) k,
      get-remove records s s',
      index.leads k s',
      index.covers s r,
      eq_iff (key r) k,
    );
    covers = λ s' r' at. ground (
      arith,
      get-remove slots (key r) (key r'),
      get-remove records s s',
      index.covers s' r',
      index.covers s r,
      eq_iff (key r) (key r'),
    );
  }

  -- a record in place of another one, with its key
  pub IsIndex-put_same :
      (s : ℕ) (r e : Entry)
      → get records s ≡ some r
      → key e ≡ key r
      → IsIndex key slots (put records s e)
  IsIndex-put_same s r e here same = record {
    leads = λ k s' at. ground (arith, get-put records s s' e, index.leads k s', index.covers s r);
    covers =
        λ s' r' at. ground (arith, get-put records s s' e, index.covers s' r', index.covers s r);
  }

  -- a record in place of another one, under another key that no other record has
  pub IsIndex-put_other :
      (s : ℕ) (r e : Entry)
      → get records s ≡ some r
      → is_other (get slots (key e)) s ≡ false
      → key r ≢ key e
      → IsIndex key (put (remove slots (key r)) (key e) s) (put records s e)
  IsIndex-put_other s r e here free changed = record {
    leads = λ k s' at. ground (
      arith,
      get-put (remove slots (key r)) (key e) k s,
      get-remove slots (key r) k,
      get-put records s s' e,
      index.leads k s',
      index.covers s r,
      eq_iff (key e) k,
      eq_iff (key r) k,
    );
    covers = λ s' r' at. ground (
      arith,
      get-put (remove slots (key r)) (key e) (key r') s,
      get-remove slots (key r) (key r'),
      get-put records s s' e,
      index.covers s' r',
      index.covers s r,
      eq_iff (key e) (key r'),
      eq_iff (key r) (key r'),
    );
  }

  -- the key of a record leads nowhere else
  pub IsIndex-only :
      (s s' : ℕ) (r r' : Entry)
      → get records s ≡ some r
      → get records s' ≡ some r'
      → key r' ≡ key r
      → s' ≡ s
  IsIndex-only s s' r r' here there same = ground (arith, index.covers s r, index.covers s' r')

elem-snoc : (s x : ℕ) (order : List ℕ) → elem s (order ++ x ∷ []) ≡ (elem s order || s == x)
elem-snoc s x [] = ground arith
elem-snoc s x (y ∷ order) = ground (arith, elem-snoc s x order)

IsDistinct-snoc :
    (x : ℕ) (order : List ℕ)
    → IsDistinct order
    → elem x order ≡ false
    → IsDistinct (order ++ x ∷ [])
IsDistinct-snoc x [] distinct fresh = (refl, tt)
IsDistinct-snoc x (y ∷ order) distinct fresh =
    (ground (arith, elem-snoc y x order), IsDistinct-snoc x order distinct.1 (ground arith))

module _ (t : Transaction) (wf : IsIndexed t) where
  -- the next slot is new
  pub fresh_slot : elem t.next_slot t.order ≡ false
  fresh_slot = ground (arith, wf.below t.next_slot)

  pub fresh_record : get t.records_by_slot t.next_slot ≡ none
  fresh_record = elim (Option-cases (get t.records_by_slot t.next_slot)) [
    | inl empty ↦ empty
    | inr (r, at) ↦ ground (arith, fresh_slot, wf.listed t.next_slot r at)
  ]

  pub append_record-IsIndexed :
      (r : Entry)
      → get t.slot_by_name r.name ≡ none
      → get t.slot_by_id r.id ≡ none
      → IsIndexed (append_record r t)
  unfolding append_record
  append_record-IsIndexed r new_name new_id = record {
    by_name =
        IsIndex-set_default (λ e. e.name) t.slot_by_name t.records_by_slot wf.by_name t.next_slot r
          fresh_record new_name;
    by_id =
        IsIndex-set_default (λ e. e.id) t.slot_by_id t.records_by_slot wf.by_id t.next_slot r
          fresh_record new_id;
    distinct = IsDistinct-snoc t.next_slot t.order wf.distinct fresh_slot;
    below = λ s at. ground (arith, elem-snoc s t.next_slot t.order, wf.below s);
    listed = λ s r' at. ground (
      arith,
      elem-snoc s t.next_slot t.order,
      get-put t.records_by_slot t.next_slot s r,
      wf.listed s r',
    );
  }

  module _ (s : ℕ) (r : Entry) (here : get t.records_by_slot s ≡ some r) where
    pub delete_slot-IsIndexed : (now : String) → IsIndexed (delete_slot now s r t)
    unfolding delete_slot
    delete_slot-IsIndexed now = record {
      by_name = IsIndex-remove (λ e. e.name) t.slot_by_name t.records_by_slot wf.by_name s r here;
      by_id = IsIndex-remove (λ e. e.id) t.slot_by_id t.records_by_slot wf.by_id s r here;
      distinct = wf.distinct;
      below = wf.below;
      listed = λ s' r' at. ground (arith, get-remove t.records_by_slot s s', wf.listed s' r');
    }

    still_listed :
        (e : Entry) (s' : ℕ) (r' : Entry)
        → get (put t.records_by_slot s e) s' ≡ some r'
        → elem s' t.order ≡ true
    still_listed e s' r' at =
        ground (arith, get-put t.records_by_slot s s' e, wf.listed s' r', wf.listed s r)

    -- an index after a replacement, whether the key changes or not
    moved :
        (key : Entry → String) (slots : Dict String ℕ)
        → IsIndex key slots t.records_by_slot
        → (e : Entry) → is_other (get slots (key e)) s ≡ false
        → IsIndex key
            (if key r != key e then put (remove slots (key r)) (key e) s else slots)
            (put t.records_by_slot s e)
    moved key slots index e free = elim (Bool-cases (key r == key e)) [
      | inl same ↦ rw same (
          IsIndex-put_same key slots t.records_by_slot index s r e here
            (ground (arith, eq_iff (key r) (key e))))
      | inr other ↦ rw other (
          IsIndex-put_other key slots t.records_by_slot index s r e here free
            (ground (arith, eq_iff (key r) (key e))))
    ]

    pub replace_slot-IsIndexed :
        (e : Entry)
        → e.name ≡ r.name
        → is_other (get t.slot_by_id e.id) s ≡ false
        → IsIndexed (replace_slot e s r t)
    unfolding replace_slot
    replace_slot-IsIndexed e same free = record {
      by_name =
          IsIndex-put_same (λ x. x.name) t.slot_by_name t.records_by_slot wf.by_name s r e here
            same;
      by_id = moved (λ x. x.id) t.slot_by_id wf.by_id e free;
      distinct = wf.distinct;
      below = wf.below;
      listed = still_listed e;
    }

    pub update_slot-IsIndexed :
        (e : Entry)
        → e.id ≡ r.id
        → is_other (get t.slot_by_name e.name) s ≡ false
        → IsIndexed (update_slot e s r t)
    unfolding update_slot
    update_slot-IsIndexed e same free = record {
      by_name = moved (λ x. x.name) t.slot_by_name wf.by_name e free;
      by_id = IsIndex-put_same (λ x. x.id) t.slot_by_id t.records_by_slot wf.by_id s r e here same;
      distinct = wf.distinct;
      below = wf.below;
      listed = still_listed e;
    }
