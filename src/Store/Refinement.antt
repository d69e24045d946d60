-- ===== src/Store/Refinement.antt =====
use keys_keeper_skill.Prelude.{
  ℕ, String, ◌≡◌, refl, sym, ap, ◌∙◌, inl, inr, true, ◌&&◌, ◌||◌, some, List, [], ◌∷◌, ◌++◌, arith,
  eq_iff, ◌==◌, ◌!=◌, nat_eq, string_eq, option_eq, list_eq, Bool-cases, Option-cases, any,
}
use keys_keeper_skill.Prelude.Dict.{Dict, get, put, get-put}
use keys_keeper_skill.Store.Entries.{Entry, Data, Answer, returns, raises}
use keys_keeper_skill.Store.Transactions.{
  Transaction, is_taken, is_other, append_record, replace_slot, delete_slot, add, replace_by_name,
  delete_by_name, commit,
}
use keys_keeper_skill.Store.Direct.{add_body, replace_body, delete_body, put_named, append_entry}
use keys_keeper_skill.Store.Views.{
  any-absent, any-present, materialize-append, materialize-put, pop_named-materialize,
  put_named-materialize, pop_named-absent,
}
use keys_keeper_skill.Store.Slots.{IsIndex, IsIndexed, fresh_slot, IsIndex-only}

-- what a transaction leaves to be written
abbrev pub committed : Answer Transaction → Answer Data
committed (returns t) = returns (commit t)
committed (raises e) = raises e

abbrev pub deleted : Answer (Entry × Transaction) → Answer (Entry × Data)
deleted (returns (r, t)) = returns (r, commit t)
deleted (raises e) = raises e

module _ (t : Transaction) (wf : IsIndexed t) where
  -- an index knows whether some entry has the key
  any_entry :
      (key : Entry → String) (slots : Dict String ℕ)
      → IsIndex key slots t.records_by_slot
      → (k : String) → any (λ r. key r == k) (commit t).entries ≡ is_taken (get slots k)
  any_entry key slots index k = elim (Option-cases (get slots k)) [
    | inl free ↦
        any-absent (λ r. key r == k) t.records_by_slot t.order
          (λ s r at. ground (arith, index.covers s r at, eq_iff (key r) k))
        ∙ rw free refl
    | inr (s, used) ↦
        let (r, at, same) = index.leads k s used in
        any-present (λ r. key r == k) t.records_by_slot t.order s r (wf.listed s r at) at
          (ground (arith, eq_iff (key r) k))
        ∙ rw used refl
  ]

  any_entry_either :
      (e : Entry) (rows : List Entry)
      → any (λ r. r.name == e.name || r.id == e.id) rows
        ≡ (any (λ r. r.name == e.name) rows || any (λ r. r.id == e.id) rows)
  any_entry_either e [] = refl
  any_entry_either e (r ∷ rows) = ground (arith, any_entry_either e rows)

  pub commit-append_record : (e : Entry) → commit (append_record e t) ≡ append_entry e (commit t)
  unfolding append_record
  commit-append_record e =
      ap (λ rows. record { entries = rows; tombstones = t.tombstones })
        (materialize-append (put t.records_by_slot t.next_slot e) t.next_slot e t.order
            (ground (arith, get-put t.records_by_slot t.next_slot t.next_slot e))
          ∙ ap (λ rows. rows ++ e ∷ [])
              (materialize-put t.records_by_slot t.next_slot e t.order (fresh_slot t wf)))

  pub add-committed : (e : Entry) → committed (add e t) ≡ add_body e (commit t)
  unfolding add add_body
  add-committed e = ground (
    arith,
    any_entry (λ r. r.name) t.slot_by_name wf.by_name e.name,
    any_entry (λ r. r.id) t.slot_by_id wf.by_id e.id,
    any_entry_either e (commit t).entries,
    commit-append_record e,
  )

  -- another entry has the id: some slot but this one
  other_entry :
      (e r : Entry) (s : ℕ)
      → get t.records_by_slot s ≡ some r
      → r.name ≡ e.name
      → any (λ x. x.id == e.id && x.name != e.name) (commit t).entries
        ≡ is_other (get t.slot_by_id e.id) s
  other_entry e r s here same = elim (Option-cases (get t.slot_by_id e.id)) [
    | inl free ↦
        any-absent (λ x. x.id == e.id && x.name != e.name) t.records_by_slot t.order
          (λ s' x at. ground (arith, wf.by_id.covers s' x at, eq_iff x.id e.id))
        ∙ rw free refl
    | inr (s', used) ↦
        let (x, at, same_id) = wf.by_id.leads e.id s' used in
        elim (Bool-cases (s' == s)) [
          | inl here' ↦
              any-absent (λ x. x.id == e.id && x.name != e.name) t.records_by_slot t.order
                (λ s₂ y at₂.
                  ground (arith, wf.by_id.covers s₂ y at₂, eq_iff y.id e.id, eq_iff y.name e.name))
              ∙ ground arith
          | inr elsewhere ↦
              any-present (λ x. x.id == e.id && x.name != e.name) t.records_by_slot t.order s' x
                (wf.listed s' x at) at
                (ground (
                  arith,
                  eq_iff x.id e.id,
                  eq_iff x.name e.name,
                  wf.by_name.covers s' x at,
                  wf.by_name.covers s r here,
                ))
              ∙ ground arith
        ]
  ]

  only_named :
      (n : String) (s : ℕ) (r : Entry)
      → get t.records_by_slot s ≡ some r
      → r.name ≡ n
      → (s' : ℕ) (r' : Entry) → get t.records_by_slot s' ≡ some r'
      → (r'.name == n) ≡ true
      → s' ≡ s
  only_named n s r here same s' r' at named =
      IsIndex-only (λ x. x.name) t.slot_by_name t.records_by_slot wf.by_name s s' r r' here at
        (ground (arith, eq_iff r'.name n))

  commit-replace_slot :
      (e r : Entry) (s : ℕ)
      → get t.records_by_slot s ≡ some r
      → r.name ≡ e.name
      → commit (replace_slot e s r t)
        ≡ (record { entries = put_named e (commit t).entries; tombstones = t.tombstones })
  unfolding replace_slot
  commit-replace_slot e r s here same =
      ap (λ rows. record { entries = rows; tombstones = t.tombstones })
        (sym (
          put_named-materialize e.name t.records_by_slot s r here
            (ground (arith, eq_iff r.name e.name)) (only_named e.name s r here same) e t.order refl
            wf.distinct (wf.listed s r here)))

  pub replace_by_name-committed :
      (e : Entry) → committed (replace_by_name e t) ≡ replace_body e (commit t)
  unfolding replace_by_name replace_body add
  replace_by_name-committed e = elim (Option-cases (get t.slot_by_name e.name)) [
    | inl free ↦ ground (
      arith,
      any_entry (λ r. r.name) t.slot_by_name wf.by_name e.name,
      any_entry (λ r. r.id) t.slot_by_id wf.by_id e.id,
      commit-append_record e,
    )
    | inr (s, used) ↦
        let (r, at, same) = wf.by_name.leads e.name s used in
        ground (
          arith,
          any_entry (λ r. r.name) t.slot_by_name wf.by_name e.name,
          other_entry e r s at same,
          commit-replace_slot e r s at same,
        )
  ]

  pub delete_by_name-committed :
      (now n : String) → deleted (delete_by_name now n t) ≡ delete_body now n (commit t)
  unfolding delete_by_name delete_body delete_slot
  delete_by_name-committed now n = elim (Option-cases (get t.slot_by_name n)) [
    | inl free ↦
        let unnamed =
          pop_named-absent n (commit t).entries
            (any_entry (λ r. r.name) t.slot_by_name wf.by_name n ∙ rw free refl) in
        ground arith
    | inr (s, used) ↦
        let (r, at, same) = wf.by_name.leads n s used in
        let popped =
          pop_named-materialize n t.records_by_slot s r at (ground (arith, eq_iff r.name n))
            (only_named n s r at same) t.order wf.distinct (wf.listed s r at) in
        ground arith
  ]
