-- ===== src/Store/Uniqueness.antt =====
use keys_keeper_skill.Prelude.{
  ℕ, String, ◌≡◌, refl, sym, ◌∙◌, subst, inl, inr, Bool, true, false, ◌&&◌, some, List, [], ◌∷◌,
  ◌++◌, arith, eq_iff, nat_eq, string_eq, option_eq, list_eq, Option-cases, elem,
}
use keys_keeper_skill.Prelude.Dict.{get}
use keys_keeper_skill.Store.Entries.{Entry, Data, returns}
use keys_keeper_skill.Store.Identities.{Uuid4, validate_identities, is_entry_id, is_name}
use keys_keeper_skill.Store.Transactions.{Transaction, commit, materialize, reset_entries}
use keys_keeper_skill.Store.Direct.{add_body, replace_body, delete_body, put_named, pop_named}
use keys_keeper_skill.Store.Views.{IsDistinct}
use keys_keeper_skill.Store.Slots.{IsIndexed}
use keys_keeper_skill.Store.Opening.{reset_entries-IsIndexed}
use keys_keeper_skill.Store.Sessions.{
  Edit, add_entry, replace_entry, delete_entry, edit_all, edit_body, edit_bodies, session_body,
  edit_all-IsIndexed, session_body-edit_bodies, Answer-cases,
}

module _ (uuid4 : Uuid4) where
  -- an id and a name of the right form
  abbrev pub is_valid : Entry → Bool
  is_valid r = is_entry_id uuid4 r.id && is_name r.name

  abbrev pub all_valid : List Entry → Bool
  all_valid [] = true
  all_valid (r ∷ rows) = is_valid r && all_valid rows

  -- the entry that an edit brings has an id and a name of the right form
  abbrev pub brings_valid : Edit → Bool
  brings_valid (add_entry e) = is_valid e
  brings_valid (replace_entry e) = is_valid e
  brings_valid (delete_entry now n) = true

  validate_identities-materialize :
      (t : Transaction) (wf : IsIndexed t) (ids names : List String) (order : List ℕ)
      → IsDistinct order
      → ((s : ℕ) (r : Entry)
          → elem s order ≡ true
          → get t.records_by_slot s ≡ some r
          → (elem r.id ids ≡ false) × (elem r.name names ≡ false))
      → all_valid (materialize t.records_by_slot order) ≡ true
      → validate_identities uuid4 ids names (materialize t.records_by_slot order) ≡ returns tt
  unfolding materialize validate_identities
  validate_identities-materialize t wf ids names [] distinct unmet valid = refl
  validate_identities-materialize t wf ids names (x ∷ order) distinct unmet valid =
      elim (Option-cases (get t.records_by_slot x)) [
        | inl empty ↦
            let rest =
              validate_identities-materialize t wf ids names order distinct.1
                (λ s r member at. unmet s r (ground arith) at) (ground arith) in
            ground arith
        | inr (r, at) ↦
            let (new_id, new_name) = unmet x r (ground arith) at in
            let rest =
              validate_identities-materialize t wf (r.id ∷ ids) (r.name ∷ names) order distinct.1
                (λ s r' member at'.
                  let (new_id', new_name') = unmet s r' (ground arith) at' in
                  (
                    ground (
                      arith,
                      wf.by_id.covers s r' at',
                      wf.by_id.covers x r at,
                      eq_iff r'.id r.id,
                    ),
                    ground (
                      arith,
                      wf.by_name.covers s r' at',
                      wf.by_name.covers x r at,
                      eq_iff r'.name r.name,
                    ),
                  ))
                (ground arith) in
            ground arith
      ]

  all_valid-append :
      (rows : List Entry) (e : Entry)
      → all_valid rows ≡ true
      → is_valid e ≡ true
      → all_valid (rows ++ e ∷ []) ≡ true
  all_valid-append [] e valid new = ground arith
  all_valid-append (r ∷ rows) e valid new = ground (arith, all_valid-append rows e)

  all_valid-put_named :
      (rows : List Entry) (e : Entry)
      → all_valid rows ≡ true
      → is_valid e ≡ true
      → all_valid (put_named e rows) ≡ true
  unfolding put_named
  all_valid-put_named [] e valid new = refl
  all_valid-put_named (r ∷ rows) e valid new = ground (arith, all_valid-put_named rows e)

  all_valid-pop_named :
      (n : String) (rows : List Entry) (r : Entry) (rest : List Entry)
      → all_valid rows ≡ true
      → pop_named n rows ≡ some (r, rest)
      → all_valid rest ≡ true
  unfolding pop_named
  all_valid-pop_named n [] r rest valid popped = ground arith
  all_valid-pop_named n (x ∷ rows) r rest valid popped = elim (Option-cases (pop_named n rows)) [
    | inl absent ↦ ground arith
    | inr ((y, ys), at) ↦ ground (arith, all_valid-pop_named n rows y ys)
  ]

  edit_body-all_valid :
      (q : Edit) (d d' : Data)
      → all_valid d.entries ≡ true
      → brings_valid q ≡ true
      → edit_body q d ≡ returns d'
      → all_valid d'.entries ≡ true
  unfolding add_body replace_body delete_body
  edit_body-all_valid (add_entry e) d d' valid new done =
      ground (arith, all_valid-append d.entries e)
  edit_body-all_valid (replace_entry e) d d' valid new done =
      ground (arith, all_valid-append d.entries e, all_valid-put_named d.entries e)
  edit_body-all_valid (delete_entry now n) d d' valid new done =
      elim (Option-cases (pop_named n d.entries)) [
        | inl absent ↦ ground arith
        | inr ((r, rest), at) ↦ ground (arith, all_valid-pop_named n d.entries r rest valid at)
      ]

  abbrev pub all_bring_valid : List Edit → Bool
  all_bring_valid [] = true
  all_bring_valid (q ∷ qs) = brings_valid q && all_bring_valid qs

  edit_bodies-all_valid :
      (qs : List Edit) (d d' : Data)
      → all_valid d.entries ≡ true
      → all_bring_valid qs ≡ true
      → edit_bodies qs d ≡ returns d'
      → all_valid d'.entries ≡ true
  unfolding edit_bodies
  edit_bodies-all_valid [] d d' valid new done = ground arith
  edit_bodies-all_valid (q ∷ qs) d d' valid new done = elim (Answer-cases (edit_body q d)) [
    | inl (d₁, step) ↦
        edit_bodies-all_valid qs d₁ d' (edit_body-all_valid q d d₁ valid (ground arith) step)
          (ground arith) (ground arith)
    | inr (e, failed) ↦ ground arith
  ]

  validate_identities-all_valid :
      (ids names : List String) (rows : List Entry)
      → validate_identities uuid4 ids names rows ≡ returns tt
      → all_valid rows ≡ true
  unfolding validate_identities
  validate_identities-all_valid ids names [] checked = refl
  validate_identities-all_valid ids names (r ∷ rows) checked =
      ground (arith, validate_identities-all_valid (r.id ∷ ids) (r.name ∷ names) rows)

-- The check of ids and names when a transaction is written cannot fail: if the entries that were
-- read passed it, and each entry that is added or put in place of another has an id and a name of
-- the right form, then the entries after any edits pass it, so no id and no name is there twice.
pub session-validate_identities :
    (uuid4 : Uuid4) (qs : List Edit) (d d' : Data)
    → validate_identities uuid4 [] [] d.entries ≡ returns tt
    → all_bring_valid uuid4 qs ≡ true
    → session_body qs d ≡ returns d'
    → validate_identities uuid4 [] [] d'.entries ≡ returns tt
session-validate_identities uuid4 qs d d' checked new done =
    elim (Answer-cases (edit_all qs (reset_entries d.entries d.tombstones))) [
      | inl (t, step) ↦
          let wf =
            edit_all-IsIndexed qs (reset_entries d.entries d.tombstones) t
              (reset_entries-IsIndexed uuid4 d checked) step in
          let same : commit t ≡ d' = ground arith in
          let valid =
            edit_bodies-all_valid uuid4 qs d d'
              (validate_identities-all_valid uuid4 [] [] d.entries checked) new
              (sym (session_body-edit_bodies uuid4 qs d checked) ∙ done) in
          subst (λ (x : Data). validate_identities uuid4 [] [] x.entries ≡ returns tt) same
            (validate_identities-materialize uuid4 t wf [] [] t.order wf.distinct
              (λ s r member at. (refl, refl))
              (subst (λ (x : Data). all_valid uuid4 x.entries ≡ true) (sym same) valid))
      | inr (e, failed) ↦ ground arith
    ]
