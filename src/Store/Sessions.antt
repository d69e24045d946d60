-- ===== src/Store/Sessions.antt =====
use keys_keeper_skill.Prelude.{
  String, ◌≡◌, refl, sym, ap, ◌∙◌, subst, ◌⊎◌, inl, inr, List, [], ◌∷◌, arith, nat_eq, string_eq,
  option_eq, list_eq, Option-cases,
}
use keys_keeper_skill.Prelude.Dict.{get}
use keys_keeper_skill.Store.Entries.{Entry, Data, StoreError, Answer, returns, raises}
use keys_keeper_skill.Store.Identities.{Uuid4, validate_identities}
use keys_keeper_skill.Store.Transactions.{
  Transaction, add, replace_by_name, delete_by_name, update, commit, reset_entries,
}
use keys_keeper_skill.Store.Direct.{add_body, replace_body, delete_body}
use keys_keeper_skill.Store.Slots.{
  IsIndexed, append_record-IsIndexed, delete_slot-IsIndexed, replace_slot-IsIndexed,
  update_slot-IsIndexed,
}
use keys_keeper_skill.Store.Refinement.{
  committed, deleted, add-committed, replace_by_name-committed, delete_by_name-committed,
}
use keys_keeper_skill.Store.Opening.{reset_entries-IsIndexed, commit-reset_entries}

-- the changes that a transaction and the store itself both offer
pub data Edit : Type 0 where
  add_entry : Entry → Edit
  replace_entry : Entry → Edit
  delete_entry : String → String → Edit

abbrev pub dropped {ℓ κ} : {A : Type ℓ} {B : Type κ} → Answer (A × B) → Answer B
dropped (returns (a, b)) = returns b
dropped (raises e) = raises e

abbrev pub then_do {ℓ κ} : {A : Type ℓ} {B : Type κ} → Answer A → (A → Answer B) → Answer B
then_do (returns a) f = f a
then_do (raises e) f = raises e

abbrev pub edit : Edit → Transaction → Answer Transaction
edit (add_entry e) t = add e t
edit (replace_entry e) t = replace_by_name e t
edit (delete_entry now n) t = dropped (delete_by_name now n t)

abbrev pub edit_body : Edit → Data → Answer Data
edit_body (add_entry e) d = add_body e d
edit_body (replace_entry e) d = replace_body e d
edit_body (delete_entry now n) d = dropped (delete_body now n d)

-- `with self.transaction() as tx:` and its body; an exception in it ends both
unfoldable pub edit_all : List Edit → Transaction → Answer Transaction
edit_all [] t = returns t
edit_all (q ∷ qs) t = then_do (edit q t) (edit_all qs)

unfoldable pub edit_bodies : List Edit → Data → Answer Data
edit_bodies [] d = returns d
edit_bodies (q ∷ qs) d = then_do (edit_body q d) (edit_bodies qs)

-- a transaction on what was read, before the check of `_locked_write`
abbrev pub session_body : List Edit → Data → Answer Data
session_body qs d = committed (edit_all qs (reset_entries d.entries d.tombstones))

dropped-returns :
    (a : Answer (Entry × Transaction)) (t' : Transaction)
    → dropped a ≡ returns t'
    → (r : Entry) × (a ≡ returns (r, t'))
dropped-returns (returns (r, t)) t' done = (r, ground arith)
dropped-returns (raises e) t' done = ground arith

committed-dropped : (a : Answer (Entry × Transaction)) → committed (dropped a) ≡ dropped (deleted a)
committed-dropped (returns (r, t)) = refl
committed-dropped (raises e) = refl

pub Answer-cases {ℓ} :
    {A : Type ℓ} (o : Answer A) → ((a : A) × (o ≡ returns a)) ⊎ ((e : StoreError) × (o ≡ raises e))
Answer-cases (returns a) = inl (a, refl)
Answer-cases (raises e) = inr (e, refl)

module _ (t : Transaction) (wf : IsIndexed t) where
  add-IsIndexed : (e : Entry) (t' : Transaction) → add e t ≡ returns t' → IsIndexed t'
  unfolding add
  add-IsIndexed e t' done =
      subst IsIndexed (ground arith) (append_record-IsIndexed t wf e (ground arith) (ground arith))

  replace_by_name-IsIndexed :
      (e : Entry) (t' : Transaction) → replace_by_name e t ≡ returns t' → IsIndexed t'
  unfolding replace_by_name
  replace_by_name-IsIndexed e t' done = elim (Option-cases (get t.slot_by_name e.name)) [
    | inl free ↦ add-IsIndexed e t' (ground arith)
    | inr (s, used) ↦
        let (r, at, same) = wf.by_name.leads e.name s used in
        subst IsIndexed (ground arith)
          (replace_slot-IsIndexed t wf s r at e (sym same) (ground arith))
  ]

  delete_by_name-IsIndexed :
      (now n : String) (r : Entry) (t' : Transaction)
      → delete_by_name now n t ≡ returns (r, t')
      → IsIndexed t'
  unfolding delete_by_name
  delete_by_name-IsIndexed now n r t' done = elim (Option-cases (get t.slot_by_name n)) [
    | inl free ↦ ground arith
    | inr (s, used) ↦
        let (r', at, same) = wf.by_name.leads n s used in
        subst IsIndexed (ground arith) (delete_slot-IsIndexed t wf s r' at now)
  ]

  -- An update of a transaction keeps its names and ids indexed, whatever it renames.
  pub update-IsIndexed : (e : Entry) (t' : Transaction) → update e t ≡ returns t' → IsIndexed t'
  unfolding update
  update-IsIndexed e t' done = elim (Option-cases (get t.slot_by_id e.id)) [
    | inl free ↦ ground arith
    | inr (s, used) ↦
        let (r, at, same) = wf.by_id.leads e.id s used in
        subst IsIndexed (ground arith)
          (update_slot-IsIndexed t wf s r at e (sym same) (ground arith))
  ]

  edit-IsIndexed : (q : Edit) (t' : Transaction) → edit q t ≡ returns t' → IsIndexed t'
  edit-IsIndexed (add_entry e) t' done = add-IsIndexed e t' done
  edit-IsIndexed (replace_entry e) t' done = replace_by_name-IsIndexed e t' done
  edit-IsIndexed (delete_entry now n) t' done =
      let (r, deleted_r) = dropped-returns (delete_by_name now n t) t' done in
      delete_by_name-IsIndexed now n r t' deleted_r

  edit-committed : (q : Edit) → committed (edit q t) ≡ edit_body q (commit t)
  edit-committed (add_entry e) = add-committed t wf e
  edit-committed (replace_entry e) = replace_by_name-committed t wf e
  edit-committed (delete_entry now n) =
      committed-dropped (delete_by_name now n t) ∙ ap dropped (delete_by_name-committed t wf now n)

pub edit_all-IsIndexed :
    (qs : List Edit) (t t' : Transaction) → IsIndexed t → edit_all qs t ≡ returns t' → IsIndexed t'
unfolding edit_all
edit_all-IsIndexed [] t t' wf done = subst IsIndexed (ground arith) wf
edit_all-IsIndexed (q ∷ qs) t t' wf done = elim (Answer-cases (edit q t)) [
  | inl (t₁, step) ↦ edit_all-IsIndexed qs t₁ t' (edit-IsIndexed t wf q t₁ step) (ground arith)
  | inr (e, failed) ↦ ground arith
]

edit_all-committed :
    (qs : List Edit) (t : Transaction)
    → IsIndexed t
    → committed (edit_all qs t) ≡ edit_bodies qs (commit t)
unfolding edit_all edit_bodies
edit_all-committed [] t wf = refl
edit_all-committed (q ∷ qs) t wf = elim (Answer-cases (edit q t)) [
  | inl (t₁, step) ↦
      let rest = edit_all-committed qs t₁ (edit-IsIndexed t wf q t₁ step) in
      ground (arith, edit-committed t wf q)
  | inr (e, failed) ↦ ground (arith, edit-committed t wf q)
]

-- the transaction's changes are those of the store's own operations
pub session_body-edit_bodies :
    (uuid4 : Uuid4) (qs : List Edit) (d : Data)
    → validate_identities uuid4 [] [] d.entries ≡ returns tt
    → session_body qs d ≡ edit_bodies qs d
session_body-edit_bodies uuid4 qs d valid =
    edit_all-committed qs (reset_entries d.entries d.tombstones)
      (reset_entries-IsIndexed uuid4 d valid)
    ∙ ap (edit_bodies qs) (commit-reset_entries uuid4 d valid)
