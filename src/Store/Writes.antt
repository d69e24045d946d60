-- ===== src/Store/Writes.antt =====
-- `_locked_write` of store.py around a transaction and around the store's own operations.
use keys_keeper_skill.Prelude.{
  String, ◌≡◌, refl, ap, ◌∙◌, inl, inr, true, List, [], ◌∷◌, arith, nat_eq, string_eq, option_eq,
  list_eq,
}
use keys_keeper_skill.Store.Entries.{Entry, Data, Answer, returns, raises}
use keys_keeper_skill.Store.Identities.{Uuid4, validate_identities}
use keys_keeper_skill.Store.Direct.{add_body, replace_body, delete_body}
use keys_keeper_skill.Store.Sessions.{
  Edit, add_entry, replace_entry, delete_entry, dropped, then_do, edit_body, edit_bodies,
  session_body, session_body-edit_bodies, Answer-cases,
}
use keys_keeper_skill.Store.Uniqueness.{all_bring_valid, brings_valid, session-validate_identities}

-- `_validate_record_identities(data["entries"])` at the end of `_locked_write`. The normalisation and
-- the checks of a catalog of schema 3, which follow it there, are left out.
abbrev pub locked_write {ℓ} : {A : Type ℓ} → Uuid4 → (A → Data) → Answer A → Answer A
locked_write uuid4 written (raises e) = raises e
locked_write uuid4 written (returns a) =
    elim (validate_identities uuid4 [] [] (written a).entries) [
      | raises e ↦ raises e
      | returns u ↦ returns a
    ]

module _ (uuid4 : Uuid4) where
  -- `MetadataStore.add`
  abbrev pub store_add : Entry → Data → Answer Data
  store_add e d = locked_write uuid4 (λ x. x) (add_body e d)

  -- `MetadataStore.replace_by_name`
  abbrev pub store_replace : Entry → Data → Answer Data
  store_replace e d = locked_write uuid4 (λ x. x) (replace_body e d)

  -- `MetadataStore.delete_by_name`
  abbrev pub store_delete : String → String → Data → Answer (Entry × Data)
  store_delete now n d = locked_write uuid4 (λ (r, x). x) (delete_body now n d)

  abbrev pub store_edit : Edit → Data → Answer Data
  store_edit (add_entry e) d = store_add e d
  store_edit (replace_entry e) d = store_replace e d
  store_edit (delete_entry now n) d = dropped (store_delete now n d)

  -- one operation of the store after the other, each with its own check
  unfoldable pub store_edit_all : List Edit → Data → Answer Data
  store_edit_all [] d = returns d
  store_edit_all (q ∷ qs) d = then_do (store_edit q d) (store_edit_all qs)

  -- a transaction, with one check of what it leaves
  unfoldable pub session : List Edit → Data → Answer Data
  session qs d = locked_write uuid4 (λ x. x) (session_body qs d)

  dropped-locked_write :
      (a : Answer (Entry × Data))
      → dropped (locked_write uuid4 (λ (r, x). x) a) ≡ locked_write uuid4 (λ x. x) (dropped a)
  dropped-locked_write (raises e) = refl
  dropped-locked_write (returns (r, x)) = ground arith

  store_edit-edit_body :
      (q : Edit) (d : Data) → store_edit q d ≡ locked_write uuid4 (λ x. x) (edit_body q d)
  store_edit-edit_body (add_entry e) d = refl
  store_edit-edit_body (replace_entry e) d = refl
  store_edit-edit_body (delete_entry now n) d = dropped-locked_write (delete_body now n d)

  edit_body-valid :
      (q : Edit) (d d' : Data)
      → validate_identities uuid4 [] [] d.entries ≡ returns tt
      → brings_valid uuid4 q ≡ true
      → edit_body q d ≡ returns d'
      → validate_identities uuid4 [] [] d'.entries ≡ returns tt
  unfolding edit_bodies
  edit_body-valid q d d' checked new done =
      session-validate_identities uuid4 (q ∷ []) d d' checked (ground arith)
        (session_body-edit_bodies uuid4 (q ∷ []) d checked ∙ ground arith)

  -- no check between valid edits can fail
  edit_bodies-store_edit_all :
      (qs : List Edit) (d : Data)
      → validate_identities uuid4 [] [] d.entries ≡ returns tt
      → all_bring_valid uuid4 qs ≡ true
      → locked_write uuid4 (λ x. x) (edit_bodies qs d) ≡ store_edit_all qs d
  unfolding edit_bodies store_edit_all
  edit_bodies-store_edit_all [] d checked new = ground arith
  edit_bodies-store_edit_all (q ∷ qs) d checked new = elim (Answer-cases (edit_body q d)) [
    | inl (d₁, step) ↦
        let checked₁ = edit_body-valid q d d₁ checked (ground arith) step in
        let rest = edit_bodies-store_edit_all qs d₁ checked₁ (ground arith) in
        ground (arith, store_edit-edit_body q d)
    | inr (e, failed) ↦ ground (arith, store_edit-edit_body q d)
  ]

-- A transaction that adds, replaces and deletes entries in any order leaves what the store's own
-- operations leave, one after the other, and fails with the same error where they do; each of them
-- checks ids and names when it writes, the transaction once at its end. The entries that it starts
-- from have passed that check, and the entries that the edits bring have ids and names of the right
-- form. The store's schema is below 3.
pub session-store_edit_all :
    (uuid4 : Uuid4) (qs : List Edit) (d : Data)
    → validate_identities uuid4 [] [] d.entries ≡ returns tt
    → all_bring_valid uuid4 qs ≡ true
    → session uuid4 qs d ≡ store_edit_all uuid4 qs d
unfolding session
session-store_edit_all uuid4 qs d checked new =
    ap (locked_write uuid4 (λ x. x)) (session_body-edit_bodies uuid4 qs d checked)
    ∙ edit_bodies-store_edit_all uuid4 qs d checked new
