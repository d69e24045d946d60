-- ===== src/Store/Views.antt =====
use keys_keeper_skill.Prelude.{
  ℕ, String, ◌≡◌, refl, inl, inr, Bool, true, false, none, some, List, [], ◌∷◌, ◌++◌, arith, ◌==◌,
  nat_eq, string_eq, option_eq, list_eq, Option-cases, any, elem,
}
use keys_keeper_skill.Prelude.Dict.{Dict, get, put, remove, get-put, get-remove}
use keys_keeper_skill.Store.Entries.{Entry}
use keys_keeper_skill.Store.Transactions.{materialize}
use keys_keeper_skill.Store.Direct.{put_named, pop_named}

-- no slot twice
abbrev pub IsDistinct : List ℕ → Type 0
IsDistinct [] = Unit {0}
IsDistinct (s ∷ order) = (elem s order ≡ false) × IsDistinct order

pub materialize-put :
    (records : Dict ℕ Entry) (s : ℕ) (r : Entry) (order : List ℕ)
    → elem s order ≡ false
    → materialize (put records s r) order ≡ materialize records order
unfolding materialize
materialize-put records s r [] free = refl
materialize-put records s r (x ∷ order) free =
    ground (arith, materialize-put records s r order, get-put records s x r)

pub materialize-remove :
    (records : Dict ℕ Entry) (s : ℕ) (order : List ℕ)
    → elem s order ≡ false
    → materialize (remove records s) order ≡ materialize records order
unfolding materialize
materialize-remove records s [] free = refl
materialize-remove records s (x ∷ order) free =
    ground (arith, materialize-remove records s order, get-remove records s x)

pub materialize-append :
    (records : Dict ℕ Entry) (s : ℕ) (r : Entry) (order : List ℕ)
    → get records s ≡ some r
    → materialize records (order ++ s ∷ []) ≡ materialize records order ++ r ∷ []
unfolding materialize
materialize-append records s r [] at = ground arith
materialize-append records s r (x ∷ order) at = ground (arith, materialize-append records s r order)

module _ (p : Entry → Bool) (records : Dict ℕ Entry) where
  -- no slot holds such a record
  pub any-absent :
      (order : List ℕ)
      → ((s : ℕ) (r : Entry) → get records s ≡ some r → p r ≡ false)
      → any p (materialize records order) ≡ false
  unfolding materialize
  any-absent [] none_holds = refl
  any-absent (x ∷ order) none_holds = elim (Option-cases (get records x)) [
    | inl empty ↦ ground (arith, any-absent order none_holds)
    | inr (r, at) ↦ ground (arith, any-absent order none_holds, none_holds x r)
  ]

  pub any-present :
      (order : List ℕ) (s : ℕ) (r : Entry)
      → elem s order ≡ true
      → get records s ≡ some r
      → p r ≡ true
      → any p (materialize records order) ≡ true
  unfolding materialize
  any-present [] s r member at holds = ground arith
  any-present (x ∷ order) s r member at holds = ground (arith, any-present order s r)

module _ (n : String) (records : Dict ℕ Entry) (s : ℕ) (r : Entry) (at : get records s ≡ some r)
    (named : (r.name == n) ≡ true)
    (only : (s' : ℕ) (r' : Entry) → get records s' ≡ some r' → (r'.name == n) ≡ true → s' ≡ s) where
  pub pop_named-materialize :
      (order : List ℕ)
      → IsDistinct order
      → elem s order ≡ true
      → pop_named n (materialize records order) ≡ some (r, materialize (remove records s) order)
  unfolding materialize pop_named
  pop_named-materialize [] distinct member = ground arith
  pop_named-materialize (x ∷ order) distinct member = elim (Option-cases (get records x)) [
    | inl empty ↦ ground (arith, pop_named-materialize order, get-remove records s x)
    | inr (r', at') ↦ ground (
      arith,
      pop_named-materialize order,
      get-remove records s x,
      materialize-remove records s order,
      only x r',
    )
  ]

  pub put_named-materialize :
      (e : Entry) (order : List ℕ)
      → e.name ≡ n
      → IsDistinct order
      → elem s order ≡ true
      → put_named e (materialize records order) ≡ materialize (put records s e) order
  unfolding materialize put_named
  put_named-materialize e [] same distinct member = ground arith
  put_named-materialize e (x ∷ order) same distinct member = elim (Option-cases (get records x)) [
    | inl empty ↦ ground (arith, put_named-materialize e order, get-put records s x e)
    | inr (r', at') ↦ ground (
      arith,
      put_named-materialize e order,
      get-put records s x e,
      materialize-put records s e order,
      only x r',
    )
  ]

pub pop_named-absent :
    (n : String) (rows : List Entry) → any (λ r. r.name == n) rows ≡ false → pop_named n rows ≡ none
unfolding pop_named
pop_named-absent n [] absent = refl
pop_named-absent n (r ∷ rows) absent = ground (arith, pop_named-absent n rows)
