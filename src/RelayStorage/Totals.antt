-- ===== src/RelayStorage/Totals.antt =====
-- The counters of relay_storage.py against the rows that they count.
use keys_keeper_skill.Prelude.{
  ℕ, zero, suc, String, ◌≡◌, ◌≢◌, inl, inr, false, Option, none, some, List, [], ◌∷◌, arith, eq_iff,
  ◌==◌, if◌then◌else◌, nat_eq, string_eq, option_eq, list_eq, Option-cases, any,
}
use keys_keeper_skill.Prelude.Dict.{get, put, get-put}
use keys_keeper_skill.RelayStorage.{Usage}
use keys_keeper_skill.SyncServer.Storage.{add_row, tally, in_scope, nothing}
use keys_keeper_skill.RelayStorage.Triggers.{
  Row, Counters, minus_row, upsert, add_trigger, subtract, remove_trigger, split_at, counted,
}

-- the sizes of a scope's rows, or of all rows, added up
abbrev pub in_use : Option String → List Row → Usage
in_use scope rows = tally (λ r. in_scope scope r.scope_id) (λ r. r.size) rows nothing

add_row-swap : (a b : ℕ) (u : Usage) → add_row a (add_row b u) ≡ add_row b (add_row a u)
add_row-swap a b u = ground arith

minus_row-add_row : (n : ℕ) (u : Usage) → minus_row n (add_row n u) ≡ some u
minus_row-add_row n u = ground arith

pub in_use-split_at :
    (scope : Option String) (n : ℕ) (rows : List Row) (r : Row) (rest : List Row)
    → split_at n rows ≡ some (r, rest)
    → in_use scope rows ≡ in_use scope (r ∷ rest)
unfolding tally
in_use-split_at scope n [] r rest at = ground arith
in_use-split_at scope zero (x ∷ rows) r rest at = ground arith
in_use-split_at scope (suc n) (x ∷ rows) r rest at = elim (Option-cases (split_at n rows)) [
  | inl out ↦ ground arith
  | inr ((y, ys), inside) ↦ ground (
    arith,
    in_use-split_at scope n rows y ys inside,
    add_row-swap x.size y.size (in_use scope ys),
  )
]

pub named-split_at :
    (n : ℕ) (rows : List Row) (r : Row) (rest : List Row)
    → split_at n rows ≡ some (r, rest)
    → any (λ x. x.scope_id == "") rows ≡ false
    → any (λ x. x.scope_id == "") (r ∷ rest) ≡ false
named-split_at n [] r rest at named = ground arith
named-split_at zero (x ∷ rows) r rest at named = ground arith
named-split_at (suc n) (x ∷ rows) r rest at named = elim (Option-cases (split_at n rows)) [
  | inl out ↦ ground arith
  | inr ((y, ys), inside) ↦ ground (arith, named-split_at n rows y ys inside)
]

abbrev or_nothing : Option Usage → Usage
or_nothing none = nothing
or_nothing (some u) = u

get-upsert :
    (r : Row) (c : Counters) (s : String)
    → get (upsert r c) s
      ≡ (if r.scope_id == s then some (add_row r.size (or_nothing (get c s))) else get c s)
unfolding upsert
get-upsert r c s = elim (Option-cases (get c r.scope_id)) [
  | inl new ↦ ground (arith, get-put c r.scope_id s (add_row r.size nothing), eq_iff r.scope_id s)
  | inr (u, old) ↦ ground (arith, get-put c r.scope_id s (add_row r.size u), eq_iff r.scope_id s)
]

get-add_trigger :
    (r : Row) (c : Counters) (s : String) (u : Usage)
    → r.scope_id ≢ ""
    → get c "" ≡ some u
    → get (add_trigger r c) s ≡ (if "" == s then some (add_row r.size u) else get (upsert r c) s)
unfolding add_trigger
get-add_trigger r c s u named total =
    ground
      (arith, get-upsert r c "", eq_iff r.scope_id "", get-put (upsert r c) "" s (add_row r.size u))

get-subtract :
    (scope : String) (n : ℕ) (c c' : Counters) (u : Usage) (s : String)
    → get c scope ≡ some (add_row n u)
    → subtract scope n c ≡ some c'
    → get c' s ≡ (if scope == s then some u else get c s)
unfolding subtract
get-subtract scope n c c' u s used done = ground (arith, minus_row-add_row n u, get-put c scope s u)

subtract-succeeds :
    (scope : String) (n : ℕ) (c : Counters) (u : Usage)
    → get c scope ≡ some (add_row n u)
    → (c' : Counters) × (subtract scope n c ≡ some c')
unfolding subtract
subtract-succeeds scope n c u used = (put c scope u, ground (arith, minus_row-add_row n u))

module _ (r : Row) (c : Counters) (rows : List Row) (named : r.scope_id ≢ "")
    (total : counted none c ≡ some (in_use none rows))
    (scope : (s : String) → s ≢ "" → counted (some s) c ≡ some (in_use (some s) rows)) where
  pub add_trigger-total : counted none (add_trigger r c) ≡ some (in_use none (r ∷ rows))
  unfolding counted tally
  add_trigger-total = ground (arith, get-add_trigger r c "" (in_use none rows))

  pub add_trigger-scope :
      (s : String) → s ≢ "" → counted (some s) (add_trigger r c) ≡ some (in_use (some s) (r ∷ rows))
  unfolding counted tally
  add_trigger-scope s other = ground (
    arith,
    eq_iff r.scope_id s,
    eq_iff "" s,
    get-add_trigger r c s (in_use none rows),
    get-upsert r c s,
    scope s other,
  )

-- counters that agree with the rows
abbrev pub Agrees : Counters → List Row → Type 0
Agrees c rows =
    (counted none c ≡ some (in_use none rows))
    × ((s : String) → s ≢ "" → counted (some s) c ≡ some (in_use (some s) rows))

module _ (r : Row) (c : Counters) (rest : List Row) (named : r.scope_id ≢ "")
    (agrees : Agrees c (r ∷ rest)) where
  total_at : get c "" ≡ some (add_row r.size (in_use none rest))
  unfolding counted tally
  total_at = ground (arith, agrees.0)

  scope_at : get c r.scope_id ≡ some (add_row r.size (in_use (some r.scope_id) rest))
  unfolding counted tally
  scope_at = ground (arith, agrees.1 r.scope_id named, eq_iff r.scope_id r.scope_id)

  module _ (c₁ c₂ : Counters) (first : subtract "" r.size c ≡ some c₁)
      (second : subtract r.scope_id r.size c₁ ≡ some c₂)
      (moved : get c₁ r.scope_id ≡ some (add_row r.size (in_use (some r.scope_id) rest))) where
    after_total : counted none c₂ ≡ some (in_use none rest)
    unfolding counted
    after_total = ground (
      arith,
      eq_iff r.scope_id "",
      get-subtract "" r.size c c₁ (in_use none rest) "" total_at first,
      get-subtract r.scope_id r.size c₁ c₂ (in_use (some r.scope_id) rest) "" moved second,
    )

    after_scope : (s : String) → s ≢ "" → counted (some s) c₂ ≡ some (in_use (some s) rest)
    unfolding counted tally
    after_scope s other = ground (
      arith,
      eq_iff r.scope_id s,
      eq_iff "" s,
      agrees.1 s other,
      get-subtract "" r.size c c₁ (in_use none rest) s total_at first,
      get-subtract r.scope_id r.size c₁ c₂ (in_use (some r.scope_id) rest) s moved second,
    )

  -- the trigger succeeds, and takes the row's size and number off both counters
  pub remove_trigger-Agrees : (c' : Counters) × (remove_trigger r c ≡ some c') × Agrees c' rest
  unfolding remove_trigger
  remove_trigger-Agrees =
      let (c₁, first) = subtract-succeeds "" r.size c (in_use none rest) total_at in
      let moved : get c₁ r.scope_id ≡ some (add_row r.size (in_use (some r.scope_id) rest)) =
        ground (
          arith,
          eq_iff "" r.scope_id,
          scope_at,
          get-subtract "" r.size c c₁ (in_use none rest) r.scope_id total_at first,
        ) in
      let (c₂, second) =
        subtract-succeeds r.scope_id r.size c₁ (in_use (some r.scope_id) rest) moved in
      (
        c₂,
        ground (arith, eq_iff r.scope_id ""),
        (after_total c₁ c₂ first second moved, after_scope c₁ c₂ first second moved),
      )
