-- ===== src/ProjectRelay/Frames.antt =====
-- What every handler of the project relay leaves of the database: no row is lost.
use keys_keeper_skill.Prelude.{
  String, ◌≡◌, refl, ◌∙◌, inl, inr, Bool, true, false, ◌&&◌, Option, some, List, [], ◌∷◌, arith,
  eq_iff, ◌==◌, if◌then◌else◌, nat_eq, string_eq, option_eq, list_eq, Bool-cases, any, find,
}
use keys_keeper_skill.ProjectRelay.Tables.{
  ScopeRow, PolicyRow, SnapshotRow, GrantRow, BlockRow, OperationRow, ProjectDb, find_scope,
  update_scope,
}
use keys_keeper_skill.ProjectRelay.Scopes.{insert_unless}
use keys_keeper_skill.ProjectRelay.Contracts.{Post, answers, raises}

abbrev pub find_snapshot : String → String → List SnapshotRow → Option SnapshotRow
find_snapshot s h rows = find (λ r. r.scope_id == s && r.hash == h) rows

-- the keys of the tables that only grow
abbrev pub policy_key : String × String → PolicyRow → Bool
policy_key k r = r.scope_id == k.0 && r.hash == k.1

abbrev pub snapshot_key : String × String → SnapshotRow → Bool
snapshot_key k r = r.scope_id == k.0 && r.hash == k.1

abbrev pub grant_key : String × String → GrantRow → Bool
grant_key k r = r.scope_id == k.0 && r.grant_id == k.1

abbrev pub block_key : String × String → BlockRow → Bool
block_key k r = r.scope_id == k.0 && r.grant_id == k.1

abbrev pub operation_key : String × String → OperationRow → Bool
operation_key k r = r.scope_id == k.0 && r.operation_id == k.1

-- the row that a key finds stays the same
abbrev pub Keeps : {A : Type 0} → (String × String → A → Bool) → List A → List A → Type 0
Keeps {A} test xs ys =
    (k : String × String) (r : A) → find (test k) xs ≡ some r → find (test k) ys ≡ some r

-- the scope stays, with its pinned key
abbrev pub KeepsPins : List ScopeRow → List ScopeRow → Type 0
KeepsPins xs ys =
    (s : String) (r : ScopeRow)
    → find_scope s xs ≡ some r
    → (r' : ScopeRow) × (find_scope s ys ≡ some r') × (r'.pinned_key ≡ r.pinned_key)

-- Every row that is found before is found afterwards, of a scope its pinned key.
abbrev pub Extends : ProjectDb → ProjectDb → Type 0
Extends a b =
    KeepsPins a.scopes b.scopes
    × Keeps policy_key a.policies b.policies
    × Keeps snapshot_key a.snapshots b.snapshots
    × Keeps grant_key a.grants b.grants
    × Keeps block_key a.blocks b.blocks
    × Keeps operation_key a.operations b.operations

pub Extends-refl : (db : ProjectDb) → Extends db db
Extends-refl db =
    (λ s r e. (r, e, refl), λ k r e. e, λ k r e. e, λ k r e. e, λ k r e. e, λ k r e. e)

pub Extends-trans : (a b c : ProjectDb) → Extends a b → Extends b c → Extends a c
Extends-trans a b c (f₁, f₂, f₃, f₄, f₅, f₆) (g₁, g₂, g₃, g₄, g₅, g₆) = (
  λ s r e. let (r', e', p) = f₁ s r e in let (r'', e'', q) = g₁ s r' e' in (r'', e'', q ∙ p),
  λ k r e. g₂ k r (f₂ k r e),
  λ k r e. g₃ k r (f₃ k r e),
  λ k r e. g₄ k r (f₄ k r e),
  λ k r e. g₅ k r (f₅ k r e),
  λ k r e. g₆ k r (f₆ k r e),
)

-- what is found by one test makes a weaker test true of some element
pub found_any :
    {A : Type 0} (p q : A → Bool) (xs : List A) (x : A)
    → ((a : A) → p a ≡ true → q a ≡ true)
    → find p xs ≡ some x
    → any q xs ≡ true
found_any p q [] x weaker e = cc e
found_any p q (a ∷ xs) x weaker e = ground (arith, weaker a, found_any p q xs x weaker)

-- a row that clashes with none is put before the rows, and no search changes
pub find_fresh :
    {A : Type 0} (p q : A → Bool) (new : A) (xs : List A) (x : A)
    → (p new ≡ true → (a : A) → p a ≡ true → q a ≡ true)
    → any q xs ≡ false
    → find p xs ≡ some x
    → find p (new ∷ xs) ≡ some x
find_fresh p q new xs x clash fresh e = elim (Bool-cases (p new)) [
  | inl hit ↦ let clashed : any q xs ≡ true = found_any p q xs x (clash hit) e in ground arith
  | inr miss ↦ ground arith
]

-- an `UPDATE` of one scope keeps the scope of each row
pub find_update_scope :
    (s : String) (f : ScopeRow → ScopeRow) (k : String) (rows : List ScopeRow) (r : ScopeRow)
    → ((x : ScopeRow) → (f x).scope_id ≡ x.scope_id)
    → find_scope k rows ≡ some r
    → find_scope k (update_scope s f rows) ≡ some (if r.scope_id == s then f r else r)
find_update_scope s f k [] r same e = cc e
find_update_scope s f k (x ∷ rows) r same e =
    ground
      (arith, same x, eq_iff x.scope_id s, eq_iff x.scope_id k, find_update_scope s f k rows r same)

pub insert_unless_post :
    (Q : ProjectDb → Type 0) (b : Bool) (f : ProjectDb → ProjectDb) (db : ProjectDb)
    → (b ≡ false → Q (f db))
    → Post (λ a s. Q s) (insert_unless b f db)
insert_unless_post Q true f db h = raises
insert_unless_post Q false f db h = answers (h refl)
