-- ===== src/SyncServer/ResultMonad.antt =====
-- `do` blocks of checks that may raise and touch no database.
use keys_keeper_skill.SyncServer.Outcome.{Result, ok, err, SyncError}
use keys_keeper_skill.Prelude.{Bool, true, false, Option, none, some}

module _ {ℓ κ} {A : Type ℓ} {B : Type κ} where
  infixl 10 ◌>>=◌
  abbrev pub ◌>>=◌ : Result A → (A → Result B) → Result B
  ok a >>= f = f a
  err e >>= f = err e

module _ {κ} {B : Type κ} where
  infixl 10 ◌>>◌
  abbrev pub ◌>>◌ : Result (Unit {0}) → Result B → Result B
  m >> k = m >>= λ _. k

-- `if test: raise e`
abbrev pub fail_if : Bool → SyncError → Result (Unit {0})
fail_if true e = err e
fail_if false e = ok tt

-- `if row is None: raise e`
abbrev pub present {ℓ} : {A : Type ℓ} → Option A → SyncError → Result A
present none e = err e
present (some a) e = ok a
