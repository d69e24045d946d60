-- ===== src/SyncServer/Outcome.antt =====
-- What a handler of sync_server.py does to the database: it returns, or it raises.
-- `_transaction` commits at the end and rolls back on an exception; `connection.commit()` before a
-- `raise` keeps what was written so far.
use keys_keeper_skill.Prelude.{ℕ, String, Bool, true, false, Option, none, some}

pub data SyncError : Type 0 where
  -- `SyncServerError(status, code, …)`, without the text for the human reader
  http : ℕ → String → SyncError
  -- an `sqlite3.IntegrityError` that no handler catches
  integrity : SyncError

pub data Result {ℓ} (A : Type ℓ) : Type ℓ where
  ok : A → Result A
  err : SyncError → Result A

pub data Outcome {ℓ} (S A : Type ℓ) : Type ℓ where
  done : A → S → Outcome S A
  failed : SyncError → Outcome S A
  -- `connection.commit()` was called at this state, and then an error was raised
  failed_after : SyncError → S → Outcome S A

abbrev pub Tx {ℓ} : Type ℓ → Type ℓ → Type ℓ
Tx S A = S → Outcome S A

module _ {ℓ} {S A : Type ℓ} where
  abbrev pub pure : A → Tx S A
  pure a s = done a s

  abbrev pub raise : SyncError → Tx S A
  raise e s = failed e

  abbrev pub commit_and_raise : SyncError → Tx S A
  commit_and_raise e s = failed_after e s

  abbrev pub lift : Result A → Tx S A
  lift (ok a) s = done a s
  lift (err e) s = failed e

  -- a `SELECT`
  abbrev pub gets : (S → A) → Tx S A
  gets f s = done (f s) s

  -- `row is None` raises
  abbrev pub or_raise : Option A → SyncError → Tx S A
  or_raise none e s = failed e
  or_raise (some a) e s = done a s

  -- `with self._transaction(…)`: the answer, and the database that is left
  abbrev pub transaction : Tx S A → S → Result A × S
  transaction m s = elim (m s) [
    | done a s' ↦ (ok a, s')
    | failed e ↦ (err e, s)
    | failed_after e s' ↦ (err e, s')
  ]

module _ {ℓ} {S A B : Type ℓ} where
  infixl 10 ◌>>=◌
  abbrev pub ◌>>=◌ : Tx S A → (A → Tx S B) → Tx S B
  ◌>>=◌ m f s = elim (m s) [
    | done a s' ↦ f a s'
    | failed e ↦ failed e
    | failed_after e s' ↦ failed_after e s'
  ]

module _ {S B : Type 0} where
  infixl 10 ◌>>◌
  abbrev pub ◌>>◌ : Tx S (Unit {0}) → Tx S B → Tx S B
  m >> k = m >>= λ _. k

module _ {S : Type 0} where
  -- `if test: raise e`
  abbrev pub raise_if : Bool → SyncError → Tx S (Unit {0})
  raise_if true e s = failed e
  raise_if false e s = done tt s

  -- an `INSERT` or `UPDATE`
  abbrev pub modify : (S → S) → Tx S (Unit {0})
  modify f s = done tt (f s)

module _ {ℓ κ} {A : Type ℓ} {B : Type κ} where
  abbrev pub and_then : Result A → (A → Result B) → Result B
  and_then (ok a) f = f a
  and_then (err e) f = err e

-- A handler reads its request first, and then runs one transaction.
module _ {ℓ} {S F A : Type ℓ} where
  abbrev pub submit : Result F → (F → Tx S A) → S → Result A × S
  submit (ok form) body s = transaction (body form) s
  submit (err e) body s = (err e, s)
