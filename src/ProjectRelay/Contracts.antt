-- ===== src/ProjectRelay/Contracts.antt =====
-- What a piece of a transaction promises: what holds of its answer and of the database it leaves.
use keys_keeper_skill.Prelude.{
  ◌≡◌, refl, subst, Bool, true, false, Option, none, some, arith, if◌then◌else◌, nat_eq, string_eq,
  option_eq, list_eq,
}
use keys_keeper_skill.SyncServer.Outcome.{
  SyncError, Result, ok, err, Outcome, done, failed, failed_after, Tx, lift, or_raise, transaction,
  submit, ◌>>=◌, ◌>>◌, raise_if,
}
use keys_keeper_skill.ProjectProtocol.Checked.{Checked, valid, invalid}
use keys_keeper_skill.ProjectRelay.Tables.{ProjectDb}
use keys_keeper_skill.ProjectRelay.Access.{check}

-- the piece raises, or its answer and its database have the property; it commits nothing on the way
pub data Post {A : Type 0} (Q : A → ProjectDb → Type 0) : Outcome ProjectDb A → Type 0 where
  answers : {a : A} {s : ProjectDb} → Q a s → Post Q (done a s)
  raises : {e : SyncError} → Post Q (failed e)

module _ {A B : Type 0} {R : B → ProjectDb → Type 0} where
  pub bind_post :
      {Q : A → ProjectDb → Type 0} (m : Tx ProjectDb A) (f : A → Tx ProjectDb B) {db : ProjectDb}
      → Post Q (m db)
      → ((a : A) (s : ProjectDb) → Q a s → Post R (f a s))
      → Post R ((m >>= f) db)
  bind_post {Q = Q} m f {db = db} first next = outcome (m db) first
    where
      outcome : (o : Outcome ProjectDb A) → Post Q o → Post R (((λ (s : ProjectDb). o) >>= f) db)
      outcome (done a s) (answers q) = next a s q
      outcome (failed e) raises = raises
      outcome (failed_after e s) q = elim q [ ]

  pub lift_post :
      {r : Result A} (f : A → Tx ProjectDb B) {db : ProjectDb}
      → ((a : A) → r ≡ ok a → Post R (f a db))
      → Post R ((lift r >>= f) db)
  lift_post {r = ok a} f next = next a refl
  lift_post {r = err e} f next = raises

  pub check_post :
      {c : Checked A} (f : A → Tx ProjectDb B) {db : ProjectDb}
      → ((a : A) → c ≡ valid a → Post R (f a db))
      → Post R ((check c >>= f) db)
  check_post {c = valid a} f next = next a refl
  check_post {c = invalid e} f next = raises

  pub or_raise_post :
      {o : Option A} (e : SyncError) (f : A → Tx ProjectDb B) {db : ProjectDb}
      → ((a : A) → o ≡ some a → Post R (f a db))
      → Post R ((or_raise o e >>= f) db)
  or_raise_post {o = some a} e f next = next a refl
  or_raise_post {o = none} e f next = raises

module _ {B : Type 0} {R : B → ProjectDb → Type 0} where
  pub raise_if_post :
      {b : Bool} (e : SyncError) (k : Tx ProjectDb B) {db : ProjectDb}
      → (b ≡ false → Post R (k db))
      → Post R ((raise_if b e >> k) db)
  raise_if_post {b = true} e k next = raises
  raise_if_post {b = false} e k next = next refl

  pub if_post :
      {b : Bool} {x y : Outcome ProjectDb B}
      → (b ≡ true → Post R x)
      → (b ≡ false → Post R y)
      → Post R (if b then x else y)
  if_post {b = true} f g = f refl
  if_post {b = false} f g = g refl

  pub then_post :
      {Q : Unit {0} → ProjectDb → Type 0} (m : Tx ProjectDb (Unit {0})) (k : Tx ProjectDb B)
      {db : ProjectDb}
      → Post Q (m db)
      → ((s : ProjectDb) → Q tt s → Post R (k s))
      → Post R ((m >> k) db)
  then_post m k first next = bind_post m (λ a. k) first λ a s q. next s q

module _ {A : Type 0} {Q R : A → ProjectDb → Type 0} where
  pub weaken_post :
      {o : Outcome ProjectDb A} → ((a : A) (s : ProjectDb) → Q a s → R a s) → Post Q o → Post R o
  weaken_post f (answers {a = a} {s = s} q) = answers (f a s q)
  weaken_post f raises = raises

-- a piece that ends here has what it promised
pub post_done :
    {A : Type 0} {Q : A → ProjectDb → Type 0} {o : Outcome ProjectDb A} {a : A} {s : ProjectDb}
    → Post Q o
    → o ≡ done a s
    → Q a s
post_done {Q = Q} {a = a} {s = s} p e = inside (subst (Post Q) e p)
  where
    inside : Post Q (done a s) → Q a s
    inside (answers q) = q

pub transaction_post :
    {A : Type 0} (I : ProjectDb → Type 0) (o : Outcome ProjectDb A) (db : ProjectDb)
    → I db
    → Post (λ a s. I s) o
    → I (transaction (λ (s : ProjectDb). o) db).1
transaction_post I (done a s) db i (answers q) = q
transaction_post I (failed e) db i raises = i
transaction_post I (failed_after e s) db i q = elim q [ ]

-- the database that a handler leaves
pub submit_post :
    {F A : Type 0} (I : ProjectDb → Type 0) (r : Result F) (body : F → Tx ProjectDb A)
    (db : ProjectDb)
    → I db
    → ((form : F) → Post (λ a s. I s) (body form db))
    → I (submit r body db).1
submit_post I (err e) body db i promised = i
submit_post I (ok form) body db i promised = transaction_post I (body form db) db i (promised form)

pub answered :
    {A : Type 0} {Q : A → ProjectDb → Type 0} (o : Outcome ProjectDb A) (db : ProjectDb) (a : A)
    → Post Q o
    → (transaction (λ (s : ProjectDb). o) db).0 ≡ ok a
    → Q a (transaction (λ (s : ProjectDb). o) db).1
answered {Q = Q} (done b s) db a (answers q) e =
    let same : b ≡ a = ground arith in subst (λ x. Q x s) same q
answered (failed e') db a raises e = cc e
answered (failed_after e' s) db a q e = elim q [ ]

-- a handler that answers has read its request, and its body has ended as promised
pub submit_answered :
    {F A : Type 0} {Q : F → A → ProjectDb → Type 0} (r : Result F) (body : F → Tx ProjectDb A)
    (db : ProjectDb) (a : A)
    → ((form : F) → Post (Q form) (body form db))
    → (submit r body db).0 ≡ ok a
    → (form : F) × (r ≡ ok form) × Q form a (submit r body db).1
submit_answered (err e') body db a promised e = cc e
submit_answered (ok form) body db a promised e =
    (form, refl, answered (body form db) db a (promised form) e)
