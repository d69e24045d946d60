-- ===== src/ProjectRelay/Order.antt =====
-- `ORDER BY created,device_id,request_id` in `submissions` of project_server.py, described apart from
-- the sort.
use keys_keeper_skill.Prelude.{
  ℕ, ◌<◌, ◌≡◌, refl, ap, ◌≢◌, inl, inr, Bool, true, false, List, [], ◌∷◌, ◌++◌, arith, eq_iff, ltb,
  ◌==◌, if◌then◌else◌, nat_eq, string_eq, option_eq, list_eq, Bool-cases, codes,
}
use mathlib.Core.List.{Perm, IsChain}
use mathlib.Core.List.Perm
use keys_keeper_skill.ProjectRelay.Tables.{SubmissionRow}
use keys_keeper_skill.ProjectRelay.Reading.{text_before, precedes, insert_ordered, in_order}

-- One text is not after another: it begins it, or is smaller at the first place where they differ.
pub data TextOrder (bs cs : List ℕ) : Type 0 where
  begins : (rest : List ℕ) → cs ≡ bs ++ rest → TextOrder bs cs
  smaller :
      (common bs' cs' : List ℕ) (x y : ℕ)
      → bs ≡ common ++ x ∷ bs'
      → cs ≡ common ++ y ∷ cs'
      → x < y
      → TextOrder bs cs

-- One submission is not after another: it is older, or as old and of an earlier device, or of the
-- same device with an earlier request.
pub data RowOrder (a b : SubmissionRow) : Type 0 where
  older : a.created < b.created → RowOrder a b
  earlier_device :
      a.created ≡ b.created
      → a.device_id ≢ b.device_id
      → TextOrder (codes a.device_id) (codes b.device_id)
      → RowOrder a b
  earlier_request :
      a.created ≡ b.created
      → a.device_id ≡ b.device_id
      → TextOrder (codes a.request_id) (codes b.request_id)
      → RowOrder a b

TextOrder-cons : (x : ℕ) (bs cs : List ℕ) → TextOrder bs cs → TextOrder (x ∷ bs) (x ∷ cs)
TextOrder-cons x bs cs (begins rest e) = begins rest (ap (λ l. x ∷ l) e)
TextOrder-cons x bs cs (smaller common bs' cs' y z e e' less) =
    smaller (x ∷ common) bs' cs' y z (ap (λ l. x ∷ l) e) (ap (λ l. x ∷ l) e') less

text_before-TextOrder : (bs cs : List ℕ) → text_before bs cs ≡ true → TextOrder bs cs
text_before-TextOrder [] cs e = begins cs refl
text_before-TextOrder (b ∷ bs) [] e = ground arith
text_before-TextOrder (b ∷ bs) (c ∷ cs) e = elim (Bool-cases (ltb b c)) [
  | inl less ↦ smaller [] bs cs b c refl refl (ground arith)
  | inr other ↦
      let same : b ≡ c = ground arith in
      let rest : text_before bs cs ≡ true = ground arith in
      rw same (TextOrder-cons c bs cs (text_before-TextOrder bs cs rest))
]

text_before-total : (bs cs : List ℕ) → text_before bs cs ≡ false → text_before cs bs ≡ true
text_before-total [] cs e = ground arith
text_before-total (b ∷ bs) [] e = refl
text_before-total (b ∷ bs) (c ∷ cs) e = ground (arith, text_before-total bs cs)

precedes-RowOrder : (a b : SubmissionRow) → precedes a b ≡ true → RowOrder a b
precedes-RowOrder a b e = elim (Bool-cases (ltb a.created b.created)) [
  | inl less ↦ older (ground arith)
  | inr other ↦ elim (Bool-cases (a.device_id == b.device_id)) [
    | inl same ↦
        earlier_request (ground arith) (ground (arith, eq_iff a.device_id b.device_id))
          (text_before-TextOrder (codes a.request_id) (codes b.request_id) (ground arith))
    | inr apart ↦
        earlier_device (ground arith) (ground (arith, eq_iff a.device_id b.device_id))
          (text_before-TextOrder (codes a.device_id) (codes b.device_id) (ground arith))
  ]
]

precedes-total : (a b : SubmissionRow) → precedes a b ≡ false → precedes b a ≡ true
precedes-total a b e = ground (
  arith,
  eq_iff a.device_id b.device_id,
  eq_iff b.device_id a.device_id,
  text_before-total (codes a.request_id) (codes b.request_id),
  text_before-total (codes a.device_id) (codes b.device_id),
)

-- either branch of a test
either {ℓ κ} :
    {A : Type ℓ} (F : A → Type κ) (t : Bool) {x y : A}
    → (t ≡ true → F x)
    → (t ≡ false → F y)
    → F (if t then x else y)
either F true when_true when_false = when_true refl
either F false when_true when_false = when_false refl

insert_ordered-perm :
    (a : SubmissionRow) (rows : List SubmissionRow) → Perm (insert_ordered a rows) (a ∷ rows)
insert_ordered-perm a [] = Perm.rfl
insert_ordered-perm a (b ∷ rows) =
    either (λ l. Perm l (a ∷ b ∷ rows)) (precedes a b) (λ e. Perm.rfl)
      (λ e. Perm.trans (Perm.cons b (insert_ordered-perm a rows)) (Perm.swap a b rows))

pub in_order-perm : (rows : List SubmissionRow) → Perm (in_order rows) rows
in_order-perm [] = Perm.rfl
in_order-perm (a ∷ rows) =
    Perm.trans (insert_ordered-perm a (in_order rows)) (Perm.cons a (in_order-perm rows))

insert_ordered-below :
    (b a : SubmissionRow) (rows : List SubmissionRow)
    → RowOrder b a
    → IsChain RowOrder (b ∷ rows)
    → IsChain RowOrder (b ∷ insert_ordered a rows)
insert_ordered-below b a [] below chain = IsChain.cons-cons below (IsChain.singleton a)
insert_ordered-below b a (x ∷ rows) below (IsChain.cons-cons p chain) =
    either (λ l. IsChain RowOrder (b ∷ l)) (precedes a x)
      (λ e. IsChain.cons-cons below (IsChain.cons-cons (precedes-RowOrder a x e) chain))
      (λ e.
        IsChain.cons-cons p
          (insert_ordered-below x a rows (precedes-RowOrder x a (precedes-total a x e)) chain))

insert_ordered-IsChain :
    (a : SubmissionRow) (rows : List SubmissionRow)
    → IsChain RowOrder rows
    → IsChain RowOrder (insert_ordered a rows)
insert_ordered-IsChain a [] chain = IsChain.singleton a
insert_ordered-IsChain a (x ∷ rows) chain =
    either (IsChain RowOrder) (precedes a x)
      (λ e. IsChain.cons-cons (precedes-RowOrder a x e) chain)
      (λ e. insert_ordered-below x a rows (precedes-RowOrder x a (precedes-total a x e)) chain)

pub in_order-IsChain : (rows : List SubmissionRow) → IsChain RowOrder (in_order rows)
in_order-IsChain [] = IsChain.nil
in_order-IsChain (a ∷ rows) = insert_ordered-IsChain a (in_order rows) (in_order-IsChain rows)
