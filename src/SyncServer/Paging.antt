-- ===== src/SyncServer/Paging.antt =====
-- A page of `list_commits` of sync_server.py is a contiguous part of the vault's chain.
use keys_keeper_skill.Prelude.{
  ℕ, zero, suc, ◌≤◌, ◌<◌, String, ◌≡◌, refl, sym, ap, ◌∙◌, subst, inl, inr, true, false, Option,
  List, [], ◌∷◌, ◌++◌, arith, ltb, nat_eq, string_eq, option_eq, list_eq, Bool-cases, keep, All,
  length, length-append,
}
use keys_keeper_skill.SyncServer.Outcome.{ok}
use keys_keeper_skill.SyncServer.Tables.{Commit, Db, history}
use keys_keeper_skill.SyncServer.Access.{AuthenticatedDevice}
use keys_keeper_skill.SyncServer.Queries.{
  insert_by_sequence, order_by_sequence, take, page, list_commits,
}
use keys_keeper_skill.SyncServer.Chain.{IsChain, IsLinear, head_of}

-- the commits in the order in which they were appended
abbrev pub oldest_first : List Commit → List Commit
oldest_first [] = []
oldest_first (c ∷ cs) = oldest_first cs ++ c ∷ []

abbrev pub drop {ℓ} : {A : Type ℓ} → ℕ → List A → List A
drop zero xs = xs
drop (suc n) [] = []
drop (suc n) (x ∷ xs) = drop n xs

abbrev Below : ℕ → List Commit → Type 0
Below n cs = All (λ c. c.sequence < n) cs

Below-append :
    (n : ℕ) (c : Commit) (xs : List Commit) → Below n xs → c.sequence < n → Below n (xs ++ c ∷ [])
Below-append n c [] h k = (k, tt)
Below-append n c (x ∷ xs) h k = (h.0, Below-append n c xs h.1 k)

Below-mono : (m n : ℕ) (xs : List Commit) → m ≤ n → Below m xs → Below n xs
Below-mono m n [] le h = tt
Below-mono m n (x ∷ xs) le h = (omega arith, Below-mono m n xs le h.1)

Below-drop : (n k : ℕ) (xs : List Commit) → Below n xs → Below n (drop k xs)
Below-drop n zero xs h = h
Below-drop n (suc k) [] h = tt
Below-drop n (suc k) (x ∷ xs) h = Below-drop n k xs h.1

chain-Below :
    (head : Option String) (cs : List Commit)
    → IsChain head cs
    → Below (suc (length cs)) (oldest_first cs)
chain-Below head [] chain = tt
chain-Below head (c ∷ cs) (at, numbered, rest) =
    Below-append (suc (suc (length cs))) c (oldest_first cs)
      (Below-mono (suc (length cs)) (suc (suc (length cs))) (oldest_first cs) (omega arith)
        (chain-Below c.parent_commit_id cs rest))
      (omega arith)

length-oldest_first : (cs : List Commit) → length (oldest_first cs) ≡ length cs
length-oldest_first [] = refl
length-oldest_first (c ∷ cs) =
    omega (arith, length-append {0} (oldest_first cs) (c ∷ []), length-oldest_first cs)

-- the largest number goes to the end
insert_last :
    (c : Commit) (xs : List Commit) → Below c.sequence xs → insert_by_sequence c xs ≡ xs ++ c ∷ []
unfolding insert_by_sequence
insert_last c [] h = refl
insert_last c (x ∷ xs) h = ground (arith, insert_last c xs)

drop-append {ℓ} :
    {A : Type ℓ} (n : ℕ) (xs ys : List A) → n ≤ length xs → drop n (xs ++ ys) ≡ drop n xs ++ ys
drop-append zero xs ys h = refl
drop-append (suc n) [] ys h = absurd (omega arith)
drop-append (suc n) (x ∷ xs) ys h = drop-append n xs ys (omega arith)

drop-all {ℓ} : {A : Type ℓ} (n : ℕ) (xs : List A) → length xs ≤ n → drop n xs ≡ []
drop-all zero [] h = refl
drop-all zero (x ∷ xs) h = absurd (omega arith)
drop-all (suc n) [] h = refl
drop-all (suc n) (x ∷ xs) h = drop-all n xs (omega arith)

newer : ℕ → List Commit → List Commit
newer after cs = order_by_sequence (keep (λ c. ltb after c.sequence) cs)

newer-chain :
    (after : ℕ) (head : Option String) (cs : List Commit)
    → IsChain head cs
    → newer after cs ≡ drop after (oldest_first cs)
unfolding newer order_by_sequence
newer-chain after head [] chain = sym (drop-all after [] (omega arith))
newer-chain after head (c ∷ cs) (at, numbered, rest) = elim (Bool-cases (ltb after c.sequence)) [
  | inl later ↦ rw (later, keep, newer-chain after c.parent_commit_id cs rest) (added later)
  | inr earlier ↦
      rw (earlier, keep) (newer-chain after c.parent_commit_id cs rest ∙ nothing earlier)
]
  where
    added :
        ltb after c.sequence ≡ true
        → insert_by_sequence c (drop after (oldest_first cs))
          ≡ drop after (oldest_first cs ++ c ∷ [])
    added later =
        insert_last c (drop after (oldest_first cs)) (
          Below-drop c.sequence after (oldest_first cs) (
            subst (λ n. Below n (oldest_first cs)) (sym numbered)
              (chain-Below c.parent_commit_id cs rest)))
        ∙ sym
            (drop-append after (oldest_first cs) (c ∷ []) (ground (arith, length-oldest_first cs)))

    nothing :
        ltb after c.sequence ≡ false
        → drop after (oldest_first cs) ≡ drop after (oldest_first cs ++ c ∷ [])
    nothing earlier =
        drop-all after (oldest_first cs) (ground (arith, length-oldest_first cs))
        ∙ sym (
            drop-all after (oldest_first cs ++ c ∷ [])
              (ground (arith, length-oldest_first cs, length-append (oldest_first cs) (c ∷ []))))

-- A page holds the commits that follow the first `after` ones in the order in which they were
-- appended, `limit` of them at most, and comes with the vault's head.
pub list_commits-page :
    (vault_id : String) (device : AuthenticatedDevice) (after limit : ℕ) (db : Db)
    (rows : List Commit) (head : Option String)
    → IsLinear db
    → list_commits vault_id device after limit db ≡ ok (rows, head)
    → (rows ≡ take limit (drop after (oldest_first (history vault_id db.commits))))
      × (head ≡ head_of vault_id db.vaults)
unfolding list_commits page newer
list_commits-page vault_id device after limit db rows head lin answered =
    let whole =
      newer-chain after (head_of vault_id db.vaults) (history vault_id db.commits) (lin vault_id) in
    (sym first ∙ ap (take limit) whole, ground arith)
  where
    first : take limit (newer after (history vault_id db.commits)) ≡ rows
    first = ground arith
