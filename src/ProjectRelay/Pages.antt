-- ===== src/ProjectRelay/Pages.antt =====
-- The page of pending submissions that the master is given.
use keys_keeper_skill.Prelude.{
  ℕ, zero, suc, ◌+◌, ◌≤◌, ◌<◌, sym, String, ◌≡◌, refl, ap, ◌∙◌, ◌≢◌, ◌⊎◌, inl, inr, true, false,
  List, [], ◌∷◌, ◌++◌, arith, ltb, nat_eq, string_eq, option_eq, list_eq, Bool-cases, keep, length,
}
use keys_keeper_skill.ProjectRelay.Tables.{SubmissionRow}
use mathlib.Core.List.{append_assoc, append-nil, Perm, IsChain}
use keys_keeper_skill.ProjectRelay.Order.{RowOrder, in_order-perm, in_order-IsChain}
use keys_keeper_skill.ProjectRelay.Submissions.{is_pending}
use keys_keeper_skill.ProjectRelay.Reading.{
  max_page, max_page_characters, characters, in_order, limit, page_rows, pending_page,
}

abbrev pub total_characters : List SubmissionRow → ℕ
total_characters [] = 0
total_characters (r ∷ rows) = characters r.content + total_characters rows

-- The page starts the queue within the limits, is not empty unless the queue is, and stops only at a
-- limit.
pub record IsPage (queue page : List SubmissionRow) : Type 0 where
  pub rest : List SubmissionRow
  pub split : queue ≡ page ++ rest
  pub records : length page ≤ max_page
  pub size : (total_characters page ≤ max_page_characters) ⊎ (length page ≡ 1)
  pub progress : queue ≢ [] → page ≢ []
  pub full :
      (r : SubmissionRow) (after : List SubmissionRow)
      → rest ≡ r ∷ after
      → (length page ≡ max_page)
        ⊎ (max_page_characters < total_characters page + characters r.content)

limit-split :
    (n : ℕ) (rows : List SubmissionRow)
    → (rest : List SubmissionRow) × (rows ≡ limit n rows ++ rest) × (length (limit n rows) ≤ n)
limit-split zero rows = (rows, refl, omega arith)
limit-split (suc n) [] = ([], refl, omega arith)
limit-split (suc n) (r ∷ rows) =
    let (rest, split, size) = limit-split n rows in
    (rest, ap (λ xs. r ∷ xs) split, omega (arith, size))

started-split :
    (total : ℕ) (rows : List SubmissionRow)
    → (rest : List SubmissionRow) × (rows ≡ page_rows true total rows ++ rest)
unfolding page_rows
started-split total [] = ([], refl)
started-split total (r ∷ rows) =
    let (rest, split) = started-split (total + characters r.content) rows in
    elim (Bool-cases (ltb max_page_characters (total + characters r.content))) [
      | inl full ↦ (r ∷ rows, ground arith)
      | inr room ↦ (rest, ground arith)
    ]

started-size :
    (total : ℕ) (rows : List SubmissionRow)
    → (length (page_rows true total rows) ≤ length rows)
      × (total ≤ max_page_characters
          → total + total_characters (page_rows true total rows) ≤ max_page_characters)
unfolding page_rows
started-size total [] = (omega arith, λ h. omega (arith, h))
started-size total (r ∷ rows) =
    let (shorter, size) = started-size (total + characters r.content) rows in
    (ground (arith, shorter), λ h. ground (arith, h, size))

full_page :
    (total : ℕ) (rows : List SubmissionRow)
    → ltb max_page_characters total ≡ true
    → page_rows true total rows ≡ []
unfolding page_rows
full_page total [] e = refl
full_page total (r ∷ rows) e = ground arith

started-full :
    (total : ℕ) (rows : List SubmissionRow) (r : SubmissionRow) (after : List SubmissionRow)
    → rows ≡ page_rows true total rows ++ r ∷ after
    → max_page_characters
      < total + total_characters (page_rows true total rows) + characters r.content
unfolding page_rows
started-full total [] r after split = ground arith
started-full total (q ∷ rows) r after split =
    elim (Bool-cases (ltb max_page_characters (total + characters q.content))) [
      | inl over ↦ ground arith
      | inr room ↦ ground (arith, started-full (total + characters q.content) rows r after)
    ]

limit-full :
    (n : ℕ) (rows : List SubmissionRow) (r : SubmissionRow) (after : List SubmissionRow)
    → rows ≡ limit n rows ++ r ∷ after
    → length (limit n rows) ≡ n
limit-full zero rows r after split = refl
limit-full (suc n) [] r after split = ground arith
limit-full (suc n) (q ∷ rows) r after split = ground (arith, limit-full n rows r after)

-- what stops a page that has a record already
started-stops :
    (n total : ℕ) (queue left after : List SubmissionRow)
    → limit n queue ≡ page_rows true total (limit n queue) ++ left
    → queue ≡ limit n queue ++ after
    → (r : SubmissionRow) (later : List SubmissionRow) → left ++ after ≡ r ∷ later
    → (length (page_rows true total (limit n queue)) ≡ n)
      ⊎ (max_page_characters
          < total + total_characters (page_rows true total (limit n queue)) + characters r.content)
started-stops n total queue [] after split limited r later e =
    let whole : limit n queue ≡ page_rows true total (limit n queue) =
      split ∙ append-nil (page_rows true total (limit n queue)) in
    inl (
      ap length (sym whole) ∙ limit-full n queue r later (limited ∙ ap (λ l. limit n queue ++ l) e))
started-stops n total queue (x ∷ left) after split limited r later e =
    let same : x ≡ r = ground arith in
    inr (
      started-full total (limit n queue) r left
        (split ∙ ap (λ y. page_rows true total (limit n queue) ++ y ∷ left) same))

page_rows-IsPage :
    (queue : List SubmissionRow) → IsPage queue (page_rows false 0 (limit max_page queue))
unfolding page_rows
page_rows-IsPage [] = record {
  rest = [];
  split = refl;
  records = omega arith;
  size = inl (omega arith);
  progress = λ filled. filled;
  full = λ r after e. ground arith;
}
page_rows-IsPage (q ∷ queue) =
    let (after, limited, most) = limit-split 24 queue in
    let (left, split) = started-split (0 + characters q.content) (limit 24 queue) in
    let (shorter, size) = started-size (0 + characters q.content) (limit 24 queue) in
    let page : List SubmissionRow = page_rows true (0 + characters q.content) (limit 24 queue) in
    record {
      rest = left ++ after;
      split =
          ap (λ xs. q ∷ xs) (limited ∙ ap (λ xs. xs ++ after) split ∙ append_assoc page left after);
      records = omega (arith, most, shorter);
      size = elim (Bool-cases (ltb max_page_characters (0 + characters q.content))) [
        | inl big ↦
            inr (
              ap (λ xs. suc (length xs))
                (full_page (0 + characters q.content) (limit 24 queue) big))
        | inr fits ↦ inl (ground (arith, fits, size))
      ];
      progress = λ filled e. cc e;
      full = λ r later e.
          let stops =
            started-stops 24 (0 + characters q.content) queue left after split limited r later e in
          ground (arith, stops);
    }

-- The pending submissions of the scope, each of them once, stand in a queue where every one is older
-- than the next, or as old and of an earlier device, or of the same device with an earlier request.
-- The page is a beginning of that queue, of at most 25 records and 8 Mi characters, or of one record
-- that alone is longer; it is not empty unless the queue is, and it is not shorter than these limits
-- make it.
pub pending_page-IsPage :
    (s : String) (rows : List SubmissionRow)
    → (queue : List SubmissionRow) × Perm queue (keep (is_pending s) rows)
      × IsChain RowOrder queue
      × IsPage queue (pending_page s rows)
unfolding pending_page
pending_page-IsPage s rows =
    let pending = keep (is_pending s) rows in
    (
      in_order pending,
      in_order-perm pending,
      in_order-IsChain pending,
      page_rows-IsPage (in_order pending),
    )
