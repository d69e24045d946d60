-- ===== src/Store/Identities.antt =====
use keys_keeper_skill.Prelude.{
  ℕ, String, Bool, true, false, not, ◌&&◌, ◌||◌, Option, none, some, List, [], ◌∷◌, leb, ◌==◌,
  if◌then◌else◌, nat_eq, string_eq, option_eq, list_eq, length, elem, codes, every,
}
use keys_keeper_skill.Prelude.{is_lower, is_digit}
use keys_keeper_skill.Store.Entries.{Entry, Answer, returns, raises, store_error}

-- `re` classes of models.py
is_alphanumeric : ℕ → Bool
is_alphanumeric c = is_lower c || is_digit c

is_name_char : ℕ → Bool
is_name_char c = is_alphanumeric c || c == b'.' || c == b'_' || c == b'-'

abbrev pub is_at : (ℕ → Bool) → Option ℕ → Bool
is_at p none = false
is_at p (some c) = p c

abbrev pub first : List ℕ → Option ℕ
first [] = none
first (c ∷ cs) = some c

abbrev pub last : List ℕ → Option ℕ
last [] = none
last (c ∷ []) = some c
last (c ∷ d ∷ cs) = last (d ∷ cs)

-- `validate_name`: 2 to 64 characters of `_NAME_RE`
unfoldable pub is_name : String → Bool
unfolding is_alphanumeric is_name_char
is_name name =
    let cs = codes name in
    leb 2 (length cs)
    && leb (length cs) 64
    && is_at is_alphanumeric (first cs)
    && is_at is_alphanumeric (last cs)
    && every is_name_char cs

-- `text.startswith(prefix)` on characters, and what follows it
abbrev pub after_prefix : List ℕ → List ℕ → Option (List ℕ)
after_prefix [] cs = some cs
after_prefix (p ∷ ps) [] = none
after_prefix (p ∷ ps) (c ∷ cs) = let rest = after_prefix ps cs in if p == c then rest else none

abbrev pub is_absent : Option (List ℕ) → Bool
is_absent none = true
is_absent (some cs) = false

-- `uuid.UUID(raw)` succeeds, has version 4, and prints as `raw` again
abbrev pub Uuid4 : Type 0
Uuid4 = List ℕ → Bool

abbrev pub passes : Uuid4 → Option (List ℕ) → Bool
passes uuid4 none = false
passes uuid4 (some raw) = uuid4 raw

-- `validate_entry_id`
unfoldable pub is_entry_id : Uuid4 → String → Bool
is_entry_id uuid4 id =
    is_absent (after_prefix (codes "kk:sync-") (codes id))
    && length (codes id) == 39
    && passes uuid4 (after_prefix (codes "kk:") (codes id))

-- `_validate_record_identities`, with the sets of ids and names that were met
unfoldable pub validate_identities :
    Uuid4 → List String → List String → List Entry → Answer (Unit {0})
validate_identities uuid4 ids names [] = returns tt
validate_identities uuid4 ids names (r ∷ records) =
    let rest = validate_identities uuid4 (r.id ∷ ids) (r.name ∷ names) records in
    if not (is_entry_id uuid4 r.id) || not (is_name r.name)
    then raises store_error
    else if elem r.id ids || elem r.name names
    then raises store_error
    else rest
