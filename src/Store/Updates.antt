-- ===== src/Store/Updates.antt =====
use keys_keeper_skill.Prelude.{
  ℕ, String, ◌≡◌, refl, sym, ap, ◌∙◌, ◌≢◌, inl, inr, Bool, false, ◌&&◌, none, some, List, [], ◌∷◌,
  map, arith, eq_iff, ◌==◌, ◌!=◌, if◌then◌else◌, nat_eq, string_eq, option_eq, list_eq,
  Option-cases, any, find,
}
use keys_keeper_skill.Prelude.Dict.{Dict, get, put, get-put}
use keys_keeper_skill.Store.Entries.{Ref, Entry, Data, returns}
use keys_keeper_skill.Store.Transactions.{
  Transaction, commit, materialize, is_other, is_referenced, update, update_slot, get_by_id,
}
use keys_keeper_skill.Store.Views.{any-absent}
use keys_keeper_skill.Store.Slots.{IsIndexed}
use keys_keeper_skill.Store.Lookups.{IsIndexed-FindsEntries}

-- the entry in place of the one with its id
abbrev pub put_by_id : Entry → List Entry → List Entry
put_by_id e rows = map (λ r. if r.id == e.id then e else r) rows

abbrev pub refers_to : String → Entry → Bool
refers_to name r = any (λ (f : Ref). f.name == name) r.refs

-- an update from the data d to the data d'
pub record Updated (e : Entry) (d d' : Data) : Type 0 where
  pub previous : Entry
  pub found : find (λ r. r.id == e.id) d.entries ≡ some previous
  pub entries : d'.entries ≡ put_by_id e d.entries
  pub tombstones : d'.tombstones ≡ d.tombstones
  pub free : any (λ r. r.name == e.name && r.id != e.id) d.entries ≡ false
  pub safe : previous.name ≢ e.name → any (refers_to previous.name) d.entries ≡ false

get-cons :
    (x s : ℕ) (y : Entry) (records : Dict ℕ Entry)
    → get ((x, y) ∷ records) s ≡ (if x == s then some y else get records s)
unfolding get
get-cons x s y records = refl

get-empty : (s : ℕ) (r : Entry) → get [] s ≢ some r
unfolding get
get-empty s r at = ground arith

unreferenced :
    (old : String) (records : Dict ℕ Entry)
    → is_referenced old records ≡ false
    → (s : ℕ) (r : Entry) → get records s ≡ some r
    → refers_to old r ≡ false
unfolding is_referenced
unreferenced old [] clear s r at = absurd (get-empty s r at)
unreferenced old ((x, y) ∷ records) clear s r at =
    let clear' : is_referenced old records ≡ false = ground arith in
    ground (arith, unreferenced old records clear' s r, get-cons x s y records)

map-materialize :
    (e : Entry) (records : Dict ℕ Entry) (s : ℕ)
    → ((s' : ℕ) (r : Entry) → get records s' ≡ some r → (r.id == e.id) ≡ (s' == s))
    → (order : List ℕ) → (get records s ≢ none)
    → materialize (put records s e) order ≡ put_by_id e (materialize records order)
unfolding materialize
map-materialize e records s only [] there = refl
map-materialize e records s only (x ∷ order) there = elim (Option-cases (get records x)) [
  | inl empty ↦ ground (arith, map-materialize e records s only order there, get-put records s x e)
  | inr (r, at) ↦
      ground (arith, map-materialize e records s only order there, get-put records s x e, only x r)
]

module _ (t : Transaction) (wf : IsIndexed t) (e : Entry) (t' : Transaction)
    (done : update e t ≡ returns t') where
  -- the branch that an update takes when it succeeds
  record Branch : Type 0 where
    slot : ℕ
    previous : Entry
    used : get t.slot_by_id e.id ≡ some slot
    here : get t.records_by_slot slot ≡ some previous
    same : previous.id ≡ e.id
    no_other : is_other (get t.slot_by_name e.name) slot ≡ false
    safe : previous.name ≢ e.name → is_referenced previous.name t.records_by_slot ≡ false
    result : t' ≡ update_slot e slot previous t

  branch : Branch
  unfolding update
  branch = elim (Option-cases (get t.slot_by_id e.id)) [
    | inl free ↦ ground arith
    | inr (s, used) ↦
        let (r, at, same) = wf.by_id.leads e.id s used in
        record {
          slot = s;
          previous = r;
          used = used;
          here = at;
          same = same;
          no_other = ground arith;
          safe = λ renamed. ground (arith, eq_iff r.name e.name);
          result = ground arith;
        }
  ]

  get_by_id-at :
      (s : ℕ) (r : Entry)
      → get t.slot_by_id e.id ≡ some s
      → get t.records_by_slot s ≡ some r
      → get_by_id e.id t ≡ some r
  unfolding get_by_id
  get_by_id-at s r used here = ground arith

  only :
      (s : ℕ) (r : Entry)
      → get t.slot_by_id e.id ≡ some s
      → get t.records_by_slot s ≡ some r
      → r.id ≡ e.id
      → (s' : ℕ) (r' : Entry) → get t.records_by_slot s' ≡ some r'
      → (r'.id == e.id) ≡ (s' == s)
  only s r used here same s' r' at = ground (arith, wf.by_id.covers s' r' at, eq_iff r'.id e.id)

  -- An update that succeeds on indexed entries replaces the entry with its id and no other one. Its
  -- name is no other entry's, and if it renames the entry, no entry referred to the old name.
  pub update-Updated : Updated e (commit t) (commit t')
  unfolding update_slot
  update-Updated =
      let b = branch in
      record {
        previous = b.previous;
        found =
            sym ((IsIndexed-FindsEntries t wf).by_id e.id)
            ∙ get_by_id-at b.slot b.previous b.used b.here;
        entries =
            ap (λ (x : Transaction). (commit x).entries) b.result
            ∙ map-materialize e t.records_by_slot b.slot
                (only b.slot b.previous b.used b.here b.same) t.order
                (λ absent. ground (arith, b.here));
        tombstones = rw b.result refl;
        free =
            any-absent (λ r. r.name == e.name && r.id != e.id) t.records_by_slot t.order
              (λ s r at. ground (
                arith,
                wf.by_name.covers s r at,
                wf.by_id.covers s r at,
                b.here,
                b.no_other,
                b.same,
                eq_iff r.name e.name,
                eq_iff r.id e.id,
              ));
        safe = λ renamed.
            any-absent (refers_to b.previous.name) t.records_by_slot t.order
              (unreferenced b.previous.name t.records_by_slot (b.safe renamed));
      }
