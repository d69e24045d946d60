-- ===== src/ProjectProtocol/GrantIds.antt =====
-- The ids of the grants of a policy that `_policy` of project_protocol.py has read, and their devices.
use keys_keeper_skill.Prelude.{
  ltb, not, ◌||◌, ◌&&◌, ◌==◌, String, ◌≡◌, refl, inl, inr, Bool, true, false, some, List, [], ◌∷◌,
  arith, eq_iff, nat_eq, string_eq, option_eq, list_eq, Bool-cases, any,
}
use keys_keeper_skill.SyncServer.Requests.{Json, Items, nil, item}
use keys_keeper_skill.ProjectProtocol.Checked.{valid, ◌>>=◌, refuse_if, validation}
use keys_keeper_skill.ProjectProtocol.Records.{require_members, at_member}
use keys_keeper_skill.ProjectProtocol.Json.{Primitives}
use keys_keeper_skill.ProjectProtocol.Policy.{
  Grant, Policy, differs, read_policy, read_terms, read_grant, read_grants, items_of, item_count,
  is_masters, clashes_with, max_grants, policy_fields,
}
use keys_keeper_skill.ProjectProtocol.Checked.{>>=-eq-valid}
use keys_keeper_skill.ProjectProtocol.Transition.{owner_of, bad_grant}

-- the list gives this id to this device
abbrev pub gives : String → String → List Grant → Bool
gives id d gs = any (λ g. g.grant_id == id && g.device_id == d) gs

-- the ids of a list of grants are all different
abbrev pub distinct_ids : List Grant → Bool
distinct_ids [] = true
distinct_ids (g ∷ gs) = not (any (λ h. h.grant_id == g.grant_id) gs) && distinct_ids gs

clashes_with-ids :
    (g : Grant) (id : String) (seen : List Grant)
    → any (clashes_with g) seen ≡ false
    → any (λ s. s.grant_id == id) seen ≡ true
    → (g.grant_id == id) ≡ false
clashes_with-ids g id [] apart met = ground arith
clashes_with-ids g id (s ∷ seen) apart met = ground (
  arith,
  eq_iff s.grant_id id,
  eq_iff g.grant_id id,
  eq_iff g.grant_id s.grant_id,
  clashes_with-ids g id seen,
)

read_grants-distinct :
    (P : Primitives) (p : Policy) (seen : List Grant) (js : Items) (gs : List Grant)
    → read_grants P p seen js ≡ valid gs
    → (distinct_ids gs ≡ true)
      × ((id : String)
          → any (λ s. s.grant_id == id) seen ≡ true
          → any (λ h. h.grant_id == id) gs ≡ false)
unfolding read_grants
read_grants-distinct P p seen nil gs e = (ground arith, λ id met. ground arith)
read_grants-distinct P p seen (item j js) gs e =
    let (g, read, e₁) = >>=-eq-valid (read_grant P j) _ gs e in
    elim (Bool-cases (is_masters p g || any (clashes_with g) seen)) [
      | inl refused ↦ ground arith
      | inr clean ↦
          let e₂ : (read_grants P p (g ∷ seen) js >>= λ rest. valid (g ∷ rest)) ≡ valid gs =
            ground arith in
          let (rest, others, e₃) = >>=-eq-valid (read_grants P p (g ∷ seen) js) _ gs e₂ in
          let (distinct, fresh) = read_grants-distinct P p (g ∷ seen) js rest others in
          (
            ground (arith, fresh g.grant_id, eq_iff g.grant_id g.grant_id),
            λ id met. ground (arith, fresh id, clashes_with-ids g id seen, met),
          )
    ]

pub read_policy-distinct :
    (P : Primitives) (payload : Json) (p : Policy)
    → read_policy P payload ≡ valid p
    → distinct_ids p.grants ≡ true
unfolding read_policy
read_policy-distinct P payload p e =
    let (ms, e₁, h₁) = >>=-eq-valid (require_members policy_fields payload) _ p e in
    let (terms, e₂, h₂) = >>=-eq-valid (read_terms P ms) _ p h₁ in
    let (js, e₃, h₃) = >>=-eq-valid (at_member "grants" ms >>= items_of P) _ p h₂ in
    let (u, e₄, h₄) =
      >>=-eq-valid (refuse_if (ltb max_grants (item_count P js)) validation) _ p h₃ in
    let (gs, e₅, h₅) = >>=-eq-valid (read_grants P terms [] js) _ p h₄ in
    let (distinct, fresh) = read_grants-distinct P terms [] js gs e₅ in ground arith

absent_id :
    (id d : String) (gs : List Grant)
    → any (λ h. h.grant_id == id) gs ≡ false
    → gives id d gs ≡ false
absent_id id d [] absent = refl
absent_id id d (g ∷ gs) absent = ground (arith, absent_id id d gs)

pub owner_of-gives :
    (id d : String) (gs : List Grant)
    → distinct_ids gs ≡ true
    → gives id d gs ≡ true
    → owner_of id gs ≡ some d
owner_of-gives id d [] distinct given = ground arith
owner_of-gives id d (g ∷ gs) distinct given =
    ground
      (arith, owner_of-gives id d gs, absent_id id d gs, eq_iff g.grant_id id, eq_iff g.device_id d)

pub moves-gives :
    (old new : List Grant) (id d : String)
    → any (bad_grant old) new ≡ false
    → gives id d new ≡ true
    → differs (owner_of id old) d ≡ false
moves-gives old [] id d clean given = ground arith
moves-gives old (g ∷ gs) id d clean given =
    ground (arith, moves-gives old gs id d, eq_iff g.grant_id id, eq_iff g.device_id d)
