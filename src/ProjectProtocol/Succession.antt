-- ===== src/ProjectProtocol/Succession.antt =====
-- What a policy transition that was accepted guarantees.
use keys_keeper_skill.Prelude.{
  suc, ◌≤◌, ◌<◌, String, ◌≡◌, refl, sym, ap, ◌∙◌, subst, ◌≢◌, ◌⊎◌, inl, inr, Bool, true, false,
  some, List, [], ◌∷◌, arith, eq_iff, nat_eq, string_eq, option_eq, list_eq, option_beq_iff,
  Bool-cases, Option-cases, any,
}
use keys_keeper_skill.SyncServer.Tables.{Bytes}
use keys_keeper_skill.SyncServer.Requests.{Json}
use keys_keeper_skill.ProjectProtocol.Checked.{valid}
use keys_keeper_skill.ProjectProtocol.Records.{verify}
use keys_keeper_skill.ProjectProtocol.Signatures.{IsSigned, verify-IsSigned}
use keys_keeper_skill.ProjectProtocol.Json.{
  Primitives, parse_record, canonical_hash, max_record_size, max_policy_size,
}
use keys_keeper_skill.ProjectProtocol.Policy.{
  Role, reader, contributor, Grant, Policy, grant_beq, role_beq, Expected, anything, differs,
  verify_policy, grant_of, read_policy,
}
use keys_keeper_skill.ProjectProtocol.Checked.{>>=-eq-valid}
use keys_keeper_skill.ProjectProtocol.Transition.{
  same_grants, all_in, bad_grant, check_transition, successor, validate_policy_transition,
}
use keys_keeper_skill.ProjectProtocol.GrantIds.{
  gives, distinct_ids, read_policy-distinct, owner_of-gives, moves-gives,
}

-- the same grant, or none, for each device
abbrev pub SameGrants : Policy → Policy → Type 0
SameGrants p q = (d : String) → grant_of d p.grants ≡ grant_of d q.grants

role_beq-eq : (r s : Role) → role_beq r s ≡ true → r ≡ s
role_beq-eq reader reader h = refl
role_beq-eq reader contributor h = cc
role_beq-eq contributor reader h = cc
role_beq-eq contributor contributor h = refl

grant_beq-eq : (g h : Grant) → grant_beq g h ≡ true → g ≡ h
grant_beq-eq g h e = ground (
  arith,
  role_beq-eq g.role h.role,
  eq_iff g.grant_id h.grant_id,
  eq_iff g.device_id h.device_id,
  eq_iff g.signing_public_key h.signing_public_key,
  eq_iff g.agreement_public_key h.agreement_public_key,
  eq_iff g.token_hash h.token_hash,
)

grant_of-device :
    (d : String) (gs : List Grant) (g : Grant) → grant_of d gs ≡ some g → g.device_id ≡ d
grant_of-device d [] g at = ground arith
grant_of-device d (x ∷ gs) g at = ground (arith, grant_of-device d gs g, eq_iff x.device_id d)

all_in-grant_of :
    (d : String) (gs old : List Grant) (g : Grant)
    → all_in gs old ≡ true
    → grant_of d gs ≡ some g
    → grant_of d old ≡ some g
all_in-grant_of d [] old g inside at = ground arith
all_in-grant_of d (x ∷ gs) old g inside at = elim (Option-cases (grant_of x.device_id old)) [
  | inl absent ↦ ground arith
  | inr (h, found) ↦
      ground (arith, all_in-grant_of d gs old g, eq_iff x.device_id d, grant_beq-eq x h)
]

same_grants-SameGrants : (p q : Policy) → same_grants p.grants q.grants ≡ true → SameGrants p q
same_grants-SameGrants p q same d = elim (Option-cases (grant_of d p.grants)) [
  | inr (g, at) ↦ at ∙ sym (all_in-grant_of d p.grants q.grants g (ground arith) at)
  | inl none_old ↦ elim (Option-cases (grant_of d q.grants)) [
    | inl none_new ↦ none_old ∙ sym none_new
    | inr (g, at) ↦ all_in-grant_of d q.grants p.grants g (ground arith) at ∙ sym at
  ]
]

grant_of-any :
    (p : Grant → Bool) (d : String) (gs : List Grant) (g : Grant)
    → any p gs ≡ false
    → grant_of d gs ≡ some g
    → p g ≡ false
grant_of-any p d [] g clean at = ground arith
grant_of-any p d (x ∷ gs) g clean at = ground (arith, grant_of-any p d gs g)

-- The grant of a device in the new policy: the old one, or one with another id and a later
-- generation.
abbrev pub Renewed : Grant → Grant → Type 0
Renewed g h = (h ≡ g) ⊎ ((h.grant_id ≢ g.grant_id) × (g.generation < h.generation))

pub record Follows (old new : Policy) : Type 0 where
  pub next_version : new.version ≡ suc old.version
  pub scope : new.scope_id ≡ old.scope_id
  pub vault : new.vault_id ≡ old.vault_id
  pub epoch : (new.epoch ≡ old.epoch) ⊎ (new.epoch ≡ suc old.epoch)
  pub kept_epoch : new.epoch ≡ old.epoch → SameGrants old new
  pub kept_checkpoint :
      new.epoch ≡ old.epoch
      → (new.checkpoint_sequence ≡ old.checkpoint_sequence)
        × (new.checkpoint_hash ≡ old.checkpoint_hash)
  pub no_rollback : old.checkpoint_sequence ≤ new.checkpoint_sequence
  pub no_fork :
      new.checkpoint_sequence ≡ old.checkpoint_sequence → new.checkpoint_hash ≡ old.checkpoint_hash
  pub renewed :
      (d : String) (g h : Grant)
      → grant_of d old.grants ≡ some g
      → grant_of d new.grants ≡ some h
      → Renewed g h
  -- a grant's id never passes to another device
  pub kept_ids :
      (id d d' : String) → gives id d old.grants ≡ true → gives id d' new.grants ≡ true → d' ≡ d
  pub master : new.master_device_id ≡ old.master_device_id
  pub inbox : new.inbox_public_key ≡ old.inbox_public_key

-- the policy is what the pinned key has signed in a record
pub record IsPolicy (P : Primitives) (r : Json) (pin : Bytes) (p : Policy) : Type 0 where
  pub payload : Json
  pub signed : IsSigned P max_policy_size r "policy" pin payload
  pub read : read_policy P payload ≡ valid p

-- the policy names the hash of the record before it
pub record IsLinked (P : Primitives) (before : Json) (new : Policy) : Type 0 where
  pub copy : Json
  pub parsed : parse_record P max_record_size before ≡ valid copy
  pub hash : String
  pub hashed : canonical_hash P copy ≡ valid hash
  pub parent : new.parent_policy_hash ≡ some hash

module _ (old new : Policy) (h : String) (passed : check_transition old new h ≡ valid tt) where
  kept_grants : new.epoch ≡ old.epoch → SameGrants old new
  unfolding check_transition
  kept_grants same = same_grants-SameGrants old new (ground arith)

  replaced_grant :
      (d : String) (g g' : Grant)
      → grant_of d old.grants ≡ some g
      → grant_of d new.grants ≡ some g'
      → Renewed g g'
  unfolding check_transition
  replaced_grant d g g' at at' =
      let clean : any (bad_grant old.grants) new.grants ≡ false = ground arith in
      let fine = grant_of-any (bad_grant old.grants) d new.grants g' clean at' in
      let here = grant_of-device d new.grants g' at' in
      let prior : grant_of g'.device_id old.grants ≡ some g = rw here at in
      elim (Bool-cases (grant_beq g' g)) [
        | inl same ↦ inl (grant_beq-eq g' g same)
        | inr other ↦ inr (ground (arith, eq_iff g'.grant_id g.grant_id), ground arith)
      ]

  same_owner :
      distinct_ids old.grants ≡ true
      → (id d d' : String) → gives id d old.grants ≡ true
      → gives id d' new.grants ≡ true
      → d' ≡ d
  unfolding check_transition
  same_owner distinct id d d' given given' =
      let clean : any (bad_grant old.grants) new.grants ≡ false = ground arith in
      ground (
        arith,
        moves-gives old.grants new.grants id d' clean given',
        owner_of-gives id d old.grants distinct given,
        eq_iff d' d,
      )

  linked : new.parent_policy_hash ≡ some h
  unfolding check_transition
  linked = ground (arith, option_beq_iff new.parent_policy_hash (some h))

  unchanged :
      (new.checkpoint_sequence ≡ old.checkpoint_sequence
        → new.checkpoint_hash ≡ old.checkpoint_hash)
      × (new.master_device_id ≡ old.master_device_id)
      × (new.inbox_public_key ≡ old.inbox_public_key)
  unfolding check_transition
  unchanged = (
    λ same. ground (arith, option_beq_iff new.checkpoint_hash old.checkpoint_hash),
    ground (arith, eq_iff new.master_device_id old.master_device_id),
    ground (arith, eq_iff new.inbox_public_key old.inbox_public_key),
  )

  checkpoint_kept :
      new.epoch ≡ old.epoch
      → (new.checkpoint_sequence ≡ old.checkpoint_sequence)
        × (new.checkpoint_hash ≡ old.checkpoint_hash)
  unfolding check_transition
  checkpoint_kept same = ground (arith, option_beq_iff new.checkpoint_hash old.checkpoint_hash)

  check_transition-Follows :
      distinct_ids old.grants ≡ true
      → differs (some old.scope_id) new.scope_id ≡ false
      → differs (some old.vault_id) new.vault_id ≡ false
      → Follows old new
  unfolding check_transition
  check_transition-Follows distinct scope vault =
      let (no_fork, master, inbox) = unchanged in
      record {
        next_version = ground arith;
        scope = ground (arith, eq_iff new.scope_id old.scope_id);
        vault = ground (arith, eq_iff new.vault_id old.vault_id);
        epoch = ground arith;
        kept_epoch = kept_grants;
        kept_checkpoint = checkpoint_kept;
        no_rollback = ground arith;
        no_fork = no_fork;
        renewed = replaced_grant;
        kept_ids = same_owner distinct;
        master = master;
        inbox = inbox;
      }

module _ (P : Primitives) where
  verify_policy-Expected :
      (r : Json) (pin : Bytes) (x : Expected) (p : Policy)
      → verify_policy P r pin x ≡ valid p
      → (verify_policy P r pin anything ≡ valid p)
        × (differs x.scope p.scope_id ≡ false)
        × (differs x.vault p.vault_id ≡ false)
  unfolding verify_policy
  verify_policy-Expected r pin x p e = (ground arith, ground arith, ground arith)

  verify_policy-IsPolicy :
      (r : Json) (pin : Bytes) (p : Policy)
      → verify_policy P r pin anything ≡ valid p
      → IsPolicy P r pin p
  unfolding verify_policy
  verify_policy-IsPolicy r pin p e =
      let (payload, verified, e₁) = >>=-eq-valid (verify P max_policy_size r "policy" pin) _ p e in
      let (p', read, e₂) = >>=-eq-valid (read_policy P payload) _ p e₁ in
      let same : p' ≡ p = ground arith in
      record {
        payload = payload;
        signed = verify-IsSigned P max_policy_size r "policy" pin payload verified;
        read = read ∙ ap valid same;
      }

  -- A transition that is accepted goes from one policy to another, both signed with the pinned key.
  -- The second names the hash of the first, and is its next version: of the same scope, vault,
  -- master and inbox, and with its checkpoint not rolled back. Grants change only with the epoch, a
  -- device's grant only to one with another id and a later generation, and the id of an old grant
  -- stays with its device.
  pub validate_policy_transition-Follows :
      (old_record new_record : Json) (pin : Bytes) (new : Policy)
      → validate_policy_transition P old_record new_record pin ≡ valid new
      → (old : Policy) × (verify_policy P old_record pin anything ≡ valid old)
        × (verify_policy P new_record pin anything ≡ valid new)
        × Follows old new
        × IsPolicy P old_record pin old
        × IsPolicy P new_record pin new
        × IsLinked P old_record new
  unfolding validate_policy_transition
  validate_policy_transition-Follows old_record new_record pin new accepted =
      let (old, verified, e₁) =
        >>=-eq-valid (verify_policy P old_record pin anything) _ new accepted in
      let (new', verified', e₂) =
        >>=-eq-valid (verify_policy P new_record pin (successor old)) _ new e₁ in
      let (copy, read, e₃) = >>=-eq-valid (parse_record P max_record_size old_record) _ new e₂ in
      let (hash, hashed, e₄) = >>=-eq-valid (canonical_hash P copy) _ new e₃ in
      let (checked, passed, e₅) = >>=-eq-valid (check_transition old new' hash) _ new e₄ in
      let same : new' ≡ new = ground arith in
      let (plain, scope, vault) =
        verify_policy-Expected new_record pin (successor old) new (verified' ∙ ap valid same) in
      let link = subst (λ x. check_transition old x hash ≡ valid tt) same passed in
      let first = verify_policy-IsPolicy old_record pin old verified in
      (
        old,
        verified,
        plain,
        check_transition-Follows old new hash link
            (read_policy-distinct P first.payload old first.read) scope vault,
        first,
        verify_policy-IsPolicy new_record pin new plain,
        record {
          copy = copy;
          parsed = read;
          hash = hash;
          hashed = hashed;
          parent = linked old new hash link;
        },
      )
