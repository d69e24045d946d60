-- ===== src/ProjectProtocol/Transition.antt =====
-- validate_policy_transition of project_protocol.py.
use keys_keeper_skill.Prelude.{
  suc, String, Bool, true, false, not, ◌&&◌, ◌||◌, Option, none, some, List, [], ◌∷◌, ltb, leb,
  ◌==◌, if◌then◌else◌, nat_eq, string_eq, option_eq, list_eq, any,
}
use keys_keeper_skill.SyncServer.Tables.{Bytes}
use keys_keeper_skill.SyncServer.Requests.{Json}
use keys_keeper_skill.ProjectProtocol.Checked.{
  Checked, valid, authorization, replay, ◌>>=◌, ◌>>◌, refuse_if,
}
use keys_keeper_skill.ProjectProtocol.Json.{
  Primitives, parse_record, canonical_hash, max_record_size,
}
use keys_keeper_skill.ProjectProtocol.Policy.{
  Grant, Policy, grant_beq, Expected, anything, differs, verify_policy, grant_of,
}

abbrev pub has_grant : List Grant → Grant → Bool
has_grant gs g = elim (grant_of g.device_id gs) [ none ↦ false | some h ↦ grant_beq g h ]

abbrev pub all_in : List Grant → List Grant → Bool
all_in [] gs = true
all_in (g ∷ rest) gs = has_grant gs g && all_in rest gs

-- `old_grants == new_grants`, two dictionaries by device: each one's grants are in the other
abbrev pub same_grants : List Grant → List Grant → Bool
same_grants old new = all_in old new && all_in new old

-- the owner of a grant id among the old grants; the last of equal keys would win, but ids are unique
abbrev pub owner_of : String → List Grant → Option String
owner_of id [] = none
owner_of id (g ∷ gs) =
    let rest = owner_of id gs in if g.grant_id == id then some g.device_id else rest

abbrev pub moves : List Grant → Grant → Bool
moves old g = differs (owner_of g.grant_id old) g.device_id

-- a grant that differs from the device's prior one keeps its id or does not raise its generation
abbrev pub reuses : List Grant → Grant → Bool
reuses old g = elim (grant_of g.device_id old) [
  | none ↦ false
  | some prior ↦
      not (grant_beq g prior) && (g.grant_id == prior.grant_id || leb g.generation prior.generation)
]

abbrev pub bad_grant : List Grant → Grant → Bool
bad_grant old g = moves old g || reuses old g

abbrev pub same_checkpoint : Policy → Policy → Bool
same_checkpoint old new =
    new.checkpoint_sequence == old.checkpoint_sequence && new.checkpoint_hash == old.checkpoint_hash

-- the comparisons of `validate_policy_transition`, in its order
unfoldable pub check_transition : Policy → Policy → String → Checked (Unit {0})
check_transition old new old_hash = do
  refuse_if (not (new.version == suc old.version) || not (new.parent_policy_hash == some old_hash))
      replay
  refuse_if (not (new.epoch == old.epoch || new.epoch == suc old.epoch)) replay
  refuse_if
      (ltb new.checkpoint_sequence old.checkpoint_sequence
        || (new.checkpoint_sequence == old.checkpoint_sequence
            && not (new.checkpoint_hash == old.checkpoint_hash)))
      replay
  refuse_if (not (same_grants old.grants new.grants) && not (new.epoch == suc old.epoch))
      authorization
  refuse_if (new.epoch == old.epoch && not (same_checkpoint old new)) replay
  refuse_if (any (bad_grant old.grants) new.grants) authorization
  refuse_if (not (new.master_device_id == old.master_device_id)) authorization
  refuse_if (not (new.inbox_public_key == old.inbox_public_key)) authorization

-- what `validate_policy_transition` expects of the new policy
abbrev pub successor : Policy → Expected
successor old = record {
  scope = some old.scope_id;
  vault = some old.vault_id;
  minimum_version = suc old.version;
  minimum_epoch = old.epoch;
}

module _ (P : Primitives) where
  -- `validate_policy_transition`
  unfoldable pub validate_policy_transition : Json → Json → Bytes → Checked Policy
  validate_policy_transition old_record new_record pin = do
    old ← verify_policy P old_record pin anything
    new ← verify_policy P new_record pin (successor old)
    copy ← parse_record P max_record_size old_record
    old_hash ← canonical_hash P copy
    check_transition old new old_hash
    valid new
