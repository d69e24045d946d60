-- ===== src/ProjectRelay/Scopes.antt =====
-- `create_scope` and `_remember_grants` of project_server.py.
use keys_keeper_skill.Prelude.{
  ℕ, String, Bool, true, false, not, ◌&&◌, ◌||◌, Option, none, some, List, [], ◌∷◌, ◌==◌,
  if◌then◌else◌, nat_eq, string_eq, option_eq, list_eq, any,
}
use keys_keeper_skill.SyncServer.Outcome.{
  http, integrity, Result, ok, err, done, failed, Tx, pure, gets, submit, ◌>>=◌, ◌>>◌, raise_if,
  and_then,
}
use keys_keeper_skill.SyncServer.Tables.{Bytes}
use keys_keeper_skill.SyncServer.Requests.{Json, int, str, object, Members, end, field}
use keys_keeper_skill.ProjectProtocol.Json.{
  Primitives, canonical_bytes, canonical_hash, max_record_size, max_policy_size,
}
use keys_keeper_skill.ProjectProtocol.Records.{get_member, decode_key}
use keys_keeper_skill.ProjectProtocol.Policy.{
  Role, reader, contributor, Grant, Policy, anything, verify_policy,
}
use keys_keeper_skill.ProjectRelay.Tables.{
  ScopeRow, PolicyRow, GrantRow, ProjectDb, first_policy, find_grant, is_blocked,
  highest_generation, at_least,
}
use keys_keeper_skill.ProjectRelay.Access.{
  Headers, check, checked, relay_fields, entry, uuid_text, unsigned_payload, invalid_record,
}
use keys_keeper_skill.SyncServer.Access.{App, authenticate_admin}
use keys_keeper_skill.ProjectRelay.Storage.{storage_budget}

-- an `INSERT` that fails when it would break a key
abbrev pub insert_unless : Bool → (ProjectDb → ProjectDb) → Tx ProjectDb (Unit {0})
insert_unless true f db = failed integrity
insert_unless false f db = done tt (f db)

unfoldable pub insert_scope : ScopeRow → Tx ProjectDb (Unit {0})
insert_scope row db =
    insert_unless (any (λ r. r.scope_id == row.scope_id) db.scopes)
      (λ d. record d { scopes = row ∷ d.scopes }) db

unfoldable pub insert_policy : PolicyRow → Tx ProjectDb (Unit {0})
insert_policy row db =
    insert_unless
      (any (λ r. r.scope_id == row.scope_id && (r.hash == row.hash || r.version == row.version))
        db.policies)
      (λ d. record d { policies = row ∷ d.policies }) db

unfoldable pub insert_grant : GrantRow → Tx ProjectDb (Unit {0})
insert_grant row db =
    insert_unless
      (any
        (λ r.
          r.scope_id == row.scope_id
          && (r.grant_id == row.grant_id
              || (r.device_id == row.device_id && r.generation == row.generation)))
        db.grants)
      (λ d. record d { grants = row ∷ d.grants }) db

abbrev role_text : Role → String
role_text reader = "reader"
role_text contributor = "contributor"

-- the dictionary of a grant that `_policy` has checked
abbrev pub grant_json : Grant → Json
grant_json g = object (
    field "agreement_public_key" (str g.agreement_public_key) (
      field "device_id" (str g.device_id) (
        field "generation" (int g.generation) (
          field "grant_id" (str g.grant_id) (
            field "role" (str (role_text g.role)) (
              field "signing_public_key" (str g.signing_public_key)
                (field "token_hash" (str g.token_hash) end)))))))

abbrev pub holds : String → List Grant → Bool
holds id gs = any (λ g. g.grant_id == id) gs

module _ (P : Primitives) where
  -- `_dump`
  unfoldable pub dump : Json → Tx ProjectDb Bytes
  dump value db = check (canonical_bytes P max_record_size value) db

  -- a grant whose id the scope has seen, or has not
  abbrev pub remember_known :
      String → List Grant → Grant → Bytes → Option GrantRow → Tx ProjectDb (Unit {0})
  remember_known scope_id previous g encoded (some known) db =
      raise_if (not (holds g.grant_id previous) || not (known.content == encoded))
        (http 409 "grant_identity_reused") db
  remember_known scope_id previous g encoded none db =
      if at_least (highest_generation scope_id g.device_id db.grants) g.generation
      then failed (http 409 "grant_generation_reused")
      else insert_grant
          (record {
            scope_id = scope_id;
            grant_id = g.grant_id;
            device_id = g.device_id;
            generation = g.generation;
            content = encoded;
          })
          db

  unfoldable pub remember_grant : String → List Grant → Grant → Tx ProjectDb (Unit {0})
  remember_grant scope_id previous g = do
    encoded ← dump (grant_json g)
    grants ← gets (λ db. db.grants)
    remember_known scope_id previous g encoded (find_grant scope_id g.grant_id grants)
    blocks ← gets (λ db. db.blocks)
    raise_if (is_blocked scope_id g.grant_id blocks) (http 409 "grant_revoked")

  -- `_remember_grants`, with the grants of the previous policy
  unfoldable pub remember_grants : String → List Grant → List Grant → Tx ProjectDb (Unit {0})
  remember_grants scope_id previous [] db = done tt db
  remember_grants scope_id previous (g ∷ gs) db =
      (remember_grant scope_id previous g >> remember_grants scope_id previous gs) db

-- what `create_scope` has read and verified before its transaction
pub record ScopeForm : Type 0 where
  pub scope_id : String
  pub pinned_key : String
  pub hash : String
  pub encoded : Bytes

abbrev is_initial : Policy → Bool
is_initial p =
    p.version == 1
    && p.epoch == 1
    && p.checkpoint_sequence == 0
    && elim p.grants [ [] ↦ true | g ∷ gs ↦ false ]

abbrev pub scope_answer : ℕ → String → ℕ × Json
scope_answer status scope_id = (status, object (field "scope_id" (str scope_id) end))

module _ (app : App) (P : Primitives) where
  -- `candidate_body.get("master_public_key")`
  abbrev given_key : Members → Result Bytes
  given_key ms = elim (get_member "master_public_key" ms) [
    | none ↦ err invalid_record
    | some j ↦ checked (decode_key P j)
  ]

  unfoldable pub read_scope : Headers → Json → Result ScopeForm
  read_scope h payload = and_then (authenticate_admin app h.authorization) λ admitted.
      and_then (relay_fields ("policy" ∷ []) payload) λ ms. and_then (entry "policy" ms) λ given.
        and_then (unsigned_payload app P max_policy_size given) λ opened.
          and_then (given_key opened.1) λ pin.
            and_then (checked (verify_policy P opened.0 pin anything)) λ body.
              if not (is_initial body)
              then err (http 422 "invalid_initial_policy")
              else and_then (uuid_text app P (some body.scope_id)) λ scope_id.
                and_then (checked (canonical_bytes P max_record_size opened.0)) λ encoded.
                  and_then (checked (canonical_hash P opened.0)) λ hash. ok (record {
                    scope_id = scope_id;
                    pinned_key = P.b64encode pin;
                    hash = hash;
                    encoded = encoded;
                  })

  unfoldable pub new_scope : ScopeForm → Tx ProjectDb (ℕ × Json)
  new_scope form = do
    insert_scope (record {
      scope_id = form.scope_id;
      pinned_key = form.pinned_key;
      policy = form.encoded;
      head_hash = none;
      sequence = 0;
    })
    insert_policy
        (record { scope_id = form.scope_id; hash = form.hash; version = 1; content = form.encoded })
    storage_budget app.limits form.scope_id false
    pure (scope_answer 201 form.scope_id)

  -- the scope's first policy is there already, or it is not
  abbrev pub store_scope_unless : ScopeForm → Option PolicyRow → Tx ProjectDb (ℕ × Json)
  store_scope_unless form (some row) db =
      if not (row.content == form.encoded)
      then failed (http 409 "scope_exists")
      else done (scope_answer 200 form.scope_id) db
  store_scope_unless form none db = new_scope form db

  unfoldable pub store_scope : ScopeForm → Tx ProjectDb (ℕ × Json)
  store_scope form = do
    rows ← gets (λ db. db.policies)
    store_scope_unless form (first_policy form.scope_id rows)

  -- `create_scope`
  unfoldable pub create_scope : Headers → Json → ProjectDb → Result (ℕ × Json) × ProjectDb
  create_scope h payload db = submit (read_scope h payload) store_scope db
