-- ===== src/ProjectRelay/Additions.antt =====
-- The pieces of a request to the project relay only add rows.
use keys_keeper_skill.Prelude.{
  ◌*◌, String, Bool, true, false, not, ◌||◌, Option, none, some, List, [], ◌∷◌, ◌==◌, nat_eq,
  string_eq, option_eq, list_eq,
}
use keys_keeper_skill.SyncServer.Outcome.{
  SyncError, http, Result, ok, err, Outcome, failed, Tx, lift, ◌>>=◌, ◌>>◌, raise_if,
}
use keys_keeper_skill.SyncServer.Tables.{Bytes}
use keys_keeper_skill.SyncServer.Requests.{Json}
use keys_keeper_skill.ProjectProtocol.Json.{
  Primitives, parse_bytes, canonical_bytes, canonical_hash, max_record_size,
}
use keys_keeper_skill.ProjectProtocol.Records.{get_member}
use keys_keeper_skill.ProjectProtocol.Policy.{Grant, read_operation, authorize_grant}
use keys_keeper_skill.ProjectProtocol.Messages.{Revocation, verify_revocation}
use keys_keeper_skill.ProjectProtocol.Transition.{validate_policy_transition}
use keys_keeper_skill.ProjectRelay.Tables.{
  PolicyRow, GrantRow, BlockRow, ProjectDb, find_policy, find_grant, find_block, is_blocked,
  highest_generation, at_least,
}
use keys_keeper_skill.ProjectRelay.Access.{
  Headers, Caller, Action, revokes, checked, text_of, digest_text, unsigned_payload, authenticate,
}
use keys_keeper_skill.SyncServer.Access.{App}
use keys_keeper_skill.RelayStorage.{budget}
use keys_keeper_skill.ProjectRelay.Storage.{storage_budget, project_usage}
use keys_keeper_skill.ProjectRelay.Contracts.{
  Post, answers, raises, bind_post, lift_post, check_post, or_raise_post, raise_if_post, then_post,
  weaken_post, if_post, then_post,
}
use keys_keeper_skill.ProjectRelay.Scopes.{
  insert_policy, insert_grant, grant_json, holds, dump, remember_grants, remember_grant,
  remember_known,
}
use keys_keeper_skill.ProjectRelay.Publish.{change_policy, policy_unless, next_policy}
use keys_keeper_skill.ProjectRelay.Blocks.{insert_block, verify_block, block_unless, block_body}
use keys_keeper_skill.ProjectRelay.Admission.{authenticate_post}

-- A relation between databases that holds of the rows that a policy or a block adds.
pub record Frame : Type 1 where
  pub Rel : ProjectDb → ProjectDb → Type 0
  pub refl_rel : (db : ProjectDb) → Rel db db
  pub trans_rel : (a b c : ProjectDb) → Rel a b → Rel b c → Rel a c
  pub add_policy :
      (row : PolicyRow) (db : ProjectDb) → Post (λ a s. Rel db s) (insert_policy row db)
  pub add_grant : (row : GrantRow) (db : ProjectDb) → Post (λ a s. Rel db s) (insert_grant row db)
  pub add_block : (row : BlockRow) (db : ProjectDb) → Post (λ a s. Rel db s) (insert_block row db)

-- a piece that moves the database along the relation
abbrev pub Adds : Frame → {A : Type 0} → ProjectDb → Outcome ProjectDb A → Type 0
Adds F db o = Post (λ a s. F.Rel db s) o

module _ (F : Frame) where
  -- one piece after another
  pub add_then :
      {B : Type 0} (m : Tx ProjectDb (Unit {0})) (k : Tx ProjectDb B) (db : ProjectDb)
      → Adds F db (m db)
      → ((s : ProjectDb) → Adds F s (k s))
      → Adds F db ((m >> k) db)
  add_then m k db first next =
      then_post m k first λ s e. weaken_post (λ a s' e'. F.trans_rel db s s' e e') (next s)

  pub add_bind :
      {A B : Type 0} (m : Tx ProjectDb A) (f : A → Tx ProjectDb B) (db : ProjectDb)
      → Adds F db (m db)
      → ((a : A) (s : ProjectDb) → Adds F s (f a s))
      → Adds F db ((m >>= f) db)
  add_bind m f db first next =
      bind_post m f first λ a s e. weaken_post (λ b s' e'. F.trans_rel db s s' e e') (next a s)

  pub lift_adds : {A : Type 0} (r : Result A) (db : ProjectDb) → Adds F db (lift r db)
  lift_adds (ok a) db = answers (F.refl_rel db)
  lift_adds (err e) db = raises

  pub raise_if_adds : (b : Bool) (e : SyncError) (db : ProjectDb) → Adds F db (raise_if b e db)
  raise_if_adds true e db = raises
  raise_if_adds false e db = answers (F.refl_rel db)

module _ (F : Frame) (app : App) (P : Primitives) where
  pub budget_adds :
      (s : String) (control : Bool) (db : ProjectDb)
      → Adds F db (storage_budget app.limits s control db)
  unfolding storage_budget
  budget_adds s control db =
      lift_adds F (budget app.limits (project_usage (some s) db) (project_usage none db) control) db

  pub dump_adds : (value : Json) (db : ProjectDb) → Adds F db (dump P value db)
  unfolding dump
  dump_adds value db = lift_adds F (checked (canonical_bytes P max_record_size value)) db

  -- what is done with an admitted caller
  pub after_auth :
      {B : Type 0} (scope_id : String) (h : Headers) (action : Action) (f : Caller → Tx ProjectDb B)
      (db : ProjectDb)
      → ((c : Caller) → Adds F db (f c db))
      → Adds F db ((authenticate app P scope_id h.authorization h.device action >>= f) db)
  after_auth scope_id h action f db each =
      authenticate_post app P scope_id h.authorization h.device action f
        λ c token bearer admitted. each c

  block_unless_adds :
      (scope_id : String) (c : Caller) (body : Revocation) (encoded : Bytes)
      (prior : Option BlockRow) (db : ProjectDb)
      → Adds F db (block_unless app P scope_id c body encoded prior db)
  unfolding block_unless
  block_unless_adds scope_id c body encoded (some prior) db =
      raise_if_adds F (not (prior.content == encoded)) (http 409 "revocation_conflict") db
  block_unless_adds scope_id c body encoded none db =
      check_post
        {c = authorize_grant c.policy body.device_id read_operation (some body.grant_id)
          (some body.generation)}
        _
        λ g active.
          F.add_block (record { scope_id = scope_id; grant_id = body.grant_id; content = encoded })
            db

  verify_block_adds :
      (scope_id : String) (c : Caller) (given : Json) (db : ProjectDb)
      → Adds F db (verify_block app P scope_id c given db)
  unfolding verify_block
  verify_block_adds scope_id c given db =
      lift_post {r = unsigned_payload app P (16 * 1024) given} _ λ opened e₁.
        lift_post {r = digest_text (text_of (get_member "policy_hash" opened.1))} _ λ named e₂.
          or_raise_post {o = find_policy scope_id named db.policies} (http 422 "unknown_policy") _
            λ old e₃. check_post {c = parse_bytes P max_record_size old.content} _ λ policy e₄.
              check_post {c = verify_revocation P opened.0 policy c.pin} _
                λ body e₅. answers (F.refl_rel db)

  pub block_adds :
      (scope_id : String) (h : Headers) (given : Json) (db : ProjectDb)
      → Adds F db (block_body app P scope_id h given db)
  unfolding block_body
  block_adds scope_id h given db = after_auth scope_id h revokes _ db λ c.
      add_bind F (verify_block app P scope_id c given) _ db (verify_block_adds scope_id c given db)
        λ verified s₁. add_bind F (dump P verified.0) _ s₁ (dump_adds verified.0 s₁) λ encoded s₂.
          add_then F
            (block_unless app P scope_id c verified.1 encoded
              (find_block scope_id verified.1.grant_id s₂.blocks))
            _ s₂
            (block_unless_adds scope_id c verified.1 encoded
              (find_block scope_id verified.1.grant_id s₂.blocks) s₂)
            λ s₃.
              add_then F (storage_budget app.limits scope_id true) _ s₃
                (budget_adds scope_id true s₃) λ s₄. answers (F.refl_rel s₄)

  -- the rows of the grants
  remember_known_adds :
      (scope_id : String) (previous : List Grant) (g : Grant) (encoded : Bytes)
      (known : Option GrantRow) (db : ProjectDb)
      → Adds F db (remember_known P scope_id previous g encoded known db)
  remember_known_adds scope_id previous g encoded (some known) db =
      raise_if_adds F (not (holds g.grant_id previous) || not (known.content == encoded))
        (http 409 "grant_identity_reused") db
  remember_known_adds scope_id previous g encoded none db =
      if_post {b = at_least (highest_generation scope_id g.device_id db.grants) g.generation}
        {x = failed (http 409 "grant_generation_reused")}
        {y = insert_grant
          (record {
            scope_id = scope_id;
            grant_id = g.grant_id;
            device_id = g.device_id;
            generation = g.generation;
            content = encoded;
          })
          db}
        (λ reused. raises)
        λ fresh.
          F.add_grant
            (record {
              scope_id = scope_id;
              grant_id = g.grant_id;
              device_id = g.device_id;
              generation = g.generation;
              content = encoded;
            })
            db

  remember_grant_adds :
      (scope_id : String) (previous : List Grant) (g : Grant) (db : ProjectDb)
      → Adds F db (remember_grant P scope_id previous g db)
  unfolding remember_grant
  remember_grant_adds scope_id previous g db =
      add_bind F (dump P (grant_json g)) _ db (dump_adds (grant_json g) db) λ encoded s.
        add_then F
          (remember_known P scope_id previous g encoded (find_grant scope_id g.grant_id s.grants)) _
          s
          (remember_known_adds scope_id previous g encoded (find_grant scope_id g.grant_id s.grants)
            s)
          λ s'.
            raise_if_adds F (is_blocked scope_id g.grant_id s'.blocks) (http 409 "grant_revoked") s'

  remember_grants_adds :
      (scope_id : String) (previous gs : List Grant) (db : ProjectDb)
      → Adds F db (remember_grants P scope_id previous gs db)
  unfolding remember_grants
  remember_grants_adds scope_id previous [] db = answers (F.refl_rel db)
  remember_grants_adds scope_id previous (g ∷ gs) db =
      add_then F (remember_grant P scope_id previous g) (remember_grants P scope_id previous gs) db
        (remember_grant_adds scope_id previous g db)
        λ s. remember_grants_adds scope_id previous gs s

  change_policy_adds :
      (scope_id : String) (c : Caller) (policy : Json) (db : ProjectDb)
      → Adds F db (change_policy app P scope_id c policy db)
  unfolding change_policy
  change_policy_adds scope_id c policy db =
      check_post {c = validate_policy_transition P c.policy_record policy c.pin} _ λ body e₁.
        raise_if_post
          {b = not (body.checkpoint_sequence == c.row.sequence)
            || not (body.checkpoint_hash == c.row.head_hash)}
          (http 409 "checkpoint_conflict") _
          λ same.
            add_then F (remember_grants P scope_id c.policy.grants body.grants) _ db
              (remember_grants_adds scope_id c.policy.grants body.grants db)
              λ s. check_post {c = canonical_hash P policy} _ λ hash e₂.
                add_bind F (dump P policy) _ s (dump_adds policy s) λ encoded s'.
                  add_then F
                    (insert_policy (record {
                      scope_id = scope_id;
                      hash = hash;
                      version = body.version;
                      content = encoded;
                    }))
                    _ s'
                    (F.add_policy
                      (record {
                        scope_id = scope_id;
                        hash = hash;
                        version = body.version;
                        content = encoded;
                      })
                      s')
                    λ s''. answers (F.refl_rel s'')

  policy_unless_adds :
      (current : Bool) (scope_id : String) (c : Caller) (policy : Json) (db : ProjectDb)
      → Adds F db (policy_unless app P current scope_id c policy db)
  policy_unless_adds true scope_id c policy db = answers (F.refl_rel db)
  policy_unless_adds false scope_id c policy db = change_policy_adds scope_id c policy db

  pub next_policy_adds :
      (scope_id : String) (c : Caller) (policy : Json) (db : ProjectDb)
      → Adds F db (next_policy app P scope_id c policy db)
  unfolding next_policy
  next_policy_adds scope_id c policy db = check_post {c = canonical_hash P policy} _ λ hash e₁.
      check_post {c = canonical_hash P c.policy_record} _
        λ current e₂. policy_unless_adds (hash == current) scope_id c policy db
