-- ===== src/ProjectRelay/Admission.antt =====
-- Which caller `_auth` admits.
use keys_keeper_skill.Prelude.{
  ℕ, String, ◌≡◌, refl, sym, ◌∙◌, subst, ◌⊎◌, inl, inr, Bool, true, false, Option, none, some,
  arith, eq_iff, ◌==◌, ◌!=◌, nat_eq, string_eq, option_eq, list_eq,
}
use keys_keeper_skill.SyncServer.Outcome.{SyncError, http, ok, Tx, ◌>>=◌, raise_if}
use keys_keeper_skill.SyncServer.Tables.{Bytes}
use keys_keeper_skill.SyncServer.Requests.{Json, str}
use keys_keeper_skill.ProjectProtocol.Json.{Primitives, parse_bytes, max_record_size}
use keys_keeper_skill.ProjectProtocol.Records.{decode_key}
use keys_keeper_skill.ProjectProtocol.Policy.{
  Grant, Policy, verify_policy, Operation, matches, allows, grant_of, authorize_grant,
}
use keys_keeper_skill.ProjectProtocol.Checked.{Checked, valid, invalid}
use keys_keeper_skill.ProjectRelay.Tables.{ScopeRow, ProjectDb, find_scope, is_blocked}
use keys_keeper_skill.ProjectRelay.Access.{
  Caller, Action, uuid_text, authenticate, delegated, check_delegate, check_caller, open_scope,
  token_digest, delegate_grant,
}
use keys_keeper_skill.SyncServer.Access.{App}
use keys_keeper_skill.SyncServer.Requests.{bearer_token}
use keys_keeper_skill.ProjectRelay.Contracts.{
  Post, answers, raises, bind_post, lift_post, check_post, or_raise_post, then_post, weaken_post,
  if_post, then_post,
}

pub authorize_valid :
    (p : Policy) (device : String) (op : Operation) (id : Option String) (n : Option ℕ) (g : Grant)
    → authorize_grant p device op id n ≡ valid g
    → (grant_of device p.grants ≡ some g) × (matches id n op g ≡ true)
unfolding authorize_grant
authorize_valid p device op id n g e = ground arith

-- the grant, the token and the blocks of a caller that is not the master
abbrev pub IsDelegate : String → String → String → Policy → Option Operation → ProjectDb → Type 0
IsDelegate scope_id device token_hash body o db =
    (g : Grant) × (op : Operation) × (o ≡ some op)
    × (grant_of device body.grants ≡ some g)
    × (allows op g.role ≡ true)
    × (token_hash ≡ g.token_hash)
    × (is_blocked scope_id g.grant_id db.blocks ≡ false)

delegate_grant_post :
    (scope_id token_hash : String) (r : Checked Grant) (db : ProjectDb)
    → Post
        (λ a s.
          (s ≡ db)
          × (g : Grant) × (r ≡ valid g)
          × (token_hash ≡ g.token_hash)
          × (is_blocked scope_id g.grant_id db.blocks ≡ false))
        (delegate_grant scope_id token_hash r db)
delegate_grant_post scope_id token_hash (invalid e) db = raises
delegate_grant_post scope_id token_hash (valid g) db =
    if_post (λ different. raises)
      λ same.
        if_post (λ out. raises)
          λ free.
            answers (refl, g, refl, ground (arith, same, eq_iff token_hash g.token_hash), free)

check_delegate_post :
    (scope_id device token_hash : String) (body : Policy) (o : Option Operation) (db : ProjectDb)
    → Post
        (λ a s. (s ≡ db) × IsDelegate scope_id device token_hash body o db)
        (check_delegate scope_id device token_hash body o db)
unfolding check_delegate
check_delegate_post scope_id device token_hash body none db = raises
check_delegate_post scope_id device token_hash body (some op) db =
    weaken_post
      (λ a s (same, g, e, t, free).
        let (found, fits) = authorize_valid body device op none none g e in
        (same, (g, op, refl, found, fits, t, free)))
      (delegate_grant_post scope_id token_hash (authorize_grant body device op none none) db)

-- the master with its token, or a delegate
abbrev pub IsCaller : String → String → String → Policy → Option Operation → ProjectDb → Type 0
IsCaller scope_id device token_hash body o db =
    ((device ≡ body.master_device_id) × (token_hash ≡ body.master_token_hash))
    ⊎ IsDelegate scope_id device token_hash body o db

raise_if_ends :
    (b : Bool) (e : SyncError) (db : ProjectDb)
    → Post (λ a s. (s ≡ db) × (b ≡ false)) (raise_if b e db)
raise_if_ends true e db = raises
raise_if_ends false e db = answers (refl, refl)

check_caller_post :
    (scope_id device token_hash : String) (body : Policy) (o : Option Operation) (db : ProjectDb)
    (master : Bool)
    → (device == body.master_device_id) ≡ master
    → Post
        (λ a s. (s ≡ db) × IsCaller scope_id device token_hash body o db)
        (check_caller scope_id device token_hash body o master db)
check_caller_post scope_id device token_hash body o db true e =
    weaken_post
      (λ a s (same, equal). (
        same,
        inl (
          ground (arith, e, eq_iff device body.master_device_id),
          ground (arith, equal, eq_iff token_hash body.master_token_hash),
        ),
      ))
      (raise_if_ends (token_hash != body.master_token_hash) (http 401 "unauthorized") db)
check_caller_post scope_id device token_hash body o db false e =
    weaken_post (λ a s (same, d). (same, inr d))
      (check_delegate_post scope_id device token_hash body o db)

-- what `_auth` has established of the caller when it returns
pub record Admitted (P : Primitives) (scope_id : String) (action : Action) (token_hash : String)
    (db : ProjectDb) (c : Caller) : Type 0 where
  pub row : find_scope scope_id db.scopes ≡ some c.row
  pub policy : parse_bytes P max_record_size c.row.policy ≡ valid c.policy_record
  pub pin : decode_key P (str c.row.pinned_key) ≡ valid c.pin
  pub body :
      verify_policy P c.policy_record c.pin
        (record { scope = some scope_id; vault = none; minimum_version = 0; minimum_epoch = 0 })
      ≡ valid c.policy
  pub caller : IsCaller scope_id c.device token_hash c.policy (delegated action) db

-- what `_scope` has established
abbrev Opened : Primitives → String → ProjectDb → ScopeRow × Json × Bytes × Policy → Type 0
Opened P scope_id db (row, policy, pin, body) =
    (find_scope scope_id db.scopes ≡ some row)
    × (parse_bytes P max_record_size row.policy ≡ valid policy)
    × (decode_key P (str row.pinned_key) ≡ valid pin)
    × (verify_policy P policy pin
          (record { scope = some scope_id; vault = none; minimum_version = 0; minimum_epoch = 0 })
        ≡ valid body)

module _ (app : App) (P : Primitives) where
  open_scope_post :
      (scope_id : String) (db : ProjectDb)
      → Post (λ x s. (s ≡ db) × Opened P scope_id db x) (open_scope app P scope_id db)
  unfolding open_scope
  open_scope_post scope_id db = or_raise_post _ _ λ row found. check_post _ λ policy parsed.
      check_post _ λ pin decoded.
        check_post _ λ body verified. answers (refl, (found, parsed, decoded, verified))

  pub authenticated :
      (scope_id : String) (authorization_header device_header : Option String) (action : Action)
      (db : ProjectDb)
      → Post
          (λ c s.
            (s ≡ db)
            × (token : String) × (bearer_token app.codec authorization_header ≡ ok token)
            × Admitted P scope_id action (token_digest app P token) db c)
          (authenticate app P scope_id authorization_header device_header action db)
  unfolding authenticate
  authenticated scope_id authorization_header device_header action db = lift_post _ λ token bearer.
      or_raise_post {A = String} {o = device_header} (http 401 "unauthorized") _ λ named given.
        lift_post {r = uuid_text app P (some named)} _ λ device uuid.
          bind_post (open_scope app P scope_id) _ (open_scope_post scope_id db)
            λ (row, policy, pin, body) s (same, (found, parsed, decoded, verified)).
              then_post
                (check_caller scope_id device (token_digest app P token) body (delegated action)
                  (device == body.master_device_id))
                _
                (check_caller_post scope_id device (token_digest app P token) body
                  (delegated action) s (device == body.master_device_id) refl)
                λ s' (same', call). answers (
                  same' ∙ same,
                  token,
                  bearer,
                  record {
                    row = found;
                    policy = parsed;
                    pin = decoded;
                    body = verified;
                    caller =
                        subst
                          (λ x.
                            IsCaller scope_id device (token_digest app P token) body
                              (delegated action) x)
                          same call;
                  },
                )

module _ {B : Type 0} {R : B → ProjectDb → Type 0} where
  -- What follows `_auth` starts from the same database, with an admitted caller.
  pub authenticate_post :
      (app : App) (P : Primitives) (scope_id : String)
      (authorization_header device_header : Option String) (action : Action)
      (f : Caller → Tx ProjectDb B) {db : ProjectDb}
      → ((c : Caller) (token : String)
          → bearer_token app.codec authorization_header ≡ ok token
          → Admitted P scope_id action (token_digest app P token) db c
          → Post R (f c db))
      → Post R ((authenticate app P scope_id authorization_header device_header action >>= f) db)
  authenticate_post app P scope_id authorization_header device_header action f {db = db} next =
      bind_post (authenticate app P scope_id authorization_header device_header action) f
        (authenticated app P scope_id authorization_header device_header action db)
        λ c s (same, token, bearer, admitted).
          subst (λ x. Post R (f c x)) (sym same) (next c token bearer admitted)
