-- ===== src/ProjectRelay/Refusals.antt =====
-- A refused request leaves the database of the project relay as it was.
use keys_keeper_skill.Prelude.{String, ◌≡◌, refl, some, List, nat_eq, string_eq, option_eq, list_eq}
use keys_keeper_skill.SyncServer.Outcome.{
  SyncError, Result, ok, err, Outcome, done, failed, failed_after, Tx, transaction, submit,
}
use keys_keeper_skill.SyncServer.Requests.{Json}
use keys_keeper_skill.ProjectProtocol.Json.{Primitives, parse_record, max_record_size}
use keys_keeper_skill.ProjectRelay.Tables.{SubmissionRow, ProjectDb}
use keys_keeper_skill.ProjectRelay.Access.{checked, uuid_text}
use keys_keeper_skill.SyncServer.Access.{App}
use keys_keeper_skill.ProjectRelay.Contracts.{Post}
use keys_keeper_skill.ProjectRelay.Scopes.{read_scope, store_scope, create_scope}
use keys_keeper_skill.ProjectRelay.Publish.{read_publish, publish_body, publish}
use keys_keeper_skill.ProjectRelay.Submissions.{read_submit, submit_body, submit_record}
use keys_keeper_skill.ProjectRelay.Receipts.{read_receipt, acknowledge_body, acknowledge}
use keys_keeper_skill.ProjectRelay.Blocks.{read_block, block_body, block}
use keys_keeper_skill.ProjectRelay.Relay.{
  Request, create_scope_request, publish_request, submit_request, receipt_request, block_request,
  received, respond,
}
use keys_keeper_skill.ProjectRelay.Additions.{block_adds}
use keys_keeper_skill.ProjectRelay.Relay.{Handler, with_body, with_scope, in_route}
use keys_keeper_skill.ProjectRelay.Growth.{
  extends_frame, extends_writes, publish_adds, store_scope_adds,
}
use keys_keeper_skill.ProjectRelay.Frames.{Extends-refl}
use keys_keeper_skill.ProjectRelay.Beside.{acknowledge_adds, submit_adds}

-- an error leaves this database
abbrev Unchanged : {A : Type 0} → Result A × ProjectDb → ProjectDb → Type 0
Unchanged {A} r db = (x : SyncError) → r.0 ≡ err x → r.1 ≡ db

transaction-Unchanged :
    {A : Type 0} {Q : A → ProjectDb → Type 0} (o : Outcome ProjectDb A) (db : ProjectDb)
    → Post Q o
    → Unchanged (transaction (λ (s : ProjectDb). o) db) db
transaction-Unchanged (done a s) db p x e = cc e
transaction-Unchanged (failed y) db p x e = refl
transaction-Unchanged (failed_after y s) db p x e = elim p [ ]

submit-Unchanged :
    {F A : Type 0} {Q : A → ProjectDb → Type 0} (r : Result F) (body : F → Tx ProjectDb A)
    (db : ProjectDb)
    → ((form : F) → Post Q (body form db))
    → Unchanged (submit r body db) db
submit-Unchanged (ok form) body db promised =
    transaction-Unchanged (body form db) db (promised form)
submit-Unchanged (err y) body db promised = λ x e. refl

with_body-Unchanged :
    (r : Result Json) (f : Json → Handler) (db : ProjectDb)
    → ((payload : Json) → Unchanged (f payload db) db)
    → Unchanged (with_body r f db) db
with_body-Unchanged (ok payload) f db each = each payload
with_body-Unchanged (err y) f db each = λ x e. refl

with_scope-Unchanged :
    (r : Result String) (f : String → Handler) (db : ProjectDb)
    → ((s : String) → Unchanged (f s db) db)
    → Unchanged (with_scope r f db) db
with_scope-Unchanged (ok s) f db each = each s
with_scope-Unchanged (err y) f db each = λ x e. refl

module _ (app : App) (P : Primitives) where
  beside :
      (db : ProjectDb) (rows : List SubmissionRow)
      → extends_frame.Rel db (record db { submissions = rows })
  beside db rows = Extends-refl db

  received-Unchanged :
      (body : Json) (f : Json → Handler) (db : ProjectDb)
      → ((payload : Json) → Unchanged (f payload db) db)
      → Unchanged (received app P body f db) db
  unfolding received
  received-Unchanged body f db each =
      with_body-Unchanged (checked (parse_record P max_record_size body)) f db each

  in_route-Unchanged :
      (s : String) (f : String → Handler) (db : ProjectDb)
      → ((scope_id : String) → Unchanged (f scope_id db) db)
      → Unchanged (in_route app P s f db) db
  unfolding in_route
  in_route-Unchanged s f db each = with_scope-Unchanged (uuid_text app P (some s)) f db each

  -- A request that is answered with an error, whichever it is and wherever it is raised, leaves the
  -- database as it was, although rows may have been written before the error.
  pub respond-refused :
      (q : Request) (db : ProjectDb) (x : SyncError)
      → (respond app P q db).0 ≡ err x
      → (respond app P q db).1 ≡ db
  unfolding respond create_scope publish submit_record acknowledge block
  respond-refused (create_scope_request h body) db =
      received-Unchanged body (λ payload. create_scope app P h payload) db
        λ payload.
          submit-Unchanged (read_scope app P h payload) (store_scope app P) db
            λ form. store_scope_adds extends_frame app P (extends_writes app P) form db
  respond-refused (publish_request s h body) db =
      received-Unchanged body
        (λ payload. in_route app P s λ scope_id. publish app P scope_id h payload) db
        λ payload.
          in_route-Unchanged s (λ scope_id. publish app P scope_id h payload) db
            λ k.
              submit-Unchanged (read_publish app P payload) (publish_body app P k h) db
                λ form. publish_adds extends_frame app P (extends_writes app P) k h form db
  respond-refused (submit_request s h now body) db =
      received-Unchanged body
        (λ payload. in_route app P s λ scope_id. submit_record app P scope_id h now payload) db
        λ payload.
          in_route-Unchanged s (λ scope_id. submit_record app P scope_id h now payload) db
            λ k.
              submit-Unchanged (read_submit app P payload) (submit_body app P k h now) db
                λ form. submit_adds extends_frame beside app P k h now form db
  respond-refused (receipt_request s h q body) db =
      received-Unchanged body
        (λ payload. in_route app P s λ scope_id. acknowledge app P scope_id h q payload) db
        λ payload.
          in_route-Unchanged s (λ scope_id. acknowledge app P scope_id h q payload) db
            λ k.
              submit-Unchanged (read_receipt app P q payload) (acknowledge_body app P k h) db
                λ form. acknowledge_adds extends_frame beside app P k h form db
  respond-refused (block_request s h body) db =
      received-Unchanged body
        (λ payload. in_route app P s λ scope_id. block app P scope_id h payload) db
        λ payload.
          in_route-Unchanged s (λ scope_id. block app P scope_id h payload) db
            λ k.
              submit-Unchanged (read_block app P payload) (block_body app P k h) db
                λ form. block_adds extends_frame app P k h form db
