-- ===== src/ProjectRelay/Relay.antt =====
-- The relay of project_server.py as a whole: its requests, one after the other.
use keys_keeper_skill.Prelude.{
  ℕ, String, some, List, [], ◌∷◌, nat_eq, string_eq, option_eq, list_eq,
}
use keys_keeper_skill.SyncServer.Outcome.{Result, ok, err}
use keys_keeper_skill.SyncServer.Requests.{Json}
use keys_keeper_skill.ProjectProtocol.Json.{Primitives, parse_record, max_record_size}
use keys_keeper_skill.ProjectRelay.Tables.{ProjectDb}
use keys_keeper_skill.ProjectRelay.Access.{Headers, checked, uuid_text}
use keys_keeper_skill.SyncServer.Access.{App}
use keys_keeper_skill.ProjectRelay.Scopes.{create_scope}
use keys_keeper_skill.ProjectRelay.Publish.{publish}
use keys_keeper_skill.ProjectRelay.Submissions.{submit_record}
use keys_keeper_skill.ProjectRelay.Receipts.{acknowledge}
use keys_keeper_skill.ProjectRelay.Blocks.{block}

-- A `POST`, with its headers and its body. A submission carries the time it arrives at.
pub data Request : Type 0 where
  create_scope_request : Headers → Json → Request
  publish_request : String → Headers → Json → Request
  submit_request : String → Headers → ℕ → Json → Request
  receipt_request : String → Headers → String → Json → Request
  block_request : String → Headers → Json → Request

abbrev pub Handler : Type 0
Handler = ProjectDb → Result (ℕ × Json) × ProjectDb

abbrev pub with_body : Result Json → (Json → Handler) → Handler
with_body (ok payload) f db = f payload db
with_body (err e) f db = (err e, db)

abbrev pub with_scope : Result String → (String → Handler) → Handler
with_scope (ok scope_id) f db = f scope_id db
with_scope (err e) f db = (err e, db)

module _ (app : App) (P : Primitives) where
  -- the payload as `handle` passes it on
  unfoldable pub received : Json → (Json → Handler) → Handler
  received payload f db = with_body (checked (parse_record P max_record_size payload)) f db

  -- the scope's id as `_handle` checks it
  unfoldable pub in_route : String → (String → Handler) → Handler
  in_route scope_id f db = with_scope (uuid_text app P (some scope_id)) f db

  -- `handle`, after the path has been matched
  unfoldable pub respond : Request → Handler
  respond (create_scope_request h body) = received body λ payload. create_scope app P h payload
  respond (publish_request s h body) =
      received body λ payload. in_route s λ scope_id. publish app P scope_id h payload
  respond (submit_request s h now body) =
      received body λ payload. in_route s λ scope_id. submit_record app P scope_id h now payload
  respond (receipt_request s h q body) =
      received body λ payload. in_route s λ scope_id. acknowledge app P scope_id h q payload
  respond (block_request s h body) =
      received body λ payload. in_route s λ scope_id. block app P scope_id h payload

  unfoldable pub run : List Request → ProjectDb → ProjectDb
  run [] db = db
  run (q ∷ qs) db = run qs (respond q db).1

-- What every handler keeps, every sequence of requests keeps.
pub record Kept (app : App) (P : Primitives) (I : ProjectDb → Type 0) : Type 0 where
  pub by_create_scope :
      (h : Headers) (payload : Json) (db : ProjectDb) → I db → I (create_scope app P h payload db).1
  pub by_publish :
      (s : String) (h : Headers) (payload : Json) (db : ProjectDb)
      → I db
      → I (publish app P s h payload db).1
  pub by_submit :
      (s : String) (h : Headers) (now : ℕ) (payload : Json) (db : ProjectDb)
      → I db
      → I (submit_record app P s h now payload db).1
  pub by_receipt :
      (s : String) (h : Headers) (q : String) (payload : Json) (db : ProjectDb)
      → I db
      → I (acknowledge app P s h q payload db).1
  pub by_block :
      (s : String) (h : Headers) (payload : Json) (db : ProjectDb)
      → I db
      → I (block app P s h payload db).1

module _ (app : App) (P : Primitives) (I : ProjectDb → Type 0) where
  with_body_keeps :
      (r : Result Json) (f : Json → Handler) (db : ProjectDb)
      → I db
      → ((payload : Json) → I (f payload db).1)
      → I (with_body r f db).1
  with_body_keeps (ok payload) f db i each = each payload
  with_body_keeps (err e) f db i each = i

  with_scope_keeps :
      (r : Result String) (f : String → Handler) (db : ProjectDb)
      → I db
      → ((scope_id : String) → I (f scope_id db).1)
      → I (with_scope r f db).1
  with_scope_keeps (ok scope_id) f db i each = each scope_id
  with_scope_keeps (err e) f db i each = i

  received_keeps :
      (body : Json) (f : Json → Handler) (db : ProjectDb)
      → I db
      → ((payload : Json) → I (f payload db).1)
      → I (received app P body f db).1
  unfolding received
  received_keeps body f db i each =
      with_body_keeps (checked (parse_record P max_record_size body)) f db i each

  in_route_keeps :
      (s : String) (f : String → Handler) (db : ProjectDb)
      → I db
      → ((scope_id : String) → I (f scope_id db).1)
      → I (in_route app P s f db).1
  unfolding in_route
  in_route_keeps s f db i each = with_scope_keeps (uuid_text app P (some s)) f db i each

  pub respond_keeps :
      Kept app P I → (q : Request) (db : ProjectDb) → I db → I (respond app P q db).1
  unfolding respond
  respond_keeps k (create_scope_request h body) db i =
      received_keeps body (λ payload. create_scope app P h payload) db i
        λ payload. k.by_create_scope h payload db i
  respond_keeps k (publish_request s h body) db i =
      received_keeps body (λ payload. in_route app P s λ scope_id. publish app P scope_id h payload)
        db i
        λ payload.
          in_route_keeps s (λ scope_id. publish app P scope_id h payload) db i
            λ scope_id. k.by_publish scope_id h payload db i
  respond_keeps k (submit_request s h now body) db i =
      received_keeps body
        (λ payload. in_route app P s λ scope_id. submit_record app P scope_id h now payload) db i
        λ payload.
          in_route_keeps s (λ scope_id. submit_record app P scope_id h now payload) db i
            λ scope_id. k.by_submit scope_id h now payload db i
  respond_keeps k (receipt_request s h q body) db i =
      received_keeps body
        (λ payload. in_route app P s λ scope_id. acknowledge app P scope_id h q payload) db i
        λ payload.
          in_route_keeps s (λ scope_id. acknowledge app P scope_id h q payload) db i
            λ scope_id. k.by_receipt scope_id h q payload db i
  respond_keeps k (block_request s h body) db i =
      received_keeps body (λ payload. in_route app P s λ scope_id. block app P scope_id h payload)
        db i
        λ payload.
          in_route_keeps s (λ scope_id. block app P scope_id h payload) db i
            λ scope_id. k.by_block scope_id h payload db i

  pub run_induction :
      Kept app P I → (qs : List Request) (db : ProjectDb) → I db → I (run app P qs db)
  unfolding run
  run_induction k [] db i = i
  run_induction k (q ∷ qs) db i = run_induction k qs (respond app P q db).1 (respond_keeps k q db i)
