-- ===== src/SyncServer/Server.antt =====
-- The relay of sync_server.py as a whole: its requests, one after the other.
use keys_keeper_skill.Prelude.{
  ℕ, String, Option, List, [], ◌∷◌, nat_eq, string_eq, option_eq, list_eq, keep,
}
use keys_keeper_skill.Prelude.{◌≡◌, refl, arith}
use keys_keeper_skill.SyncServer.Outcome.{
  Result, ok, err, Tx, transaction, submit, Outcome, done, failed, failed_after,
}
use keys_keeper_skill.SyncServer.Tables.{Db}
use keys_keeper_skill.SyncServer.Access.{App, AuthenticatedDevice}
use keys_keeper_skill.SyncServer.Requests.{Payload}
use keys_keeper_skill.SyncServer.Prepare.{Verifier}
use keys_keeper_skill.SyncServer.Commits.{create_vault, append_commit}
use keys_keeper_skill.SyncServer.Devices.{revoke_device}
use keys_keeper_skill.SyncServer.Invites.{
  create_invite, claim_invite, approve_invite, inspect_invite, invite_status,
}

-- A request that may write. Times and fresh ids are part of it; so is the caller that was
-- authenticated, perhaps before other requests were served, and the database that an append read its
-- signing key from.
pub data Request : Type 0 where
  create_vault_request : ℕ → String → String → Payload → Option String → Request
  append_request : ℕ → String → Payload → AuthenticatedDevice → Db → Request
  revoke_request : ℕ → String → String → Payload → AuthenticatedDevice → Request
  create_invite_request : ℕ → String → String → Payload → AuthenticatedDevice → Request
  claim_request : ℕ → String → Payload → Request
  approve_request : ℕ → String → String → Payload → AuthenticatedDevice → Request
  inspect_request : ℕ → String → String → AuthenticatedDevice → Request
  status_request : ℕ → String → AuthenticatedDevice → Request

-- the database that a request leaves, answered or refused
unfoldable pub apply : App → Verifier → Request → Db → Db
apply app verify (create_vault_request now v d payload authorization) db =
    (create_vault app now v d payload authorization db).1
apply app verify (append_request now v payload device read_db) db =
    (append_commit app verify now v payload device read_db db).1
apply app verify (revoke_request now v target payload device) db =
    (revoke_device app now v target payload device db).1
apply app verify (create_invite_request now i v payload device) db =
    (create_invite app now i v payload device db).1
apply app verify (claim_request now i payload) db = (claim_invite app now i payload db).1
apply app verify (approve_request now v i payload device) db =
    (approve_invite app now v i payload device db).1
apply app verify (inspect_request now v i device) db = (inspect_invite now v i device db).1
apply app verify (status_request now i device) db = (invite_status now i device db).1

unfoldable pub run : App → Verifier → List Request → Db → Db
run app verify [] db = db
run app verify (q ∷ qs) db = run app verify qs (apply app verify q db)

-- What a request keeps, every sequence of requests keeps.
pub run_induction :
    (app : App) (verify : Verifier) (P : Db → Type 0)
    → ((q : Request) (db : Db) → P db → P (apply app verify q db))
    → (qs : List Request) (db : Db) → P db
    → P (run app verify qs db)
unfolding run
run_induction app verify P keep [] db h = h
run_induction app verify P keep (q ∷ qs) db h =
    run_induction app verify P keep qs (apply app verify q db) (keep q db h)

-- A property of the database and of what its transaction leaves holds of a handler.
pub submit_left :
    {F A : Type 0} (P : Db → Type 0) (r : Result F) (body : F → Tx Db A) (db : Db)
    → P db
    → ((form : F) → P (transaction (body form) db).1)
    → P (submit r body db).1
submit_left P (ok form) body db h t = t form
submit_left P (err e) body db h t = h

-- a handler that answers has run its transaction to the end
ok_done :
    {A : Type 0} (o : Outcome Db A) (db : Db) (a : A)
    → (transaction (λ (s : Db). o) db).0 ≡ ok a
    → o ≡ done a (transaction (λ (s : Db). o) db).1
ok_done (done b s) db a e = ground arith
ok_done (failed x) db a e = cc e
ok_done (failed_after x s) db a e = cc e

pub submit_done :
    {F A : Type 0} (r : Result F) (body : F → Tx Db A) (db : Db) (a : A)
    → (submit r body db).0 ≡ ok a
    → (form : F) × (r ≡ ok form) × (body form db ≡ done a (submit r body db).1)
submit_done (err x) body db a e = cc e
submit_done (ok form) body db a e = (form, refl, ok_done (body form db) db a e)
