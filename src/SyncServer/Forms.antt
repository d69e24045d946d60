-- ===== src/SyncServer/Forms.antt =====
-- What the handlers of sync_server.py read from a request before they open their transaction.
use keys_keeper_skill.Prelude.{
  ℕ, ◌*◌, String, not, ◌||◌, Option, none, some, [], ◌∷◌, ltb, if◌then◌else◌, nat_eq, string_eq,
  option_eq, list_eq, is_sha256_hex,
}
use keys_keeper_skill.SyncServer.Outcome.{Result, ok, err}
use keys_keeper_skill.SyncServer.ResultMonad.{◌>>=◌, ◌>>◌, fail_if}
use keys_keeper_skill.Prelude.Dict.{get}
use keys_keeper_skill.SyncServer.Tables.{Bytes}
use keys_keeper_skill.SyncServer.Requests.{
  Payload, int, required_string, require_fields, public_key, opaque_id, optional_commit_id,
  bad_request,
}
use keys_keeper_skill.SyncServer.Access.{
  App, AuthenticatedDevice, authenticate_admin, require_vault,
}

-- the body of `create_vault`
pub record VaultForm : Type 0 where
  pub sign_public_key : String
  pub wrap_public_key : String
  pub token_hash : Bytes

unfoldable pub read_vault : App → Payload → Option String → Result VaultForm
read_vault app payload authorization = do
  authenticate_admin app authorization
  require_fields payload ("device_token" ∷ "sign_public_key" ∷ "wrap_public_key" ∷ []) []
  sign_key ← public_key app.codec payload "sign_public_key"
  wrap_key ← public_key app.codec payload "wrap_public_key"
  device_token ← required_string payload "device_token" 32 4096
  ok (record {
    sign_public_key = sign_key;
    wrap_public_key = wrap_key;
    token_hash = app.sha256 (app.encode device_token);
  })

-- the body of `revoke_device`
pub record RevocationForm : Type 0 where
  pub expected_head : Option String
  pub statement : String
  pub signature : String

unfoldable pub read_revocation :
    String → String → Payload → AuthenticatedDevice → Result RevocationForm
read_revocation vault_id target_id payload device = do
  require_vault device vault_id
  require_fields payload
      ("expected_head_commit_id" ∷ "revocation_statement" ∷ "revocation_signature" ∷ []) []
  opaque_id target_id
  expected_head ← optional_commit_id payload "expected_head_commit_id"
  statement ← required_string payload "revocation_statement" 1 (1024 * 1024)
  signature ← required_string payload "revocation_signature" 1 (16 * 1024)
  ok (record { expected_head = expected_head; statement = statement; signature = signature })

abbrev pub default_invite_ttl : ℕ
default_invite_ttl = 15 * 60

abbrev pub max_invite_ttl : ℕ
max_invite_ttl = 24 * 60 * 60

-- `expires_in_seconds`
unfoldable pub invite_ttl : Payload → Result ℕ
unfolding get
invite_ttl payload = elim (get payload "expires_in_seconds") [
  | none ↦ ok default_invite_ttl
  | some j ↦ elim j [
    | int ttl ↦ if ltb ttl 1 || ltb max_invite_ttl ttl then err bad_request else ok ttl
    | _ ↦ err bad_request
  ]
]

-- the body of `create_invite`
pub record InviteForm : Type 0 where
  pub secret_hash : Bytes
  pub ttl : ℕ

unfoldable pub read_invite : App → String → Payload → AuthenticatedDevice → Result InviteForm
read_invite app vault_id payload device = do
  require_vault device vault_id
  require_fields payload ("secret_hash" ∷ []) ("expires_in_seconds" ∷ [])
  secret_hash ← required_string payload "secret_hash" 1 64
  fail_if (not (is_sha256_hex secret_hash)) bad_request
  ttl ← invite_ttl payload
  ok (record { secret_hash = app.from_hex secret_hash; ttl = ttl })

-- the body of `claim_invite`
pub record ClaimForm : Type 0 where
  pub secret_hash : Bytes
  pub device_id : String
  pub sign_public_key : String
  pub wrap_public_key : String
  pub token_hash : Bytes

unfoldable pub read_claim : App → String → Payload → Result ClaimForm
read_claim app invite_id payload = do
  opaque_id invite_id
  require_fields payload
      ("secret" ∷ "device_id" ∷ "device_token" ∷ "sign_public_key" ∷ "wrap_public_key" ∷ []) []
  secret ← required_string payload "secret" 32 4096
  device_id ← required_string payload "device_id" 1 128
  opaque_id device_id
  sign_key ← public_key app.codec payload "sign_public_key"
  wrap_key ← public_key app.codec payload "wrap_public_key"
  device_token ← required_string payload "device_token" 32 4096
  ok (record {
    secret_hash = app.sha256 (app.encode secret);
    device_id = device_id;
    sign_public_key = sign_key;
    wrap_public_key = wrap_key;
    token_hash = app.sha256 (app.encode device_token);
  })

-- the body of `approve_invite`
pub record ApprovalForm : Type 0 where
  pub wrapped_vault_key : String
  pub statement : String
  pub signature : String

unfoldable pub read_approval : String → String → Payload → AuthenticatedDevice → Result ApprovalForm
read_approval vault_id invite_id payload device = do
  require_vault device vault_id
  opaque_id invite_id
  require_fields payload
      ("wrapped_vault_key" ∷ "membership_statement" ∷ "membership_signature" ∷ []) []
  wrapped ← required_string payload "wrapped_vault_key" 1 (1024 * 1024)
  statement ← required_string payload "membership_statement" 1 (1024 * 1024)
  signature ← required_string payload "membership_signature" 1 (16 * 1024)
  ok (record { wrapped_vault_key = wrapped; statement = statement; signature = signature })
