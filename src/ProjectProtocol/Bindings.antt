-- ===== src/ProjectProtocol/Bindings.antt =====
-- What a receipt of project_protocol.py is bound to when `verify_receipt` accepts it.
use keys_keeper_skill.Prelude.{
  ◌*◌, String, ◌≡◌, Bool, true, false, not, ◌&&◌, none, some, arith, nat_eq, string_eq, option_eq,
  list_eq,
}
use keys_keeper_skill.SyncServer.Tables.{Bytes}
use keys_keeper_skill.SyncServer.Requests.{Json, str, Members}
use keys_keeper_skill.ProjectProtocol.Checked.{valid, authentication, refuse_if}
use keys_keeper_skill.ProjectProtocol.Json.{
  Primitives, members_of, parse_record, canonical_hash, max_record_size,
}
use keys_keeper_skill.ProjectProtocol.Records.{
  get_member, require_members, is_text, is_number, verify,
}
use keys_keeper_skill.ProjectProtocol.Policy.{Policy, anything, verify_policy}
use keys_keeper_skill.ProjectProtocol.Messages.{
  Create, Receipt, receipt_fields, verify_create, verify_receipt, unbound,
}
use keys_keeper_skill.ProjectProtocol.Signatures.{
  IsSigned, refuse_if-valid, is_text-str, require_members-object, verify-IsSigned,
}
use keys_keeper_skill.ProjectProtocol.Requests.{IsRequest, step_of, verify_create-IsRequest}

-- The receipt is signed with the pinned key, and names the request and the hash of one submission.
pub record IsBound (P : Primitives) (receipt submission policy : Json) (pin : Bytes) : Type 0 where
  pub payload : Json
  pub signed : IsSigned P (16 * 1024) receipt "receipt" pin payload
  pub body : Members
  pub is_object : members_of payload ≡ valid body
  pub request_id : String
  pub names_request : get_member "request_id" body ≡ some (str request_id)
  pub is_request : IsRequest P policy pin submission request_id
  pub copy : Json
  pub parsed : parse_record P max_record_size submission ≡ valid copy
  pub submission_hash : String
  pub hashed : canonical_hash P copy ≡ valid submission_hash
  pub names_submission : get_member "submission_hash" body ≡ some (str submission_hash)

all_true :
    (a b c d e f g h i j : Bool)
    → not (a && b && c && d && e && f && g && h && i && j) ≡ false
    → (i ≡ true) × (j ≡ true)
all_true a b c d e f g h i j held = (ground arith, ground arith)

-- two of the comparisons, when none has failed
unbound-names :
    (p : Policy) (source : Create) (submission_hash : String) (body : Members)
    → unbound p source submission_hash body ≡ false
    → (get_member "request_id" body ≡ some (str source.request_id))
      × (get_member "submission_hash" body ≡ some (str submission_hash))
unbound-names p source submission_hash body held =
    let (request, hash) =
      all_true (is_text p.scope_id (get_member "scope_id" body))
        (is_text p.vault_id (get_member "vault_id" body))
        (is_number p.epoch (get_member "epoch" body))
        (is_number p.version (get_member "policy_version" body))
        (is_text source.policy_hash (get_member "policy_hash" body))
        (is_text source.device_id (get_member "device_id" body))
        (is_text source.grant_id (get_member "grant_id" body))
        (is_number source.generation (get_member "generation" body))
        (is_text source.request_id (get_member "request_id" body))
        (is_text submission_hash (get_member "submission_hash" body)) held in
    (
      is_text-str source.request_id (get_member "request_id" body) request,
      is_text-str submission_hash (get_member "submission_hash" body) hash,
    )

module _ (P : Primitives) where
  pub verify_receipt-IsBound :
      (receipt submission policy : Json) (pin : Bytes) (r : Receipt)
      → verify_receipt P receipt submission policy pin ≡ valid r
      → IsBound P receipt submission policy pin
  unfolding verify_receipt
  verify_receipt-IsBound receipt submission policy pin r h =
      step_of (verify_policy P policy pin anything) h λ p e₁ h₁.
        step_of (verify_create P submission policy pin none) h₁ λ source created h₂.
          step_of (verify P (16 * 1024) receipt "receipt" pin) h₂ λ payload verified h₃.
            step_of (require_members receipt_fields payload) h₃ λ body required h₄.
              step_of (parse_record P max_record_size submission) h₄ λ copy parsed h₅.
                step_of (canonical_hash P copy) h₅ λ hash hashed h₆.
                  step_of (refuse_if (unbound p source hash body) authentication) h₆ λ u passed h₇.
                    let (names_request, names_submission) =
                      unbound-names p source hash body
                        (refuse_if-valid (unbound p source hash body) authentication u passed) in
                    record {
                      payload = payload;
                      signed = verify-IsSigned P (16 * 1024) receipt "receipt" pin payload verified;
                      body = body;
                      is_object = require_members-object receipt_fields payload body required;
                      request_id = source.request_id;
                      names_request = names_request;
                      is_request =
                          verify_create-IsRequest P submission policy pin none source created;
                      copy = copy;
                      parsed = parsed;
                      submission_hash = hash;
                      hashed = hashed;
                      names_submission = names_submission;
                    }
