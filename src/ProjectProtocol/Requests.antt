-- ===== src/ProjectProtocol/Requests.antt =====
-- What a submission of project_protocol.py holds when `verify_create` accepts it.
use keys_keeper_skill.Prelude.{
  ℕ, Option-cases, inl, inr, ◌*◌, String, ◌≡◌, ap, ◌∙◌, Bool, true, not, ◌&&◌, ◌||◌, Option, some,
  arith, ◌==◌, nat_eq, string_eq, option_eq, list_eq, length, codes,
}
use keys_keeper_skill.SyncServer.Tables.{Bytes}
use keys_keeper_skill.SyncServer.Requests.{
  Json, null, boolean, int, negative_int, real, str, array, object, Members,
}
use keys_keeper_skill.ProjectProtocol.Checked.{
  Checked, valid, validation, authorization, ◌>>=◌, refuse_if, >>=-eq-valid,
}
use keys_keeper_skill.ProjectProtocol.Json.{Primitives, members_of, parse_record, max_create_size}
use keys_keeper_skill.ProjectProtocol.Records.{
  get_member, require_members, at_member, is_text, read_text, read_uint, read_id, decode_key,
  verify, validate_sealed,
}
use keys_keeper_skill.ProjectProtocol.Policy.{
  Operation, grant_of, Grant, Policy, anything, verify_policy, check_context, authorize_grant,
  create_operation,
}
use keys_keeper_skill.ProjectProtocol.Messages.{
  Create, create_fields, verify_create, check_current, read_create,
}
use keys_keeper_skill.ProjectProtocol.Signatures.{IsSigned, at_member-found, verify-IsSigned}

-- The submission names this request, and is signed with the key that the policy grants to a device.
pub record IsRequest (P : Primitives) (policy : Json) (pin : Bytes) (submission : Json)
    (request_id : String) : Type 0 where
  pub terms : Policy
  pub terms_signed : verify_policy P policy pin anything ≡ valid terms
  pub device : String
  pub grant : Grant
  pub granted : grant_of device terms.grants ≡ some grant
  pub copy : Json
  pub parsed : parse_record P (2 * max_create_size) submission ≡ valid copy
  pub key : Bytes
  pub keyed : decode_key P (str grant.signing_public_key) ≡ valid key
  pub payload : Json
  pub signed : IsSigned P (2 * max_create_size) copy "create" key payload
  pub body : Members
  pub is_object : members_of payload ≡ valid body
  pub request : get_member "request_id" body ≡ some (str request_id)

read_text-str : (j : Json) (text : String) → read_text j ≡ valid text → j ≡ str text
read_text-str (str t) text h = ground arith
read_text-str null text h = ground arith
read_text-str (boolean b) text h = ground arith
read_text-str (int n) text h = ground arith
read_text-str (negative_int n) text h = ground arith
read_text-str (real t) text h = ground arith
read_text-str (array js) text h = ground arith
read_text-str (object ms) text h = ground arith

same_request : (a b : Create) → valid a ≡ valid b → a.request_id ≡ b.request_id
same_request a b e = ground arith

authorize_grant-granted :
    (p : Policy) (device : String) (operation : Operation) (id : Option String)
    (generation : Option ℕ) (g : Grant)
    → authorize_grant p device operation id generation ≡ valid g
    → grant_of device p.grants ≡ some g
unfolding authorize_grant
authorize_grant-granted p device operation id generation g e =
    elim (Option-cases (grant_of device p.grants)) [
      | inl absent ↦ ground arith
      | inr (h, at) ↦ at ∙ ap some (ground arith)
    ]

abbrev of_inbox : Policy → Members → Bool
of_inbox p body =
    is_text "create" (get_member "operation" body)
    && is_text p.inbox_public_key (get_member "inbox_public_key" body)

-- a check that returns, read step by step
pub step_of :
    {A B Q : Type 0} {f : A → Checked B} {b : B} (m : Checked A)
    → (m >>= f) ≡ valid b
    → ((a : A) → m ≡ valid a → f a ≡ valid b → Q)
    → Q
step_of {f = f} {b = b} m h k = let (a, e, rest) = >>=-eq-valid m f b h in k a e rest

module _ (P : Primitives) where
  read_id-str : (j : Json) (text : String) → read_id P j ≡ valid text → j ≡ str text
  unfolding read_id
  read_id-str j text h =
      let (t, read, h₁) = >>=-eq-valid (read_text j) _ text h in
      let (u, passed, h₂) =
        >>=-eq-valid
          (refuse_if (not (length (codes t) == 36) || not (P.uuid4 (codes t))) validation) _ text
          h₁ in
      let same : t ≡ text = ground arith in read_text-str j t read ∙ ap str same

  named_id :
      (name : String) (ms : Members) (text : String)
      → (at_member name ms >>= read_id P) ≡ valid text
      → get_member name ms ≡ some (str text)
  named_id name ms text h =
      let (j, at, read) = >>=-eq-valid (at_member name ms) _ text h in
      at_member-found name ms j at ∙ ap some (read_id-str j text read)

  read_create-request :
      (policy : Json) (p : Policy) (grant : Grant) (grant_id : String) (generation : ℕ)
      (device_id : String) (current : Option Json) (pin : Bytes) (body : Members) (c : Create)
      → read_create P policy p grant grant_id generation device_id current pin body ≡ valid c
      → get_member "request_id" body ≡ some (str c.request_id)
  unfolding read_create
  read_create-request policy p grant grant_id generation device_id current pin body c h =
      step_of (check_context P body policy p) h λ u e₁ h₁.
        step_of (at_member "request_id" body >>= read_id P) h₁ λ request_id named h₂.
          step_of (refuse_if (not (of_inbox p body)) authorization) h₂ λ v e₃ h₃.
            step_of (at_member "policy_hash" body >>= read_text) h₃ λ policy_hash e₄ h₄.
              let made : Create = record {
                device_id = device_id;
                grant_id = grant_id;
                generation = generation;
                request_id = request_id;
                policy_hash = policy_hash;
              } in
              step_of (check_current P p grant made current pin) h₄ λ w e₅ h₅.
                step_of (at_member "sealed" body) h₅ λ sealed e₆ h₆.
                  step_of (validate_sealed P true max_create_size sealed) h₆ λ x e₇ h₇.
                    named_id "request_id" body request_id named
                    ∙ ap (λ t. some (str t)) (same_request made c h₇)

  pub verify_create-IsRequest :
      (submission policy : Json) (pin : Bytes) (current : Option Json) (c : Create)
      → verify_create P submission policy pin current ≡ valid c
      → IsRequest P policy pin submission c.request_id
  unfolding verify_create
  verify_create-IsRequest submission policy pin current c h =
      step_of (verify_policy P policy pin anything) h λ p signed h₁.
        step_of (parse_record P (2 * max_create_size) submission) h₁ λ obj parsed h₂.
          step_of (members_of obj) h₂ λ ms e₃ h₃.
            step_of (at_member "payload" ms >>= require_members create_fields) h₃ λ fields_ e₄ h₄.
              step_of (at_member "grant_id" fields_ >>= read_id P) h₄ λ id e₅ h₅.
                step_of (at_member "generation" fields_ >>= read_uint 1) h₅ λ n e₆ h₆.
                  step_of (at_member "device_id" fields_ >>= read_id P) h₆ λ d e₇ h₇.
                    step_of (authorize_grant p d create_operation (some id) (some n)) h₇ λ g e₈ h₈.
                      step_of (decode_key P (str g.signing_public_key)) h₈ λ key keyed h₉.
                        step_of (verify P (2 * max_create_size) obj "create" key) h₉ λ a e₁₀ k₁.
                          step_of (members_of a) k₁ λ body is_object k₂. record {
                            terms = p;
                            terms_signed = signed;
                            device = d;
                            grant = g;
                            granted =
                                authorize_grant-granted p d create_operation (some id) (some n) g
                                  e₈;
                            copy = obj;
                            parsed = parsed;
                            key = key;
                            keyed = keyed;
                            payload = a;
                            signed = verify-IsSigned P (2 * max_create_size) obj "create" key a e₁₀;
                            body = body;
                            is_object = is_object;
                            request = read_create-request policy p g id n d current pin body c k₂;
                          }
