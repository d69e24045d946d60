-- ===== src/ProjectProtocol/Tests.antt =====
-- A small scope of project_protocol.py: its first two policies, one snapshot, and the theorems on them.
use keys_keeper_skill.Prelude.{
  ℕ, zero, suc, String, ◌≡◌, refl, true, Option, none, some, List, [], ◌∷◌, ◌==◌, if◌then◌else◌,
  nat_eq, string_eq, option_eq, list_eq, is_sha256_hex, codes,
}
use keys_keeper_skill.SyncServer.Requests.{
  Json, null, int, str, array, object, nil, Members, end, field,
}
use keys_keeper_skill.ProjectProtocol.Json.{
  Primitives, members_of, parse_record, parse_bytes, canonical_bytes, canonical_hash,
}
use keys_keeper_skill.ProjectProtocol.Records.{
  get_member, require_members, is_text, read_uint, read_hash, read_optional_hash, read_id, read_key,
  decode_key, verify,
}
use keys_keeper_skill.ProjectProtocol.Policy.{Policy, read_policy, anything, verify_policy}
use keys_keeper_skill.ProjectProtocol.Checked.{valid, invalid}
use keys_keeper_skill.ProjectProtocol.Transition.{validate_policy_transition}
use keys_keeper_skill.ProjectProtocol.Succession.{
  Follows, IsPolicy, IsLinked, validate_policy_transition-Follows,
}
use keys_keeper_skill.ProjectProtocol.Chain.{start, extend, Descends, Chain-Descends}
use keys_keeper_skill.ProjectProtocol.Policy.{read_terms, read_grants}
use keys_keeper_skill.ProjectProtocol.Records.{read_base64}
use keys_keeper_skill.ProjectProtocol.Json.{walk, walk_items, walk_members}
use keys_keeper_skill.ProjectProtocol.Transition.{check_transition}

abbrev repeat : ℕ → ℕ → List ℕ
repeat zero x = []
repeat (suc n) x = x ∷ repeat n x

abbrev pub hash : String
hash = "aaaaaaaaaaaaaaaaaaaaaaaaaaaaaaaaaaaaaaaaaaaaaaaaaaaaaaaaaaaaaaaa"

abbrev pub scope_name : String
scope_name = "00000000-0000-4000-8000-000000000001"

abbrev vault_name : String
vault_name = "00000000-0000-4000-8000-000000000002"

abbrev pub master_name : String
master_name = "00000000-0000-4000-8000-000000000003"

abbrev signed : String → Json → Json
signed kind payload = object (
    field "profile" (str "KK3-projects-v1")
      (field "kind" (str kind) (field "payload" payload (field "signature" (str "S") end))))

abbrev policy_payload : ℕ → Json → Json
policy_payload version parent = object (
    field "scope_id" (str scope_name) (
      field "vault_id" (str vault_name) (
        field "version" (int version) (
          field "epoch" (int 1) (
            field "master_public_key" (str "M") (
              field "inbox_public_key" (str "I") (
                field "master_device_id" (str master_name) (
                  field "master_token_hash" (str hash) (
                    field "grants" (array nil) (
                      field "checkpoint_sequence" (int 0) (
                        field "checkpoint_hash" null
                          (field "parent_policy_hash" parent end))))))))))))

abbrev pub first_policy_record : Json
first_policy_record = signed "policy" (policy_payload 1 null)

abbrev pub second_policy_record : Json
second_policy_record = signed "policy" (policy_payload 2 (str hash))

abbrev pub snapshot_record : Json
snapshot_record = signed "snapshot" (
    object (
      field "scope_id" (str scope_name) (
        field "vault_id" (str vault_name) (
          field "epoch" (int 1) (
            field "policy_version" (int 1) (
              field "policy_hash" (str hash) (
                field "sequence" (int 1) (
                  field "parent_hash" null (
                    field "sealed"
                      (object (field "nonce" (str "N") (field "ciphertext" (str "C") end)))
                      end)))))))))

abbrev pub scope_request : Json
scope_request = object (field "policy" first_policy_record end)

abbrev pub publish_payload : Json
publish_payload = object (
    field "operation_id" (str "00000000-0000-4000-8000-000000000004") (
      field "expected_head_hash" null (
        field "policy" first_policy_record
          (field "snapshot" snapshot_record (field "wraps" (array nil) end)))))

-- a name for each of these records in place of its text
abbrev version_of : Option Json → ℕ
version_of none = 0
version_of (some j) = elim (members_of j) [
  | invalid e ↦ 0
  | valid ms ↦ elim (get_member "version" ms) [ some (int n) ↦ n | _ ↦ 0 ]
]

abbrev name_of : Members → List ℕ
name_of ms =
    if is_text "policy" (get_member "kind" ms)
    then version_of (get_member "payload" ms) ∷ []
    else if is_text "snapshot" (get_member "kind" ms)
    then 3 ∷ []
    else elim (get_member "operation_id" ms) [
      | some j ↦ 5 ∷ []
      | none ↦ elim (get_member "policy" ms) [ some j ↦ 4 ∷ [] | none ↦ 0 ∷ [] ]
    ]

abbrev record_of : List ℕ → Option Json
record_of [] = none
record_of (n ∷ rest) =
    if n == 1
    then some first_policy_record
    else if n == 2
    then some second_policy_record
    else if n == 3
    then some snapshot_record
    else if n == 4
    then some scope_request
    else if n == 5
    then some publish_payload
    else none

abbrev bytes_of : String → Option (List ℕ)
bytes_of text =
    if text == "M"
    then some (repeat 32 1)
    else if text == "I"
    then some (repeat 32 2)
    else if text == "S"
    then some (repeat 64 3)
    else if text == "N"
    then some (repeat 12 4)
    else if text == "C"
    then some (repeat 16 5)
    else none

abbrev text_of_bytes : List ℕ → String
text_of_bytes [] = ""
text_of_bytes (n ∷ rest) =
    if n == 1
    then "M"
    else if n == 2
    then "I"
    else if n == 3
    then "S"
    else if n == 4
    then "N"
    else "C"

abbrev pub primitives : Primitives
primitives = record {
  dumps = λ j. elim (members_of j) [ valid ms ↦ some (name_of ms) | invalid e ↦ none ];
  loads = record_of;
  encode_utf8 = λ text. some (codes text);
  sha256_hex = λ blob. hash;
  b64decode = bytes_of;
  b64encode = text_of_bytes;
  uuid4 = λ text. true;
  ed25519 = λ key kind message signature. true;
}

abbrev pub master_key : List ℕ
master_key = repeat 32 1

abbrev policy_at : ℕ → Option String → Policy
policy_at version parent = record {
  scope_id = scope_name;
  vault_id = vault_name;
  version = version;
  epoch = 1;
  master_public_key = "M";
  inbox_public_key = "I";
  master_device_id = master_name;
  master_token_hash = hash;
  grants = [];
  checkpoint_sequence = 0;
  checkpoint_hash = none;
  parent_policy_hash = parent;
}

abbrev pub first_body : Policy
first_body = policy_at 1 none

abbrev second_body : Policy
second_body = policy_at 2 (some hash)

first_verified : verify_policy primitives first_policy_record master_key anything ≡ valid first_body
unfolding verify_policy verify read_policy read_terms read_grants read_hash read_optional_hash
    read_uint read_id read_key decode_key read_base64 require_members parse_record parse_bytes
    canonical_bytes walk walk_items walk_members is_sha256_hex
first_verified = refl

second_accepted :
    validate_policy_transition primitives first_policy_record second_policy_record master_key
    ≡ valid second_body
unfolding validate_policy_transition check_transition canonical_hash verify_policy verify
    read_policy read_terms read_grants read_hash read_optional_hash read_uint read_id read_key
    decode_key read_base64 require_members parse_record parse_bytes canonical_bytes walk walk_items
    walk_members is_sha256_hex
second_accepted = refl

validate_policy_transition-Follows_example :
    (old : Policy) × (verify_policy primitives first_policy_record master_key anything ≡ valid old)
    × (verify_policy primitives second_policy_record master_key anything ≡ valid second_body)
    × Follows old second_body
    × IsPolicy primitives first_policy_record master_key old
    × IsPolicy primitives second_policy_record master_key second_body
    × IsLinked primitives first_policy_record second_body
validate_policy_transition-Follows_example =
    validate_policy_transition-Follows primitives first_policy_record second_policy_record
      master_key second_body second_accepted

Chain-Descends_example :
    (verify_policy primitives second_policy_record master_key anything ≡ valid second_body)
    × Descends first_body second_body
Chain-Descends_example =
    Chain-Descends primitives master_key first_policy_record first_body second_policy_record
      second_body first_verified (extend start second_accepted)
