-- ===== src/ProjectProtocol/Records.antt =====
-- What the records of project_protocol.py share: their fields, ids, keys, hashes and signatures.
use keys_keeper_skill.Prelude.{
  ℕ, ◌+◌, ◌*◌, ◌/◌, String, Bool, true, false, not, ◌&&◌, ◌||◌, Option, none, some, List, [], ◌∷◌,
  ltb, leb, ◌==◌, ◌!=◌, if◌then◌else◌, nat_eq, string_eq, option_eq, list_eq, any, length, elem,
  codes, is_sha256_hex,
}
use keys_keeper_skill.SyncServer.Tables.{Bytes}
use keys_keeper_skill.SyncServer.Requests.{
  Json, null, boolean, int, str, object, Members, end, field,
}
use keys_keeper_skill.ProjectProtocol.Checked.{
  Checked, valid, invalid, validation, authentication, ◌>>=◌, ◌>>◌, refuse_if, or_fail,
}
use keys_keeper_skill.ProjectProtocol.Json.{
  Primitives, members_of, parse_record, canonical_bytes, max_record_size, int_limit,
}

-- `obj.get(name)`
abbrev pub get_member : String → Members → Option Json
get_member name end = none
get_member name (field k j ms) = let rest = get_member name ms in if k == name then some j else rest

abbrev member_names : Members → List String
member_names end = []
member_names (field k j ms) = k ∷ member_names ms

-- `_fields`: `set(obj) == fields`, read as the two inclusions
unfoldable pub require_members : List String → Json → Checked Members
require_members names value = do
  ms ← members_of value
  refuse_if
      (any (λ k. not (elem k names)) (member_names ms)
        || any (λ k. not (elem k (member_names ms))) names)
      validation
  valid ms

-- `obj[name]`, after `_fields`
abbrev pub at_member : String → Members → Checked Json
at_member name ms = or_fail (get_member name ms)

-- Python's `==` of a member with a text
abbrev pub is_text : String → Option Json → Bool
is_text text none = false
is_text text (some j) = elim j [ str t ↦ t == text | _ ↦ false ]

-- Python's `==` of a member with a natural number: `True` and `False` are 1 and 0
abbrev pub is_number : ℕ → Option Json → Bool
is_number n none = false
is_number n (some j) = elim j [ int m ↦ m == n | boolean b ↦ (if b then 1 else 0) == n | _ ↦ false ]

-- Python's `==` of a member with an optional text; an absent member is `None`
abbrev pub is_optional_text : Option String → Option Json → Bool
is_optional_text (some text) j = is_text text j
is_optional_text none none = true
is_optional_text none (some j) = elim j [ null ↦ true | _ ↦ false ]

-- `type(value) is str`
abbrev pub read_text : Json → Checked String
read_text j = elim j [ str text ↦ valid text | _ ↦ invalid validation ]

-- `_uint`
unfoldable pub read_uint : ℕ → Json → Checked ℕ
read_uint minimum j = elim j [
  | int n ↦ if leb minimum n && ltb n int_limit then valid n else invalid validation
  | _ ↦ invalid validation
]

abbrev hash_text : String → Checked String
hash_text text = if is_sha256_hex text then valid text else invalid validation

-- `_hash`
unfoldable pub read_hash : Json → Checked String
read_hash j = elim j [ str text ↦ hash_text text | _ ↦ invalid validation ]

abbrev some_hash : String → Checked (Option String)
some_hash text = if is_sha256_hex text then valid (some text) else invalid validation

-- `_hash(value, True)`
unfoldable pub read_optional_hash : Json → Checked (Option String)
read_optional_hash j = elim j [
  | null ↦ valid none
  | str text ↦ some_hash text
  | _ ↦ invalid validation
]

module _ (P : Primitives) where
  -- `_id`
  unfoldable pub read_id : Json → Checked String
  read_id j = do
    text ← read_text j
    refuse_if (not (length (codes text) == 36) || not (P.uuid4 (codes text))) validation
    valid text

  -- `_unb64(value, length, maximum)`
  unfoldable pub read_base64 : Option ℕ → ℕ → Json → Checked Bytes
  read_base64 size maximum j = do
    text ← read_text j
    refuse_if (ltb ((maximum * 4 + 2) / 3) (length (codes text))) validation
    result ← or_fail (P.b64decode text)
    refuse_if
        (P.b64encode result != text
          || ltb maximum (length result)
          || elim size [ none ↦ false | some n ↦ not (length result == n) ])
        validation
    valid result

  -- `decode_key`
  unfoldable pub decode_key : Json → Checked Bytes
  decode_key j = read_base64 (some 32) max_record_size j

  -- a key that stays in its encoded form
  unfoldable pub read_key : Json → Checked String
  read_key j = do decode_key j >>= λ _. valid tt; read_text j

  -- the record without its signature
  abbrev unsigned : String → Json → Json
  unsigned kind payload = object (
      field "profile" (str "KK3-projects-v1")
        (field "kind" (str kind) (field "payload" payload end)))

  -- `_verify`: the payload of a record of this kind that the key has signed
  unfoldable pub verify : ℕ → Json → String → Bytes → Checked Json
  verify maximum record_ kind public_key = do
    obj ← parse_record P maximum record_
    ms ← require_members ("profile" ∷ "kind" ∷ "payload" ∷ "signature" ∷ []) obj
    refuse_if
        (not (is_text "KK3-projects-v1" (get_member "profile" ms))
          || not (is_text kind (get_member "kind" ms)))
        validation
    payload ← at_member "payload" ms
    members_of payload >>= λ _. valid tt
    encoded ← at_member "signature" ms
    signature ← read_base64 (some 64) max_record_size encoded
    message ← canonical_bytes P max_record_size (unsigned kind payload)
    refuse_if (not (P.ed25519 public_key kind message signature)) authentication
    valid payload

  unfoldable pub validate_ephemeral : Members → Checked (Unit {0})
  validate_ephemeral ms = do
    key ← at_member "ephemeral_public_key" ms
    read_base64 (some 32) max_record_size key >>= λ _. valid tt
    salt ← at_member "salt" ms
    read_base64 (some 32) max_record_size salt >>= λ _. valid tt

  -- `_validate_sealed`
  unfoldable pub validate_sealed : Bool → ℕ → Json → Checked (Unit {0})
  validate_sealed hybrid maximum sealed = do
    ms ←
        require_members
          (if hybrid
            then "nonce" ∷ "ciphertext" ∷ "ephemeral_public_key" ∷ "salt" ∷ []
            else "nonce" ∷ "ciphertext" ∷ [])
          sealed
    nonce ← at_member "nonce" ms
    read_base64 (some 12) max_record_size nonce >>= λ _. valid tt
    encoded ← at_member "ciphertext" ms
    ciphertext ← read_base64 none (maximum + 16) encoded
    refuse_if (ltb (length ciphertext) 16) validation
    if hybrid then validate_ephemeral ms else valid tt
