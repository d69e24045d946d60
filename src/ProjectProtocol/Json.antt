-- ===== src/ProjectProtocol/Json.antt =====
-- The canonical JSON of project_protocol.py: _walk, canonical_bytes, canonical_hash, parse_record.
use keys_keeper_skill.Prelude.{
  ℕ, suc, ◌-◌, ◌*◌, String, Bool, ◌||◌, Option, List, ltb, leb, ◌!=◌, if◌then◌else◌, nat_eq,
  string_eq, option_eq, list_eq, length, codes,
}
use keys_keeper_skill.Prelude.{◌^◌}
use keys_keeper_skill.SyncServer.Tables.{Bytes}
use keys_keeper_skill.SyncServer.Requests.{
  Json, null, boolean, int, negative_int, real, str, array, object, Items, nil, item, Members, end,
  field,
}
use keys_keeper_skill.ProjectProtocol.Checked.{
  Checked, valid, invalid, validation, ◌>>=◌, ◌>>◌, refuse_if, or_fail,
}

-- The libraries that the protocol calls: json, hashlib, base64, uuid and the Ed25519 signatures.
pub record Primitives : Type 0 where
  -- `json.dumps(value, sort_keys=True, …).encode("utf-8")`, `none` for its errors
  pub dumps : Json → Option Bytes
  -- `json.loads(blob.decode("utf-8"), …)`, `none` for its errors, floats and repeated members
  pub loads : Bytes → Option Json
  -- `text.encode("utf-8")`, `none` for its errors
  pub encode_utf8 : String → Option Bytes
  -- `hashlib.sha256(blob).hexdigest()`
  pub sha256_hex : Bytes → String
  -- `base64.b64decode(value + padding, altchars=b"-_", validate=True)`, `none` for its errors
  pub b64decode : String → Option Bytes
  -- `base64.urlsafe_b64encode(value).rstrip(b"=").decode("ascii")`
  pub b64encode : Bytes → String
  -- `uuid.UUID(raw)` succeeds, has version 4, and prints as `raw` again
  pub uuid4 : List ℕ → Bool
  -- `Ed25519PublicKey.from_public_bytes(key).verify(signature, …)` raises nothing. The message is
  -- the domain, the kind of the record, and its canonical bytes.
  pub ed25519 : Bytes → String → Bytes → Bytes → Bool

abbrev pub max_record_size : ℕ
max_record_size = 24 * 1024 * 1024

abbrev pub max_policy_size : ℕ
max_policy_size = 256 * 1024

abbrev pub max_plaintext_size : ℕ
max_plaintext_size = 16 * 1024 * 1024

abbrev pub max_create_size : ℕ
max_create_size = 1024 * 1024

abbrev max_depth : ℕ
max_depth = 24

abbrev max_nodes : ℕ
max_nodes = 200000

abbrev pub int_limit : ℕ
int_limit = 2 ^ 63

-- what is left of the two budgets of `_walk`: nodes, and characters of text
pub record Budget : Type 0 where
  pub nodes : ℕ
  pub characters : ℕ

abbrev item_count : Items → ℕ
item_count nil = 0
item_count (item j js) = suc (item_count js)

abbrev member_count : Members → ℕ
member_count end = 0
member_count (field k j ms) = suc (member_count ms)

-- the test at the head of `_walk`
abbrev spend_node : ℕ → Budget → Checked Budget
spend_node depth b =
    if ltb b.nodes 1 || ltb max_depth depth
    then invalid validation
    else valid (record b { nodes = b.nodes - 1 })

abbrev spend_text : String → Budget → Checked Budget
spend_text text b =
    if ltb b.characters (length (codes text))
    then invalid validation
    else valid (record b { characters = b.characters - length (codes text) })

-- `_walk`
unfoldable mutual
  pub walk : Json → ℕ → Budget → Checked Budget
  walk null depth b = spend_node depth b
  walk (boolean x) depth b = spend_node depth b
  walk (int n) depth b =
      spend_node depth b >>= λ b'. if ltb n int_limit then valid b' else invalid validation
  -- a negative integer is given by its absolute value
  walk (negative_int n) depth b =
      spend_node depth b >>= λ b'. if leb n int_limit then valid b' else invalid validation
  walk (real text) depth b = spend_node depth b >>= λ b'. invalid validation
  walk (str text) depth b = spend_node depth b >>= spend_text text
  walk (array js) depth b = spend_node depth b >>= λ b'.
      if ltb max_nodes (item_count js) then invalid validation else walk_items js (suc depth) b'
  walk (object ms) depth b = spend_node depth b >>= λ b'.
      if ltb max_nodes (member_count ms) then invalid validation else walk_members ms (suc depth) b'

  pub walk_items : Items → ℕ → Budget → Checked Budget
  walk_items nil depth b = valid b
  walk_items (item j js) depth b = walk j depth b >>= λ b'. walk_items js depth b'

  pub walk_members : Members → ℕ → Budget → Checked Budget
  walk_members end depth b = valid b
  walk_members (field k j ms) depth b = spend_node depth b >>= λ b₁.
      spend_text k b₁ >>= λ b₂. walk j depth b₂ >>= λ b₃. walk_members ms depth b₃

-- `type(value) is dict`
abbrev pub members_of : Json → Checked Members
members_of (object ms) = valid ms
members_of null = invalid validation
members_of (boolean x) = invalid validation
members_of (int n) = invalid validation
members_of (negative_int n) = invalid validation
members_of (real text) = invalid validation
members_of (str text) = invalid validation
members_of (array js) = invalid validation

module _ (P : Primitives) where
  -- `canonical_bytes`
  unfoldable pub canonical_bytes : ℕ → Json → Checked Bytes
  canonical_bytes maximum value = do
    walk value 0 (record { nodes = max_nodes; characters = maximum }) >>= λ _. valid tt
    blob ← or_fail (P.dumps value)
    refuse_if (ltb maximum (length blob)) validation
    valid blob

  -- `canonical_hash`
  unfoldable pub canonical_hash : Json → Checked String
  canonical_hash value = do blob ← canonical_bytes max_record_size value; valid (P.sha256_hex blob)

  -- `parse_record` of bytes
  unfoldable pub parse_bytes : ℕ → Bytes → Checked Json
  parse_bytes maximum blob = do
    refuse_if (ltb maximum (length blob)) validation
    value ← or_fail (P.loads blob)
    members_of value >>= λ _. valid tt
    again ← canonical_bytes maximum value
    refuse_if (again != blob) validation
    valid value

  -- `parse_record` of a text that holds the record
  unfoldable pub parse_text : ℕ → String → Checked Json
  parse_text maximum text = do
    refuse_if (ltb maximum (length (codes text))) validation
    blob ← or_fail (P.encode_utf8 text)
    parse_bytes maximum blob

  -- `parse_record` of what stands in another record: a dictionary, or a text
  unfoldable pub parse_record : ℕ → Json → Checked Json
  parse_record maximum value = elim value [
    | str text ↦ parse_text maximum text
    | object ms ↦ canonical_bytes maximum (object ms) >>= parse_bytes maximum
    | _ ↦ invalid validation
  ]
