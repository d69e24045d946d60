-- ===== src/SyncServer/Requests.antt =====
-- The request bodies of sync_server.py: JSON members, and the checks on them.
use keys_keeper_skill.Prelude.{
  ℕ, ◌+◌, ◌*◌, ◌/◌, String, Bool, true, false, not, ◌||◌, Option, none, some, List, [], ◌∷◌, ltb,
  ◌==◌, if◌then◌else◌, nat_eq, string_eq, option_eq, list_eq, any, length, elem, codes, utf8_size,
  every, full_match, is_url_char,
}
use keys_keeper_skill.SyncServer.Outcome.{SyncError, http, Result, ok, err, and_then}
use Prim.Native.Char
use keys_keeper_skill.Prelude.Dict.{Dict, get}
use keys_keeper_skill.SyncServer.Tables.{Bytes}

-- A parsed JSON value. A number that is no integer is kept as its text.
mutual
  pub data Json : Type 0 where
    null : Json
    boolean : Bool → Json
    int : ℕ → Json
    negative_int : ℕ → Json
    real : String → Json
    str : String → Json
    array : Items → Json
    object : Members → Json

  pub data Items : Type 0 where
    nil : Items
    item : Json → Items → Items

  pub data Members : Type 0 where
    end : Members
    field : String → Json → Members → Members

-- a request body; `unique_object` has refused a repeated member
abbrev pub Payload : Type 0
Payload = Dict String Json

-- the standard library's functions that the checks call
pub record Codec : Type 0 where
  -- `base64.b64decode(value + padding, altchars=b"-_", validate=True)`, `none` for its errors
  pub b64decode : String → Option Bytes
  -- `hashlib.sha256(value).digest()`
  pub sha256 : Bytes → Bytes
  -- `value.encode("utf-8")`
  pub encode : String → Bytes
  -- `bytes.fromhex(value)`, called on text of 64 lowercase hex digits
  pub from_hex : String → Bytes
  -- `value.lower()`
  pub lower : String → String

abbrev pub bad_request : SyncError
bad_request = http 400 "invalid_request"

-- `_required_string`. A `String` holds no lone surrogate, so it always encodes.
unfoldable pub required_string : Payload → String → ℕ → ℕ → Result String
required_string value name min_bytes max_bytes = elim (get value name) [
  | none ↦ err bad_request
  | some j ↦ elim j [
    | str text ↦
        if ltb (utf8_size text) min_bytes || ltb max_bytes (utf8_size text)
        then err bad_request
        else ok text
    | _ ↦ err bad_request
  ]
]

abbrev names : Payload → List String
names [] = []
names ((k, _) ∷ value) = k ∷ names value

-- `fields != required | (fields & optional)`, read as the two inclusions
unfoldable pub require_fields : Payload → List String → List String → Result (Unit {0})
unfolding get
require_fields value required optional =
    if any (λ k. not (elem k required || elem k optional)) (names value)
      || any (λ k. not (elem k (names value))) required
    then err bad_request
    else ok tt

-- the largest encoding that can decode to `maximum` bytes
abbrev encoded_limit : ℕ → ℕ
encoded_limit maximum = 4 * ((maximum + 2) / 3)

abbrev too_long : Option ℕ → String → Bool
too_long none value = false
too_long (some maximum) value = ltb (encoded_limit maximum) (length (codes value))

abbrev wrong_size : Option ℕ → Option ℕ → Bytes → Bool
wrong_size exact_size max_bytes decoded =
    elim exact_size [ none ↦ false | some n ↦ not (length decoded == n) ]
    || elim max_bytes [ none ↦ false | some n ↦ ltb n (length decoded) ]

-- `exact_size if exact_size is not None else max_bytes`
abbrev size_limit : Option ℕ → Option ℕ → Option ℕ
size_limit none max_bytes = max_bytes
size_limit (some n) max_bytes = some n

-- `_decode_base64`, of a text; an `=` is outside the class, and so is the empty text
unfoldable pub decode_text : Codec → String → Option ℕ → Option ℕ → Result Bytes
unfolding is_url_char
decode_text c value exact_size max_bytes =
    if value == ""
      || too_long (size_limit exact_size max_bytes) value
      || not (every is_url_char (codes value))
    then err bad_request
    else elim (c.b64decode value) [
      | none ↦ err bad_request
      | some decoded ↦
          if wrong_size exact_size max_bytes decoded then err bad_request else ok decoded
    ]

-- `_decode_base64(payload.get(name), …)`
unfoldable pub decode_member : Codec → Payload → String → Option ℕ → Option ℕ → Result Bytes
unfolding decode_text
decode_member c value name exact_size max_bytes = elim (get value name) [
  | none ↦ err bad_request
  | some j ↦ elim j [ str t ↦ decode_text c t exact_size max_bytes | _ ↦ err bad_request ]
]

-- `_public_key`, whose text alone the callers use
unfoldable pub public_key : Codec → Payload → String → Result String
unfolding required_string decode_text
public_key c value name =
    and_then (required_string value name 1 256)
      λ encoded. and_then (decode_text c encoded (some 32) none) λ _. ok encoded

-- `_OPAQUE_ID_RE` and `_COMMIT_ID_RE`
unfoldable pub is_opaque_id : String → Bool
unfolding full_match is_url_char
is_opaque_id = full_match is_url_char 16 128

-- `_opaque_id`
unfoldable pub opaque_id : String → Result (Unit {0})
unfolding is_opaque_id
opaque_id value = if is_opaque_id value then ok tt else err (http 404 "not_found")

-- `expected_parent_commit_id` and `expected_head_commit_id`: null, absent or a commit id
unfoldable pub optional_commit_id : Payload → String → Result (Option String)
unfolding is_opaque_id
optional_commit_id value name = elim (get value name) [
  | none ↦ ok none
  | some j ↦ elim j [
    | null ↦ ok none
    | str c ↦ if is_opaque_id c then ok (some c) else err bad_request
    | _ ↦ err bad_request
  ]
]

-- `authorization.partition(" ")`: the text before the first space, whether there is one, the rest
abbrev partition : String → String × Bool × String
partition String.[] = ("", false, "")
partition (String.◌∷◌ c s) =
    let rest = partition s in
    if Char.code c == 32 then ("", true, s) else (String.◌∷◌ c rest.0, rest.1, rest.2)

-- `_bearer_token`
unfoldable pub bearer_token : Codec → Option String → Result String
bearer_token c none = err (http 401 "unauthorized")
bearer_token c (some authorization) =
    let (scheme, separator, token) = partition authorization in
    if authorization == ""
      || not separator
      || not (c.lower scheme == "bearer")
      || token == ""
      || any (λ x. x == 32) (codes token)
    then err (http 401 "unauthorized")
    else ok token
