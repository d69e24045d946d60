-- ===== src/ProjectProtocol/Signatures.antt =====
-- What `_verify` of project_protocol.py has seen when it answers with a payload.
use keys_keeper_skill.Prelude.{
  ℕ, String, ◌≡◌, refl, ap, ◌∙◌, sym, Bool, true, false, not, ◌||◌, Option, none, some, List, [],
  ◌∷◌, arith, eq_iff, nat_eq, string_eq, option_eq, list_eq, Option-cases, inl, inr,
}
use keys_keeper_skill.SyncServer.Tables.{Bytes}
use keys_keeper_skill.SyncServer.Requests.{
  Json, null, boolean, int, negative_int, real, str, array, object, Members, end, field,
}
use keys_keeper_skill.ProjectProtocol.Checked.{
  ProtocolError, valid, validation, authentication, ◌>>=◌, refuse_if, >>=-eq-valid,
}
use keys_keeper_skill.ProjectProtocol.Json.{
  Primitives, members_of, parse_record, canonical_bytes, max_record_size,
}
use keys_keeper_skill.ProjectProtocol.Records.{
  get_member, require_members, at_member, is_text, read_base64, verify,
}

-- a record of this kind whose canonical bytes, without the signature, the key has signed
pub record IsSigned (P : Primitives) (maximum : ℕ) (record_ : Json) (kind : String) (key : Bytes)
    (payload : Json) : Type 0 where
  pub copy : Json
  pub parsed : parse_record P maximum record_ ≡ valid copy
  pub members : Members
  pub is_object : members_of copy ≡ valid members
  pub profile : get_member "profile" members ≡ some (str "KK3-projects-v1")
  pub of_kind : get_member "kind" members ≡ some (str kind)
  pub carried : get_member "payload" members ≡ some payload
  pub encoded : Json
  pub carried_signature : get_member "signature" members ≡ some encoded
  pub signature : Bytes
  pub decoded : read_base64 P (some 64) max_record_size encoded ≡ valid signature
  pub message : Bytes
  pub canonical :
      canonical_bytes P max_record_size (
        object (
          field "profile"
            (str "KK3-projects-v1")
            (field "kind" (str kind) (field "payload" payload end))))
      ≡ valid message
  pub signed : P.ed25519 key kind message signature ≡ true

pub refuse_if-valid :
    (b : Bool) (e : ProtocolError) (u : Unit {0}) → refuse_if b e ≡ valid u → b ≡ false
refuse_if-valid true e u h = ground arith
refuse_if-valid false e u h = refl

pub is_text-str : (text : String) (o : Option Json) → is_text text o ≡ true → o ≡ some (str text)
is_text-str text none h = ground arith
is_text-str text (some (str t)) h = ground (arith, eq_iff t text)
is_text-str text (some null) h = ground arith
is_text-str text (some (boolean b)) h = ground arith
is_text-str text (some (int n)) h = ground arith
is_text-str text (some (negative_int n)) h = ground arith
is_text-str text (some (real t)) h = ground arith
is_text-str text (some (array js)) h = ground arith
is_text-str text (some (object ms)) h = ground arith

pub at_member-found :
    (name : String) (ms : Members) (j : Json)
    → at_member name ms ≡ valid j
    → get_member name ms ≡ some j
at_member-found name ms j h = elim (Option-cases (get_member name ms)) [
  | inl absent ↦ ground arith
  | inr (x, at) ↦ ground arith
]

pub require_members-object :
    (names : List String) (value : Json) (ms : Members)
    → require_members names value ≡ valid ms
    → members_of value ≡ valid ms
unfolding require_members
require_members-object names value ms h =
    let (ms', read, rest) = >>=-eq-valid (members_of value) _ ms h in ground arith

module _ (P : Primitives) where
  pub verify-IsSigned :
      (maximum : ℕ) (record_ : Json) (kind : String) (key : Bytes) (payload : Json)
      → verify P maximum record_ kind key ≡ valid payload
      → IsSigned P maximum record_ kind key payload
  unfolding verify
  verify-IsSigned maximum record_ kind key payload h =
      let (obj, parsed, h₁) = >>=-eq-valid (parse_record P maximum record_) _ payload h in
      let (ms, required, h₂) =
        >>=-eq-valid (require_members ("profile" ∷ "kind" ∷ "payload" ∷ "signature" ∷ []) obj) _
          payload h₁ in
      let unmarked : Bool =
        not (is_text "KK3-projects-v1" (get_member "profile" ms))
        || not (is_text kind (get_member "kind" ms)) in
      let (u, marked, h₃) = >>=-eq-valid (refuse_if unmarked validation) _ payload h₂ in
      let (body, at, h₄) = >>=-eq-valid (at_member "payload" ms) _ payload h₃ in
      let (w, dict, h₅) = >>=-eq-valid (members_of body >>= λ _. valid tt) _ payload h₄ in
      let (encoded, at', h₆) = >>=-eq-valid (at_member "signature" ms) _ payload h₅ in
      let (signature, decoded, h₇) =
        >>=-eq-valid (read_base64 P (some 64) max_record_size encoded) _ payload h₆ in
      let (message, canonical, h₈) =
        >>=-eq-valid
          (canonical_bytes P max_record_size (
            object (
              field "profile" (str "KK3-projects-v1")
                (field "kind" (str kind) (field "payload" body end)))))
          _ payload h₇ in
      let (v, passed, h₉) =
        >>=-eq-valid (refuse_if (not (P.ed25519 key kind message signature)) authentication) _
          payload h₈ in
      let same : body ≡ payload = ground arith in
      let marks = refuse_if-valid unmarked validation u marked in
      record {
        copy = obj;
        parsed = parsed;
        members = ms;
        is_object =
            require_members-object ("profile" ∷ "kind" ∷ "payload" ∷ "signature" ∷ []) obj ms
              required;
        profile = is_text-str "KK3-projects-v1" (get_member "profile" ms) (ground (arith, marks));
        of_kind = is_text-str kind (get_member "kind" ms) (ground (arith, marks));
        carried = at_member-found "payload" ms body at ∙ ap some same;
        encoded = encoded;
        carried_signature = at_member-found "signature" ms encoded at';
        signature = signature;
        decoded = decoded;
        message = message;
        canonical =
            ap
              (λ j. canonical_bytes P max_record_size (
                object (
                  field "profile" (str "KK3-projects-v1")
                    (field "kind" (str kind) (field "payload" j end)))))
              (sym same)
            ∙ canonical;
        signed = ground (
          arith,
          refuse_if-valid (not (P.ed25519 key kind message signature)) authentication v passed,
        );
      }
