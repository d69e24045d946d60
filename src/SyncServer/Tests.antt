-- ===== src/SyncServer/Tests.antt =====
-- A small relay of sync_server.py: one vault, its root device, and the theorems on it.
use keys_keeper_skill.Prelude.{
  ℕ, zero, suc, String, ◌≡◌, refl, inl, inr, none, some, List, [], ◌∷◌, ◌==◌, nat_eq, string_eq,
  option_eq, list_eq, Bool-cases, codes, full_match, is_url_char,
}
use keys_keeper_skill.SyncServer.Outcome.{SyncError, Result, ok, err}
use keys_keeper_skill.SyncServer.Tables.{
  Device, pending, active, revoked, Commit, Invite, claimed, approved, Db, empty, find_device,
  find_invite, history,
}
use keys_keeper_skill.SyncServer.Access.{
  App, AuthenticatedDevice, require_active, require_root, require_vault,
}
use keys_keeper_skill.SyncServer.Requests.{
  Payload, optional_commit_id, is_opaque_id, opaque_id, Codec, null, str, required_string,
  require_fields, decode_text, decode_member,
}
use keys_keeper_skill.SyncServer.Storage.{within_budget}
use keys_keeper_skill.SyncServer.Forms.{ApprovalForm, read_approval}
use keys_keeper_skill.SyncServer.Prepare.{Verifier, prepare_commit, check_verified}
use keys_keeper_skill.SyncServer.Commits.{
  check_ancestry, insert_commit, advance_head, store_commit, append_commit,
}
use keys_keeper_skill.SyncServer.Invites.{check_expiry, activate, store_approval, approve_invite}
use keys_keeper_skill.SyncServer.Server.{
  Request, create_vault_request, append_request, revoke_request, run,
}
use keys_keeper_skill.Prelude.Dict.{get}
use keys_keeper_skill.RelayStorage.{default_limits, budget}
use keys_keeper_skill.SyncServer.Storage.{usage}
use keys_keeper_skill.SyncServer.Chain.{IsLinear, head_of}
use keys_keeper_skill.SyncServer.Append.{append_commit-once}
use keys_keeper_skill.SyncServer.Ledger.{Grows, run-IsLinear, run-Grows}
use keys_keeper_skill.SyncServer.Members.{SameIdentity, root_stays, identity_stays}
use keys_keeper_skill.SyncServer.Lockout.{LockedOut, run-LockedOut}
use keys_keeper_skill.SyncServer.Invitations.{SameInvite, Taken, final_stays, claimant_stays}
use keys_keeper_skill.SyncServer.Approval.{Approved, approve_invite-Approved}
use keys_keeper_skill.Prelude.{true, false}
use keys_keeper_skill.SyncServer.Budgets.{Write, approve_write, serve, IsWithin, serve-IsWithin}
use keys_keeper_skill.SyncServer.Paging.{drop, oldest_first, list_commits-page}
use keys_keeper_skill.SyncServer.Queries.{
  take, page, order_by_sequence, insert_by_sequence, list_commits,
}

abbrev zeros : ℕ → List ℕ
zeros zero = []
zeros (suc n) = 0 ∷ zeros n

-- every text decodes to 32 bytes, and the digest of a text is its code points
abbrev codec : Codec
codec = record {
  b64decode = λ s. some (zeros 32);
  sha256 = λ b. b;
  encode = codes;
  from_hex = codes;
  lower = λ s. s;
}

abbrev app : App
app = record { codec = codec; limits = default_limits; bootstrap_token_hash = codes "admin" }

abbrev first_commit : String
first_commit = "commit_000000001"

-- a verifier that accepts the first commit of a vault
abbrev verify : Verifier
verify blob key snapshot v author = some (record {
  commit_id = first_commit;
  sequence = 1;
  parent_commit_id = none;
  parent_manifest_hash = none;
  manifest_hash = "hash";
})

abbrev vault_name : String
vault_name = "vault_0000000001"

abbrev root_name : String
root_name = "device_root_0001"

abbrev laptop_name : String
laptop_name = "device_laptop_01"

abbrev root : Device
root = record {
  device_id = root_name;
  vault_id = vault_name;
  sign_public_key = "key";
  wrap_public_key = "key";
  token_hash = codes "token";
  status = active;
  approved_by_device_id = none;
  membership_statement = none;
  membership_signature = none;
  wrapped_vault_key = none;
  created_at = 1;
  approved_at = some 1;
  revoked_at = none;
  revoked_by_device_id = none;
  revocation_statement = none;
  revocation_signature = none;
}

abbrev laptop : Device
laptop = record root { device_id = laptop_name; status = pending; approved_at = none }

abbrev lost : Device
lost = record root {
  device_id = laptop_name;
  status = revoked;
  approved_by_device_id = some root_name;
}

abbrev invite : Invite
invite = record {
  invite_id = "invite_000000001";
  vault_id = vault_name;
  secret_hash = codes "secret";
  status = claimed;
  created_by_device_id = root_name;
  claimant_device_id = some laptop_name;
  created_at = 1;
  expires_at = 901;
  claimed_at = some 2;
  approved_at = none;
}

abbrev relay : Db
relay = record {
  vaults = record { vault_id = vault_name; head_commit_id = none; created_at = 1 } ∷ [];
  devices = laptop ∷ root ∷ [];
  commits = [];
  invites = invite ∷ [];
}

abbrev after_loss : Db
after_loss = record relay { devices = lost ∷ root ∷ [] }

abbrev as_root : AuthenticatedDevice
as_root = record { device_id = root_name; vault_id = vault_name; status = active }

abbrev commit_payload : Payload
commit_payload =
    ("expected_parent_commit_id", null)
    ∷ ("commit_blob", str "AAAA")
    ∷ ("snapshot_ciphertext", str "AAAA")
    ∷ []

relay-IsLinear : IsLinear relay
relay-IsLinear v = elim (Bool-cases (vault_name == v)) [
  | inl e ↦ rw (e, head_of)
  | inr e ↦ rw (e, head_of)
]

abbrev append_answer : Result (String × ℕ)
append_answer = (append_commit app verify 5 vault_name commit_payload as_root relay relay).0

append_accepted : append_answer ≡ ok (first_commit, 1)
unfolding append_commit prepare_commit require_vault opaque_id is_opaque_id full_match is_url_char
    require_fields optional_commit_id get decode_member decode_text check_verified store_commit
    require_active check_ancestry insert_commit advance_head within_budget usage budget
append_accepted = refl

append_commit-once_example :
    let db' = (append_commit app verify 5 vault_name commit_payload as_root relay relay).1 in
    (e : SyncError) × (append_commit app verify 6 vault_name commit_payload as_root relay db'
      ≡ (err e, db'))
append_commit-once_example =
    append_commit-once app verify 5 6 vault_name commit_payload commit_payload as_root as_root relay
      relay relay first_commit 1 relay-IsLinear refl append_accepted

abbrev requests : List Request
requests =
    create_vault_request 1 vault_name root_name [] none
    ∷ append_request 5 vault_name commit_payload as_root relay
    ∷ revoke_request 6 vault_name laptop_name [] as_root
    ∷ []

run-IsLinear_example : IsLinear (run app verify requests empty)
run-IsLinear_example = run-IsLinear app verify requests

run-Grows_example : Grows vault_name relay (run app verify requests relay)
run-Grows_example = run-Grows app verify requests relay vault_name

run-LockedOut_example : LockedOut app verify laptop_name (run app verify requests after_loss)
run-LockedOut_example = run-LockedOut app verify requests laptop_name lost after_loss refl refl

root_stays_example : find_device root_name (run app verify requests relay).devices ≡ some root
root_stays_example = root_stays app verify requests root_name root relay refl refl refl

identity_stays_example :
    (r' : Device) × (find_device laptop_name (run app verify requests relay).devices ≡ some r')
    × SameIdentity laptop r'
identity_stays_example = identity_stays app verify requests laptop_name laptop relay refl

claimant_stays_example :
    (r' : Invite) × (find_invite "invite_000000001" (run app verify requests relay).invites
      ≡ some r')
    × SameInvite invite r'
    × Taken invite r'
claimant_stays_example =
    claimant_stays app verify requests "invite_000000001" invite relay refl (λ e. cc e)

abbrev settled : Invite
settled = record invite { status = approved; approved_at = some 3 }

abbrev after_approval : Db
after_approval = record relay { invites = settled ∷ [] }

final_stays_example :
    find_invite "invite_000000001" (run app verify requests after_approval).invites ≡ some settled
final_stays_example =
    final_stays app verify requests "invite_000000001" settled after_approval refl (inl refl)

abbrev approval_payload : Payload
approval_payload =
    ("wrapped_vault_key", str "w")
    ∷ ("membership_statement", str "m")
    ∷ ("membership_signature", str "s")
    ∷ []

approval_accepted :
    (approve_invite app 7 vault_name "invite_000000001" approval_payload as_root relay).0
    ≡ ok laptop_name
unfolding approve_invite read_approval require_vault opaque_id is_opaque_id full_match is_url_char
    require_fields required_string get store_approval require_root require_active check_expiry
    activate within_budget usage budget
approval_accepted = refl

approve_invite-Approved_example :
    (form : ApprovalForm) × (read_approval vault_name "invite_000000001" approval_payload as_root
      ≡ ok form)
    × Approved 7 vault_name "invite_000000001" as_root form laptop_name relay
        (approve_invite app 7 vault_name "invite_000000001" approval_payload as_root relay).1
approve_invite-Approved_example =
    approve_invite-Approved app 7 vault_name "invite_000000001" as_root relay approval_payload
      laptop_name approval_accepted

abbrev stored_commit : Commit
stored_commit = record {
  vault_id = vault_name;
  commit_id = first_commit;
  sequence = 1;
  parent_commit_id = none;
  manifest_hash = "hash";
  commit_blob = [];
  snapshot_ciphertext = [];
  author_device_id = root_name;
  created_at = 5;
}

abbrev second_commit : Commit
second_commit = record stored_commit {
  commit_id = "commit_000000002";
  sequence = 2;
  parent_commit_id = some first_commit;
}

abbrev with_commits : Db
with_commits = record relay {
  vaults =
      record { vault_id = vault_name; head_commit_id = some "commit_000000002"; created_at = 1 }
      ∷ [];
  commits = second_commit ∷ stored_commit ∷ [];
}

with_commits-IsLinear : IsLinear with_commits
with_commits-IsLinear v = elim (Bool-cases (vault_name == v)) [
  | inl e ↦ rw (e, head_of, history) (refl, refl, (refl, refl, refl))
  | inr e ↦ rw (e, head_of, history)
]

page_answered :
    list_commits vault_name as_root 1 10 with_commits
    ≡ ok (second_commit ∷ [], some "commit_000000002")
unfolding list_commits require_vault opaque_id is_opaque_id full_match is_url_char page
    order_by_sequence insert_by_sequence
page_answered = refl

list_commits-page_example :
    ((second_commit ∷ [])
      ≡ take 10 (drop 1 (oldest_first (history vault_name with_commits.commits))))
    × (some "commit_000000002" ≡ head_of vault_name with_commits.vaults)
list_commits-page_example =
    list_commits-page vault_name as_root 1 10 with_commits (second_commit ∷ [])
      (some "commit_000000002") with_commits-IsLinear page_answered

abbrev approval_write : Write
approval_write = approve_write "invite_000000001" approval_payload

approval_served : (serve app verify vault_name 7 as_root approval_write relay).0 ≡ true
approval_served = rw approval_accepted refl

serve-IsWithin_example :
    IsWithin default_limits false vault_name
      (serve app verify vault_name 7 as_root approval_write relay).1
serve-IsWithin_example =
    serve-IsWithin app verify vault_name 7 as_root approval_write relay approval_served
