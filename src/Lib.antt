-- ===== src/Lib.antt =====
-- keys-keeper: models of its components, and proofs about them.
--
-- keys-keeper keeps secrets on a user's devices and synchronises them through a relay that stores
-- encrypted, signed commits. A client reaches the relay by HTTP; the relay checks who calls, then
-- runs one SQLite transaction for each request.
--
-- The relay of vaults, src/keys_keeper/sync_server.py:
--   SyncServer/Outcome      what a transaction does: it returns, or raises and is rolled back, or
--                           raises after `connection.commit()`; Tx is a computation inside one
--   SyncServer/ResultMonad  do blocks of checks before a transaction
--   SyncServer/Tables       the tables vaults, devices, commits and invites as lists of rows, and
--                           the SELECT, INSERT and UPDATE statements of the handlers
--   SyncServer/Requests     JSON payloads and the checks on their members (_required_string,
--                           _require_fields, _decode_base64, _public_key, _opaque_id, _bearer_token)
--   SyncServer/Storage      the size of each row by _V1_STORAGE_COLUMNS, and usage by scope
--   SyncServer/Access       _authenticate_admin, authenticate_device, _require_vault,
--                           _require_active_transaction and _require_root_transaction
--   SyncServer/Forms        what each handler reads of its payload before its transaction
--   SyncServer/Prepare      the part of append_commit before its transaction
--   SyncServer/Commits      create_vault, append_commit
--   SyncServer/Devices      revoke_device
--   SyncServer/Invites      create_invite, claim_invite, approve_invite, inspect_invite,
--                           invite_status
--   SyncServer/Queries      get_head, get_commit, list_commits
--   SyncServer/Server       the requests that change state, and their sequences (`run`)
-- RelayStorage models src/keys_keeper/relay_storage.py: the budgets of a scope and of the relay.
-- Its child RelayStorage/Triggers has the SQL triggers that keep the counters, on rows of any table
-- with a scope and a size; Totals and Accounting compare the counters with sums over the rows, by
-- which the relay's transactions read the usage.
--
-- The metadata of the entries on a device, src/keys_keeper/store.py and src/keys_keeper/models.py:
--   Store/Entries       the records Entry and Tombstone, and the errors
--   Store/Identities    validate_name, validate_entry_id, _validate_record_identities
--   Store/Transactions  MetadataTransaction: records in numbered slots, two indices, an order
--   Store/Direct        MetadataStore.add, replace_by_name and delete_by_name under the lock, which
--                       scan the list
--   Store/Sessions      a transaction with several edits
--   Store/Writes        _locked_write with its check of ids and names, around these
-- A record stands for the dictionary that `to_dict` makes of an entry. uuid.UUID is the parameter
-- Uuid4. The lock and the atomic write of the file make a transaction one step.
--
-- The signed records of shared projects, src/keys_keeper/project_protocol.py:
--   ProjectProtocol/Checked     its errors, and checks that return a value or fail with one
--   ProjectProtocol/Json        _walk, canonical_bytes, canonical_hash, parse_record
--   ProjectProtocol/Records     _fields, _id, _uint, _hash, _unb64, _verify, _validate_sealed
--   ProjectProtocol/Policy      _policy, verify_policy, _check_context, authorize_grant
--   ProjectProtocol/Transition  validate_policy_transition
--   ProjectProtocol/Messages    verify_snapshot, verify_scope_key_wrap, verify_create,
--                               verify_receipt, verify_revocation
-- Signatures, Requests and Bindings say what a signed record, a submission and a receipt that were
-- accepted hold, GrantIds
-- and Succession what a transition between policies does.
-- The relay of shared projects, src/keys_keeper/project_server.py, which verifies these records and
-- stores them:
--   ProjectRelay/Tables       the tables kk3_* as lists of rows
--   ProjectRelay/Storage      the sizes of the rows, storage_usage and _storage_budget
--   ProjectRelay/Access       _uuid, _fields, _digest, _unsigned_payload, _scope, _auth
--   ProjectRelay/Scopes       create_scope, _remember_grants
--   ProjectRelay/Publish      publish
--   ProjectRelay/Submissions  submit
--   ProjectRelay/Receipts     acknowledge
--   ProjectRelay/Blocks       block
--   ProjectRelay/Reading      state, record and submissions; Order describes the queue's order apart
--                             from the sort
--   ProjectRelay/Relay        handle and _handle for a path that has been matched (`respond`), and
--                             sequences of requests (`run`)
-- The other files of ProjectRelay hold proofs; Contracts has the rules by which they go through a
-- transaction. A record is its JSON; a stored text is its bytes.
--
-- How the relays' models correspond to the code. A row is a record with the table's columns. A
-- handler is a reader of the payload, which may raise, followed by a transaction on the state Db; `submit`
-- composes the two. An error is the status and the code of SyncServerError, without its message.
-- Time (`now`) and fresh identifiers are arguments, since the clock and the source of randomness
-- are outside the code. append_commit reads the author's key on a connection of its own, so its
-- model takes two databases: the one of that read and the one of the transaction. A sequence of
-- requests lets each of them be prepared from any database.
--
-- Parameters. `Codec` stands for base64 decoding, SHA-256, bytes.fromhex and str.lower;
-- `Verifier` stands for verify_commit_signature of src/keys_keeper/sync_protocol_v2.py, of which
-- only the checks of append_commit on its answer are used; `Primitives` stands for what
-- project_protocol.py calls of json, hashlib, base64, uuid and Ed25519. No hypothesis is made
-- about them.
--
-- No loop of the modelled code needs fuel: each is structural recursion on a list or on JSON.
--
-- Not modelled: sockets, HTTP parsing and body limits, the path matching and the pairings of the
-- project relay, the building, sealing and opening of records on a device, SQLite's
-- locking (a transaction is one step), the desktop and command line front ends, key stores, and
-- cryptography; of store.py, the project catalog of schema 3 with its checks at a write, revisions,
-- pruning and files.
pub mod Prelude
pub mod RelayStorage
pub mod SyncServer
pub mod Store
pub mod ProjectProtocol
pub mod ProjectRelay
