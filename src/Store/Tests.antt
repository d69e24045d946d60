-- ===== src/Store/Tests.antt =====
use keys_keeper_skill.Prelude.{
  String, ◌≡◌, refl, true, none, List, [], ◌∷◌, nat_eq, string_eq, option_eq, list_eq,
}
use keys_keeper_skill.Prelude.Dict.{get, put, remove, set_default}
use keys_keeper_skill.Prelude.{is_lower, is_digit}
use keys_keeper_skill.Store.Entries.{Entry, Ref, Data, returns, raises, store_error, api_key}
use keys_keeper_skill.Store.Identities.{Uuid4, validate_identities, is_entry_id, is_name}
use keys_keeper_skill.Store.Transactions.{
  Transaction, append_record, append_records, reset_entries, commit, add, replace_by_name,
  replace_slot, delete_by_name, delete_slot, update, update_slot, is_referenced,
}
use keys_keeper_skill.Store.Direct.{add_body, replace_body, delete_body, put_named, pop_named}
use keys_keeper_skill.Store.Opening.{reset_entries-IsIndexed}
use keys_keeper_skill.Store.Sessions.{
  Edit, add_entry, replace_entry, delete_entry, edit_all, edit_bodies, session_body,
}
use keys_keeper_skill.Store.Writes.{session, store_edit_all, session-store_edit_all}
use keys_keeper_skill.Store.Lookups.{FindsEntries, edit_all-FindsEntries}
use keys_keeper_skill.Store.Updates.{Updated, update-Updated}
use keys_keeper_skill.Store.Uniqueness.{all_bring_valid, session-validate_identities}

abbrev any_uuid : Uuid4
any_uuid = λ raw. true

abbrev entry : String → String → List Ref → Entry
entry id name refs = record {
  id = id;
  name = name;
  type = api_key;
  fields = [];
  tags = [];
  note = "";
  refs = refs;
  created_at = "2026-01-01T00:00:00Z";
  updated_at = "2026-01-01T00:00:00Z";
  folder_id = none;
  distribution = "local_only";
  provenance = none;
  content_revision = none;
}

abbrev key_id : String
key_id = "kk:11111111-1111-4111-8111-111111111111"

abbrev host_id : String
host_id = "kk:22222222-2222-4222-8222-222222222222"

abbrev new_id : String
new_id = "kk:33333333-3333-4333-8333-333333333333"

abbrev stored : Data
stored = record {
  entries =
      entry key_id "deploy-key" []
      ∷ entry host_id "web.1" (record { role = "key"; name = "deploy-key" } ∷ [])
      ∷ [];
  tombstones = [];
}

abbrev edits : List Edit
edits =
    delete_entry "2026-01-02T00:00:00Z" "web.1"
    ∷ add_entry (entry host_id "web.2" [])
    ∷ replace_entry (entry new_id "deploy-key" [])
    ∷ []

stored_valid : validate_identities any_uuid [] [] stored.entries ≡ returns tt
unfolding validate_identities is_entry_id is_name is_lower is_digit
stored_valid = refl

edits_result :
    edit_bodies edits stored
    ≡ returns (record {
      entries = entry new_id "deploy-key" [] ∷ entry host_id "web.2" [] ∷ [];
      tombstones =
          (record { id = host_id; name = "web.1"; deleted_at = "2026-01-02T00:00:00Z" }) ∷ [];
    })
unfolding edit_bodies add_body replace_body delete_body put_named pop_named
edits_result = refl

renaming_refused :
    update (entry key_id "other" []) (reset_entries stored.entries stored.tombstones)
    ≡ raises store_error
unfolding update reset_entries append_records append_record get put set_default is_referenced
renaming_refused = refl

abbrev after_edits : Transaction
after_edits = record {
  records_by_slot = (0, entry new_id "deploy-key" []) ∷ (2, entry host_id "web.2" []) ∷ [];
  slot_by_name = ("deploy-key", 0) ∷ ("web.2", 2) ∷ [];
  slot_by_id = (host_id, 2) ∷ (new_id, 0) ∷ [];
  order = 0 ∷ 1 ∷ 2 ∷ [];
  next_slot = 3;
  tombstones = (record { id = host_id; name = "web.1"; deleted_at = "2026-01-02T00:00:00Z" }) ∷ [];
}

edits_done : edit_all edits (reset_entries stored.entries stored.tombstones) ≡ returns after_edits
unfolding edit_all add replace_by_name replace_slot delete_by_name delete_slot reset_entries
    append_records append_record get put remove set_default
edits_done = refl

edit_all-FindsEntries_example : FindsEntries after_edits
edit_all-FindsEntries_example =
    edit_all-FindsEntries any_uuid edits stored after_edits stored_valid edits_done

session_done : session_body edits stored ≡ returns (commit after_edits)
session_done = rw edits_done refl

edits_valid : all_bring_valid any_uuid edits ≡ true
unfolding is_entry_id is_name is_lower is_digit
edits_valid = refl

session-store_edit_all_example :
    session any_uuid edits stored ≡ store_edit_all any_uuid edits stored
session-store_edit_all_example =
    session-store_edit_all any_uuid edits stored stored_valid edits_valid

-- an entry that is badly named is refused by the store's own addition, but a transaction may take it
-- out again
abbrev passing : List Edit
passing = add_entry (entry new_id "-" []) ∷ delete_entry "2026-01-02T00:00:00Z" "-" ∷ []

passing_alone : store_edit_all any_uuid passing stored ≡ raises store_error
unfolding store_edit_all add_body delete_body pop_named validate_identities is_entry_id is_name
    is_lower is_digit
passing_alone = refl

session-validate_identities_example :
    validate_identities any_uuid [] [] (commit after_edits).entries ≡ returns tt
session-validate_identities_example =
    session-validate_identities any_uuid edits stored (commit after_edits) stored_valid edits_valid
      session_done

abbrev opened : Transaction
opened = reset_entries stored.entries stored.tombstones

abbrev renamed : Entry
renamed = entry host_id "web.3" []

abbrev after_update : Transaction
after_update =
    update_slot renamed 1
      (entry host_id "web.1" (record { role = "key"; name = "deploy-key" } ∷ [])) opened

update_done : update renamed opened ≡ returns after_update
unfolding update reset_entries append_records append_record get put set_default is_referenced
update_done = refl

update-Updated_example : Updated renamed (commit opened) (commit after_update)
update-Updated_example =
    update-Updated opened (reset_entries-IsIndexed any_uuid stored stored_valid) renamed
      after_update update_done
