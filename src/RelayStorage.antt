-- ===== src/RelayStorage.antt =====
-- relay_storage.py: the budgets that a write of the relay is held to.
pub mod Triggers
pub mod Totals
pub mod Accounting
mod Tests
use keys_keeper_skill.Prelude.{
  ℕ, ◌+◌, ◌*◌, Bool, ◌||◌, ltb, if◌then◌else◌, nat_eq, string_eq, option_eq, list_eq,
}
use keys_keeper_skill.SyncServer.Outcome.{SyncError, http, Result, ok, err}

-- The budgets of `ProjectRelayLimits` (project_server.py) that storage is checked against.
pub record Limits : Type 0 where
  pub scope_bytes : ℕ
  pub relay_bytes : ℕ
  pub scope_records : ℕ
  pub relay_records : ℕ
  pub control_scope_bytes : ℕ
  pub control_relay_bytes : ℕ
  pub control_scope_records : ℕ
  pub control_relay_records : ℕ

abbrev pub default_limits : Limits
default_limits = record {
  scope_bytes = 512 * 1024 * 1024;
  relay_bytes = 2 * 1024 * 1024 * 1024;
  scope_records = 20000;
  relay_records = 100000;
  control_scope_bytes = 32 * 1024 * 1024;
  control_relay_bytes = 128 * 1024 * 1024;
  control_scope_records = 2000;
  control_relay_records = 10000;
}

-- bytes and records in use
pub record Usage : Type 0 where
  pub bytes : ℕ
  pub records : ℕ

abbrev pub storage_full : SyncError
storage_full = http 429 "storage_full"

-- `extra if control else 0`
abbrev pub allowance : Bool → ℕ → ℕ
allowance control extra = if control then extra else 0

abbrev pub exceeds : Usage → ℕ → ℕ → Bool
exceeds used byte_limit record_limit = ltb byte_limit used.bytes || ltb record_limit used.records

-- `budget`: the scope's own budget, then the relay's
unfoldable pub budget : Limits → Usage → Usage → Bool → Result (Unit {0})
budget l scope relay control =
    if exceeds scope (l.scope_bytes + allowance control l.control_scope_bytes)
      (l.scope_records + allowance control l.control_scope_records)
    then err storage_full
    else if exceeds relay (l.relay_bytes + allowance control l.control_relay_bytes)
        (l.relay_records + allowance control l.control_relay_records)
    then err storage_full
    else ok tt
