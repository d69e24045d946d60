-- ===== src/Store.antt =====
-- store.py: the metadata of the entries, and the transactions on them.
pub mod Entries
pub mod Identities
pub mod Transactions
pub mod Direct
pub mod Views
pub mod Slots
pub mod Refinement
pub mod Opening
pub mod Sessions
pub mod Lookups
pub mod Updates
pub mod Uniqueness
pub mod Writes
mod Tests
