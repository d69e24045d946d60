-- ===== src/SyncServer.antt =====
-- sync_server.py: the relay of encrypted vaults.
pub mod Outcome
pub mod ResultMonad
pub mod Tables
pub mod Requests
pub mod Storage
pub mod Access
pub mod Forms
pub mod Prepare
pub mod Commits
pub mod Devices
pub mod Invites
pub mod Queries
pub mod Chain
pub mod Append
pub mod DeviceTable
pub mod Server
pub mod Members
pub mod Ledger
pub mod Paging
pub mod InviteTable
pub mod Invitations
pub mod Lockout
pub mod Approval
pub mod Budgets
mod Tests
