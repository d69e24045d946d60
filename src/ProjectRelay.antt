-- ===== src/ProjectRelay.antt =====
-- The relay of project_server.py: scopes, their publications, and the queue of their devices.
pub mod Tables
pub mod Storage
pub mod Access
pub mod Scopes
pub mod Publish
pub mod Submissions
pub mod Receipts
pub mod Blocks
pub mod Reading
pub mod Order
pub mod Pages
pub mod Relay
pub mod Contracts
pub mod Admission
pub mod Additions
pub mod Growth
pub mod Beside
pub mod Permanence
pub mod Retries
pub mod Frames
pub mod Inserts
pub mod History
pub mod Linear
pub mod Ordered
pub mod Queue
pub mod Quota
pub mod Refusals
pub mod Progress
mod Tests
