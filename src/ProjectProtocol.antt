-- ===== src/ProjectProtocol.antt =====
-- project_protocol.py: the signed records of a shared project, and the rules by which one follows
-- from another.
pub mod Checked
pub mod Json
pub mod Records
pub mod Signatures
pub mod Policy
pub mod Transition
pub mod GrantIds
pub mod Succession
pub mod Chain
pub mod Messages
pub mod Requests
pub mod Bindings
pub mod Tests
