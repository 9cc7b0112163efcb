-- ===== src/Backend.antt =====
-- The backend process: the job machine (backend/src/machine.rs).
pub mod Machine
pub mod Relay
pub mod Reports
pub mod Editor
pub mod Exec
pub mod Service
