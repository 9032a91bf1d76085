-- ===== src/Collaboration.antt =====
-- api/app/services/collaboration.py, over the session. The clock and the identifier of a new row
-- are arguments.
pub mod Presence
pub mod Lock
pub mod Relay
