-- ===== src/Pgcopydb.antt =====
-- What the operator hands to pgcopydb and reads from its logs (internal/pgcopydb).
pub mod Logs
pub mod Args
pub mod Slot
pub mod Filters
pub mod Compare
