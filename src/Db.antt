-- ===== src/Db.antt =====
-- pool/src/db.rs: the persistence layer.
pub mod Event
pub mod Tables
pub mod Worker
pub mod Reader
