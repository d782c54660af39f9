-- ===== src/Db.antt =====
-- src/db/: the databases.
pub mod Text
