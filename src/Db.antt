-- ===== src/Db.antt =====
-- project/db_impl.cc: the database.
pub mod Background
pub mod Work
pub mod Writes
pub mod Room
pub mod Obsolete
pub mod Tests
