-- ===== src/Db.antt =====
-- src/db: the connections of a run and the verification of database state.
pub mod Expect
pub mod Registry
