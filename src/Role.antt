-- ===== src/Role.antt =====
-- modules/postgres/role.go: the module `postgres_role`.
pub mod Statement
pub mod Methods
pub mod Settled
pub mod Samples
