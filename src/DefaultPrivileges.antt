-- ===== src/DefaultPrivileges.antt =====
-- modules/postgres/default_privileges.go: the module `postgres_default_privileges`.
pub mod Scope
pub mod Targets
pub mod Catalog
pub mod Statement
pub mod Methods
pub mod Validate
pub mod Expanded
pub mod Applied
pub mod NoSchema
pub mod Samples
