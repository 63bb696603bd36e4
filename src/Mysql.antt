-- ===== src/Mysql.antt =====
-- modules/mysql/grant.go and modules/mysql/queries.go: the module `mysql_grant`.
pub mod Account
pub mod Grant
pub mod Targets
pub mod Statement
pub mod GrantModule
pub mod Literal
pub mod Validate
pub mod Expanded
pub mod Made
pub mod Applied
pub mod Samples
