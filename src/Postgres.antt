-- ===== src/Postgres.antt =====
-- modules/postgres/grant.go: the module `postgres_grant`, with its validation of identifiers and the
-- statements and queries of queries.go.
pub mod Identifier
pub mod Grant
pub mod Dimensions
pub mod Targets
pub mod Template
pub mod Statement
pub mod QueryText
pub mod QueryParams
pub mod ExistsQuery
pub mod Validate
pub mod GrantModule
pub mod Valid
pub mod Expanded
pub mod Given
pub mod Applied
pub mod Samples
