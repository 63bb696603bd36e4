-- ===== src/CloudSql.antt =====
-- modules/google/cloudsql: names of users and engines, and the module `google_cloudsql_user`.
pub mod Names
pub mod Users
pub mod Admin
pub mod Methods
pub mod Laws
pub mod Database
pub mod Ready
pub mod Identity
pub mod Samples
