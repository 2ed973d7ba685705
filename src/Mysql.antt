-- ===== src/Mysql.antt =====
-- internal/adapters/mysql: job records, their mapping to the entity, and the repository.
pub mod Options
pub mod Connection
pub mod Record
pub mod Repository
pub mod RoundTrip
pub mod Rows
pub mod Contract
pub mod Schema
