-- ===== src/Db.antt =====
-- The package db/sqlc: the tables, the queries on them, and the transactions of the store.
pub mod Model
pub mod Error
pub mod Query
pub mod Page
pub mod Account
pub mod Entry
pub mod Transfer
pub mod Currency
pub mod User
pub mod Store
