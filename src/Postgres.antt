-- ===== src/Postgres.antt =====
-- postgres/: transactions, the connection and its string, and what queries report.
pub mod Connection
pub mod Testkit
pub mod TxRunner
