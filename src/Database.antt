-- ===== src/Database.antt =====
-- packages/database/src: the transactions that the control plane and its workers share. A table
-- is a list of rows in the order in which the database returns them; a transaction is a function
-- from the tables it touches to the tables it leaves, since it is serializable.
pub mod Tables
pub mod Paper
pub mod Payments
pub mod Quotes
pub mod Cleanup
pub mod PrintJobs
pub mod Examples
