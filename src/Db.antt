-- ===== src/Db.antt =====
-- backend/src/db.rs: the tables of the Postgres database and the statements that read and write
-- them. A statement is a function of the tables, as the server answers it; that a call may fail on
-- the way is added in Runtime.
pub mod States
pub mod Tables
pub mod Deposits
pub mod Withdrawals
pub mod Addresses
pub mod Settings
pub mod Stats
pub mod Statements
pub mod Claims
pub mod Allocation
pub mod Counting
pub mod Funding
pub mod Ledger
