-- ===== src/Db/States.antt =====
-- backend/src/db.rs: the state of a deposit, a withdrawal and an address, with their texts.
pub mod Deposit
pub mod Withdrawal
pub mod Address
