-- ===== src/Workers.antt =====
-- backend/src/workers: the withdrawal and deposit workers.
pub mod Withdrawal
pub mod Funding
pub mod Deposit
