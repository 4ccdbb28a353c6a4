-- ===== src/Wallet.antt =====
-- The wallets of the backend: backend/src/wallet.
pub mod Mints
pub mod Proofs
pub mod Swap
pub mod Redeem
