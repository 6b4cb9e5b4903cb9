-- ===== src/Wallet.antt =====
-- pkg/wallet: the UTXOs that a wallet owns, and its balances.
pub mod State
pub mod SpentEvents
pub mod Stores
pub mod Rollback
pub mod Proofs
pub mod Balances
mod Tests
mod SyncTests
