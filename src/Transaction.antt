-- ===== src/Transaction.antt =====
-- pkg/transaction: the selection of the UTXOs that a transaction spends.
pub mod Solutions
pub mod Spending
mod Tests
