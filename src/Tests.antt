-- ===== src/Tests.antt =====
-- Concrete states, runs of the code on them, and the theorems at concrete inputs.
pub mod Ledger
pub mod Bytes
pub mod Transfers
pub mod Settling
pub mod FirstPayments
pub mod Batches
pub mod Blocks
pub mod Service
pub mod Interleavings
pub mod Load
pub mod Badge
pub mod Payments
pub mod Deposits
