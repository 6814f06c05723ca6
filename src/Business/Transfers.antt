-- ===== src/Business/Transfers.antt =====
-- business/transfers.py, by the methods of `TransferInteractor`.
pub mod Validate
pub mod Confirm
pub mod Submit
pub mod Detect
pub mod Tasks
