-- ===== src/Database/Access.antt =====
-- database/access.py, by the tables that its functions read and write.
pub mod Contracts
pub mod Transfers
pub mod Signatures
pub mod Updates
pub mod Nonce
