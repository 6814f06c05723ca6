-- ===== src/Database.antt =====
-- The package database/: the tables, and the operations of access.py as transactions on them.
pub mod Models
pub mod Session
pub mod Access
pub mod Transactions
pub mod Nonce
pub mod Rows
pub mod Interleaving
pub mod Blocks
pub mod Creation
pub mod Records
pub mod Consistency
pub mod Kept
