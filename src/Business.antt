-- ===== src/Business.antt =====
-- The package business/, over the database and over what lies outside the program.
pub mod Client
pub mod State
pub mod Transfers
pub mod Signatures
pub mod Preserved
pub mod Kept
pub mod Queue
pub mod Node
