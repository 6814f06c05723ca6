-- ===== src/Blockchains.antt =====
-- The package blockchains/: the clients of single blockchains.
pub mod Ethereum
pub mod Status
pub mod Clients
