-- ===== src/Database/Nonce.antt =====
-- Proofs on `update_transfer_nonce` of database/access.py.
pub mod Clash
pub mod Held
pub mod Bounds
pub mod Assign
