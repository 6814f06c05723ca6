-- ===== src/Entities.antt =====
-- entities.py: the cross-chain transfer and its dictionary form, in which Celery carries it from
-- task to task.
mod Transfer
pub mod Dict
pub mod Equality
pub use Transfer.{Blockchain, BlockchainAddress, CrossChainTransfer}
unfoldable pub use Transfer.{
  eventual_destination_blockchain, eventual_recipient_address, eventual_destination_token_address,
  transfer_eq,
}
