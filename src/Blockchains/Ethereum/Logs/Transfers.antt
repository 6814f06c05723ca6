-- ===== src/Blockchains/Ethereum/Logs/Transfers.antt =====
-- blockchains/ethereum.py: the transfers that are made of event logs.
use validatornode.Common.{
  ℕ, Bool, true, false, List, [], ◌∷◌, map, All, ◌≡◌, ◌≢◌, refl, arith, inl, inr,
}
use validatornode.Exec.{ok, Call, Exec-cases, Call-cases, Result-cases}
use mathlib.Core.Path.{subst}
use validatornode.Entities.{Blockchain, BlockchainAddress, CrossChainTransfer}
use validatornode.Business.Client.{ReadOutgoingTransfersFromBlockResponse}
use validatornode.Blockchains.Ethereum.Nodes.{on_nodes}
use validatornode.Blockchains.Ethereum.Blocks.{read_logs_from_block}
use validatornode.Blockchains.Ethereum.Logs.{
  EventLog, outgoing_transfer, create_outgoing_transfer, create_outgoing_transfers,
  read_outgoing_transfers_from_block,
}

module _ (is_blockchain : ℕ → Bool) (blockchain : Blockchain) where
  -- A transfer that leaves the blockchain for another one of the enumeration.
  abbrev pub IsOutgoing : CrossChainTransfer → Type 0
  IsOutgoing t =
      (t.source_blockchain ≡ blockchain)
      × (is_blockchain t.destination_blockchain ≡ true)
      × (t.destination_blockchain ≢ blockchain)
      × (t.is_reversal_transfer ≡ false)

  module _ (hub : BlockchainAddress) where
    create_outgoing_transfer-IsOutgoing :
        (log : EventLog) (t : CrossChainTransfer)
        → create_outgoing_transfer is_blockchain blockchain hub log ≡ ok t
        → (t ≡ outgoing_transfer is_blockchain blockchain hub log) × IsOutgoing t
    unfolding create_outgoing_transfer
    create_outgoing_transfer-IsOutgoing log t e =
        (ground arith, (ground arith, ground arith, ground arith, ground arith))

    -- The transfers that are made of event logs are those of the logs, one by one, and each leaves
    -- this blockchain for another one of the enumeration.
    pub create_outgoing_transfers-IsOutgoing :
        (logs : List EventLog) (ts : List CrossChainTransfer)
        → create_outgoing_transfers is_blockchain blockchain hub logs ≡ ok ts
        → (ts ≡ map (outgoing_transfer is_blockchain blockchain hub) logs) × All IsOutgoing ts
    unfolding create_outgoing_transfers
    create_outgoing_transfers-IsOutgoing [] [] e = (refl, tt)
    create_outgoing_transfers-IsOutgoing [] (t ∷ ts) e = cc
    create_outgoing_transfers-IsOutgoing (log ∷ logs) ts e =
        elim (Result-cases (create_outgoing_transfer is_blockchain blockchain hub log)) [
          | inl (x, p) ↦ absurd (ground (arith, e, p))
          | inr (t, p) ↦
              elim (Result-cases (create_outgoing_transfers is_blockchain blockchain hub logs)) [
                | inl (x, q) ↦ absurd (ground (arith, e, p, q))
                | inr (us, q) ↦
                    let here = create_outgoing_transfer-IsOutgoing log t p in
                    let rest = create_outgoing_transfers-IsOutgoing logs us q in
                    let whole : t ∷ us ≡ ts = ground (arith, e, p, q) in
                    subst
                      (λ vs.
                        (vs ≡ map (outgoing_transfer is_blockchain blockchain hub) (log ∷ logs))
                        × All IsOutgoing vs)
                      whole (ground (arith, here.0, rest.0), (here.1, rest.1))
              ]
        ]

    -- Every transfer that is read from a starting block leaves this blockchain for another one of
    -- the enumeration, and none of them is a reversal.
    pub read_outgoing_transfers_from_block-IsOutgoing :
        {W : Type 0} (get_block_number : Call W ℕ) (get_logs : ℕ → ℕ → Call W (List EventLog))
        (number_blocks from : ℕ) (w w' : W) (r : ReadOutgoingTransfersFromBlockResponse)
        → read_outgoing_transfers_from_block is_blockchain blockchain get_block_number get_logs hub
            number_blocks from w
          ≡ (ok r, w')
        → All IsOutgoing r.outgoing_transfers
    unfolding read_outgoing_transfers_from_block
    read_outgoing_transfers_from_block-IsOutgoing get_block_number get_logs number_blocks from w w'
          r e =
        elim (Call-cases (get_block_number w)) [
          | inl (f, w1, p) ↦ absurd (ground (arith, e, p))
          | inr (latest, w1, p) ↦
              elim (Exec-cases (
                read_logs_from_block (λ a b. on_nodes (get_logs a b)) number_blocks latest from
                  w1)) [
                    | inl (x, w2, q) ↦ absurd (ground (arith, e, p, q))
                    | inr (logs, w2, q) ↦
                        elim (Result-cases
                          (create_outgoing_transfers is_blockchain blockchain hub logs)) [
                            | inl (x, c) ↦ absurd (ground (arith, e, p, q, c))
                            | inr (ts, c) ↦
                                let whole : ts ≡ r.outgoing_transfers =
                                  ground (arith, e, p, q, c) in
                                subst (λ vs. All IsOutgoing vs) whole
                                  (create_outgoing_transfers-IsOutgoing logs ts c).1
                          ]
                  ]
        ]
