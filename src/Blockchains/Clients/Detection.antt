-- ===== src/Blockchains/Clients/Detection.antt =====
-- `detect_new_transfers` of business/transfers.py with a client of blockchains/ethereum.py.
use validatornode.Common.{ℕ, ◌+◌, ◌-◌, ◌≤◌, ◌<◌, suc, List, map, ◌≡◌, arith, inl, inr}
use validatornode.Common.Int.{ℤ, pos}
use validatornode.Exec.{ok, err, reply, Result, Exception, Exec-cases, Result-cases}
use mathlib.Core.Path.{subst}
use validatornode.Entities.{Blockchain}
use validatornode.Database.Access.Transfers.{read_blockchain_last_block_number}
use validatornode.Business.Client.{Env, ReadOutgoingTransfersFromBlockResponse}
use validatornode.Business.State.{State}
use validatornode.Business.Transfers.Detect.{detect_new_transfers, from_block_number}
use validatornode.Business.Transfers.Detect.Records.{AreKnown, AreRecorded}
use validatornode.Business.Transfers.Detect.Completeness.{
  detect_new_transfers-records, detect_new_transfers_failing,
}
use validatornode.Blockchains.Ethereum.Nodes.{on_nodes}
use validatornode.Blockchains.Ethereum.Blocks.Coverage.{logs_in, read_logs_from_block-reads_all}
use validatornode.Blockchains.Ethereum.Logs.{
  EventLog, outgoing_transfer, create_outgoing_transfers, read_outgoing_transfers_from_block,
}
use validatornode.Blockchains.Ethereum.Logs.Transfers.{create_outgoing_transfers-IsOutgoing}
use validatornode.Blockchains.Clients.{EthereumNodes, to_reply_err}
use validatornode.Blockchains.Clients.Soundness.{with_clients}

module _ {W : Type 0} (env : Env W) (nodes : Blockchain → EthereumNodes W) (b : Blockchain)
    (events : ℕ → List EventLog)
    (get : (first last : ℕ) (w : W)
      → first ≤ last
      → last ≤ first + (nodes b).outgoing_transfers_number_blocks
      → ((nodes b).get_logs first last w).0 ≡ reply (logs_in events first (suc last - first)))
    (positive : 0 < (nodes b).outgoing_transfers_number_blocks) where
  get_exec :
      (first last : ℕ) (w : W)
      → first ≤ last
      → last ≤ first + (nodes b).outgoing_transfers_number_blocks
      → (on_nodes ((nodes b).get_logs first last) w).0
        ≡ ok (logs_in events first (suc last - first))
  get_exec first last w h k = ground (arith, get first last w h k)

  abbrev read : ℕ → W → Result ReadOutgoingTransfersFromBlockResponse × W
  read from w =
      read_outgoing_transfers_from_block env.is_blockchain b (nodes b).get_block_number
        (nodes b).get_logs (nodes b).signer.hub (nodes b).outgoing_transfers_number_blocks from w

  read-response :
      (from latest : ℕ) (w w₁ w' : W) (r : ReadOutgoingTransfersFromBlockResponse)
      → (nodes b).get_block_number w ≡ (reply latest, w₁)
      → read from w ≡ (ok r, w')
      → (r.outgoing_transfers
          ≡ map
              (outgoing_transfer env.is_blockchain b (nodes b).signer.hub)
              (logs_in events from (suc latest - from)))
        × (r.to_block_number ≡ pos latest)
  unfolding read_outgoing_transfers_from_block
  read-response from latest w w₁ w' r recent e =
      let n = (nodes b).outgoing_transfers_number_blocks in
      let logs = logs_in events from (suc latest - from) in
      let all_read =
        read_logs_from_block-reads_all events (λ x y. on_nodes ((nodes b).get_logs x y)) n get_exec
          positive latest from w₁ in
      elim (Result-cases
        (create_outgoing_transfers env.is_blockchain b (nodes b).signer.hub logs)) [
          | inl (x, c) ↦ absurd (ground (arith, e, recent, all_read, c))
          | inr (ts, c) ↦
              let made =
                create_outgoing_transfers-IsOutgoing env.is_blockchain b (nodes b).signer.hub logs
                  ts c in
              (
                ground (arith, e, recent, all_read, c, made.0),
                ground (arith, e, recent, all_read, c),
              )
        ]

  failing :
      (s : State W) (n : ℤ) (from : ℕ) (x : Exception) (w' : W)
      → (read_blockchain_last_block_number b s.database).0 ≡ ok n
      → from_block_number (with_clients env nodes) b n ≡ pos from
      → read from s.world ≡ (err x, w')
      → (detect_new_transfers (with_clients env nodes) b s).0 ≡ ok tt
      → ⊥
  failing s n from x w' last first p done =
      let (f, e) = to_reply_err {A = ReadOutgoingTransfersFromBlockResponse} x in
      detect_new_transfers_failing (with_clients env nodes) b s n f w' last
        (ground (arith, first, p, e)) done

  -- If the nodes return the events of every range of at most one block more than configured, a number
  -- that is not 0, then a detection that ends without an exception leaves none out of the events in
  -- the blocks from the first one asked for to the most recent one, of which the last is not below
  -- the first. The transaction of each event is known afterwards. If it was not known before, then
  -- the first of these events in it has a row with the blockchains, the sender, the recipient, the
  -- amount, the ID on the source blockchain, the transaction ID and the block number of the transfer
  -- that the event stands for.
  pub detect_new_transfers-misses_none :
      (s : State W) (n : ℤ) (from latest : ℕ) (w : W)
      → (read_blockchain_last_block_number b s.database).0 ≡ ok n
      → from_block_number (with_clients env nodes) b n ≡ pos from
      → (nodes b).get_block_number s.world ≡ (reply latest, w)
      → from ≤ latest
      → (detect_new_transfers (with_clients env nodes) b s).0 ≡ ok tt
      → let ts =
          map
            (outgoing_transfer env.is_blockchain b (nodes b).signer.hub)
            (logs_in events from (suc latest - from)) in
        let rows' = (detect_new_transfers (with_clients env nodes) b s).1.database.transfers in
        AreKnown ts rows' × AreRecorded ts s.database.transfers rows'
  detect_new_transfers-misses_none s n from latest w last first recent order done =
      elim (Exec-cases (read from s.world)) [
        | inl (x, w', p) ↦ absurd (failing s n from x w' last first p done)
        | inr (r, w', p) ↦
            let (transfers, to) = read-response from latest s.world w w' r recent p in
            subst
              (λ ts.
                let rows' =
                  (detect_new_transfers (with_clients env nodes) b s).1.database.transfers in
                AreKnown ts rows' × AreRecorded ts s.database.transfers rows')
              transfers
              (detect_new_transfers-records (with_clients env nodes) b s n r w' last
                (ground (arith, first, p)) (ground (arith, first, to)) done)
      ]
