-- ===== src/Business/Transfers/Detect/Repetition.antt =====
-- `detect_new_transfers` where all transfers that are read are known.
use validatornode.Common.{
  ℕ, Bool, true, false, none, List, [], ◌∷◌, any, map, select, ◌≡◌, ◌∙◌, refl, ap, arith, inl, inr,
  Option-cases,
}
use validatornode.Common.Int.{ℤ, ltb_ℤ}
use validatornode.Exec.{ok, reply}
use validatornode.Entities.{CrossChainTransfer}
use validatornode.Database.Models.{Transfer}
use validatornode.Database.Session.{one_or_none}
use validatornode.Database.Access.Transfers.{
  is_source, transfer_id, read_blockchain_last_block_number, read_transfer_id,
}
use validatornode.Database.Access.Updates.{update_blockchain_last_block_number}
use validatornode.Database.Consistency.{IsConsistent}
use validatornode.Database.Consistency.Reads.{reads-of-one}
use validatornode.Database.Blocks.{update-last_block}
use validatornode.Business.Client.{Env, ReadOutgoingTransfersFromBlockResponse}
use validatornode.Business.State.{State}
use validatornode.Business.Transfers.Detect.{
  process_transfer, process_transfers, from_block_number, on_transfers_response,
  detect_new_transfers,
}
use validatornode.Business.Transfers.Detect.Records.{AreKnown}

one_or_none-none :
    (p : Transfer → Bool) (ts : List Transfer)
    → one_or_none (map transfer_id (select p ts)) ≡ ok none
    → any p ts ≡ false
one_or_none-none p [] h = refl
one_or_none-none p (t ∷ ts) h = ground (arith, h, one_or_none-none p ts)

module _ {W : Type 0} (env : Env W) (s : State W) (consistent : IsConsistent s.database) where
  process-known :
      (t : CrossChainTransfer)
      → any (is_source t.source_blockchain t.source_transaction_id) s.database.transfers ≡ true
      → process_transfer env t s ≡ (ok tt, s)
  unfolding process_transfer read_transfer_id
  process-known t h =
      let (o, e) =
        (reads-of-one s.database consistent).0 t.source_blockchain t.source_transaction_id in
      elim (Option-cases o) [
        | inl missing ↦ absurd (
            ground (
              arith,
              e,
              missing,
              h,
              one_or_none-none (is_source t.source_blockchain t.source_transaction_id)
                  s.database.transfers,
            ))
        | inr (id, there) ↦ ground (arith, e, there)
      ]

  processes-known :
      (ts : List CrossChainTransfer)
      → AreKnown ts s.database.transfers
      → process_transfers env ts s ≡ (ok tt, s)
  unfolding process_transfers
  processes-known [] h = refl
  processes-known (t ∷ ts) h = ground (arith, process-known t h.0, processes-known ts h.1)

module _ {W : Type 0} (env : Env W) where
  response-repeats :
      (b : ℕ) (from_block last : ℤ) (r : ReadOutgoingTransfersFromBlockResponse) (s : State W)
      → IsConsistent s.database
      → (read_blockchain_last_block_number b s.database).0 ≡ ok last
      → ltb_ℤ r.to_block_number from_block ≡ false
      → ltb_ℤ r.to_block_number last ≡ false
      → AreKnown r.outgoing_transfers s.database.transfers
      → let (d, written) = update_blockchain_last_block_number b r.to_block_number s.database in
        on_transfers_response env b from_block r s ≡ (ok tt, record s { database = written })
  unfolding on_transfers_response
  response-repeats b from_block last r s consistent found new order known = ground (
    arith,
    new,
    processes-known env s consistent r.outgoing_transfers known,
    (update-last_block b r.to_block_number last s.database found order).0,
  )

  repeated :
      (b : ℕ) (last : ℤ) (r : ReadOutgoingTransfersFromBlockResponse) (s s' : State W) (w : W)
      → env.is_active b ≡ true
      → (read_blockchain_last_block_number b s.database).0 ≡ ok last
      → env.client.read_outgoing_transfers_from_block b (from_block_number env b last) s.world
        ≡ (reply r, w)
      → on_transfers_response env b (from_block_number env b last) r (record s { world = w })
        ≡ (ok tt, s')
      → detect_new_transfers env b s ≡ (ok tt, s')
  unfolding detect_new_transfers read_blockchain_last_block_number
  repeated b last r s s' w active found read response =
      ground (arith, active, found, read, response)

  -- Where the client reads known transfers only, up to a block that is neither below the first one
  -- asked for nor below the last one recorded, the detection of an active blockchain ends without
  -- an exception from a consistent database: it schedules nothing, changes no transfer, and records
  -- the block.
  pub detect_new_transfers-repeats :
      (b : ℕ) (last : ℤ) (r : ReadOutgoingTransfersFromBlockResponse) (s : State W) (w : W)
      → env.is_active b ≡ true
      → IsConsistent s.database
      → (read_blockchain_last_block_number b s.database).0 ≡ ok last
      → env.client.read_outgoing_transfers_from_block b (from_block_number env b last) s.world
        ≡ (reply r, w)
      → ltb_ℤ r.to_block_number (from_block_number env b last) ≡ false
      → ltb_ℤ r.to_block_number last ≡ false
      → AreKnown r.outgoing_transfers s.database.transfers
      → let (result, s') = detect_new_transfers env b s in
        (result ≡ ok tt)
        × (s'.tasks ≡ s.tasks)
        × (s'.database.transfers ≡ s.database.transfers)
        × ((read_blockchain_last_block_number b s'.database).0 ≡ ok r.to_block_number)
  detect_new_transfers-repeats b last r s w active consistent found read new order known =
      let response =
        response-repeats b (from_block_number env b last) last r (record s { world = w }) consistent
          found new order known in
      let whole = repeated b last r s _ w active found read response in
      let (_, recorded, same) = update-last_block b r.to_block_number last s.database found order in
      (
        ap (λ q. q.0) whole,
        ap (λ q. q.1.tasks) whole,
        ap (λ q. q.1.database.transfers) whole ∙ same,
        ap (λ q. (read_blockchain_last_block_number b q.1.database).0) whole ∙ recorded,
      )
