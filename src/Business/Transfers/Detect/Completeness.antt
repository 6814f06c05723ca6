-- ===== src/Business/Transfers/Detect/Completeness.antt =====
-- `detect_new_transfers` and the transfers that it has read.
use validatornode.Common.{
  ℕ, Bool, true, false, List, [], ◌∷◌, All, any, ◌≡◌, ◌⊎◌, refl, arith, inl, inr,
}
use mathlib.Core.Path.{subst, sym}
use validatornode.Common.Int.{ℤ, ltb_ℤ}
use validatornode.Exec.{ok, reply, Exec-cases, Fault, failure}
use validatornode.Entities.{CrossChainTransfer}
use validatornode.Database.Models.{Database, Transfer}
use validatornode.Database.Access.Transfers.{read_blockchain_last_block_number, is_source}
use validatornode.Database.Access.Updates.{update_blockchain_last_block_number}
use validatornode.Business.Client.{Env, ReadOutgoingTransfersFromBlockResponse}
use validatornode.Business.State.{State}
use validatornode.Business.Transfers.Detect.{
  process_transfer, process_transfers, from_block_number, on_transfers_response,
  detect_new_transfers,
}
use validatornode.Business.Transfers.Detect.Registration.{IsKnown, IgnoresTask}
use validatornode.Business.Transfers.Detect.Records.{
  AreKnown, AreRecorded, is_row_of, processes-keep, process-records, head-IsRecorded,
  tail-IsRecorded,
}

All-imp :
    {P Q : CrossChainTransfer → Type 0} (ts : List CrossChainTransfer)
    → ((t : CrossChainTransfer) → P t → Q t)
    → All P ts
    → All Q ts
All-imp [] f h = tt
All-imp (t ∷ ts) f h = (f t h.0, All-imp ts f h.1)

module _ {W : Type 0} (env : Env W) where
  processes-record :
      (ts : List CrossChainTransfer) (s : State W)
      → (process_transfers env ts s).0 ≡ ok tt
      → AreKnown ts (process_transfers env ts s).1.database.transfers
        × AreRecorded ts s.database.transfers (process_transfers env ts s).1.database.transfers
  unfolding process_transfers
  processes-record [] s done = (tt, tt)
  processes-record (t ∷ ts) s done = elim (Exec-cases (process_transfer env t s)) [
    | inl (e, s₁, p) ↦ absurd (ground arith)
    | inr (u, s₁, p) ↦
        let next : process_transfers env (t ∷ ts) s ≡ process_transfers env ts s₁ = ground arith in
        let first : (process_transfer env t s).0 ≡ ok tt = ground arith in
        let state : (process_transfer env t s).1 ≡ s₁ = ground arith in
        let later : (process_transfers env ts s₁).0 ≡ ok tt = ground arith in
        let rows = (process_transfers env ts s₁).1.database.transfers in
        let keep =
          λ (q : Transfer → Bool) (i : IgnoresTask q) (h : any q s₁.database.transfers ≡ true).
            processes-keep env q i ts s₁ later h in
        let (known, recorded) = rw state at (process-records env t s first) in
        let (all_known, all_recorded) = processes-record ts s₁ later in
        let head : IsKnown t.source_blockchain t.source_transaction_id s.database.transfers
            ⊎ (any (is_row_of t) rows ≡ true) =
          elim recorded [
            | inl before ↦ inl before
            | inr row ↦ inr (keep (is_row_of t) (λ r y. refl) row)
          ] in
        subst
          (λ q.
            AreKnown (t ∷ ts) q.1.database.transfers
            × AreRecorded (t ∷ ts) s.database.transfers q.1.database.transfers)
          (sym next)
          (
            (
              keep (is_source t.source_blockchain t.source_transaction_id) (λ r y. refl) known,
              all_known,
            ),
            (
              head-IsRecorded env t ts s.database.transfers rows head,
              All-imp ts (λ v h. tail-IsRecorded env t v ts s s₁ rows first state head h)
                  all_recorded,
            ),
          )
  ]

  last_block-transfers :
      (b : ℕ) (n : ℤ) (d : Database)
      → (update_blockchain_last_block_number b n d).1.transfers ≡ d.transfers
  unfolding update_blockchain_last_block_number
  last_block-transfers b n d = ground arith

  response-records :
      (b : ℕ) (from_block : ℤ) (r : ReadOutgoingTransfersFromBlockResponse) (s : State W)
      → ltb_ℤ r.to_block_number from_block ≡ false
      → (on_transfers_response env b from_block r s).0 ≡ ok tt
      → let rows' = (on_transfers_response env b from_block r s).1.database.transfers in
        AreKnown r.outgoing_transfers rows'
        × AreRecorded r.outgoing_transfers s.database.transfers rows'
  unfolding on_transfers_response
  response-records b from_block r s new done =
      elim (Exec-cases (process_transfers env r.outgoing_transfers s)) [
        | inl (e, s₁, p) ↦ absurd (ground arith)
        | inr (u, s₁, p) ↦
            let same : (process_transfers env r.outgoing_transfers s).1.database.transfers
                ≡ (on_transfers_response env b from_block r s).1.database.transfers =
              ground (arith, last_block-transfers b r.to_block_number s₁.database) in
            subst
              (λ rows.
                AreKnown r.outgoing_transfers rows
                × AreRecorded r.outgoing_transfers s.database.transfers rows)
              same (processes-record r.outgoing_transfers s (ground arith))
      ]

  -- If `detect_new_transfers` ends without an exception, and the client has read transfers up to a
  -- block that is not below the first one asked for, then the transaction of every transfer that it
  -- has read is known afterwards, and the first of the transfers in a transaction that was not
  -- known before is recorded with its data.
  pub detect_new_transfers-records :
      (b : ℕ) (s : State W) (n : ℤ) (r : ReadOutgoingTransfersFromBlockResponse) (w : W)
      → (read_blockchain_last_block_number b s.database).0 ≡ ok n
      → env.client.read_outgoing_transfers_from_block b (from_block_number env b n) s.world
        ≡ (reply r, w)
      → ltb_ℤ r.to_block_number (from_block_number env b n) ≡ false
      → (detect_new_transfers env b s).0 ≡ ok tt
      → let rows' = (detect_new_transfers env b s).1.database.transfers in
        AreKnown r.outgoing_transfers rows'
        × AreRecorded r.outgoing_transfers s.database.transfers rows'
  unfolding detect_new_transfers read_blockchain_last_block_number
  detect_new_transfers-records b s n r w last e new done =
      elim (Exec-cases
        (on_transfers_response env b (from_block_number env b n) r (record s { world = w }))) [
          | inl (x, s₁, p) ↦ absurd (ground arith)
          | inr (u, s₁, p) ↦
              let same : (on_transfers_response env b (from_block_number env b n) r
                    (record s { world = w })).1.database.transfers
                  ≡ (detect_new_transfers env b s).1.database.transfers =
                ground arith in
              subst
                (λ rows.
                  AreKnown r.outgoing_transfers rows
                  × AreRecorded r.outgoing_transfers s.database.transfers rows)
                same
                (response-records b (from_block_number env b n) r (record s { world = w }) new
                  (ground arith))
        ]

  -- A detection whose client cannot read the transfers does not end without an exception.
  pub detect_new_transfers_failing :
      (b : ℕ) (s : State W) (n : ℤ) (f : Fault) (w : W)
      → (read_blockchain_last_block_number b s.database).0 ≡ ok n
      → env.client.read_outgoing_transfers_from_block b (from_block_number env b n) s.world
        ≡ (failure f, w)
      → (detect_new_transfers env b s).0 ≡ ok tt
      → ⊥
  unfolding detect_new_transfers read_blockchain_last_block_number
  detect_new_transfers_failing b s n f w last e done = ground (arith, last, e, done)
