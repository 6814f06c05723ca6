-- ===== src/Business/Kept/Detect.antt =====
-- `detect_new_transfers`, which schedules a validation for each new transfer.
use validatornode.Common.{
  ℕ, zero, suc, Bool, true, false, Option, none, some, List, [], ◌∷◌, All, ◌≡◌, arith, inl, inr,
}
use validatornode.Common.Int.{ℤ}
use validatornode.Exec.{out_of_rounds, pure, skip, Call-cases}
use validatornode.Exec.Keeps.{
  Keeps, Keeps->>=, Keeps-raise, Keeps-pure, Keeps-assert, Keeps-catch, Keeps-from, keeps_rules,
}
use validatornode.Entities.{CrossChainTransfer}
use validatornode.Database.Access.Transfers.{read_transfer_id, read_blockchain_last_block_number}
use validatornode.Business.Client.{Env, TaskName, ReadOutgoingTransfersFromBlockResponse}
use validatornode.Database.Models.{Database}
use validatornode.Database.Kept.{IsAccess}
use validatornode.Database.Kept.{
  read_transfer_id-IsAccess, read_blockchain_last_block_number-IsAccess,
}
use validatornode.Business.Kept.{Keeps-foreign, IsKept, method_rules}
use validatornode.Business.State.{State, db, call, schedule_task}
use validatornode.Exec.{Exec, Call}
use validatornode.Business.Transfers.Detect.{
  draw_validator_nonce, find_unused_validator_nonce, register_transfer, process_transfer,
  process_transfers, on_no_new_block, on_transfers_response, detect_new_transfers,
  from_block_number,
}

module _ {W : Type 0} (env : Env W) {P : State W → Type 0} {Good : CrossChainTransfer → Type 0}
    (k : IsKept env P Good) where
  Kept-db : {A : Type 0} (m : Exec Database A) → IsAccess m → Keeps P (db m)
  Kept-db = k.on_db

  Kept-call : {A : Type 0} (m : Call W A) → Keeps P (call m)
  Kept-call = k.on_call

  ruleset kept_rules = (Kept-db, Kept-call, method_rules)

  Kept-draw : (rounds b : ℕ) → Keeps P (draw_validator_nonce env rounds b)
  unfolding draw_validator_nonce
  Kept-draw zero b = Keeps-raise out_of_rounds
  Kept-draw (suc rounds) b = Keeps->>= _ _ (Kept-call env.getrandbits) (λ n.
      Keeps->>= _ _ (Kept-call (env.client.is_valid_validator_nonce b n)) (λ valid.
        elim valid
          as (λ v.
            Keeps {A = ℕ} P
              (elim v [ Bool.true ↦ pure n | Bool.false ↦ draw_validator_nonce env rounds b ])) [
                | true ↦ Keeps-pure n
                | false ↦ Kept-draw rounds b
              ]))

  Kept-find : (b : ℕ) → Keeps P (find_unused_validator_nonce env b)
  unfolding find_unused_validator_nonce
  Kept-find b = search (Kept-draw, keeps_rules) depth 6

  module _ (t : CrossChainTransfer) (good : Good t) where
    Kept-validation :
        (id : ℕ) → Keeps P (schedule_task env TaskName.validate_transfer id t Option.none)
    Kept-validation id = k.on_schedule TaskName.validate_transfer id t Option.none good tt

    Kept-register : Keeps P (register_transfer env t)
    unfolding register_transfer
    Kept-register = search (Kept-find, Kept-validation, kept_rules) depth 12

    Kept-process : Keeps P (process_transfer env t)
    unfolding process_transfer
    Kept-process =
        Keeps->>= _ _
          (Kept-db (read_transfer_id t.source_blockchain t.source_transaction_id)
            (read_transfer_id-IsAccess t.source_blockchain t.source_transaction_id))
          (λ o.
            elim o
              as (λ o.
                Keeps {A = Unit {0}} P
                  (elim o [ none ↦ register_transfer env t | some _ ↦ skip ])) [
                    | none ↦ Kept-register
                    | some id ↦ Keeps-pure tt
                  ])

  Kept-processes : (ts : List CrossChainTransfer) → All Good ts → Keeps P (process_transfers env ts)
  unfolding process_transfers
  Kept-processes [] h = Keeps-pure tt
  Kept-processes (t ∷ ts) h = Keeps->>= _ _ (Kept-process t h.0) (λ _. Kept-processes ts h.1)

  module _ (r : ReadOutgoingTransfersFromBlockResponse)
      (all_good : All Good r.outgoing_transfers) where
    Kept-all : Keeps P (process_transfers env r.outgoing_transfers)
    Kept-all = Kept-processes r.outgoing_transfers all_good

    Kept-response : (b : ℕ) (n : ℤ) → Keeps P (on_transfers_response env b n r)
    unfolding on_transfers_response on_no_new_block
    Kept-response b n = search (Kept-all, kept_rules) depth 12

  pub detect_new_transfers-IsKept :
      (b : ℕ) → env.is_active b ≡ true → Keeps P (detect_new_transfers env b)
  unfolding detect_new_transfers
  detect_new_transfers-IsKept b active = Keeps->>= _ _ (Keeps-assert (env.is_active b)) (λ _.
      Keeps-catch _ _
        (Keeps->>= _ _
          (Kept-db (read_blockchain_last_block_number b)
            (read_blockchain_last_block_number-IsAccess b))
          (λ last.
            let n = from_block_number env b last in
            Keeps-from (λ r. All Good r.outgoing_transfers)
              (call (env.client.read_outgoing_transfers_from_block b n)) _
              (Kept-call (env.client.read_outgoing_transfers_from_block b n))
              (λ s r s' e.
                elim (Call-cases (env.client.read_outgoing_transfers_from_block b n s.world)) [
                  | inl (f, w, p) ↦ absurd (ground (arith, e, p))
                  | inr (r', w, p) ↦ k.good_read b n s.world w r active (ground (arith, e, p))
                ])
              (λ r all_good. Kept-response r all_good b n)))
        Keeps-foreign)
