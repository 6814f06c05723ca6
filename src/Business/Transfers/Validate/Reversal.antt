-- ===== src/Business/Transfers/Validate/Reversal.antt =====
-- `validate_transfer` on a transfer with the flag of a reversal.
use validatornode.Common.{ℕ, true, false, none, List, [], ◌∷◌, any, All, ◌≡◌, ◌∙◌, refl, arith}
use validatornode.Exec.{err, reply, transfer_interactor_error}
use validatornode.Entities.{CrossChainTransfer, transfer_eq}
use validatornode.Business.Client.{Env, confirmed}
use validatornode.Business.State.{State}
use validatornode.Business.Transfers.Validate.{
  with_source_of, find_in_transaction, validate_transfer, validation,
  validate_source_transaction_status, validate_transfer_in_source_transaction,
}

transfer_eq-reversal :
    (t u : CrossChainTransfer)
    → t.is_reversal_transfer ≡ true
    → u.is_reversal_transfer ≡ false
    → transfer_eq t u ≡ false
unfolding transfer_eq
transfer_eq-reversal t u p q = ground arith

any-reversal :
    (t : CrossChainTransfer) (l : List CrossChainTransfer)
    → t.is_reversal_transfer ≡ true
    → All (λ u. u.is_reversal_transfer ≡ false) l
    → any (λ u. transfer_eq t u) l ≡ false
any-reversal t [] p q = refl
any-reversal t (u ∷ l) p q = ground (arith, transfer_eq-reversal t u, any-reversal t l p q.1)

with_source-reversal :
    (t u : CrossChainTransfer) → (with_source_of t u).is_reversal_transfer ≡ t.is_reversal_transfer
unfolding with_source_of
with_source-reversal t u = refl

find-reversal :
    (t : CrossChainTransfer) (l : List CrossChainTransfer)
    → t.is_reversal_transfer ≡ true
    → All (λ u. u.is_reversal_transfer ≡ false) l
    → find_in_transaction t l ≡ none
unfolding find_in_transaction
find-reversal t [] p q = refl
find-reversal t (u ∷ l) p q =
    let p' : (with_source_of t u).is_reversal_transfer ≡ true = with_source-reversal t u ∙ p in
    ground (
      arith,
      transfer_eq-reversal (with_source_of t u) u,
      find-reversal (with_source_of t u) l p' q.1,
    )

module _ {W : Type 0} (env : Env W) where
  -- A reversal transfer can never be validated: where its blockchains are active, its source
  -- transaction is confirmed, and the transfers read from that transaction are not reversals, which
  -- is how `EthereumClient` builds them, `validate_transfer` raises a TransferInteractorError, and
  -- it leaves the database and the scheduled tasks as they were.
  pub validate_transfer-reversal :
      (id : ℕ) (t : CrossChainTransfer) (s : State W) (l : List CrossChainTransfer) (w₁ w₂ : W)
      → t.is_reversal_transfer ≡ true
      → env.is_active t.source_blockchain ≡ true
      → env.is_active t.destination_blockchain ≡ true
      → env.client.read_transaction_status t.source_blockchain t.source_transaction_id s.world
        ≡ (reply confirmed, w₁)
      → env.client.read_outgoing_transfers_in_transaction t.source_blockchain
          t.source_transaction_id t.source_hub_address w₁
        ≡ (reply l, w₂)
      → All (λ u. u.is_reversal_transfer ≡ false) l
      → validate_transfer env id t s ≡ (err transfer_interactor_error, record s { world = w₂ })
  unfolding validate_transfer validation validate_source_transaction_status
      validate_transfer_in_source_transaction
  validate_transfer-reversal id t s l w₁ w₂ rev a₁ a₂ e₁ e₂ q =
      ground (arith, any-reversal t l rev q, find-reversal t l rev q)
