-- ===== src/Business/Transfers/Submit/Quorum.antt =====
-- `submit_transfer_onchain` and the minimum number of signatures.
use validatornode.Common.{ℕ, ◌+◌, ◌≤◌, true, false, none, some, ◌≡◌, arith, inl, inr}
use validatornode.Exec.{ok, reply, Exec-cases, Call-cases}
use validatornode.Entities.{CrossChainTransfer, eventual_destination_blockchain}
use validatornode.Database.Access.Transfers.{read_validator_nonce_by_internal_transfer_id}
use validatornode.Database.Access.Signatures.{Signatures, read_validator_node_signatures}
use validatornode.Business.Client.{Env}
use validatornode.Business.State.{State}
use validatornode.Business.Transfers.Submit.{
  count_valid_signatures, sufficient_secondary_node_signatures, submit_transfer_onchain_body,
  submit_transfer_onchain,
}
use validatornode.Business.Transfers.Submit.Counts.{Counts, count-Counts, count-unchanged}

module _ {W : Type 0} (env : Env W) (t : CrossChainTransfer) where
  -- What the primary node has read when the signatures are sufficient: the transfer's validator
  -- nonce, the stored signatures, `valid` of which are valid signatures of other nodes, and the
  -- minimum number, which these and its own reach.
  pub record IsSufficient (id : ℕ) (s : State W) : Type 0 where
    pub nonce : ℕ
    pub signatures : Signatures
    pub valid : ℕ
    pub minimum : ℕ
    pub world₁ : W
    pub world₂ : W
    pub nonce_read :
        (read_validator_nonce_by_internal_transfer_id id s.database).0 ≡ ok (some nonce)
    pub signatures_read : (read_validator_node_signatures id s.database).0 ≡ ok signatures
    pub counted : Counts env t nonce signatures s.world valid world₁
    pub minimum_read :
        env.client.read_minimum_validator_node_signatures (eventual_destination_blockchain t) world₁
        ≡ (reply minimum, world₂)
    pub enough : minimum ≤ valid + 1

  sufficient-cases :
      (nonce : ℕ) (signatures : Signatures) (s : State W)
      → (sufficient_secondary_node_signatures env t nonce signatures s).0 ≡ ok true
      → (n minimum : ℕ) × (w₁ w₂ : W) × Counts env t nonce signatures s.world n w₁
        × (env.client.read_minimum_validator_node_signatures (eventual_destination_blockchain t) w₁
            ≡ (reply minimum, w₂))
        × (minimum ≤ n + 1)
  unfolding sufficient_secondary_node_signatures
  sufficient-cases nonce signatures s e =
      elim (Exec-cases (count_valid_signatures env t nonce signatures 1 s)) [
        | inl (x, s₁, p) ↦ absurd (ground arith)
        | inr (m, s₁, p) ↦
            let (n, sum, c) = count-Counts env t nonce signatures 1 m s (ground arith) in
            elim (Call-cases (
              env.client.read_minimum_validator_node_signatures (eventual_destination_blockchain t)
                s₁.world)) [
                  | inl (f, w₂, q) ↦ absurd (ground arith)
                  | inr (minimum, w₂, q) ↦ (n, minimum, _, w₂, c, ground arith, ground arith)
                ]
      ]

  sufficient-unchanged :
      (nonce : ℕ) (signatures : Signatures) (s : State W)
      → ((sufficient_secondary_node_signatures env t nonce signatures s).1.database ≡ s.database)
        × ((sufficient_secondary_node_signatures env t nonce signatures s).1.tasks ≡ s.tasks)
  unfolding sufficient_secondary_node_signatures
  sufficient-unchanged nonce signatures s =
      elim (Exec-cases (count_valid_signatures env t nonce signatures 1 s)) [
        | inl (x, s₁, p) ↦ ground (arith, count-unchanged env t nonce signatures 1 s)
        | inr (m, s₁, p) ↦ ground (arith, count-unchanged env t nonce signatures 1 s)
      ]

  onchain-state :
      (id : ℕ) (s : State W)
      → env.is_primary_node ≡ true
      → (submit_transfer_onchain env id t s).1 ≡ (submit_transfer_onchain_body env id t s).1
  unfolding submit_transfer_onchain
  onchain-state id s primary = elim (Exec-cases (submit_transfer_onchain_body env id t s)) [
    | inl (e, s₁, p) ↦ ground arith
    | inr (b, s₁, p) ↦ ground arith
  ]

  abbrev IsSame : State W → State W → Type 0
  IsSame s s' = (s'.database ≡ s.database) × (s'.tasks ≡ s.tasks)

  body-IsSufficient :
      (id : ℕ) (s : State W)
      → (IsSame s (submit_transfer_onchain_body env id t s).1 → ⊥)
      → IsSufficient id s
  unfolding submit_transfer_onchain_body read_validator_nonce_by_internal_transfer_id
      read_validator_node_signatures
  body-IsSufficient id s changed =
      elim (Exec-cases (read_validator_nonce_by_internal_transfer_id id s.database)) [
        | inl (x, d, p) ↦ absurd (changed (ground arith, ground arith))
        | inr (none, d, p) ↦ absurd (changed (ground arith, ground arith))
        | inr (some nonce, d, p) ↦
            elim (Exec-cases (read_validator_node_signatures id s.database)) [
              | inl (x, d', q) ↦ absurd (changed (ground arith, ground arith))
              | inr (signatures, d', q) ↦
                  let same = sufficient-unchanged nonce signatures s in
                  elim (Exec-cases
                    (sufficient_secondary_node_signatures env t nonce signatures s)) [
                      | inl (x, s₁, r) ↦
                          absurd (changed (ground (arith, same), ground (arith, same)))
                      | inr (false, s₁, r) ↦
                          absurd (changed (ground (arith, same), ground (arith, same)))
                      | inr (true, s₁, r) ↦
                          let (n, minimum, w₁, w₂, c, m, le) =
                            sufficient-cases nonce signatures s (ground arith) in
                          record {
                            nonce = nonce;
                            signatures = signatures;
                            valid = n;
                            minimum = minimum;
                            world₁ = w₁;
                            world₂ = w₂;
                            nonce_read = ground arith;
                            signatures_read = ground arith;
                            counted = c;
                            minimum_read = m;
                            enough = le;
                          }
                    ]
            ]
      ]

  -- If a submission on a primary node changes the database or the scheduled tasks, then it has
  -- read before that the valid signatures of other nodes, stored for the transfer, reach with the
  -- node's own signature the minimum number of the destination. In all other cases the submission
  -- changes nothing but the world outside, whatever its result.
  pub submit_transfer_onchain-IsSufficient :
      (id : ℕ) (s : State W)
      → env.is_primary_node ≡ true
      → (((submit_transfer_onchain env id t s).1.database ≡ s.database)
            × ((submit_transfer_onchain env id t s).1.tasks ≡ s.tasks)
          → ⊥)
      → IsSufficient id s
  submit_transfer_onchain-IsSufficient id s primary changed =
      body-IsSufficient id s (rw (onchain-state id s primary) at changed)
