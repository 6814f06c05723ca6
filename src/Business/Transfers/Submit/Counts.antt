-- ===== src/Business/Transfers/Submit/Counts.antt =====
-- What `__sufficient_secondary_node_signatures` counts.
use validatornode.Common.{
  ℕ, suc, ◌+◌, String, true, false, some, [], ◌∷◌, str_eq, if◌then◌else◌, ◌≡◌, refl, arith, inl,
  inr, Bool-cases,
}
use validatornode.Exec.{pure, Result, ok, Fault, reply, failure, Exec-cases, Call-cases}
use validatornode.Entities.{CrossChainTransfer, eventual_destination_blockchain}
use validatornode.Database.Access.Signatures.{Signatures}
use validatornode.Business.Client.{Env}
use validatornode.Business.State.{State}
use validatornode.Business.Transfers.Submit.{
  is_client_error, recovery_request, on_recovery, recover_signer, count_valid_signatures,
}

module _ {W : Type 0} (env : Env W) (t : CrossChainTransfer) (nonce : ℕ) where
  abbrev pub destination : ℕ
  destination = eventual_destination_blockchain t

  -- From one world to another, `n` signatures of other nodes are valid: the signer that the client
  -- recovers is the node under whose address the signature is stored.
  pub data Counts : Signatures → W → ℕ → W → Type 0 where
    no_more : {w : W} → Counts [] w 0 w
    own :
        {a x : String} {rest : Signatures} {n : ℕ} {w w' : W}
        → str_eq a (env.client.get_own_address destination) ≡ true
        → Counts rest w n w'
        → Counts ((a, x) ∷ rest) w n w'
    invalid :
        {a x : String} {rest : Signatures} {n : ℕ} {w w₁ w' : W} {f : Fault}
        → str_eq a (env.client.get_own_address destination) ≡ false
        → env.client.recover_transfer_to_signer_address destination (recovery_request t nonce x) w
          ≡ (failure f, w₁)
        → is_client_error f ≡ true
        → Counts rest w₁ n w'
        → Counts ((a, x) ∷ rest) w n w'
    valid :
        {a x r : String} {rest : Signatures} {n : ℕ} {w w₁ w₂ w' : W}
        → str_eq a (env.client.get_own_address destination) ≡ false
        → env.client.recover_transfer_to_signer_address destination (recovery_request t nonce x) w
          ≡ (reply r, w₁)
        → env.client.is_equal_address destination (some a) r w₁ ≡ (reply true, w₂)
        → Counts rest w₂ n w'
        → Counts ((a, x) ∷ rest) w (suc n) w'

  pub count-Counts :
      (signatures : Signatures) (k m : ℕ) (s : State W)
      → (count_valid_signatures env t nonce signatures k s).0 ≡ ok m
      → (n : ℕ) × (m ≡ k + n)
        × Counts signatures s.world n (count_valid_signatures env t nonce signatures k s).1.world
  unfolding count_valid_signatures recover_signer
  count-Counts [] k m s e = (0, ground arith, no_more)
  count-Counts ((a, x) ∷ rest) k m s e =
      elim (Bool-cases (str_eq a (env.client.get_own_address destination))) [
        | inl own_address ↦
            let (n, sum, c) = count-Counts rest k m s (ground arith) in
            (n, sum, rw own_address (own own_address c))
        | inr other ↦
            elim (Call-cases (
              env.client.recover_transfer_to_signer_address destination (recovery_request t nonce x)
                s.world)) [
                  | inl (f, w₁, p) ↦ elim (Bool-cases (is_client_error f)) [
                    | inl client ↦
                        let next : count_valid_signatures env t nonce ((a, x) ∷ rest) k s
                            ≡ count_valid_signatures env t nonce rest k (record s { world = w₁ }) =
                          ground arith in
                        let (n, sum, c) =
                          count-Counts rest k m (record s { world = w₁ }) (ground (arith, next)) in
                        (n, sum, rw next (invalid other p client c))
                    | inr foreign ↦ absurd (ground arith)
                  ]
                  | inr (r, w₁, p) ↦
                      elim (Call-cases (env.client.is_equal_address destination (some a) r w₁)) [
                        | inl (f, w₂, q) ↦ absurd (ground arith)
                        | inr (false, w₂, q) ↦ absurd (ground arith)
                        | inr (true, w₂, q) ↦
                            let next : count_valid_signatures env t nonce ((a, x) ∷ rest) k s
                                ≡ count_valid_signatures env t nonce rest (k + 1)
                                    (record s { world = w₂ }) =
                              ground arith in
                            let (n, sum, c) =
                              count-Counts rest (k + 1) m (record s { world = w₂ })
                                (ground (arith, next)) in
                            (suc n, ground arith, rw next (valid other p q c))
                      ]
                ]
      ]

  -- One round of the loop.
  abbrev count_round : String → String → ℕ → State W → Result ℕ × State W
  count_round a x k = if str_eq a (env.client.get_own_address destination) then pure k else (λ s.
      let (r, s') = recover_signer env t nonce x s in on_recovery env destination a k r s')

  recovery-unchanged :
      (a x : String) (k : ℕ) (s : State W)
      → ((count_round a x k s).1.database ≡ s.database) × ((count_round a x k s).1.tasks ≡ s.tasks)
  unfolding recover_signer
  recovery-unchanged a x k s =
      elim (Call-cases (
        env.client.recover_transfer_to_signer_address destination (recovery_request t nonce x)
          s.world)) [
            | inl (f, w₁, p) ↦ (ground arith, ground arith)
            | inr (r, w₁, p) ↦ (ground arith, ground arith)
          ]

  -- The count changes nothing but the world outside.
  pub count-unchanged :
      (signatures : Signatures) (k : ℕ) (s : State W)
      → ((count_valid_signatures env t nonce signatures k s).1.database ≡ s.database)
        × ((count_valid_signatures env t nonce signatures k s).1.tasks ≡ s.tasks)
  unfolding count_valid_signatures
  count-unchanged [] k s = (refl, refl)
  count-unchanged ((a, x) ∷ rest) k s =
      let first = recovery-unchanged a x k s in
      elim (Exec-cases (count_round a x k s)) [
        | inl (e, s₁, p) ↦ (ground (arith, first), ground (arith, first))
        | inr (m, s₁, p) ↦ (
          ground (arith, first, count-unchanged rest m s₁),
          ground (arith, first, count-unchanged rest m s₁),
        )
      ]
