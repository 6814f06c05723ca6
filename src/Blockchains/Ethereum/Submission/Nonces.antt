-- ===== src/Blockchains/Ethereum/Submission/Nonces.antt =====
-- blockchains/ethereum.py: the submission of a transaction and the nonces in the database.
use validatornode.Common.{
  ℕ, String, List, none, some, ◌≡◌, refl, ◌⊎◌, inl, inr, arith, Option-cases,
}
use validatornode.Exec.{
  Result, Call, Exec-cases, Call-cases, ok, err, pure, ◌>>=◌, fault, other_fault,
}
use validatornode.Entities.{BlockchainAddress}
use validatornode.Database.Models.{Database, Transfer}
use validatornode.Database.Access.Transfers.{join_null, read_transfer_nonce}
use validatornode.Database.Access.Updates.{reset_transfer_nonce}
use validatornode.Database.Access.Nonce.{update_transfer_nonce}
use validatornode.Database.Rows.{HasRow, reset_transfer_nonce-HasRow}
use validatornode.Blockchains.Ethereum.Submission.{
  SubmissionState, SubmissionConfig, OnChainTransferToRequest, TransactionSubmissionStartRequest,
  SubmissionReply, submitted, transaction_nonce_too_low, transaction_underpriced, failed, get_nonce,
  submission_request, on_submission, start_submission, submit_transfer_to_request,
}

value-state :
    {A B : Type 0} (r : Result A) (f : A → B) (d : Database)
    → (((λ (x : Database). (r, x)) >>= λ a. pure (f a)) d).1 ≡ d
value-state (ok a) f d = refl
value-state (err e) f d = refl

read-state : (id : ℕ) (d : Database) → (read_transfer_nonce id d).1 ≡ d
unfolding read_transfer_nonce
read-state id d = value-state _ join_null d

module _ {W : Type 0} (config : SubmissionConfig) (count : Call W ℕ)
    (start : TransactionSubmissionStartRequest → W → SubmissionReply × W) (id : ℕ) where
  on_submission-ok :
      (r : SubmissionReply) (s s' : SubmissionState W) (x : String)
      → on_submission config count start id r s ≡ (ok x, s')
      → (r ≡ submitted x) × (s ≡ s')
  on_submission-ok (submitted y) s s' x e = (ground arith, ground arith)
  on_submission-ok transaction_nonce_too_low s s' x e =
      elim (Exec-cases (reset_transfer_nonce id s.0)) [
        | inl (f, d, p) ↦ absurd (ground arith)
        | inr (u, d, p) ↦ absurd (ground arith)
      ]
  on_submission-ok transaction_underpriced s s' x e =
      elim (Exec-cases (reset_transfer_nonce id s.0)) [
        | inl (f, d, p) ↦ absurd (ground arith)
        | inr (u, d, p) ↦ absurd (ground arith)
      ]
  on_submission-ok (failed f) s s' x e = absurd (ground arith)

  module _ (request : OnChainTransferToRequest) (addresses : List BlockchainAddress)
      (signatures : List String) (s : SubmissionState W) where
    get_nonce-stored :
        (n : ℕ) (s' : SubmissionState W)
        → get_nonce config count start id s ≡ (ok n, s')
        → read_transfer_nonce id s'.0 ≡ (ok (some n), s'.0)
    unfolding get_nonce
    get_nonce-stored n s' e = elim (Call-cases (count s.1)) [
      | inl (f, w, p) ↦ absurd (ground arith)
      | inr (c, w, p) ↦ elim (Exec-cases (update_transfer_nonce id config.blockchain c s.0)) [
        | inl (f, d, q) ↦ absurd (ground arith)
        | inr (u, d, q) ↦ elim (Exec-cases (read_transfer_nonce id d)) [
          | inl (f, d', r) ↦ absurd (ground arith)
          | inr (o, d', r) ↦ elim (Option-cases o) [
            | inl z ↦ absurd (ground arith)
            | inr (k, z) ↦ ground (arith, read-state id d)
          ]
        ]
      ]
    ]

    -- Where a submission returns an ID, the transaction was started with the nonce that the
    -- database has for the transfer.
    pub submit_transfer_to_request-stored :
        (x : String) (s' : SubmissionState W)
        → submit_transfer_to_request config count start id request addresses signatures s
          ≡ (ok x, s')
        → (n : ℕ) × (w : W) × (read_transfer_nonce id s'.0 ≡ (ok (some n), s'.0))
          × (start (submission_request config count start request addresses signatures n) w
              ≡ (submitted x, s'.1))
    unfolding submit_transfer_to_request start_submission
    submit_transfer_to_request-stored x s' e =
        elim (Exec-cases (get_nonce config count start id s)) [
          | inl (f, s1, p) ↦ absurd (ground arith)
          | inr (n, s1, p) ↦
              let q = submission_request config count start request addresses signatures n in
              let k =
                on_submission-ok (start q s1.1).0 (s1.0, (start q s1.1).1) s' x (ground arith) in
              (n, s1.1, ground (arith, get_nonce-stored n s1 p, k.1), ground (arith, k.0, k.1))
        ]

    -- Where the transaction is refused for a nonce that is too low or a fee that is too small, an
    -- exception is raised, and the database has no nonce for the transfer any more; the transfer has
    -- one row.
    pub submit_transfer_to_request-resets :
        (n : ℕ) (s1 : SubmissionState W) (row : Transfer)
        → get_nonce config count start id s ≡ (ok n, s1)
        → HasRow id row s1.0
        → ((start (submission_request config count start request addresses signatures n) s1.1).0
            ≡ transaction_nonce_too_low)
          ⊎ ((start (submission_request config count start request addresses signatures n) s1.1).0
              ≡ transaction_underpriced)
        → let out =
            submit_transfer_to_request config count start id request addresses signatures s in
          (out.0 ≡ err (fault other_fault)) × ((read_transfer_nonce id out.1.0).0 ≡ ok none)
    unfolding submit_transfer_to_request start_submission read_transfer_nonce
    submit_transfer_to_request-resets n s1 row p h (inl r) = (
      ground (arith, reset_transfer_nonce-HasRow id row s1.0 h),
      ground (arith, reset_transfer_nonce-HasRow id row s1.0 h),
    )
    submit_transfer_to_request-resets n s1 row p h (inr r) = (
      ground (arith, reset_transfer_nonce-HasRow id row s1.0 h),
      ground (arith, reset_transfer_nonce-HasRow id row s1.0 h),
    )
