-- ===== src/Blockchains/Status/Complete.antt =====
-- blockchains/base.py: what a response of `get_transfer_to_submission_status` holds.
use validatornode.Common.{
  ℕ, String, Bool, true, false, Option, none, some, List, [], ◌∷◌, ◌≡◌, ◌⊎◌, refl, arith, inl, inr,
  Bool-cases, Option-cases,
}
use validatornode.Exec.{Call, ok, reply, Exec-cases, Call-cases, Result-cases}
use validatornode.Business.Client.{
  TransactionStatus, unincluded, unconfirmed, confirmed, reverted,
  TransferToSubmissionStatusResponse,
}
use validatornode.Blockchains.Status.{
  StatusReply, status, blockchain_utilities_error, status_fault, SubmissionStatus, Receipt,
  TransactionData, is_final, is_confirmed, first_id, read_transfer_to_transaction_data,
  status_response, on_status_reply, get_transfer_to_submission_status,
}

-- What a response says of a transaction whose ID is `x` and whose receipt is `receipt`.
abbrev pub Describes :
    SubmissionStatus → String → Receipt → TransferToSubmissionStatusResponse → Type 0
Describes s x receipt r =
    (r.transaction_submission_completed ≡ true)
    × (s.transaction_id ≡ some x)
    × (r.transaction_id ≡ some x)
    × (r.block_number ≡ some receipt.block_number)
    × (r.transaction_status ≡ s.transaction_status)
    × (((s.transaction_status ≡ some reverted) × (r.destination_transfer_id ≡ none))
        ⊎ ((s.transaction_status ≡ some confirmed)
            × ((d : ℕ) × (ds : List ℕ) × (receipt.destination_transfer_ids ≡ d ∷ ds)
                × (r.destination_transfer_id ≡ some d))))

final-cases :
    (o : Option TransactionStatus) → is_final o ≡ true → (o ≡ some reverted) ⊎ (o ≡ some confirmed)
final-cases (some reverted) h = inl refl
final-cases (some confirmed) h = inr refl
final-cases (some unincluded) h = cc
final-cases (some unconfirmed) h = cc
final-cases none h = cc

first_id-cases :
    (ids : List ℕ) (o : Option ℕ)
    → first_id true ids ≡ ok o
    → (n : ℕ) × (ns : List ℕ) × (ids ≡ n ∷ ns) × (o ≡ some n)
first_id-cases [] o e = cc
first_id-cases (n ∷ ns) o e = (n, ns, refl, cc)

module _ {W : Type 0} (get_status : String → W → StatusReply × W)
    (get_receipt : String → Call W Receipt) where
  -- A response about a submission that goes on and holds nothing else, or about the transaction
  -- of a completed one, of which the receipt has been read by the transaction's ID.
  abbrev pub IsComplete : SubmissionStatus → W → TransferToSubmissionStatusResponse → W → Type 0
  IsComplete s w r w' =
      ((s.transaction_submission_completed ≡ false)
        × (r.transaction_submission_completed ≡ false)
        × (r.transaction_status ≡ none)
        × (r.transaction_id ≡ none)
        × (r.block_number ≡ none)
        × (r.destination_transfer_id ≡ none))
      ⊎ ((s.transaction_submission_completed ≡ true)
          × ((x : String) × (receipt : Receipt) × (get_receipt x w ≡ (reply receipt, w'))
              × Describes s x receipt r))

  read_data-reply :
      (x : String) (b : Bool) (w w' : W) (d : TransactionData)
      → read_transfer_to_transaction_data get_status get_receipt x b w ≡ (ok d, w')
      → (receipt : Receipt) × (get_receipt x w ≡ (reply receipt, w'))
        × (d.block_number ≡ receipt.block_number)
        × (first_id b receipt.destination_transfer_ids ≡ ok d.destination_transfer_id)
  unfolding read_transfer_to_transaction_data
  read_data-reply x b w w' d e = elim (Call-cases (get_receipt x w)) [
    | inl (f, w1, p) ↦ absurd (ground (arith, e, p))
    | inr (receipt, w1, p) ↦ elim (Result-cases (first_id b receipt.destination_transfer_ids)) [
      | inl (f, q) ↦ absurd (ground (arith, e, p, q))
      | inr (n, q) ↦
          (receipt, ground (arith, e, p, q), ground (arith, e, p, q), ground (arith, e, p, q))
    ]
  ]

  status_response-IsComplete :
      (s : SubmissionStatus) (w w' : W) (r : TransferToSubmissionStatusResponse)
      → status_response get_status get_receipt s w ≡ (ok r, w')
      → IsComplete s w r w'
  unfolding status_response
  status_response-IsComplete s w w' r e = elim (Bool-cases s.transaction_submission_completed) [
    | inr going ↦ inl (
      going,
      ground (arith, e, going),
      ground (arith, e, going),
      ground (arith, e, going),
      ground (arith, e, going),
      ground (arith, e, going),
    )
    | inl done ↦ elim (Bool-cases (is_final s.transaction_status)) [
      | inr bad ↦ absurd (ground (arith, e, done, bad))
      | inl final ↦ elim (Option-cases s.transaction_id) [
        | inl missing ↦ absurd (ground (arith, e, done, final, missing))
        | inr (x, there) ↦
            elim (Exec-cases (
              read_transfer_to_transaction_data get_status get_receipt x
                (is_confirmed s.transaction_status) w)) [
                  | inl (f, w1, q) ↦ absurd (ground (arith, e, done, final, there, q))
                  | inr (d, w1, q) ↦
                      let (receipt, read, block, id) =
                        read_data-reply x (is_confirmed s.transaction_status) w w1 d q in
                      inr (
                        done,
                        (
                          x,
                          receipt,
                          ground (arith, e, done, final, there, q, read),
                          (
                            ground (arith, e, done, final, there, q),
                            there,
                            ground (arith, e, done, final, there, q),
                            ground (arith, e, done, final, there, q, block),
                            ground (arith, e, done, final, there, q),
                            elim (final-cases s.transaction_status final) [
                              | inl z ↦ inl (z, ground (arith, e, done, final, there, q, z, id))
                              | inr z ↦
                                  let (n, ns, p, h) =
                                    first_id-cases receipt.destination_transfer_ids
                                      d.destination_transfer_id (ground (arith, id, z)) in
                                  inr
                                    (z, (n, ns, p, ground (arith, e, done, final, there, q, z, h)))
                            ],
                          ),
                        ),
                      )
                ]
      ]
    ]
  ]

  on_status_reply-IsComplete :
      (answer : StatusReply) (w w' : W) (r : TransferToSubmissionStatusResponse)
      → on_status_reply get_status get_receipt answer w ≡ (ok r, w')
      → (s : SubmissionStatus) × (answer ≡ status s) × IsComplete s w r w'
  on_status_reply-IsComplete (status s) w w' r e = (s, refl, status_response-IsComplete s w w' r e)
  on_status_reply-IsComplete blockchain_utilities_error w w' r e = absurd (ground (arith, e))
  on_status_reply-IsComplete (status_fault f) w w' r e = absurd (ground (arith, e))

  -- If a response is returned, then the status of the submission has been read. Where the
  -- submission goes on, the response says so and holds nothing else. Where it is completed, the
  -- response holds the status and the ID of its transaction, the block of the receipt that has been
  -- read by this ID, and no transfer ID if the transaction is reverted; otherwise the transaction
  -- is confirmed, and the response holds the first transfer ID in the events of the receipt.
  pub get_transfer_to_submission_status-IsComplete :
      (x : String) (w w' : W) (r : TransferToSubmissionStatusResponse)
      → get_transfer_to_submission_status get_status get_receipt x w ≡ (ok r, w')
      → (s : SubmissionStatus) × (w₁ : W) × (get_status x w ≡ (status s, w₁)) × IsComplete s w₁ r w'
  unfolding get_transfer_to_submission_status
  get_transfer_to_submission_status-IsComplete x w w' r e =
      let (s, p, h) = on_status_reply-IsComplete (get_status x w).0 (get_status x w).1 w' r e in
      (s, (get_status x w).1, ground (arith, p), h)
