-- ===== src/Examples/Nonces.antt =====
-- The submission of the transfer of the small node, blockchains/ethereum.py.
use validatornode.Common.{arith, ℕ, ◌+◌, none, some, [], ◌∷◌, ◌≡◌, inl, refl}
use validatornode.Exec.{Call, reply, ok, err, fault, other_fault}
use validatornode.Database.Access.Transfers.{read_transfer_nonce}
use validatornode.Database.Access.Nonce.{update_transfer_nonce, update_nonces}
use validatornode.Database.Session.{check_constraints, violation, clash_with, clash}
use validatornode.Blockchains.Ethereum.Submission.{
  SubmissionState, SubmissionConfig, OnChainTransferToRequest, TransactionSubmissionStartRequest,
  SubmissionReply, submitted, transaction_nonce_too_low, get_nonce, submission_request,
  start_submission, submit_transfer_to_request,
}
use validatornode.Blockchains.Ethereum.Submission.Nonces.{
  submit_transfer_to_request-stored, submit_transfer_to_request-resets,
}
use validatornode.Database.Models.{Database}
use validatornode.Database.Consistency.{IsConsistent}
use validatornode.Database.Access.Updates.{update_transfer_task_id}
use validatornode.Database.Access.Nonce.{
  count_failed_nonces, minimum_failed_nonce, maximum_transfer_nonce, nonce_after,
}
use validatornode.Database.Interleaving.{Other, Interleaved}
use validatornode.Database.Interleaving.Nonces.{read_transfer_nonce-Interleaved}
use validatornode.Examples.{engine, database-IsConsistent, database, outgoing_row, failed_row}

abbrev pub config : SubmissionConfig
config = record {
  blockchain = 1;
  hub = "hub1";
  min_adaptable_fee_per_gas = 2;
  max_total_fee_per_gas = some 0;
  adaptable_fee_increase_factor = "1.1";
  blocks_until_resubmission = 4;
}

abbrev pub count : Call ℕ ℕ
count w = (reply 2, w)

abbrev pub accepts : TransactionSubmissionStartRequest → ℕ → SubmissionReply × ℕ
accepts request w = (submitted "submission", w + request.nonce)

abbrev refuses : TransactionSubmissionStartRequest → ℕ → SubmissionReply × ℕ
refuses request w = (transaction_nonce_too_low, w)

abbrev on_chain : OnChainTransferToRequest
on_chain = record {
  source_blockchain_id = 0;
  source_transfer_id = 12;
  source_transaction_id = "tx12";
  sender = "alice";
  recipient = "bob";
  source_token = "token0";
  destination_token = "token1";
  amount = 5;
  nonce = 77;
}

abbrev pub before : SubmissionState ℕ
before = (database, 0)

abbrev after : SubmissionState ℕ
after = (
  record database {
    transfers =
        record outgoing_row { nonce = some 3; status_id = 100 }
        ∷ record failed_row { nonce = none }
        ∷ [];
  },
  0,
)

get_nonce-after : get_nonce config count refuses 7 before ≡ (ok 3, after)
unfolding get_nonce update_transfer_nonce update_nonces read_transfer_nonce check_constraints
    violation clash_with clash
get_nonce-after = refl

submit_transfer_to_request-after :
    submit_transfer_to_request config count accepts 7 on_chain [] [] before
    ≡ (ok "submission", (after.0, 3))
unfolding submit_transfer_to_request start_submission get_nonce update_transfer_nonce update_nonces
    read_transfer_nonce check_constraints violation clash_with clash
submit_transfer_to_request-after = refl

submit_transfer_to_request-stored_example :
    (n : ℕ) × (w : ℕ) × (read_transfer_nonce 7 after.0 ≡ (ok (some n), after.0))
    × (accepts (submission_request config count accepts on_chain [] [] n) w
        ≡ (submitted "submission", 3))
submit_transfer_to_request-stored_example =
    submit_transfer_to_request-stored config count accepts 7 on_chain [] [] before "submission"
      (after.0, 3) submit_transfer_to_request-after

submit_transfer_to_request-resets_example :
    let out = submit_transfer_to_request config count refuses 7 on_chain [] [] before in
    (out.0 ≡ err (fault other_fault)) × ((read_transfer_nonce 7 out.1.0).0 ≡ ok none)
submit_transfer_to_request-resets_example =
    submit_transfer_to_request-resets config count refuses 7 on_chain [] [] before 3 after
      (record outgoing_row { nonce = some 3; status_id = 100 }) get_nonce-after refl (inl refl)

-- Transfer 7 takes over the nonce of the failed transfer 5, which then gets a new one.
abbrev raced : Database
raced =
    (update_transfer_nonce 5 1 2
      (update_transfer_task_id 5 "retry" (update_transfer_nonce 7 1 2 database).1).1).1

read_transfer_nonce-Interleaved_example :
    ((read_transfer_nonce 7 raced).0 ≡ ok (some 3)) × IsConsistent raced
unfolding update_transfer_nonce update_nonces check_constraints violation clash_with clash
    count_failed_nonces minimum_failed_nonce maximum_transfer_nonce nonce_after
read_transfer_nonce-Interleaved_example =
    read_transfer_nonce-Interleaved engine 7 1 2 outgoing_row database raced database-IsConsistent
      refl refl
      (Interleaved.then (Interleaved.then Interleaved.start (Other.task_id 5 "retry" (omega arith)))
        (Other.nonce 5 1 2 (omega arith)))
