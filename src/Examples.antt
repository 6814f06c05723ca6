-- ===== src/Examples.antt =====
-- A small node: a database, transfers and clients on which the theorems are tried.
pub mod Tables
pub mod Interactors
pub mod Signatures
pub mod Submission
pub mod Messages
pub mod Nonces
pub mod Blocks
pub mod Rest
pub mod Ethereum
pub mod Clients
pub mod Startup
use validatornode.Common.{
  ℕ, ◌+◌, ◌≤◌, String, Bool, true, false, none, some, List, [], ◌∷◌, if◌then◌else◌, ◌==◌, ltb, any,
  ◌≡◌, refl, arith,
}
use validatornode.Common.Int.{pos}
use validatornode.Exec.{Fault, reply, failure, unresolvable_transfer_to_submission_error}
use validatornode.Entities.{CrossChainTransfer}
use validatornode.Database.Models.{Database, Transfer, ValidatorNode}
use validatornode.Database.Session.{Engine, violation, clash_with, clash}
use validatornode.Database.Consistency.{IsConsistent}
use validatornode.Business.Client.{Env, confirmed}
use validatornode.Business.State.{State}

abbrev sum : List ℕ → ℕ
sum [] = 0
sum (i ∷ ids) = i + sum ids

-- A key above all others.
abbrev above : List ℕ → ℕ
above ids = sum ids + 1

pub above-fresh : (n : ℕ) (ids : List ℕ) → above ids ≤ n → any (λ i. i == n) ids ≡ false
above-fresh n [] h = refl
above-fresh n (i ∷ ids) h = ground (arith, above-fresh n ids (omega arith))

abbrev pub engine : Engine
engine = record {
  next_id = above;
  next_id-fresh = λ ids. above-fresh (above ids) ids (omega arith);
}

-- A transfer from blockchain 0 to blockchain 1.
abbrev pub outgoing : CrossChainTransfer
outgoing = record {
  source_blockchain = 0;
  destination_blockchain = 1;
  source_hub_address = "hub0";
  source_transfer_id = 12;
  source_transaction_id = "tx12";
  source_block_number = 100;
  source_block_hash = "hash100";
  sender_address = "alice";
  recipient_address = "bob";
  source_token_address = "token0";
  destination_token_address = "token1";
  amount = 5;
  fee = 1;
  service_node_address = "service";
  is_reversal_transfer = false;
}

-- Its record.
abbrev pub outgoing_row : Transfer
outgoing_row = record {
  id = 7;
  source_blockchain_id = 0;
  destination_blockchain_id = 1;
  sender_address = "alice";
  recipient_address = "bob";
  source_token_contract_id = 1;
  destination_token_contract_id = 2;
  amount = 5;
  validator_nonce = 77;
  source_hub_contract_id = 1;
  destination_hub_contract_id = none;
  destination_forwarder_contract_id = none;
  task_id = some "task7";
  source_transfer_id = 12;
  destination_transfer_id = none;
  source_transaction_id = "tx12";
  destination_transaction_id = none;
  source_block_number = 100;
  destination_block_number = none;
  nonce = none;
  status_id = 0;
}

-- The record of an earlier transfer to blockchain 1, whose submission failed.
abbrev pub failed_row : Transfer
failed_row = record outgoing_row {
  id = 5;
  validator_nonce = 55;
  task_id = some "task5";
  source_transfer_id = 10;
  source_transaction_id = "tx10";
  nonce = some 3;
  status_id = 3;
}

abbrev pub database : Database
database = record {
  blockchains =
      record { id = 0; last_block_number = pos 90 }
      ∷ record { id = 1; last_block_number = pos 40 }
      ∷ [];
  hub_contracts = record { id = 1; blockchain_id = 0; address = "hub0" } ∷ [];
  forwarder_contracts = [];
  token_contracts =
      record { id = 1; blockchain_id = 0; address = "token0" }
      ∷ record { id = 2; blockchain_id = 1; address = "token1" }
      ∷ [];
  validator_nodes = [];
  validator_node_signatures = [];
  transfers = outgoing_row ∷ failed_row ∷ [];
}

-- A node whose world counts the numbers that it has drawn: the n-th is n, and the Hub accepts those
-- from 2 on.
abbrev pub env : Env ℕ
env = record {
  engine = engine;
  client = record {
    get_own_address = λ b. "node";
    get_transfer_to_submission_status =
        λ b transaction_id w. (failure unresolvable_transfer_to_submission_error, w);
    is_equal_address = λ b a a' w. (reply true, w);
    is_token_active = λ b a w. (reply true, w);
    is_valid_recipient_address = λ b a. true;
    is_valid_validator_nonce = λ b n w. (reply (ltb 1 n), w);
    read_external_token_address =
        λ b a b' w. (reply (some (if b' == 0 then "token0" else "token1")), w);
    read_minimum_validator_node_signatures = λ b w. (reply 2, w);
    read_outgoing_transfers_from_block =
        λ b n w. (reply (record { outgoing_transfers = outgoing ∷ []; to_block_number = n }), w);
    read_outgoing_transfers_in_transaction = λ b x a w. (reply (outgoing ∷ []), w);
    read_token_decimals = λ b a w. (reply 8, w);
    read_transaction_status = λ b x w. (reply confirmed, w);
    read_validator_node_addresses = λ b w. (reply ("node" ∷ "signer" ∷ []), w);
    recover_transfer_to_signer_address = λ b r w. (reply "signer", w);
    sign_transfer_to_message = λ b r w. (reply "signature", w);
    start_transfer_to_submission = λ b r dw. (reply "submission", dw);
  };
  primary_node_client = record {
    get_validator_nonce = λ b x w. (reply 77, w);
    post_transfer_signature = λ b x y w. (reply tt, w);
  };
  getrandbits = λ w. (reply w, w + 1);
  rounds = 10;
  apply_async = λ task w. (reply "new task", w);
  is_blockchain = λ b. ltb b 8;
  is_primary_node = true;
  is_active = λ b. ltb b 2;
  hub = λ b. if b == 0 then "hub0" else "hub1";
  forwarder = λ b. "forwarder";
  confirmations = λ b. 12;
  from_block = λ b. 0;
  retry_interval_in_seconds = λ name. 120;
  retry_interval_after_error_in_seconds = λ name. 300;
}

abbrev pub state : State ℕ
state = record { database = database; tasks = []; world = 0 }

pub database-IsConsistent : IsConsistent database
unfolding violation clash_with clash
database-IsConsistent = (((omega arith, tt), (tt, tt)), refl)
