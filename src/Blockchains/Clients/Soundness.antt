-- ===== src/Blockchains/Clients/Soundness.antt =====
-- The node with the clients of blockchains/ethereum.py.
use validatornode.Entities.{Blockchain}
use validatornode.Database.Models.{Database, Transfer}
use validatornode.Database.Records.{HasRecord}
use validatornode.Database.Kept.{IsPreserved, HasRecord-IsPreserved}
use validatornode.Business.Client.{Env}
use validatornode.Business.State.{State}
use validatornode.Business.Preserved.{IsSoundClient}
use validatornode.Business.Node.{Reachable}
use validatornode.Business.Node.Reachability.{Reachable-IsPreserved}
use validatornode.Blockchains.Ethereum.Start.Kept.{Keeps-start_transfer_to_submission}
use validatornode.Blockchains.Clients.{EthereumNodes, ethereum_clients}

module _ {W : Type 0} (env : Env W) (nodes : Blockchain → EthereumNodes W) where
  -- `env` with the clients of `nodes`
  abbrev pub with_clients : Env W
  with_clients = record env { client = ethereum_clients env.is_blockchain nodes }

  ethereum_clients-IsSound :
      (Q : Database → Type 0) (preserved : IsPreserved Q) → IsSoundClient Q preserved with_clients
  ethereum_clients-IsSound Q preserved b r d w h =
      (Keeps-start_transfer_to_submission preserved (nodes b).submission
          (nodes b).get_transaction_count (nodes b).call_verify_transfer_to
          (nodes b).start_transaction_submission r).after
        (d, w) h

  -- A node that has the clients of blockchains/ethereum.py never loses the record of a transfer, and
  -- never changes in it the key, the source blockchain, the source transaction, the sender, the
  -- amount, the source token or the source Hub: by any sequence of steps of the monitor, the workers
  -- and the API, on every branch and beside every exception, whatever web3, pantos.common, the
  -- primary node and the blockchain nodes answer.
  pub Reachable-HasRecord-with_clients :
      (row : Transfer) (s s' : State W)
      → HasRecord row s.database
      → Reachable with_clients s s'
      → HasRecord row s'.database
  Reachable-HasRecord-with_clients row =
      Reachable-IsPreserved (HasRecord row) (HasRecord-IsPreserved row) with_clients
        (ethereum_clients-IsSound (HasRecord row) (HasRecord-IsPreserved row))
