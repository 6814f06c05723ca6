-- ===== src/Lib.antt =====
-- A model of the Pantos validator node, the service that carries token transfers from one
-- blockchain to another, with proofs. Paths are those of the repository, below pantos/validatornode
-- unless a name says otherwise.
--
-- The program. The monitor (monitor.py) reads the outgoing transfers of each active blockchain
-- (`detect_new_transfers`), stores each new one with a validator nonce, and schedules its
-- validation. `validate_transfer` checks the source transaction and whether the destination can
-- take the transfer; a transfer that it cannot take is reversed. On a secondary node
-- `submit_transfer_to_primary_node` signs the transfer and posts the signature, which the primary
-- node takes by `add_secondary_node_signature`; on the primary node `submit_transfer_onchain` waits
-- for enough signatures and starts the submission, which `confirm_transfer` follows up. Each step is
-- a Celery task that is retried until the interactor's method returns True.
--
-- The files.
--   Common, Exec           shared names, lists, integers; exceptions as values, state passing; in
--                          Exec/Keeps the rules for a predicate of the state that a method keeps
--   Entities/Transfer      entities.py: `CrossChainTransfer`, its equality, its eventual_* parts
--   Entities/Dict          entities.py: `to_dict`, `from_dict`
--   Entities/Equality      proofs on the equality of transfers
--   Database/Models        database/models.py, database/enums.py: each table a list of rows
--   Database/Session       sessions, transactions, generated keys, unique constraints
--   Database/Access/*      database/access.py: every function, each under its own name
--   Database/Transactions, Database/Rows, Database/Blocks, Database/Creation, Database/Nonce/*,
--   Database/Consistency/*, Database/Records
--                          proofs on database/access.py
--   Database/Kept          an interface for predicates of the database that access.py keeps
--   Database/Interleaving  the transactions of other threads and processes between two of one worker
--   Business/Client        blockchains/base.py, restclient.py: the interfaces, requests, responses
--   Business/State         the node's state; the scheduling of tasks in business/transfers.py
--   Business/Transfers/*   business/transfers.py: `TransferInteractor`, a module for each of its
--                          methods `detect_new_transfers`, `validate_transfer`,
--                          `submit_transfer_onchain` with `submit_transfer_to_primary_node`, and
--                          `confirm_transfer`, with their private methods; the tasks in Tasks
--   Business/Signatures    business/signatures.py: `SignatureInteractor`
--   Business/Kept/*        an interface for predicates of the state that the interactors keep, and
--                          proofs for each interactor and for the reachable states
--   Business/Preserved     such predicates: those of the database that access.py keeps
--   Business/Queue         another one: what each task in the queue is
--   Business/Node          the steps of the monitor, the workers and the API, and reachable states
--   Blockchains/Ethereum   blockchains/ethereum.py: the message that the nodes sign, its signing,
--                          and the recovery of a signer, with web3 as a parameter; in Nodes the
--                          methods that read a contract, in Signers the order of the signatures and
--                          the valid addresses, in Blocks the ranges of blocks that are read for new
--                          transfers, in Logs the transfers of event logs, in Submission the nonce
--                          of a submission and its start, in Start the whole of
--                          `start_transfer_to_submission`
--   Blockchains/Status     blockchains/base.py: `get_transfer_to_submission_status`
--   Blockchains/Clients    the interface `BlockchainClient` as blockchains/ethereum.py implements it,
--                          and the node with these clients
--   Rest/Client            restclient.py, with the package requests as a parameter
--   Rest/Server            restapi.py: schemas and resources, with the fields of marshmallow as
--                          parameters
--   Rest/Exchange          a secondary node's client against a primary node's API
--   Startup/*              blockchains/factory.py; the table of blockchains in database/__init__.py;
--                          the loop of monitor.py
--   Examples/*             a small node on which each theorem is tried
--
-- How code becomes a model. A method is a function from the state to a result and the next state:
-- an exception is a value, and what was written before it stays written, unless a database
-- transaction rolls it back. The state of a node is its database, the tasks handed to Celery, and
-- the world outside, on which blockchain clients, the primary node, the random numbers and the task
-- queue act. These are fields of the record `Env`, arguments of the definitions that use them; so
-- are the configuration and the choice of new keys by the database system, of which is assumed that
-- a new key is not in use. The client's `start_transfer_to_submission` changes the database too. In
-- Blockchains/Clients the clients are those of blockchains/ethereum.py, and what they call of web3 and
-- pantos.common is a record of functions. `read_from` fails for a block below 0, which
-- `detect_new_transfers` never asks for, since it starts at a configured block or above. `int(x, 16)`
-- is modelled for texts without spaces, signs and underscores.
--   An SQL statement reads the tables as they were before it. NULL is `none`, equals nothing, and is
-- left out by min and max. A statement that writes a column with a unique constraint is refused
-- where the table would violate one; where it would violate several, the order of `clash` decides
-- which one is reported. The order of the rows of a select is not specified in SQL: a new row stands
-- first in the model.
--   A blockchain is known by the value of its member in the enumeration `Blockchain`, which belongs
-- to another package; whether a number is such a value is a parameter. A UUID is its text.
--   The loop that draws a validator nonce has no bound in the code. The model gives it rounds, and
-- an exception of its own where they run out; more rounds than rejected numbers are enough.
-- `range` is given as many rounds as the number of the latest block, enough for a step that is not 0.
-- Everything else is structural recursion over a list.
--
-- What is not modelled: log messages, time stamps, the names of blockchains and statuses, lengths
-- of columns, configuration.py, the decryption of a client's key and the connections to its nodes,
-- the subclasses of `EthereumClient` (they differ in the blockchain and the error class, parameters of
-- the client), migrations, and the start of the processes. HTTP, web3, pantos.common, marshmallow,
-- flask and requests are parameters.
-- In Business/Node the methods run one after another. Two that run at the same time interleave
-- between their database transactions; of this, Database/Interleaving has what happens between the
-- two transactions in which `__get_nonce` assigns a nonce and reads it. A transaction is taken as
-- atomic. A task stays scheduled after a run, so that it may run again at any time, whatever its
-- outcome.
pub mod Common
pub mod Exec
pub mod Entities
pub mod Database
pub mod Business
pub mod Blockchains
pub mod Rest
pub mod Startup
pub mod Examples
