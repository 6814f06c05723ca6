-- ===== src/Blockchains/Ethereum/Nodes.antt =====
-- blockchains/ethereum.py: the methods that read from the contracts through the blockchain nodes. A
-- contract's function is a parameter, with what it returns before the `assert` statements.
use validatornode.Common.{ℕ, String, Bool, Option, none, some, List, [], ◌∷◌, if◌then◌else◌, ltb}
use validatornode.Exec.{
  Exec, Exception, Result, ok, err, fault, assertion_error, blockchain_client_error,
  results_not_matching_error, Call, to_result, raise, pure, lift, assert, catch, ◌>>=◌, ◌>>◌,
}
use validatornode.Entities.{Blockchain, BlockchainAddress}

-- `except ResultsNotMatchingError: raise`, `except Exception: raise self._create_error(…)`
abbrev pub node_error : Exception → Exception
node_error (fault results_not_matching_error) = fault results_not_matching_error
node_error _ = fault blockchain_client_error

-- A value that a contract returns; its integers are unsigned.
pub data ContractValue : Type 0 where
  boolean : Bool → ContractValue
  integer : ℕ → ContractValue
  text : String → ContractValue

abbrev pub token_active_of : List ContractValue → Result Bool
token_active_of (boolean active ∷ []) = ok active
token_active_of _ = err assertion_error

abbrev pub external_token_of : List ContractValue → Result (Option BlockchainAddress)
external_token_of (boolean active ∷ text address ∷ []) = ok (if active then some address else none)
external_token_of _ = err assertion_error

-- In Python a bool is an int.
abbrev pub decimals_of : ContractValue → Result ℕ
decimals_of (integer n) = ok n
decimals_of (boolean b) = ok (if b then 1 else 0)
decimals_of (text t) = err assertion_error

module _ {W : Type 0} where
  abbrev pub on_nodes : {A : Type 0} → Call W A → Exec W A
  on_nodes m w = let (r, w') = m w in (to_result r, w')

  abbrev pub or_node_error : {A : Type 0} → Exec W A → Exec W A
  or_node_error m = catch m (λ e. raise (node_error e))

  unfoldable pub is_token_active :
      (BlockchainAddress → Call W (List ContractValue)) → BlockchainAddress → Exec W Bool
  is_token_active get_token_record token_address = or_node_error (do
    token_record ← on_nodes (get_token_record token_address)
    lift (token_active_of token_record))

  unfoldable pub is_valid_validator_nonce : (ℕ → Call W Bool) → ℕ → Exec W Bool
  is_valid_validator_nonce is_valid_validator_node_nonce nonce =
      or_node_error (on_nodes (is_valid_validator_node_nonce nonce))

  unfoldable pub read_external_token_address :
      (BlockchainAddress → Blockchain → Call W (List ContractValue))
      → BlockchainAddress
      → Blockchain
      → Exec W (Option BlockchainAddress)
  read_external_token_address get_external_token_record token_address external_blockchain =
      or_node_error (do
        record_ ← on_nodes (get_external_token_record token_address external_blockchain)
        lift (external_token_of record_))

  unfoldable pub read_minimum_validator_node_signatures : Call W ℕ → Exec W ℕ
  read_minimum_validator_node_signatures get_minimum_validator_node_signatures = or_node_error (do
    minimum_signatures ← on_nodes get_minimum_validator_node_signatures
    assert (ltb 0 minimum_signatures)
    pure minimum_signatures)

  unfoldable pub read_token_decimals :
      (BlockchainAddress → Call W ContractValue) → BlockchainAddress → Exec W ℕ
  read_token_decimals get_decimals token_address =
      or_node_error
        (do decimals ← on_nodes (get_decimals token_address); lift (decimals_of decimals))

  unfoldable pub read_validator_node_addresses :
      Call W (List BlockchainAddress) → Exec W (List BlockchainAddress)
  read_validator_node_addresses get_validator_nodes = or_node_error (on_nodes get_validator_nodes)
