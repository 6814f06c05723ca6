-- ===== src/Entities/Dict.antt =====
-- entities.py: `CrossChainTransfer.to_dict` and `from_dict`.
pub mod State
use validatornode.Common.{
  ℕ, String, Bool, true, Option, none, some, List, [], ◌∷◌, if◌then◌else◌, str_eq, ◌≡◌,
}
use validatornode.Exec.{Exec, ok, pure, raise, ◌>>=◌, assertion_error, key_error, value_error}
use validatornode.Entities.Transfer.{CrossChainTransfer, Blockchain}

-- The values of a transfer dictionary. In Python a bool is an int too.
pub data Value : Type 0 where
  int : ℕ → Value
  str : String → Value
  bool : Bool → Value

abbrev pub CrossChainTransferDict : Type 0
CrossChainTransferDict = List (String × Value)

unfoldable pub to_dict : CrossChainTransfer → CrossChainTransferDict
to_dict t =
    ("source_blockchain_id", int t.source_blockchain)
    ∷ ("destination_blockchain_id", int t.destination_blockchain)
    ∷ ("source_hub_address", str t.source_hub_address)
    ∷ ("source_transfer_id", int t.source_transfer_id)
    ∷ ("source_transaction_id", str t.source_transaction_id)
    ∷ ("source_block_number", int t.source_block_number)
    ∷ ("source_block_hash", str t.source_block_hash)
    ∷ ("sender_address", str t.sender_address)
    ∷ ("recipient_address", str t.recipient_address)
    ∷ ("source_token_address", str t.source_token_address)
    ∷ ("destination_token_address", str t.destination_token_address)
    ∷ ("amount", int t.amount)
    ∷ ("fee", int t.fee)
    ∷ ("service_node_address", str t.service_node_address)
    ∷ ("is_reversal_transfer", bool t.is_reversal_transfer)
    ∷ []

-- `dict_[key]`
abbrev lookup : String → CrossChainTransferDict → Option Value
lookup key [] = none
lookup key ((k, v) ∷ d) = let rest = lookup key d in if str_eq k key then some v else rest

module _ {S : Type 0} where
  -- `x = dict_[key]` and `assert isinstance(x, int)`
  abbrev pub get_int : CrossChainTransferDict → String → Exec S ℕ
  get_int d key = elim (lookup key d) [
    | none ↦ raise key_error
    | some (int n) ↦ pure n
    | some (bool b) ↦ pure (if b then 1 else 0)
    | some (str _) ↦ raise assertion_error
  ]

  abbrev pub get_str : CrossChainTransferDict → String → Exec S String
  get_str d key = elim (lookup key d) [
    | none ↦ raise key_error
    | some (str s) ↦ pure s
    | some (int _) ↦ raise assertion_error
    | some (bool _) ↦ raise assertion_error
  ]

  abbrev pub get_bool : CrossChainTransferDict → String → Exec S Bool
  get_bool d key = elim (lookup key d) [
    | none ↦ raise key_error
    | some (bool b) ↦ pure b
    | some (int _) ↦ raise assertion_error
    | some (str _) ↦ raise assertion_error
  ]

  -- `Blockchain(value)`, where `is_blockchain` says which values the enumeration has
  abbrev pub to_blockchain : (ℕ → Bool) → ℕ → Exec S Blockchain
  to_blockchain is_blockchain n = if is_blockchain n then pure n else raise value_error

  unfoldable pub from_dict : (ℕ → Bool) → CrossChainTransferDict → Exec S CrossChainTransfer
  from_dict is_blockchain dict_ = do
    source_blockchain_id ← get_int dict_ "source_blockchain_id"
    destination_blockchain_id ← get_int dict_ "destination_blockchain_id"
    source_hub_address ← get_str dict_ "source_hub_address"
    source_transfer_id ← get_int dict_ "source_transfer_id"
    source_transaction_id ← get_str dict_ "source_transaction_id"
    source_block_number ← get_int dict_ "source_block_number"
    source_block_hash ← get_str dict_ "source_block_hash"
    sender_address ← get_str dict_ "sender_address"
    recipient_address ← get_str dict_ "recipient_address"
    source_token_address ← get_str dict_ "source_token_address"
    destination_token_address ← get_str dict_ "destination_token_address"
    amount ← get_int dict_ "amount"
    fee ← get_int dict_ "fee"
    service_node_address ← get_str dict_ "service_node_address"
    is_reversal_transfer ← get_bool dict_ "is_reversal_transfer"
    source_blockchain ← to_blockchain is_blockchain source_blockchain_id
    destination_blockchain ← to_blockchain is_blockchain destination_blockchain_id
    pure (record {
      source_blockchain = source_blockchain;
      destination_blockchain = destination_blockchain;
      source_hub_address = source_hub_address;
      source_transfer_id = source_transfer_id;
      source_transaction_id = source_transaction_id;
      source_block_number = source_block_number;
      source_block_hash = source_block_hash;
      sender_address = sender_address;
      recipient_address = recipient_address;
      source_token_address = source_token_address;
      destination_token_address = destination_token_address;
      amount = amount;
      fee = fee;
      service_node_address = service_node_address;
      is_reversal_transfer = is_reversal_transfer;
    })

  -- A transfer between two blockchains of the enumeration survives the journey through a task's
  -- arguments: `from_dict` of its dictionary returns it, every field unchanged.
  pub from_dict-to_dict :
      (is_blockchain : ℕ → Bool) (t : CrossChainTransfer) (s : S)
      → is_blockchain t.source_blockchain ≡ true
      → is_blockchain t.destination_blockchain ≡ true
      → from_dict is_blockchain (to_dict t) s ≡ (ok t, s)
  unfolding from_dict to_dict
  from_dict-to_dict is_blockchain t s source destination = rw (source, destination)
