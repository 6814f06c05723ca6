-- ===== src/Blockchains/Ethereum/Signers.antt =====
-- blockchains/ethereum.py: `__sort_validator_node_signatures`, and the addresses and transaction IDs
-- that are valid.
pub mod Order
use validatornode.Common.{
  ℕ, String, Bool, true, false, not, ◌&&◌, ◌||◌, Option, none, some, List, [], ◌∷◌, map, all,
  length, if◌then◌else◌, ◌==◌, leb,
}
use mathlib.Core.Option
use validatornode.Common.Hex.{codes, is_hex_digit, hex_value}
use validatornode.Exec.{Result, ok, err, value_error, key_error}
use validatornode.Entities.{BlockchainAddress}
use validatornode.Database.Access.Signatures.{Signatures, lookup}

-- The addresses with their sort keys, if all have one.
abbrev pub with_values : List BlockchainAddress → Option (List (ℕ × BlockchainAddress))
with_values [] = some []
with_values (a ∷ as_) = elim (hex_value a) [
  | none ↦ none
  | some n ↦ Option.map (λ rest. (n, a) ∷ rest) (with_values as_)
]

-- `sorted`, which is stable: an address stands before those that come after it and are not smaller.
abbrev pub insert_signer :
    ℕ × BlockchainAddress → List (ℕ × BlockchainAddress) → List (ℕ × BlockchainAddress)
insert_signer x [] = x ∷ []
insert_signer x (y ∷ ys) =
    let rest = insert_signer x ys in if leb x.0 y.0 then x ∷ y ∷ ys else y ∷ rest

unfoldable pub sort_signers : List (ℕ × BlockchainAddress) → List (ℕ × BlockchainAddress)
sort_signers [] = []
sort_signers (x ∷ xs) = insert_signer x (sort_signers xs)

-- `[validator_node_signatures[signer_address] for …]`
unfoldable pub lookup_all : Signatures → List BlockchainAddress → Option (List String)
lookup_all signatures [] = some []
lookup_all signatures (a ∷ as_) = elim (lookup a signatures) [
  | none ↦ none
  | some s ↦ Option.map (λ rest. s ∷ rest) (lookup_all signatures as_)
]

abbrev addresses : List (ℕ × BlockchainAddress) → List BlockchainAddress
addresses signers = map (λ x. x.1) signers

abbrev with_signatures :
    List BlockchainAddress → Option (List String) → Result (List BlockchainAddress × List String)
with_signatures sorted_addresses none = err key_error
with_signatures sorted_addresses (some signatures) = ok (sorted_addresses, signatures)

abbrev sort_values :
    Signatures
    → Option (List (ℕ × BlockchainAddress))
    → Result (List BlockchainAddress × List String)
sort_values signatures none = err value_error
sort_values signatures (some signers) =
    let sorted_addresses = addresses (sort_signers signers) in
    with_signatures sorted_addresses (lookup_all signatures sorted_addresses)

unfoldable pub sort_validator_node_signatures :
    Signatures → Result (List BlockchainAddress × List String)
sort_validator_node_signatures signatures =
    sort_values signatures (with_values (map (λ x. x.0) signatures))

abbrev is_hash : List ℕ → Bool
is_hash digits = all is_hex_digit digits && length digits == 64

abbrev has_hash_pattern : List ℕ → Bool
has_hash_pattern (c ∷ d ∷ digits) = c == b'0' && (d == b'x' && is_hash digits)
has_hash_pattern _ = false

-- `re.fullmatch` with the pattern `^0x[a-fA-F0-9]{64}`
unfoldable pub is_valid_transaction_id : String → Bool
is_valid_transaction_id transaction_id = has_hash_pattern (codes transaction_id)

abbrev is_not_zero : Option ℕ → Bool
is_not_zero none = false
is_not_zero (some n) = not (n == 0)

abbrev is_valid_checksum_address : Option String → Bool
is_valid_checksum_address none = false
is_valid_checksum_address (some address) = is_not_zero (hex_value address)

-- `to_checksum_address` of web3 raises a `ValueError` for a text that is no address, and otherwise
-- returns `0x` with hexadecimal digits, which `int(…, 0)` reads.
unfoldable pub is_valid_recipient_address : (String → Option String) → String → Bool
is_valid_recipient_address to_checksum_address address =
    is_valid_checksum_address (to_checksum_address address)
