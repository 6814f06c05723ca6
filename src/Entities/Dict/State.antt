-- ===== src/Entities/Dict/State.antt =====
-- `CrossChainTransfer.from_dict` of entities.py and the state around it.
use validatornode.Common.{ℕ, String, Bool, ◌≡◌, refl, arith}
use validatornode.Exec.Keeps.{Keeps, keeps_rules}
use validatornode.Entities.Dict.{
  CrossChainTransferDict, get_int, get_str, get_bool, to_blockchain, from_dict,
}

module _ {S : Type 0} (s₀ : S) where
  abbrev IsUnchanged : S → Type 0
  IsUnchanged s = s ≡ s₀

  Keeps-int :
      (d : CrossChainTransferDict) (key : String) → Keeps IsUnchanged (get_int {S = S} d key)
  Keeps-int d key = record { after = λ s h. ground arith }

  Keeps-str :
      (d : CrossChainTransferDict) (key : String) → Keeps IsUnchanged (get_str {S = S} d key)
  Keeps-str d key = record { after = λ s h. ground arith }

  Keeps-bool :
      (d : CrossChainTransferDict) (key : String) → Keeps IsUnchanged (get_bool {S = S} d key)
  Keeps-bool d key = record { after = λ s h. ground arith }

  Keeps-blockchain :
      (is_blockchain : ℕ → Bool) (n : ℕ) → Keeps IsUnchanged (to_blockchain {S = S} is_blockchain n)
  Keeps-blockchain is_blockchain n = record { after = λ s h. ground arith }

  Keeps-from_dict :
      (is_blockchain : ℕ → Bool) (d : CrossChainTransferDict)
      → Keeps IsUnchanged (from_dict {S = S} is_blockchain d)
  unfolding from_dict
  Keeps-from_dict is_blockchain d =
      search (Keeps-int, Keeps-str, Keeps-bool, Keeps-blockchain, keeps_rules) depth 24

  pub from_dict-state :
      (is_blockchain : ℕ → Bool) (d : CrossChainTransferDict)
      → (from_dict is_blockchain d s₀).1 ≡ s₀
  from_dict-state is_blockchain d = (Keeps-from_dict is_blockchain d).after s₀ refl
