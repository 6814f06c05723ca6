-- ===== src/Business/Kept/Signatures.antt =====
-- `add_secondary_node_signature`, which schedules nothing.
use validatornode.Common.{String, Option, none, some}
use validatornode.Exec.{duplicate_signature_error}
use validatornode.Exec.Keeps.{Keeps, Keeps-raise, Keeps-pure}
use validatornode.Business.Client.{Env}
use validatornode.Database.Models.{Database}
use validatornode.Database.Kept.{IsAccess}
use validatornode.Entities.{CrossChainTransfer}
use validatornode.Business.Kept.{IsKept, method_rules}
use validatornode.Business.State.{State, db, call}
use validatornode.Exec.{Exec, Call}
use validatornode.Business.Signatures.{
  SecondaryNodeSignatureAddRequest, recover_transfer_to_signer_address, refuse_existing,
  verify_signature_not_existing, verify_signer_is_validator_node, verify_signature,
  add_secondary_node_signature,
}

module _ {W : Type 0} (env : Env W) {P : State W → Type 0} {Good : CrossChainTransfer → Type 0}
    (k : IsKept env P Good) where
  Kept-db : {A : Type 0} (m : Exec Database A) → IsAccess m → Keeps P (db m)
  Kept-db = k.on_db

  Kept-call : {A : Type 0} (m : Call W A) → Keeps P (call m)
  Kept-call = k.on_call

  ruleset kept_rules = (Kept-db, Kept-call, method_rules)

  Kept-refuse : (o : Option String) → Keeps P (refuse_existing env o)
  Kept-refuse none = Keeps-pure tt
  Kept-refuse (some x) = Keeps-raise duplicate_signature_error

  Kept-verify :
      (request : SecondaryNodeSignatureAddRequest) → Keeps P (verify_signature env request)
  unfolding verify_signature recover_transfer_to_signer_address verify_signature_not_existing
      verify_signer_is_validator_node
  Kept-verify request = search (Kept-refuse, kept_rules) depth 14

  pub add_secondary_node_signature-IsKept :
      (request : SecondaryNodeSignatureAddRequest)
      → Keeps P (add_secondary_node_signature env request)
  unfolding add_secondary_node_signature
  add_secondary_node_signature-IsKept request = search (Kept-verify, kept_rules) depth 10
