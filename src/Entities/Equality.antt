-- ===== src/Entities/Equality.antt =====
-- The equality of the dataclass `CrossChainTransfer` of entities.py.
use validatornode.Common.{
  ℕ, String, Bool, true, false, ◌&&◌, ◌==◌, ◌≡◌, refl, str_eq, ==_iff, eq_iff,
}
use validatornode.Entities.Transfer.{CrossChainTransfer, transfer_eq, bool_eq}

and_true : (a b : Bool) → (a && b) ≡ true → (a ≡ true) × (b ≡ true)
and_true true true h = (refl, refl)
and_true true false h = cc
and_true false b h = cc

num : (a b : ℕ) (r : Bool) → ((a == b) && r) ≡ true → (a ≡ b) × (r ≡ true)
num a b r h = let (e, rest) = and_true (a == b) r h in ((==_iff a b).0 e, rest)

text : (a b : String) (r : Bool) → (str_eq a b && r) ≡ true → (a ≡ b) × (r ≡ true)
text a b r h = let (e, rest) = and_true (str_eq a b) r h in ((eq_iff a b).0 e, rest)

flag : (a b : Bool) → bool_eq a b ≡ true → a ≡ b
flag true true h = refl
flag false false h = refl
flag true false h = cc
flag false true h = cc

-- Transfers that `==` finds equal are one transfer.
pub transfer_eq_sound : (t u : CrossChainTransfer) → transfer_eq t u ≡ true → t ≡ u
unfolding transfer_eq
transfer_eq_sound t u h =
    let (e0, h0) = num t.source_blockchain u.source_blockchain _ h in
    let (e1, h1) = num t.destination_blockchain u.destination_blockchain _ h0 in
    let (e2, h2) = text t.source_hub_address u.source_hub_address _ h1 in
    let (e3, h3) = num t.source_transfer_id u.source_transfer_id _ h2 in
    let (e4, h4) = text t.source_transaction_id u.source_transaction_id _ h3 in
    let (e5, h5) = num t.source_block_number u.source_block_number _ h4 in
    let (e6, h6) = text t.source_block_hash u.source_block_hash _ h5 in
    let (e7, h7) = text t.sender_address u.sender_address _ h6 in
    let (e8, h8) = text t.recipient_address u.recipient_address _ h7 in
    let (e9, h9) = text t.source_token_address u.source_token_address _ h8 in
    let (e10, h10) = text t.destination_token_address u.destination_token_address _ h9 in
    let (e11, h11) = num t.amount u.amount _ h10 in
    let (e12, h12) = num t.fee u.fee _ h11 in
    let (e13, h13) = text t.service_node_address u.service_node_address _ h12 in
    let e14 = flag t.is_reversal_transfer u.is_reversal_transfer h13 in
    λ i. record {
      source_blockchain = e0 i;
      destination_blockchain = e1 i;
      source_hub_address = e2 i;
      source_transfer_id = e3 i;
      source_transaction_id = e4 i;
      source_block_number = e5 i;
      source_block_hash = e6 i;
      sender_address = e7 i;
      recipient_address = e8 i;
      source_token_address = e9 i;
      destination_token_address = e10 i;
      amount = e11 i;
      fee = e12 i;
      service_node_address = e13 i;
      is_reversal_transfer = e14 i;
    }
