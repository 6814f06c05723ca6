-- ===== src/Blockchains/Ethereum/Signers/Order.antt =====
-- blockchains/ethereum.py: the order in which `__sort_validator_node_signatures` puts the signers.
use validatornode.Common.{
  ℕ, String, ◌≤◌, some, List, [], ◌∷◌, map, All, ◌≡◌, inl, inr, refl, arith, Bool-cases,
  Option-cases, leb, str_eq, str_eq_refl,
}
use mathlib.Core.Path.{subst}
use mathlib.Core.List.{Perm}
use mathlib.Core.List.Perm
use validatornode.Common.Hex.{hex_value}
use validatornode.Exec.{ok}
use validatornode.Entities.{BlockchainAddress}
use validatornode.Database.Access.Signatures.{Signatures, lookup}
use validatornode.Blockchains.Ethereum.Signers.{
  with_values, insert_signer, sort_signers, lookup_all, sort_validator_node_signatures,
}

-- No address stands before one of a smaller number.
abbrev pub IsAscending : List (ℕ × BlockchainAddress) → Type 0
IsAscending [] = Unit
IsAscending (x ∷ xs) = All (λ y. x.0 ≤ y.0) xs × IsAscending xs

-- The signatures are those of the addresses, one by one.
abbrev pub AreStored : Signatures → List BlockchainAddress → List String → Type 0
AreStored stored [] [] = Unit
AreStored stored (a ∷ as_) (s ∷ ss) = (lookup a stored ≡ some s) × AreStored stored as_ ss
AreStored stored _ _ = ⊥

insert_signer-All :
    (P : ℕ × BlockchainAddress → Type 0) (x : ℕ × BlockchainAddress)
    (ys : List (ℕ × BlockchainAddress))
    → P x
    → All P ys
    → All P (insert_signer x ys)
insert_signer-All P x [] p h = (p, tt)
insert_signer-All P x (y ∷ ys) p h = elim (Bool-cases (leb x.0 y.0)) [
  | inl e ↦ rw e (p, h)
  | inr e ↦ rw e (h.0, insert_signer-All P x ys p h.1)
]

sort_signers-All :
    (P : ℕ × BlockchainAddress → Type 0) (xs : List (ℕ × BlockchainAddress))
    → All P xs
    → All P (sort_signers xs)
unfolding sort_signers
sort_signers-All P [] h = tt
sort_signers-All P (x ∷ xs) h =
    insert_signer-All P x (sort_signers xs) h.0 (sort_signers-All P xs h.1)

All-le :
    (n m : ℕ) (ys : List (ℕ × BlockchainAddress))
    → n ≤ m
    → All (λ y. m ≤ y.0) ys
    → All (λ y. n ≤ y.0) ys
All-le n m [] e h = tt
All-le n m (y ∷ ys) e h = (omega arith, All-le n m ys e h.1)

insert_signer-IsAscending :
    (x : ℕ × BlockchainAddress) (ys : List (ℕ × BlockchainAddress))
    → IsAscending ys
    → IsAscending (insert_signer x ys)
insert_signer-IsAscending x [] h = (tt, tt)
insert_signer-IsAscending x (y ∷ ys) h = elim (Bool-cases (leb x.0 y.0)) [
  | inl e ↦ rw e ((ground arith, All-le x.0 y.0 ys (ground arith) h.0), h)
  | inr e ↦ rw e (
    insert_signer-All (λ z. y.0 ≤ z.0) x ys (ground arith) h.0,
    insert_signer-IsAscending x ys h.1,
  )
]

sort_signers-IsAscending : (xs : List (ℕ × BlockchainAddress)) → IsAscending (sort_signers xs)
unfolding sort_signers
sort_signers-IsAscending [] = tt
sort_signers-IsAscending (x ∷ xs) =
    insert_signer-IsAscending x (sort_signers xs) (sort_signers-IsAscending xs)

insert_signer-perm :
    (x : ℕ × BlockchainAddress) (ys : List (ℕ × BlockchainAddress))
    → Perm (insert_signer x ys) (x ∷ ys)
insert_signer-perm x [] = Perm.rfl
insert_signer-perm x (y ∷ ys) = elim (Bool-cases (leb x.0 y.0)) [
  | inl e ↦ rw e Perm.rfl
  | inr e ↦ rw e (Perm.trans (Perm.cons y (insert_signer-perm x ys)) (Perm.swap x y ys))
]

sort_signers-perm : (xs : List (ℕ × BlockchainAddress)) → Perm (sort_signers xs) xs
unfolding sort_signers
sort_signers-perm [] = Perm.rfl
sort_signers-perm (x ∷ xs) =
    Perm.trans (insert_signer-perm x (sort_signers xs)) (Perm.cons x (sort_signers-perm xs))

abbrev HasSignature : Signatures → BlockchainAddress → Type 0
HasSignature stored a = (s : String) × (lookup a stored ≡ some s)

HasSignature-cons :
    (k : BlockchainAddress) (s : String) (rest : Signatures) (a : BlockchainAddress)
    → HasSignature rest a
    → HasSignature ((k, s) ∷ rest) a
unfolding lookup
HasSignature-cons k s rest a (t, h) = elim (Bool-cases (str_eq k a)) [
  | inl e ↦ (s, rw e refl)
  | inr e ↦ (t, rw e h)
]

All-HasSignature :
    (k : BlockchainAddress) (s : String) (rest : Signatures) (as_ : List BlockchainAddress)
    → All (HasSignature rest) as_
    → All (HasSignature ((k, s) ∷ rest)) as_
All-HasSignature k s rest [] h = tt
All-HasSignature k s rest (a ∷ as_) h =
    (HasSignature-cons k s rest a h.0, All-HasSignature k s rest as_ h.1)

keys-HasSignature : (stored : Signatures) → All (HasSignature stored) (map (λ x. x.0) stored)
unfolding lookup
keys-HasSignature [] = tt
keys-HasSignature ((k, s) ∷ rest) = (
  (s, rw (str_eq_refl k) refl),
  All-HasSignature k s rest (map (λ x. x.0) rest) (keys-HasSignature rest),
)

the_rest :
    (a : BlockchainAddress) (v : ℕ) (ys : List (ℕ × BlockchainAddress))
    (as_ : List BlockchainAddress) (xs : List (ℕ × BlockchainAddress))
    → hex_value a ≡ some v
    → with_values as_ ≡ some ys
    → with_values (a ∷ as_) ≡ some xs
    → ((v, a) ∷ ys) ≡ xs
the_rest a v ys as_ xs n m e = ground arith

with_values-All :
    (P : BlockchainAddress → Type 0) (as_ : List BlockchainAddress)
    (xs : List (ℕ × BlockchainAddress))
    → with_values as_ ≡ some xs
    → All P as_
    → All (λ x. P x.1) xs
with_values-All P [] [] e h = tt
with_values-All P [] (x ∷ xs) e h = cc
with_values-All P (a ∷ as_) xs e h = elim (Option-cases (hex_value a)) [
  | inl n ↦ absurd (ground arith)
  | inr (v, n) ↦ elim (Option-cases (with_values as_)) [
    | inl m ↦ absurd (ground arith)
    | inr (ys, m) ↦
        let all_ys = with_values-All P as_ ys m h.1 in
        subst (λ zs. All (λ x. P x.1) zs) (the_rest a v ys as_ xs n m e) (h.0, all_ys)
  ]
]

lookup_all-AreStored :
    (stored : Signatures) (xs : List (ℕ × BlockchainAddress))
    → All (λ x. HasSignature stored x.1) xs
    → (ss : List String) × (lookup_all stored (map (λ x. x.1) xs) ≡ some ss)
      × AreStored stored (map (λ x. x.1) xs) ss
unfolding lookup_all
lookup_all-AreStored stored [] h = ([], refl, tt)
lookup_all-AreStored stored (x ∷ xs) h =
    let (ss, e, r) = lookup_all-AreStored stored xs h.1 in
    (h.0.0 ∷ ss, ground (arith, e, h.0.1), (h.0.1, r))

-- If every address of the dictionary is a number in hexadecimal, then the sort returns the same
-- addresses, each as often, in ascending order of the numbers, and the stored signature of each.
pub sort-IsAscending :
    (stored : Signatures) (signers : List (ℕ × BlockchainAddress))
    → with_values (map (λ x. x.0) stored) ≡ some signers
    → (sorted : List (ℕ × BlockchainAddress)) × (signatures : List String)
      × (sort_validator_node_signatures stored ≡ ok (map (λ x. x.1) sorted, signatures))
      × Perm sorted signers
      × IsAscending sorted
      × AreStored stored (map (λ x. x.1) sorted) signatures
unfolding sort_validator_node_signatures
sort-IsAscending stored signers e =
    let known =
      sort_signers-All (λ x. HasSignature stored x.1) signers
        (with_values-All (HasSignature stored) (map (λ x. x.0) stored) signers e
          (keys-HasSignature stored)) in
    let (ss, found, r) = lookup_all-AreStored stored (sort_signers signers) known in
    (
      sort_signers signers,
      ss,
      rw (e, found) refl,
      sort_signers-perm signers,
      sort_signers-IsAscending signers,
      r,
    )
