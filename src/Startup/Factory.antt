-- ===== src/Startup/Factory.antt =====
-- blockchains/factory.py: the clients of the active blockchains.
use validatornode.Common.{
  Bool, true, false, Option, none, some, List, [], ◌∷◌, any, if◌then◌else◌, ◌==◌, ◌≡◌, ◌⊎◌, arith,
  inl, inr, Bool-cases,
}
use validatornode.Exec.{
  Exec, ok, err, assertion_error, key_error, pure, or_raise, assert, ◌>>◌, Result, Result-cases,
}
use validatornode.Entities.{Blockchain}

-- `_blockchain_clients`, a dictionary
abbrev pub Clients : Type 0 → Type 0
Clients C = List (Blockchain × C)

module _ {C : Type 0} where
  unfoldable pub lookup : Blockchain → Clients C → Option C
  lookup b [] = none
  lookup b ((k, c) ∷ rest) = let found = lookup b rest in if k == b then some c else found

  unfoldable pub insert : Blockchain → C → Clients C → Clients C
  insert b c [] = (b, c) ∷ []
  insert b c ((k, d) ∷ rest) =
      let changed = insert b c rest in if k == b then (b, c) ∷ rest else (k, d) ∷ changed

  lookup-insert :
      (b b' : Blockchain) (c : C) (clients : Clients C)
      → lookup b' (insert b c clients) ≡ (if b == b' then some c else lookup b' clients)
  unfolding lookup insert
  lookup-insert b b' c [] = ground arith
  lookup-insert b b' c ((k, d) ∷ rest) = ground (arith, lookup-insert b b' c rest)

  -- `_blockchain_client_classes[blockchain]()`: a `KeyError`, or what the constructor does
  module _ (is_active : Blockchain → Bool) (construct : Blockchain → Result C) where
    abbrev add_client : Blockchain → Result C → Exec (Clients C) (Unit {0})
    add_client b (err e) clients = (err e, clients)
    add_client b (ok c) clients = (ok tt, insert b c clients)

    unfoldable pub initialize_blockchain_clients : List Blockchain → Exec (Clients C) (Unit {0})
    initialize_blockchain_clients [] = pure tt
    initialize_blockchain_clients (b ∷ bs) =
        (if is_active b then add_client b (construct b) else pure tt)
        >> initialize_blockchain_clients bs

    unfoldable pub get_blockchain_client : Blockchain → Exec (Clients C) C
    get_blockchain_client b =
        assert (is_active b) >> λ clients. or_raise (lookup b clients) key_error clients

    module _ (b : Blockchain) (active : is_active b ≡ true) where
      abbrev HasClient : Clients C → Type 0
      HasClient clients = (c : C) × (construct b ≡ ok c) × (lookup b clients ≡ some c)

      inserted-own :
          (k : Blockchain) (c : C) → (k == b) ≡ true → construct k ≡ ok c → construct b ≡ ok c
      inserted-own k c e made = ground (arith, e, made)

      insert-HasClient :
          (k : Blockchain) (c : C) (clients : Clients C)
          → construct k ≡ ok c
          → HasClient clients
          → HasClient (insert k c clients)
      insert-HasClient k c clients made (d, own, h) = elim (Bool-cases (k == b)) [
        | inl e ↦ (c, inserted-own k c e made, ground (arith, lookup-insert k b c clients))
        | inr e ↦ (d, own, ground (arith, h, lookup-insert k b c clients))
      ]

      initialized :
          (bs : List Blockchain) (clients clients' : Clients C)
          → initialize_blockchain_clients bs clients ≡ (ok tt, clients')
          → (any (λ b'. b' == b) bs ≡ true) ⊎ HasClient clients
          → HasClient clients'
      unfolding initialize_blockchain_clients
      initialized [] clients clients' e (inl h) = cc
      initialized [] clients clients' e (inr (c, own, h)) = (c, own, ground (arith, e, h))
      initialized (k ∷ bs) clients clients' e h = elim (Bool-cases (is_active k)) [
        | inr off ↦
            initialized bs clients clients' (ground (arith, e, off)) (elim h [
              | inl member ↦ inl (ground (arith, member, off, active))
              | inr has ↦ inr has
            ])
        | inl on ↦ elim (Result-cases (construct k)) [
          | inl (x, p) ↦ absurd (ground (arith, e, on, p))
          | inr (c, p) ↦
              initialized bs (insert k c clients) clients' (ground (arith, e, on, p)) (elim h [
                | inr has ↦ inr (insert-HasClient k c clients p has)
                | inl member ↦ elim (Bool-cases (k == b)) [
                  | inl same ↦ inr (
                    c,
                    inserted-own k c same p,
                    ground (arith, same, lookup-insert k b c clients),
                  )
                  | inr other ↦ inl (ground (arith, member, other))
                ]
              ])
        ]
      ]

    -- After the clients have been initialized for the blockchains of the enumeration,
    -- `get_blockchain_client` returns for each of them that is active the client that its own class
    -- constructs, and fails by an assertion for each that is not.
    pub get_blockchain_client-initialized :
        (bs : List Blockchain) (clients : Clients C)
        → initialize_blockchain_clients bs [] ≡ (ok tt, clients)
        → (b : Blockchain) → any (λ b'. b' == b) bs ≡ true
        → ((is_active b ≡ true)
            × ((c : C) × (construct b ≡ ok c)
                × (get_blockchain_client b clients ≡ (ok c, clients))))
          ⊎ ((is_active b ≡ false)
              × (get_blockchain_client b clients ≡ (err assertion_error, clients)))
    unfolding get_blockchain_client
    get_blockchain_client-initialized bs clients e b member = elim (Bool-cases (is_active b)) [
      | inr off ↦ inr (off, ground arith)
      | inl on ↦
          let (c, own, found) = initialized b on bs [] clients e (inl member) in
          inl (on, (c, own, ground (arith, on, found)))
    ]
