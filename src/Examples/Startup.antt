-- ===== src/Examples/Startup.antt =====
-- The start of the small node and its monitor.
use validatornode.Common.{◌+◌, ℕ, Bool, true, false, List, [], ◌∷◌, ltb, ◌≡◌, ◌⊎◌, refl}
use validatornode.Common.Int.{pos}
use validatornode.Exec.{Result, ok, err, assertion_error}
use validatornode.Entities.{Blockchain}
use validatornode.Database.Models.{BlockchainRow}
use validatornode.Database.Access.Transfers.{read_blockchain_last_block_number}
use validatornode.Business.Node.{Reachable}
use validatornode.Startup.Factory.{
  initialize_blockchain_clients, get_blockchain_client, get_blockchain_client-initialized, insert,
}
use validatornode.Startup.Tables.{initialize_blockchains}
use validatornode.Startup.Tables.Rows.{initialize_blockchains-read}
use validatornode.Startup.Monitor.{run_monitor_workers, run_monitor_workers-detects}
use validatornode.Business.State.{State}
use validatornode.Business.Transfers.Detect.{detect_new_transfers}
use validatornode.Examples.{database, env, state}
use mathlib.Core.List.{mem-cons_self, mem-cons_of_mem}
use mathlib.Core.List.Perm

-- Blockchains 0 and 1 of four are active; a client is 100 and its blockchain's number.
abbrev is_active : Blockchain → Bool
is_active b = ltb b 2

abbrev construct : Blockchain → Result ℕ
construct b = ok (100 + b)

get_blockchain_client-initialized_example :
    ((is_active 1 ≡ true)
      × ((c : ℕ) × (construct 1 ≡ ok c)
          × (get_blockchain_client is_active construct 1 ((0, 100) ∷ (1, 101) ∷ [])
              ≡ (ok c, (0, 100) ∷ (1, 101) ∷ []))))
    ⊎ ((is_active 1 ≡ false)
        × (get_blockchain_client is_active construct 1 ((0, 100) ∷ (1, 101) ∷ [])
            ≡ (err assertion_error, (0, 100) ∷ (1, 101) ∷ [])))
unfolding initialize_blockchain_clients insert
get_blockchain_client-initialized_example =
    get_blockchain_client-initialized is_active construct (0 ∷ 1 ∷ 2 ∷ 3 ∷ [])
      ((0, 100) ∷ (1, 101) ∷ []) refl 1 refl

-- Blockchain 2 has no row before the start.
initialize_blockchains-read_example :
    (rows : List BlockchainRow) × (initialize_blockchains (0 ∷ 1 ∷ 2 ∷ []) database
      ≡ (ok tt, record database { blockchains = rows }))
    × ((read_blockchain_last_block_number 1 (record database { blockchains = rows })).0
        ≡ ok (pos 40))
initialize_blockchains-read_example =
    initialize_blockchains-read (0 ∷ 1 ∷ 2 ∷ []) database 1 (refl, (refl, (refl, tt))) refl

-- Three rounds, the second in the other order: blockchain 1 in the second one.
run_monitor_workers-detects_example :
    (s₁ : State ℕ) × Reachable env (run_monitor_workers env ((0 ∷ 1 ∷ []) ∷ []) state) s₁
    × Reachable env
        (detect_new_transfers env 1 s₁).1
        (run_monitor_workers env ((0 ∷ 1 ∷ []) ∷ (1 ∷ 0 ∷ []) ∷ (0 ∷ 1 ∷ []) ∷ []) state)
run_monitor_workers-detects_example =
    run_monitor_workers-detects env (0 ∷ 1 ∷ 2 ∷ 3 ∷ []) ((0 ∷ 1 ∷ []) ∷ []) ((0 ∷ 1 ∷ []) ∷ [])
      (1 ∷ 0 ∷ []) 1 state (Perm.rfl, (Perm.swap 0 1 [], (Perm.rfl, tt)))
      (mem-cons_of_mem 0 mem-cons_self) refl
