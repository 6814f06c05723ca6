-- ===== src/Examples/Blocks.antt =====
-- Blocks 2 to 10, read in ranges of at most 4, each block with its number as the one event.
use validatornode.Common.{ℕ, List, [], ◌∷◌, ◌+◌, ◌-◌, suc, ◌≡◌, refl, arith}
use validatornode.Exec.{Exec, ok}
use validatornode.Blockchains.Ethereum.Blocks.{range, read_event_logs, read_logs_from_block}
use validatornode.Blockchains.Ethereum.Blocks.Coverage.{logs_in, read_logs_from_block-reads_all}

abbrev events : ℕ → List ℕ
events n = n ∷ []

abbrev get_logs : ℕ → ℕ → Exec ℕ (List ℕ)
get_logs a b w = (ok (logs_in events a (suc b - a)), w + 1)

reads_from_block_2 :
    read_logs_from_block get_logs 3 10 2 0 ≡ (ok (2 ∷ 3 ∷ 4 ∷ 5 ∷ 6 ∷ 7 ∷ 8 ∷ 9 ∷ 10 ∷ []), 3)
unfolding read_logs_from_block logs_in read_event_logs range
reads_from_block_2 = refl

read_logs_from_block-reads_all_example :
    (read_logs_from_block get_logs 3 10 2 0).0 ≡ ok (logs_in events 2 9)
read_logs_from_block-reads_all_example =
    read_logs_from_block-reads_all events get_logs 3 (λ a b w h k. refl) (omega arith) 10 2 0
