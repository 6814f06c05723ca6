-- ===== src/Blockchains/Ethereum/Blocks.antt =====
-- blockchains/ethereum.py: the ranges of blocks in which `read_outgoing_transfers_from_block` reads
-- the event logs.
pub mod Coverage
use validatornode.Common.{
  ℕ, zero, suc, ◌+◌, Bool, List, [], ◌∷◌, ◌++◌, if◌then◌else◌, ◌==◌, ltb, leb,
}
use validatornode.Exec.{Exec, value_error, pure, raise, assert, ◌>>=◌, ◌>>◌}

-- The numbers of range(start, stop, step), at most so many as there are rounds.
unfoldable pub range : ℕ → ℕ → ℕ → ℕ → List ℕ
range zero start stop step = []
range (suc rounds) start stop step =
    let rest = range rounds (start + step) stop step in if ltb start stop then start ∷ rest else []

abbrev pub to_block_numbers : ℕ → ℕ → ℕ → List ℕ
to_block_numbers from_block_number number_blocks latest_block_number =
    range latest_block_number (from_block_number + number_blocks) latest_block_number number_blocks
    ++ (latest_block_number ∷ [])

-- `get_logs` is the one of the package pantos.common for an event.
module _ {W Log : Type 0} (get_logs : ℕ → ℕ → Exec W (List Log)) where
  unfoldable pub read_event_logs : List ℕ → ℕ → Exec W (List Log)
  read_event_logs [] from_block_number = pure []
  read_event_logs (to_block_number ∷ rest) from_block_number =
      assert (leb from_block_number to_block_number)
      >> get_logs from_block_number to_block_number
      >>= λ logs. read_event_logs rest (to_block_number + 1) >>= λ more. pure (logs ++ more)

  -- range raises a `ValueError` for the step 0.
  unfoldable pub read_logs_from_block : ℕ → ℕ → ℕ → Exec W (List Log)
  read_logs_from_block number_blocks latest_block_number from_block_number =
      if ltb latest_block_number from_block_number
      then pure []
      else if number_blocks == 0
      then raise value_error
      else read_event_logs (to_block_numbers from_block_number number_blocks latest_block_number)
          from_block_number
