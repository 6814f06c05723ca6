-- ===== src/Blockchains/Ethereum/Blocks/Coverage.antt =====
-- blockchains/ethereum.py: which blocks `read_outgoing_transfers_from_block` reads.
use validatornode.Common.{
  ℕ, zero, suc, ◌+◌, ◌-◌, ◌≤◌, ◌<◌, List, [], ◌∷◌, ◌++◌, ◌≡◌, ◌∙◌, ◌⊎◌, inl, inr, ap, sym, arith,
}
use mathlib.Core.List.{append-nil, append_assoc}
use validatornode.Exec.{Exec, ok}
use validatornode.Blockchains.Ethereum.Blocks.{range, read_event_logs, read_logs_from_block}

le_or_lt : (a b : ℕ) → (a ≤ b) ⊎ (b < a)
le_or_lt a b = omega arith

sum-split : (a b c : ℕ) → a ≤ b → b < c → (suc b - a) + (suc c - suc b) ≡ suc c - a
sum-split a b c h k = omega arith

none_left : (from latest : ℕ) → latest < from → suc latest - from ≡ 0
none_left from latest h = omega arith

suc_add : (i j : ℕ) → suc i + j ≡ suc (i + j)
suc_add i j = omega arith

module _ {Log : Type 0} (events : ℕ → List Log) where
  -- The events of so many blocks, from one on.
  unfoldable pub logs_in : ℕ → ℕ → List Log
  logs_in block zero = []
  logs_in block (suc count) = events block ++ logs_in (suc block) count

  eq-add_zero : (block next : ℕ) → next ≡ block + 0 → block ≡ next
  eq-add_zero block next e = omega arith

  logs_in-add :
      (block next i j : ℕ)
      → next ≡ block + i
      → logs_in block (i + j) ≡ logs_in block i ++ logs_in next j
  unfolding logs_in
  logs_in-add block next zero j e = ground (arith, ap (λ b. logs_in b j) (eq-add_zero block next e))
  logs_in-add block next (suc i) j e =
      ap (λ n. logs_in block n) (suc_add i j)
      ∙ ap (λ l. events block ++ l) (logs_in-add (suc block) next i j (omega arith))
      ∙ sym (append_assoc (events block) (logs_in (suc block) i) (logs_in next j))

  logs_in-split :
      (from to latest : ℕ)
      → from ≤ to
      → to < latest
      → logs_in from (suc latest - from)
        ≡ logs_in from (suc to - from) ++ logs_in (suc to) (suc latest - suc to)
  logs_in-split from to latest h k =
      sym (ap (λ n. logs_in from n) (sum-split from to latest h k))
      ∙ logs_in-add from (suc to) (suc to - from) (suc latest - suc to) (omega arith)

  module _ {W : Type 0} (get_logs : ℕ → ℕ → Exec W (List Log)) (number_blocks : ℕ)
      (get : (a b : ℕ) (w : W)
        → a ≤ b
        → b ≤ a + number_blocks
        → (get_logs a b w).0 ≡ ok (logs_in a (suc b - a)))
      (positive : 0 < number_blocks) where
    read_event_logs-last :
        (latest from : ℕ) (w : W)
        → from ≤ latest
        → latest ≤ from + number_blocks
        → (read_event_logs get_logs (latest ∷ []) from w).0 ≡ ok (logs_in from (suc latest - from))
    unfolding read_event_logs
    read_event_logs-last latest from w h k =
        ground (arith, get from latest w h k, append-nil (logs_in from (suc latest - from)))

    read_event_logs-range :
        (rounds latest to from : ℕ) (w : W)
        → from ≤ latest
        → from ≤ to
        → to ≤ from + number_blocks
        → latest ≤ to + rounds
        → (read_event_logs get_logs
            (range rounds to latest number_blocks ++ (latest ∷ []))
            from
            w).0
          ≡ ok (logs_in from (suc latest - from))
    unfolding read_event_logs range
    read_event_logs-range zero latest to from w h1 h2 h3 h4 =
        read_event_logs-last latest from w h1 (omega arith)
    read_event_logs-range (suc rounds) latest to from w h1 h2 h3 h4 = elim (le_or_lt latest to) [
      | inr lt ↦ ground (
        arith,
        get from to w h2 h3,
        logs_in-split from to latest h2 lt,
        read_event_logs-range rounds latest (to + number_blocks) (suc to) (get_logs from to w).1
            (omega arith) (omega arith) (omega arith) (omega arith),
      )
      | inl le ↦ ground (arith, read_event_logs-last latest from w h1 (omega arith))
    ]

    -- If the number of blocks is not 0 and `get_logs` returns the events of every range of at most
    -- one block more than that number, then the events of all blocks from the first to the latest
    -- are read, each block once and in order; none if the first comes after the latest.
    pub read_logs_from_block-reads_all :
        (latest from : ℕ) (w : W)
        → (read_logs_from_block get_logs number_blocks latest from w).0
          ≡ ok (logs_in from (suc latest - from))
    unfolding read_logs_from_block logs_in
    read_logs_from_block-reads_all latest from w = elim (le_or_lt from latest) [
      | inl le ↦ ground (
        arith,
        read_event_logs-range latest latest (from + number_blocks) from w le (omega arith)
            (omega arith) (omega arith),
      )
      | inr lt ↦ ground (arith, ap (λ n. logs_in from n) (none_left from latest lt))
    ]
