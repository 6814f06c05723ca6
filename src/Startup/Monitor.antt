-- ===== src/Startup/Monitor.antt =====
-- monitor.py: `_run_monitor_workers`. The detections of a round run in any order, one after another.
use validatornode.Common.{
  true, false, List, [], ◌∷◌, ◌++◌, ◌==◌, ==_iff, arith, select, All, ◌≡◌, inl, inr, Bool-cases,
}
use validatornode.Entities.{Blockchain}
use validatornode.Business.Client.{Env}
use validatornode.Business.State.{State}
use validatornode.Business.Transfers.Detect.{detect_new_transfers}
use validatornode.Business.Node.{Reachable, Step}
use mathlib.Core.Path.{subst}
use mathlib.Core.Bool.{Bool-set}
use mathlib.Core.Logic.Or
use mathlib.Core.List.{Mem, Mem-prop, Perm, mem-cons, not-mem-nil, mem-cons_self, mem-cons_of_mem}
use mathlib.Core.List.Perm

module _ {W : Type 0} (env : Env W) where
  -- The blockchains of the enumeration that are active.
  abbrev pub active_blockchains : List Blockchain → List Blockchain
  active_blockchains members = select env.is_active members

  -- An exception of a detection is logged.
  unfoldable pub run_round : List Blockchain → State W → State W
  run_round [] s = s
  run_round (b ∷ bs) s = run_round bs (detect_new_transfers env b s).1

  -- The rounds of the loop that are over, each with the order of its detections.
  unfoldable pub run_monitor_workers : List (List Blockchain) → State W → State W
  unfolding run_round
  run_monitor_workers [] s = s
  run_monitor_workers (order ∷ orders) s = run_monitor_workers orders (run_round order s)

  -- `order` is one of the active blockchains.
  abbrev pub IsRound : List Blockchain → List Blockchain → Type 0
  IsRound members order = Perm order (active_blockchains members)

  active_of_mem :
      (members : List Blockchain) (b : Blockchain)
      → Mem b (active_blockchains members)
      → env.is_active b ≡ true
  active_of_mem [] b m = absurd (not-mem-nil m)
  active_of_mem (k ∷ ks) b m = elim (Bool-cases (env.is_active k)) [
    | inr off ↦ active_of_mem ks b (rw off at m)
    | inl on ↦ Or.elim (Bool-set _ _) (mem-cons.0 (rw on at m)) (λ e. rw e on) (active_of_mem ks b)
  ]

  Reachable-trans :
      {s₁ s₂ s₃ : State W} → Reachable env s₁ s₂ → Reachable env s₂ s₃ → Reachable env s₁ s₃
  Reachable-trans p Reachable.start = p
  Reachable-trans p (Reachable.step q r) = Reachable.step (Reachable-trans p q) r

  run_round-Reachable :
      (s₀ s : State W) (bs : List Blockchain)
      → ((b : Blockchain) → Mem b bs → env.is_active b ≡ true)
      → Reachable env s₀ s
      → Reachable env s₀ (run_round bs s)
  unfolding run_round
  run_round-Reachable s₀ s [] h r = r
  run_round-Reachable s₀ s (b ∷ bs) h r =
      run_round-Reachable s₀ (detect_new_transfers env b s).1 bs (λ c m. h c (mem-cons_of_mem b m))
        (Reachable.step r (Step.monitor b (h b mem-cons_self)))

  later : (b k : Blockchain) (ks : List Blockchain) → (k == b) ≡ false → Mem b (k ∷ ks) → Mem b ks
  later b k ks e m =
      Or.elim Mem-prop (mem-cons.0 m) (λ same. absurd (ground (arith, e, same))) (λ q. q)

  mem_of_active :
      (members : List Blockchain) (b : Blockchain)
      → Mem b members
      → env.is_active b ≡ true
      → Mem b (active_blockchains members)
  mem_of_active [] b m active = absurd (not-mem-nil m)
  mem_of_active (k ∷ ks) b m active = elim (Bool-cases (k == b)) [
    | inl e ↦ let same = (==_iff k b).0 e in rw (same, active) mem-cons_self
    | inr e ↦
        let rest = mem_of_active ks b (later b k ks e m) active in
        elim (Bool-cases (env.is_active k)) [
          | inl on ↦ rw on (mem-cons_of_mem k rest)
          | inr off ↦ rw off rest
        ]
  ]

  run_round-detects :
      (b : Blockchain) (bs : List Blockchain) (s : State W)
      → ((k : Blockchain) → Mem k bs → env.is_active k ≡ true)
      → Mem b bs
      → (s₁ : State W) × Reachable env s s₁
        × Reachable env (detect_new_transfers env b s₁).1 (run_round bs s)
  unfolding run_round
  run_round-detects b [] s h m = absurd (not-mem-nil m)
  run_round-detects b (k ∷ ks) s h m =
      let rest = λ (c : Blockchain) (q : Mem c ks). h c (mem-cons_of_mem k q) in
      let next = (detect_new_transfers env k s).1 in
      elim (Bool-cases (k == b)) [
        | inl e ↦
            subst
              (λ j.
                (s₁ : State W) × Reachable env s s₁
                × Reachable env (detect_new_transfers env j s₁).1 (run_round ks next))
              ((==_iff k b).0 e)
              (s, Reachable.start, run_round-Reachable next next ks rest Reachable.start)
        | inr e ↦
            let (s₁, before, after) = run_round-detects b ks next rest (later b k ks e m) in
            (
              s₁,
              Reachable-trans (Reachable.step Reachable.start (Step.monitor k (h k mem-cons_self)))
                  before,
              after,
            )
      ]

  -- However many rounds the monitor has run, each with the active blockchains of the enumeration in
  -- any order, the node has come to its state by steps of the step relation.
  run_monitor_workers-Reachable :
      (members : List Blockchain) (orders : List (List Blockchain)) (s₀ s : State W)
      → All (IsRound members) orders
      → Reachable env s₀ s
      → Reachable env s₀ (run_monitor_workers orders s)
  unfolding run_monitor_workers
  run_monitor_workers-Reachable members [] s₀ s h r = r
  run_monitor_workers-Reachable members (order ∷ orders) s₀ s h r =
      run_monitor_workers-Reachable members orders s₀ (run_round order s) h.1
        (run_round-Reachable s₀ s order (λ b m. active_of_mem members b ((Perm.mem_iff h.0).0 m)) r)

  -- In each round of the monitor, whose rounds have each the active blockchains of the enumeration
  -- in any order, there is a detection for each active blockchain of the enumeration: it starts in a
  -- state that the node has come to since the rounds before, and the node has come from its end to
  -- the state after the last round by steps of the step relation.
  pub run_monitor_workers-detects :
      (members : List Blockchain) (before after : List (List Blockchain)) (order : List Blockchain)
      (b : Blockchain) (s : State W)
      → All (IsRound members) (before ++ order ∷ after)
      → Mem b members
      → env.is_active b ≡ true
      → (s₁ : State W) × Reachable env (run_monitor_workers before s) s₁
        × Reachable env
            (detect_new_transfers env b s₁).1
            (run_monitor_workers (before ++ order ∷ after) s)
  unfolding run_monitor_workers
  run_monitor_workers-detects members [] after order b s h m active =
      let (s₁, reached, rest) =
        run_round-detects b order s (λ k q. active_of_mem members k ((Perm.mem_iff h.0).0 q))
          ((Perm.mem_iff h.0).1 (mem_of_active members b m active)) in
      (
        s₁,
        reached,
        run_monitor_workers-Reachable members after (detect_new_transfers env b s₁).1
            (run_round order s) h.1 rest,
      )
  run_monitor_workers-detects members (o ∷ before) after order b s h m active =
      run_monitor_workers-detects members before after order b (run_round o s) h.1 m active
