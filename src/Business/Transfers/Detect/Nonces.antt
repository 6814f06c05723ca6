-- ===== src/Business/Transfers/Detect/Nonces.antt =====
-- The draw of a validator nonce.
use validatornode.Common.{ℕ, zero, suc, ◌<◌, true, false, ◌≡◌, arith, inl, inr}
use mathlib.Core.Path.{subst}
use validatornode.Exec.{ok, reply, Call-cases}
use validatornode.Entities.{Blockchain}
use validatornode.Business.Client.{Env}
use validatornode.Business.State.{State}
use validatornode.Business.Transfers.Detect.{draw_validator_nonce}

module _ {W : Type 0} (env : Env W) (b : Blockchain) where
  -- From world `w` the loop draws and rejects `k` numbers, then draws `n`, which the Hub accepts.
  pub data Draws : ℕ → W → ℕ → W → Type 0 where
    accept :
        {n : ℕ} {w w₁ w₂ : W}
        → env.getrandbits w ≡ (reply n, w₁)
        → env.client.is_valid_validator_nonce b n w₁ ≡ (reply true, w₂)
        → Draws 0 w n w₂
    reject :
        {k n m : ℕ} {w w₁ w₂ w₃ : W}
        → env.getrandbits w ≡ (reply m, w₁)
        → env.client.is_valid_validator_nonce b m w₁ ≡ (reply false, w₂)
        → Draws k w₂ n w₃
        → Draws (suc k) w n w₃

  -- With more rounds than numbers that are rejected, the loop ends with the number that is
  -- accepted, and has changed nothing but the world outside.
  pub draw-returns :
      (k rounds n : ℕ) (w : W) (s : State W)
      → Draws k s.world n w
      → k < rounds
      → draw_validator_nonce env rounds b s ≡ (ok n, record s { world = w })
  unfolding draw_validator_nonce
  draw-returns k zero n w s d lt = absurd (omega arith)
  draw-returns zero (suc rounds) n w s (accept e₁ e₂) lt = ground arith
  draw-returns (suc k) (suc rounds) n w s (reject {w₂ = w₂} e₁ e₂ d) lt =
      ground (arith, draw-returns k rounds n w (record s { world = w₂ }) d (omega arith))

  -- A number that the loop returns has been drawn, and the Hub has accepted it.
  pub draw-Draws :
      (rounds n : ℕ) (s : State W)
      → (draw_validator_nonce env rounds b s).0 ≡ ok n
      → (k : ℕ) × (w : W) × (k < rounds)
        × ((draw_validator_nonce env rounds b s).1.world ≡ w)
        × Draws k s.world n w
  unfolding draw_validator_nonce
  draw-Draws zero n s h = absurd (ground arith)
  draw-Draws (suc rounds) n s h = elim (Call-cases (env.getrandbits s.world)) [
    | inl (f, w, e) ↦ absurd (ground arith)
    | inr (m, w₁, e) ↦ elim (Call-cases (env.client.is_valid_validator_nonce b m w₁)) [
      | inl (f, w, e') ↦ absurd (ground arith)
      | inr (true, w₂, e') ↦
          let drawn : m ≡ n = ground arith in
          (0, w₂, omega arith, ground arith, subst (λ x. Draws 0 s.world x w₂) drawn (accept e e'))
      | inr (false, w₂, e') ↦
          let (k, w, lt, p, d) = draw-Draws rounds n (record s { world = w₂ }) (ground arith) in
          (suc k, w, omega arith, ground arith, reject e e' d)
    ]
  ]
