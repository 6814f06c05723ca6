-- ===== src/Database/Nonce/Bounds.antt =====
-- The subqueries of `update_transfer_nonce`: what the count, the minimum and the maximum say.
use validatornode.Common.{
  ℕ, ◌≤◌, ◌<◌, Option, none, some, List, [], ◌∷◌, All, Option-cases, ◌≡◌, ◌≢◌, refl, arith,
}
use validatornode.Database.Models.{Transfer}
use validatornode.Database.Access.Nonce.{
  minimum_failed_nonce, maximum_transfer_nonce, count_failed_nonces, next_nonce,
}

-- A nonce, if there is one, is below a bound.
abbrev pub IsBelow : ℕ → Option ℕ → Type 0
IsBelow n none = Unit
IsBelow n (some m) = m < n

pub count-zero :
    (b : ℕ) (ts : List Transfer) → count_failed_nonces b ts ≡ 0 → minimum_failed_nonce b ts ≡ none
unfolding count_failed_nonces minimum_failed_nonce
count-zero b [] h = refl
count-zero b (t ∷ ts) h = ground (arith, count-zero b ts)

-- A failed transfer has a nonce, so there is a least one.
pub minimum-ne-none :
    (b : ℕ) (ts : List Transfer) → count_failed_nonces b ts ≢ 0 → minimum_failed_nonce b ts ≢ none
unfolding count_failed_nonces minimum_failed_nonce
minimum-ne-none b [] h = absurd (h refl)
minimum-ne-none b (t ∷ ts) h = ground (arith, minimum-ne-none b ts)

-- What is above the maximum is above every nonce on the blockchain.
pub above-maximum :
    (n b : ℕ) (ts : List Transfer)
    → IsBelow n (maximum_transfer_nonce b ts)
    → All (λ t. t.destination_blockchain_id ≡ b → IsBelow n t.nonce) ts
unfolding maximum_transfer_nonce
above-maximum n b [] h = tt
above-maximum n b (t ∷ ts) h =
    (ground arith, above-maximum n b ts (ground (arith, Option-cases t.nonce)))

pub next_nonce-above :
    (maximum : Option ℕ) (latest : ℕ) → IsBelow (next_nonce maximum latest) maximum
unfolding next_nonce
next_nonce-above none latest = tt
next_nonce-above (some m) latest = ground arith

pub next_nonce-ge : (maximum : Option ℕ) (latest : ℕ) → latest ≤ next_nonce maximum latest
unfolding next_nonce
next_nonce-ge none latest = omega arith
next_nonce-ge (some m) latest = ground arith
