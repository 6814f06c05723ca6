-- ===== src/Database/Nonce/Held.antt =====
-- `update_transfer_nonce` for one transfer, and the row of another one.
use validatornode.Common.{
  ℕ, Bool, true, false, not, ◌&&◌, none, some, List, [], ◌∷◌, any, select, update_where, null_eq,
  ◌≡◌, ◌≢◌, refl, arith, inl, inr, Bool-cases, Option-cases, ◌∙◌,
}
use validatornode.Database.Models.{Transfer}
use validatornode.Database.Session.{violation, clash_with}
use validatornode.Database.Nonce.Clash.{same_nonce, same_nonce-of-clash}
use validatornode.Database.Access.Transfers.{has_id}
use validatornode.Database.Access.Nonce.{
  is_failed, on_blockchain, minimum_nonce, minimum_failed_nonce, is_updated, update_nonces,
}

-- No row that is updated has the ID, so the rows of the ID are as before.
pub select-not_updated :
    (id : ℕ) (p : Transfer → Bool) (f : Transfer → Transfer)
    → ((t : Transfer) → (f t).id ≡ t.id)
    → (ts : List Transfer) → any (λ t. has_id id t && p t) ts ≡ false
    → select (has_id id) (update_where p f ts) ≡ select (has_id id) ts
select-not_updated id p f same [] h = refl
select-not_updated id p f same (t ∷ ts) h =
    ground (arith, same t, select-not_updated id p f same ts)

any-of_none :
    (p q : Transfer → Bool) (ts : List Transfer)
    → select p ts ≡ []
    → any (λ t. p t && q t) ts ≡ false
any-of_none p q [] h = refl
any-of_none p q (t ∷ ts) h = ground (arith, any-of_none p q ts)

pub any-of_select :
    (p q : Transfer → Bool) (ts : List Transfer) (row : Transfer)
    → select p ts ≡ row ∷ []
    → q row ≡ false
    → any (λ t. p t && q t) ts ≡ false
any-of_select p q [] row h e = refl
any-of_select p q (t ∷ ts) row h e = ground (arith, any-of_select p q ts row, any-of_none p q ts)

module _ (b m : ℕ) where
  -- On the blockchain, with this nonce.
  abbrev has_nonce : Transfer → Bool
  has_nonce t = on_blockchain b t && null_eq t.nonce (some m)

  minimum-any :
      (ts : List Transfer)
      → minimum_failed_nonce b ts ≡ some m
      → any (λ t. is_failed b t && has_nonce t) ts ≡ true
  unfolding minimum_failed_nonce minimum_nonce is_failed
  minimum-any [] h = cc
  minimum-any (t ∷ ts) h = elim (Bool-cases (is_failed b t)) [
    | inr other ↦ ground (arith, h, other, minimum-any ts)
    | inl failed ↦ elim (Option-cases t.nonce) [
      | inl missing ↦ absurd (ground (arith, failed, missing))
      | inr (n, there) ↦ elim (Option-cases (minimum_failed_nonce b ts)) [
        | inl least ↦ ground (arith, h, failed, there, least)
        | inr (k, least) ↦ ground (arith, h, failed, there, least, minimum-any ts)
      ]
    ]
  ]

  not_both : (t u : Transfer) → same_nonce t u ≡ false → has_nonce t ≡ true → has_nonce u ≡ false
  not_both t u h k = ground (arith, h, k)

  any-and :
      (q : Transfer → Bool) (ts : List Transfer)
      → any has_nonce ts ≡ false
      → any (λ t. q t && has_nonce t) ts ≡ false
  any-and q [] h = refl
  any-and q (t ∷ ts) h = ground (arith, h, any-and q ts)

  clash_with-nonce :
      (t : Transfer) (us : List Transfer)
      → clash_with t us ≡ none
      → has_nonce t ≡ true
      → any has_nonce us ≡ false
  unfolding clash_with
  clash_with-nonce t [] h k = refl
  clash_with-nonce t (u ∷ us) h k =
      let apart = same_nonce-of-clash t u (ground (arith, h)) in
      ground (arith, h, k, not_both t u apart k, clash_with-nonce t us)

  violation-one :
      (ts : List Transfer)
      → violation ts ≡ none
      → any (λ t. is_failed b t && has_nonce t) ts ≡ true
      → any (λ t. not (is_failed b t) && has_nonce t) ts ≡ false
  unfolding violation
  violation-one [] h k = refl
  violation-one (t ∷ ts) h k = elim (Bool-cases (has_nonce t)) [
    | inr other ↦ ground (arith, h, k, other, violation-one ts)
    | inl here ↦
        let none_left : any has_nonce ts ≡ false = clash_with-nonce t ts (ground (arith, h)) here in
        ground (
          arith,
          h,
          k,
          here,
          any-and (is_failed b) ts none_left,
          any-and (λ u. not (is_failed b u)) ts none_left,
        )
  ]

module _ (id i b : ℕ) (other : i ≢ id) where
  not_updated-none :
      (ts : List Transfer) → any (λ t. has_id id t && is_updated i b none t) ts ≡ false
  unfolding is_updated
  not_updated-none [] = refl
  not_updated-none (t ∷ ts) = ground (arith, other, not_updated-none ts)

  not_updated-some :
      (m : ℕ) (ts : List Transfer)
      → any (λ t. has_id id t && is_failed b t) ts ≡ false
      → any (λ t. not (is_failed b t) && has_nonce b m t) ts ≡ false
      → any (λ t. has_id id t && is_updated i b (some m) t) ts ≡ false
  unfolding is_updated
  not_updated-some m [] h k = refl
  not_updated-some m (t ∷ ts) h k = elim (Bool-cases (is_failed b t)) [
    | inl failed ↦ ground (arith, other, h, k, failed, not_updated-some m ts)
    | inr good ↦ ground (arith, other, h, k, good, not_updated-some m ts)
  ]

  not_updated :
      (ts : List Transfer) (row : Transfer)
      → select (has_id id) ts ≡ row ∷ []
      → is_failed b row ≡ false
      → violation ts ≡ none
      → any (λ t. has_id id t && is_updated i b (minimum_failed_nonce b ts) t) ts ≡ false
  not_updated ts row h good v = elim (Option-cases (minimum_failed_nonce b ts)) [
    | inl least ↦ rw least (not_updated-none ts)
    | inr (m, least) ↦ rw least (
        not_updated-some m ts (any-of_select (has_id id) (is_failed b) ts row h good)
          (violation-one b m ts v (minimum-any b m ts least)))
  ]

  -- The row of a transfer that has not failed is not touched by the assignment of a nonce to
  -- another transfer, in a table that violates no constraint.
  pub update_nonces-held :
      (latest : ℕ) (ts : List Transfer) (row : Transfer)
      → select (has_id id) ts ≡ row ∷ []
      → is_failed b row ≡ false
      → violation ts ≡ none
      → select (has_id id) (update_nonces i b latest ts) ≡ row ∷ []
  unfolding update_nonces
  update_nonces-held latest ts row h good v =
      select-not_updated id _ _ (λ t. refl) ts (not_updated ts row h good v) ∙ h
