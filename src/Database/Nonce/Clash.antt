-- ===== src/Database/Nonce/Clash.antt =====
-- The unique constraints under a rewriting of every row of `transfers`.
use validatornode.Common.{
  if◌then◌else◌, ℕ, Bool, true, false, ◌&&◌, Option, none, List, [], ◌∷◌, ◌==◌, null_eq, All,
  update_where, ◌≡◌, ◌≢◌, refl, arith,
}
use validatornode.Database.Models.{Transfer}
use validatornode.Database.Session.{clash, clash_with, violation}

-- No two rows have one key.
abbrev pub HasUniqueIds : List Transfer → Type 0
HasUniqueIds [] = Unit
HasUniqueIds (t ∷ ts) = All (λ u. u.id ≢ t.id) ts × HasUniqueIds ts

-- A row with another nonce and another status.
abbrev pub with_nonce : Option ℕ → ℕ → Transfer → Transfer
with_nonce nonce status t = record t { nonce = nonce; status_id = status }

pub update_where-all :
    (p : Transfer → Bool) (f : Transfer → Transfer) (ts : List Transfer)
    → update_where p f ts ≡ update_where (λ _. true) (λ t. if p t then f t else t) ts
update_where-all p f [] = refl
update_where-all p f (t ∷ ts) = λ i. (if p t then f t else t) ∷ update_where-all p f ts i

-- The test of `unique_blockchain_nonce`.
abbrev pub same_nonce : Transfer → Transfer → Bool
same_nonce t u =
    t.destination_blockchain_id == u.destination_blockchain_id && null_eq t.nonce u.nonce

pub same_nonce-of-clash : (t u : Transfer) → clash t u ≡ none → same_nonce t u ≡ false
unfolding clash
same_nonce-of-clash t u h = ground arith

pub clash-with_nonce :
    (t u : Transfer) (n m : Option ℕ) (i j : ℕ)
    → clash t u ≡ none
    → same_nonce (with_nonce n i t) (with_nonce m j u) ≡ false
    → clash (with_nonce n i t) (with_nonce m j u) ≡ none
unfolding clash
clash-with_nonce t u n m i j h e = ground arith

module _ (g : Transfer → Transfer) (Good : Transfer → Type 0)
    (keep : (t u : Transfer)
      → Good t
      → Good u
      → u.id ≢ t.id
      → clash t u ≡ none
      → clash (g t) (g u) ≡ none) where
  clash_with-map :
      (t : Transfer) (us : List Transfer)
      → Good t
      → All Good us
      → All (λ u. u.id ≢ t.id) us
      → clash_with t us ≡ none
      → clash_with (g t) (update_where (λ _. true) g us) ≡ none
  unfolding clash_with
  clash_with-map t [] ht hu ne h = refl
  clash_with-map t (u ∷ us) ht hu ne h =
      ground (arith, keep t u ht hu.0 ne.0, clash_with-map t us ht hu.1 ne.1)

  -- If rewriting two rows never makes them clash, rewriting the table violates nothing.
  pub violation-map :
      (ts : List Transfer)
      → All Good ts
      → HasUniqueIds ts
      → violation ts ≡ none
      → violation (update_where (λ _. true) g ts) ≡ none
  unfolding violation
  violation-map [] good ids h = refl
  violation-map (t ∷ ts) good ids h =
      ground (arith, clash_with-map t ts good.0 good.1 ids.0, violation-map ts good.1 ids.1)
