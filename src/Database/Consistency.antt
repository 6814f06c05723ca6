-- ===== src/Database/Consistency.antt =====
-- The integrity of the table `transfers` under the functions of database/access.py.
pub mod Contracts
pub mod Writes
pub mod Reads
use validatornode.Common.{
  ℕ, Bool, true, none, some, List, [], ◌∷◌, All, update_where, if◌then◌else◌, ◌≡◌, ◌≢◌, arith, inl,
  inr, Option-cases, Bool-cases,
}
use validatornode.Exec.{Exec, ok, ◌>>=◌, ◌>>◌, pure, Exec-cases}
use validatornode.Exec.Keeps.{Keeps, Keeps->>=}
use validatornode.Database.Models.{Database, Transfer}
use validatornode.Database.Session.{violation, transaction, check_constraints}
use validatornode.Database.Transactions.{check_constraints-none, check_constraints-some}
use validatornode.Database.Nonce.Clash.{HasUniqueIds}

abbrev pub HasUniqueKeys : Database → Type 0
HasUniqueKeys db = HasUniqueIds db.transfers

-- The keys are different, and no unique constraint is violated.
abbrev pub IsConsistent : Database → Type 0
IsConsistent db = HasUniqueIds db.transfers × (violation db.transfers ≡ none)

-- Statements that keep the keys apart, and after which, where they end without an exception, no
-- constraint is violated.
pub record IsChecked {A : Type 0} (m : Exec Database A) : Type 0 where
  pub keys : (db : Database) → HasUniqueKeys db → HasUniqueKeys (m db).1
  pub checked : (db : Database) (a : A) → (m db).0 ≡ ok a → violation (m db).1.transfers ≡ none

pub IsChecked->>= :
    {A B : Type 0} (m : Exec Database A) (f : A → Exec Database B)
    → Keeps HasUniqueKeys m
    → ((a : A) → IsChecked (f a))
    → IsChecked (m >>= f)
IsChecked->>= m f km cf = record {
  keys = (Keeps->>= m f km (λ a. record { after = (cf a).keys })).after;
  checked = λ db b e. elim (Exec-cases (m db)) [
    | inl (x, d, p) ↦ absurd (ground arith)
    | inr (a, d, p) ↦ ground (arith, (cf a).checked d b)
  ];
}

-- A check, and then a value.
pub IsChecked-pure : {A : Type 0} (a : A) → IsChecked (check_constraints >> pure a)
IsChecked-pure a = record {
  keys = λ db h. elim (Option-cases (violation db.transfers)) [
    | inl v ↦ ground (arith, check_constraints-none db v)
    | inr (c, v) ↦ ground (arith, check_constraints-some db v)
  ];
  checked = λ db b e. elim (Option-cases (violation db.transfers)) [
    | inl v ↦ ground (arith, check_constraints-none db v)
    | inr (c, v) ↦ absurd (ground (arith, check_constraints-some db v))
  ];
}

pub IsChecked-check : IsChecked check_constraints
IsChecked-check = record {
  keys = λ db h. elim (Option-cases (violation db.transfers)) [
    | inl v ↦ ground (arith, check_constraints-none db v)
    | inr (c, v) ↦ ground (arith, check_constraints-some db v)
  ];
  checked = λ db b e. elim (Option-cases (violation db.transfers)) [
    | inl v ↦ ground (arith, check_constraints-none db v)
    | inr (c, v) ↦ absurd (ground (arith, check_constraints-some db v))
  ];
}

pub Keeps-transaction :
    {A : Type 0} (m : Exec Database A) → IsChecked m → Keeps IsConsistent (transaction m)
Keeps-transaction m c = record {
  after = λ db h. elim (Exec-cases (m db)) [
    | inl (x, d, p) ↦ (ground arith, ground arith)
    | inr (a, d, p) ↦ (ground (arith, c.keys db h.0), ground (arith, c.checked db a))
  ];
}

update_where-ids :
    (p : Transfer → Bool) (f : Transfer → Transfer)
    → ((t : Transfer) → (f t).id ≡ t.id)
    → (i : ℕ) (ts : List Transfer) → All (λ u. u.id ≢ i) ts
    → All (λ u. u.id ≢ i) (update_where p f ts)
update_where-ids p f same i [] h = tt
update_where-ids p f same i (t ∷ ts) h =
    (ground (arith, same t), update_where-ids p f same i ts h.1)

pub update_where-HasUniqueIds :
    (p : Transfer → Bool) (f : Transfer → Transfer)
    → ((t : Transfer) → (f t).id ≡ t.id)
    → (ts : List Transfer) → HasUniqueIds ts
    → HasUniqueIds (update_where p f ts)
update_where-HasUniqueIds p f same [] h = tt
update_where-HasUniqueIds p f same (t ∷ ts) h = (
  elim (Bool-cases (p t)) [
    | inl e ↦ rw (e, same t) (update_where-ids p f same t.id ts h.0)
    | inr e ↦ rw e (update_where-ids p f same t.id ts h.0)
  ],
  update_where-HasUniqueIds p f same ts h.1,
)
