-- ===== src/Database/Transactions.antt =====
-- Transactions that write rows and check the constraints.
use validatornode.Common.{none, some, ◌≡◌, inl, inr, arith}
use validatornode.Exec.{
  ok, err, modify, ◌>>◌, Exec, integrity_error, Constraint, Exception, Exec-cases,
}
use validatornode.Database.Models.{Database}
use validatornode.Database.Session.{transaction, check_constraints, violation}

pub check_constraints-none :
    (db : Database) → violation db.transfers ≡ none → check_constraints db ≡ (ok tt, db)
unfolding check_constraints
check_constraints-none db e = ground arith

pub check_constraints-some :
    (db : Database) {c : Constraint}
    → violation db.transfers ≡ some c
    → check_constraints db ≡ (err (integrity_error c), db)
unfolding check_constraints
check_constraints-some db e = ground arith

-- A write that violates no constraint is committed.
pub write_then_check :
    (f : Database → Database) (db : Database)
    → violation (f db).transfers ≡ none
    → transaction (modify f >> check_constraints) db ≡ (ok tt, f db)
write_then_check f db e = ground (arith, check_constraints-none (f db) e)

-- A write that violates one is rolled back.
pub write_then_check_violation :
    (f : Database → Database) (db : Database) {c : Constraint}
    → violation (f db).transfers ≡ some c
    → transaction (modify f >> check_constraints) db ≡ (err (integrity_error c), db)
write_then_check_violation f db e = ground (arith, check_constraints-some (f db) e)

-- A transaction that raises has changed nothing.
pub transaction-err :
    {A : Type 0} (m : Exec Database A) (db : Database) (e : Exception)
    → (transaction m db).0 ≡ err e
    → (transaction m db).1 ≡ db
transaction-err m db e h = elim (Exec-cases (m db)) [
  | inl (e', s, p) ↦ ground arith
  | inr (a, s, p) ↦ ground arith
]
