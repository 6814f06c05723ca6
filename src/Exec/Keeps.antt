-- ===== src/Exec/Keeps.antt =====
-- Methods after which a predicate of the state holds again, on every branch and beside every
-- exception. The rules are for `search`.
use validatornode.Common.{
  Bool, true, false, Option, none, some, if◌then◌else◌, arith, inl, inr, ◌≡◌,
}
use validatornode.Exec.{
  Exec, Result, ok, Exception, pure, raise, lift, or_raise, ◌>>=◌, catch, raise_if, assert,
  Exec-cases,
}

pub record Keeps {S A : Type 0} (P : S → Type 0) (m : Exec S A) : Type 0 where
  pub after : (s : S) → P s → P (m s).1

module _ {S : Type 0} {P : S → Type 0} where
  pub Keeps->>= :
      {A B : Type 0} (m : Exec S A) (f : A → Exec S B)
      → Keeps P m
      → ((a : A) → Keeps P (f a))
      → Keeps P (m >>= f)
  Keeps->>= m f km kf = record {
    after = λ s h. elim (Exec-cases (m s)) [
      | inl (e, s', p) ↦ ground (arith, km.after s h)
      | inr (a, s', p) ↦ ground (arith, km.after s h, (kf a).after s')
    ];
  }

  pub Keeps-catch :
      {A : Type 0} (m : Exec S A) (f : Exception → Exec S A)
      → Keeps P m
      → ((e : Exception) → Keeps P (f e))
      → Keeps P (catch m f)
  Keeps-catch m f km kf = record {
    after = λ s h. elim (Exec-cases (m s)) [
      | inl (e, s', p) ↦ ground (arith, km.after s h, (kf e).after s')
      | inr (a, s', p) ↦ ground (arith, km.after s h)
    ];
  }

  -- What the first method returns is known.
  pub Keeps-from :
      {A B : Type 0} (Q : A → Type 0) (m : Exec S A) (f : A → Exec S B)
      → Keeps P m
      → ((s : S) (a : A) (s' : S) → m s ≡ (ok a, s') → Q a)
      → ((a : A) → Q a → Keeps P (f a))
      → Keeps P (m >>= f)
  Keeps-from Q m f km known kf = record {
    after = λ s h. elim (Exec-cases (m s)) [
      | inl (e, s', p) ↦ ground (arith, km.after s h)
      | inr (a, s', p) ↦ ground (arith, km.after s h, (kf a (known s a s' p)).after s')
    ];
  }

  -- The result is looked at, whether it is a value or an exception.
  pub Keeps-then :
      {A B : Type 0} (m : Exec S A) (f : Result A → Exec S B)
      → Keeps P m
      → ((r : Result A) → Keeps P (f r))
      → Keeps P (λ s. let (r, s') = m s in f r s')
  Keeps-then m f km kf = record { after = λ s h. (kf (m s).0).after (m s).1 (km.after s h) }

  pub Keeps-if :
      {A : Type 0} (b : Bool) (m k : Exec S A)
      → Keeps P m
      → Keeps P k
      → Keeps P (if b then m else k)
  Keeps-if true m k km kk = km
  Keeps-if false m k km kk = kk

  pub Keeps-pure : {A : Type 0} (a : A) → Keeps P (pure a)
  Keeps-pure a = record { after = λ s h. h }

  pub Keeps-raise : {A : Type 0} (e : Exception) → Keeps P (raise {A = A} e)
  Keeps-raise e = record { after = λ s h. h }

  pub Keeps-lift : {A : Type 0} (r : Result A) → Keeps P (lift r)
  Keeps-lift r = record { after = λ s h. h }

  pub Keeps-or_raise : {A : Type 0} (o : Option A) (e : Exception) → Keeps P (or_raise o e)
  Keeps-or_raise none e = record { after = λ s h. h }
  Keeps-or_raise (some a) e = record { after = λ s h. h }

  pub Keeps-assert : (b : Bool) → Keeps P (assert b)
  Keeps-assert true = record { after = λ s h. h }
  Keeps-assert false = record { after = λ s h. h }

  pub Keeps-raise_if : (b : Bool) (e : Exception) → Keeps P (raise_if b e)
  Keeps-raise_if true e = record { after = λ s h. h }
  Keeps-raise_if false e = record { after = λ s h. h }

pub ruleset keeps_rules = (
  Keeps->>=, Keeps-catch, Keeps-if, Keeps-pure, Keeps-raise, Keeps-lift, Keeps-or_raise,
  Keeps-assert, Keeps-raise_if,
)
