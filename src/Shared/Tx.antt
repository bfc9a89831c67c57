-- ===== src/Shared/Tx.antt =====
-- Code inside `sql.begin(async (tx) => …)`: it reads and writes the database and may throw. A throw
-- loses the writes, since the transaction is rolled back.
use faktureringssystemet.Prelude.{Bool, true, false, Option, none, some}
use faktureringssystemet.Shared.Errors.{Error, Result, ok, err}

abbrev pub Tx : Type 0 → Type 0 → Type 0
Tx S A = S → Result (A × S)

module _ {S A : Type 0} where
  abbrev pub pure : A → Tx S A
  pure a s = ok (a, s)

  abbrev pub throw : Error → Tx S A
  throw e s = err e

  abbrev pub gets : (S → A) → Tx S A
  gets f s = ok (f s, s)

  -- `if (!x) throw e`, with the value from there on.
  abbrev pub or_throw : Option A → Error → Tx S A
  or_throw none e = throw e
  or_throw (some a) e = pure a

  -- `sql.begin`: commit, or leave the database as it was and throw.
  abbrev pub commit : S → Result (A × S) → Result A × S
  commit s (ok (a, s')) = (ok a, s')
  commit s (err e) = (err e, s)

  abbrev pub begin : Tx S A → S → Result A × S
  begin m s = commit s (m s)

  abbrev pub lift : Result A → Tx S A
  lift (ok a) = pure a
  lift (err e) = throw e

module _ {S : Type 0} where
  abbrev pub throw_if : Bool → Error → Tx S (Unit {0})
  throw_if true e = throw e
  throw_if false e = pure tt

  abbrev pub modify : (S → S) → Tx S (Unit {0})
  modify f s = ok (tt, f s)

module _ {S A B : Type 0} where
  infixl 5 ◌>>=◌ ◌>>◌
  abbrev pub ◌>>=◌ : Tx S A → (A → Tx S B) → Tx S B
  ◌>>=◌ m f s = elim (m s) [ ok (a, s') ↦ f a s' | err e ↦ err e ]

  abbrev pub ◌>>◌ : Tx S A → Tx S B → Tx S B
  m >> k = m >>= λ _. k
