-- ===== src/Memory/Act.antt =====
-- A service call: it changes the database and returns or raises. What was committed before a raise
-- stays committed.
use engineering_memory_agent.Memory.Row.{Db, Error, Result, ok, err}

abbrev pub Act : Type 0 → Type 0 → Type 0
Act V A = Db V → Result A × Db V

module _ {V : Type 0} {A : Type 0} where
  abbrev pub pure : A → Act V A
  pure a s = (ok a, s)

  abbrev pub raise : Error → Act V A
  raise e s = (err e, s)

  abbrev pub lift : Result A → Act V A
  lift r s = (r, s)

  abbrev pub gets : (Db V → A) → Act V A
  gets f s = (ok (f s), s)

module _ {V : Type 0} {A B : Type 0} where
  abbrev pub continue : Result A → (A → Act V B) → Act V B
  continue (ok a) f s = f a s
  continue (err e) f s = (err e, s)

  infixl 10 ◌>>=◌ ◌>>◌
  unfoldable pub ◌>>=◌ : Act V A → (A → Act V B) → Act V B
  ◌>>=◌ m f s = let (r, s') = m s in continue r f s'

  abbrev pub ◌>>◌ : Act V A → Act V B → Act V B
  m >> n = m >>= λ _. n

abbrev pub modify : {V : Type 0} → (Db V → Db V) → Act V Unit
modify g s = (ok tt, g s)
