-- ===== src/Base/Exec.antt =====
-- Code that changes a state and may fail: what was changed before a failure stays changed.
use panda_scratchpad.Base.Outcome.{Outcome, ok, failed, fault, stuck}

abbrev pub Exec : Type 0 → Type 0 → Type 0
Exec S A = S → Outcome A × S

module _ {S A B : Type 0} where
  -- The rest of the code, behind a result.
  abbrev continue : Outcome A → (A → Exec S B) → Exec S B
  continue (ok a) f s = f a s
  continue failed f s = (failed, s)
  continue fault f s = (fault, s)
  continue stuck f s = (stuck, s)

  infixl 5 ◌>>=◌ ◌>>◌
  abbrev pub ◌>>=◌ : Exec S A → (A → Exec S B) → Exec S B
  ◌>>=◌ m f s = continue (m s).0 f (m s).1

  abbrev pub ◌>>◌ : Exec S A → Exec S B → Exec S B
  m >> n = m >>= λ _. n

module _ {S A : Type 0} where
  abbrev pub pure : A → Exec S A
  pure a s = (ok a, s)

  abbrev pub lift : Outcome A → Exec S A
  lift r s = (r, s)
