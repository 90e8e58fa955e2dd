-- ===== src/Platform/Exec.antt =====
-- A method of the reconciler: it works on the object in memory, `m`, against the object as
-- fetched, `base`, and may return an error. What it changed before an error stays changed.
pub mod Keeps
pub mod Answers
use pgcopydb_operator.Prelude.{
  ℕ, ◌≡◌, refl, Bool, true, false, Option, none, some, List, [], ◌∷◌, if◌then◌else◌,
}
use pgcopydb_operator.Migration.{Migration, MigrationStatus, Time}
use pgcopydb_operator.Platform.Types.{Err, Result, ok, err, Call, Trace}

pub record Pass : Type 0 where
  pub m : Migration
  pub base : Migration
  pub calls : Trace

abbrev pub Exec : Type 0 → Type 0
Exec A = Pass → Result A × Pass

module _ {A : Type 0} where
  unfoldable pub pure : A → Exec A
  pure a s = (ok a, s)

  unfoldable pub raise : Err → Exec A
  raise e s = (err e, s)

  unfoldable pub lift : Result A → Exec A
  lift r s = (r, s)

  unfoldable pub gets : (Pass → A) → Exec A
  gets f s = (ok (f s), s)

  -- A reply of the world to the calls made so far.
  unfoldable pub ask : (Trace → A) → Exec A
  ask f s = (ok (f s.calls), s)

  -- The result of a call as a value, for a caller that reads its error.
  unfoldable pub caught : Exec A → Exec (Result A)
  caught m s = let (r, s') = m s in (ok r, s')

unfoldable pub skip : Exec (Unit {0})
skip s = (ok tt, s)

unfoldable pub say : Call → Exec (Unit {0})
say c s = (ok tt, record s { calls = c ∷ s.calls })

unfoldable pub modify : (Migration → Migration) → Exec (Unit {0})
modify f s = (ok tt, record s { m = f s.m })

unfoldable pub status : (MigrationStatus → MigrationStatus) → Exec (Unit {0})
status f s = (ok tt, record s { m = record s.m { status = f s.m.status } })

unfoldable pub raise_some : Option Err → Exec (Unit {0})
raise_some none s = (ok tt, s)
raise_some (some e) s = (err e, s)

module _ {A B : Type 0} where
  abbrev pub continue : Result A → (A → Exec B) → Exec B
  continue (ok a) f s = f a s
  continue (err e) f s = (err e, s)

  infixl 5 ◌>>=◌ ◌>>◌
  unfoldable pub ◌>>=◌ : Exec A → (A → Exec B) → Exec B
  unfolding pure raise lift gets ask caught skip say modify status raise_some
  ◌>>=◌ m f s = let (r, s') = m s in continue r f s'

  abbrev pub ◌>>◌ : Exec A → Exec B → Exec B
  m >> n = m >>= λ _. n

abbrev pub when : Bool → Exec (Unit {0}) → Exec (Unit {0})
when b m = if b then m else skip

-- A loop whose body may return an error.
unfoldable pub for_each : {A : Type 0} → (A → Exec (Unit {0})) → List A → Exec (Unit {0})
for_each f [] = skip
for_each f (a ∷ l) = f a >> for_each f l

-- A loop that ends with false where its body answers so, and with true at the end.
pub until_false : {A : Type 0} → (A → Exec Bool) → List A → Exec Bool
until_false f [] = pure true
until_false f (a ∷ l) = let rest = until_false f l in f a >>= λ go. if go then rest else pure false
