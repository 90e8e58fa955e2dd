-- ===== src/Controller/Launch.antt =====
-- A method that creates one worker at most, and only the worker of the attempt after those recorded.
use pgcopydb_operator.Prelude.{
  ℕ, ◌≡◌, refl, ◌∙◌, ap, ◌⊎◌, inl, inr, subst, Bool, true, false, List, ◌∷◌, if◌then◌else◌,
}
use pgcopydb_operator.Prelude.Word.{add32}
use pgcopydb_operator.Migration.Name.{JobName, worker}
use pgcopydb_operator.Migration.Conditions.{ConditionApi}
use pgcopydb_operator.Platform.Types.{Result, ok, err, Api}
use pgcopydb_operator.Platform.Exec.{Pass, Exec, gets, pure, ask, say, ◌>>=◌, continue}
use pgcopydb_operator.Platform.Exec.Keeps.{Keeps}
use pgcopydb_operator.Controller.Frame.{workers, Calm}
use pgcopydb_operator.Controller.Onward.{Onward, Quiet, onward_rules}
use pgcopydb_operator.Controller.Jobs.{create_named}

pub record Launch (n : ℕ) (s t : Pass) : Type 0 where
  pub works : (workers t ≡ workers s) ⊎ (workers t ≡ worker n ∷ workers s)

-- The attempt that comes next.
abbrev pub upcoming : Pass → ℕ
upcoming s = add32 s.m.status.attempts 1

pub record Launches (s t : Pass) : Type 0 where
  pub works : (workers t ≡ workers s) ⊎ (workers t ≡ worker (upcoming s) ∷ workers s)

after_quiet :
    {n : JobName} {a b c : List JobName} → b ≡ a → (c ≡ b) ⊎ (c ≡ n ∷ b) → (c ≡ a) ⊎ (c ≡ n ∷ a)
after_quiet p (inl q) = inl (q ∙ p)
after_quiet {n = n} p (inr q) = inr (q ∙ ap (λ l. n ∷ l) p)

before_quiet :
    {n : JobName} {a b c : List JobName} → c ≡ b → (b ≡ a) ⊎ (b ≡ n ∷ a) → (c ≡ a) ⊎ (c ≡ n ∷ a)
before_quiet p (inl q) = inl (p ∙ q)
before_quiet p (inr q) = inr (p ∙ q)

module _ {A : Type 0} where
  pub Launch-Quiet : (n : ℕ) (m : Exec A) → Keeps Quiet m → Keeps (Launch n) m
  Launch-Quiet n m h = record { at = λ s. record { works = inl ((h.at s).works) } }

  pub Launch-if :
      (n : ℕ) (b : Bool) (m o : Exec A)
      → Keeps (Launch n) m
      → Keeps (Launch n) o
      → Keeps (Launch n) (if b then m else o)
  Launch-if n true m o h i = h
  Launch-if n false m o h i = i

  pub Launches-Quiet : (m : Exec A) → Keeps Quiet m → Keeps Launches m
  Launches-Quiet m h = record { at = λ s. record { works = inl ((h.at s).works) } }

  pub Launches-if :
      (b : Bool) (m o : Exec A)
      → Keeps Launches m
      → Keeps Launches o
      → Keeps Launches (if b then m else o)
  Launches-if true m o h i = h
  Launches-if false m o h i = i

module _ {A B : Type 0} where
  left-continue :
      (n : ℕ) (r : Result A) (f : A → Exec B) (s t : Pass)
      → workers t ≡ workers s
      → ((a : A) → Keeps (Launch n) (f a))
      → Launch n s (continue r f t).1
  left-continue n (ok a) f s t p h = record { works = after_quiet p (((h a).at t).works) }
  left-continue n (err e) f s t p h = record { works = inl p }

  pub Launch-left :
      (n : ℕ) (m : Exec A) (f : A → Exec B)
      → Keeps Quiet m
      → ((a : A) → Keeps (Launch n) (f a))
      → Keeps (Launch n) (m >>= f)
  unfolding ◌>>=◌
  Launch-left n m f h i = record {
    at = λ s. let (r, t) = m s in left-continue n r f s t ((h.at s).works) i;
  }

  right-continue :
      (n : ℕ) (r : Result A) (f : A → Exec B) (s t : Pass)
      → Launch n s t
      → ((a : A) → Keeps Quiet (f a))
      → Launch n s (continue r f t).1
  right-continue n (ok a) f s t p h = record { works = before_quiet (((h a).at t).works) (p.works) }
  right-continue n (err e) f s t p h = p

  pub Launch-right :
      (n : ℕ) (m : Exec A) (f : A → Exec B)
      → Keeps (Launch n) m
      → ((a : A) → Keeps Quiet (f a))
      → Keeps (Launch n) (m >>= f)
  unfolding ◌>>=◌
  Launch-right n m f h i = record {
    at = λ s. let (r, t) = m s in right-continue n r f s t (h.at s) i;
  }

  module _ (k : ConditionApi) where
    Calm-continue :
        (r : Result A) (f : A → Exec B) (s t : Pass)
        → Calm k s t
        → ((a : A) → Keeps Launches (f a))
        → Launches s (continue r f t).1
    Calm-continue (ok a) f s t c h = record {
      works = after_quiet c.works (
          subst
            (λ n.
              (workers (f a t).1 ≡ workers t)
              ⊎ (workers (f a t).1 ≡ worker (add32 n 1) ∷ workers t))
            c.core.attempts (((h a).at t).works));
    }
    Calm-continue (err e) f s t c h = record { works = inl c.works }

    pub Launches-left :
        (m : Exec A) (f : A → Exec B)
        → Keeps (Calm k) m
        → ((a : A) → Keeps Launches (f a))
        → Keeps Launches (m >>= f)
    unfolding ◌>>=◌
    Launches-left m f h i = record {
      at = λ s. let (r, t) = m s in Calm-continue r f s t (h.at s) i;
    }

-- The attempt that a method reads from the status is the upcoming one.
pub Launches-gets :
    {B : Type 0} (f : ℕ → Exec B)
    → ((n : ℕ) → Keeps (Launch n) (f n))
    → Keeps Launches (gets (λ s. add32 s.m.status.attempts 1) >>= f)
unfolding ◌>>=◌
Launches-gets f h = record { at = λ s. record { works = ((h (upcoming s)).at s).works } }

module _ (api : Api) where
  pub create_named-Onward : (n : JobName) → Keeps Onward (create_named api n)
  unfolding create_named
  create_named-Onward n = search onward_rules depth 12

  pub create_named-Launch : (n : ℕ) → Keeps (Launch n) (create_named api (worker n))
  unfolding create_named ask say pure ◌>>=◌
  create_named-Launch n = record { at = λ s. record { works = inr refl } }
