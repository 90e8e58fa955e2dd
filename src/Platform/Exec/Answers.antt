-- ===== src/Platform/Exec/Answers.antt =====
-- Methods that end with a known answer.
use pgcopydb_operator.Prelude.{◌≡◌, arith}
use pgcopydb_operator.Platform.Types.{Result, ok, err}
use pgcopydb_operator.Platform.Exec.{Pass, Exec, pure, ◌>>=◌, continue}

-- Where the method returns no error, it answers b.
pub record Answers {B : Type 0} (b : B) (m : Exec B) : Type 0 where
  pub answer : (s : Pass) (c : B) → (m s).0 ≡ ok c → c ≡ b

pub Answers-pure : {B : Type 0} (b : B) → Answers b (pure b)
unfolding pure
Answers-pure b = record { answer = λ s c e. ground (arith, e) }

module _ {A B : Type 0} where
  answer-continue :
      (b : B) (r : Result A) (f : A → Exec B) (t : Pass)
      → ((a : A) → Answers b (f a))
      → (c : B) → (continue r f t).0 ≡ ok c
      → c ≡ b
  answer-continue b (ok a) f t h c e = (h a).answer t c e
  answer-continue b (err x) f t h c e = ground (arith, e)

  pub Answers-bind :
      (b : B) (m : Exec A) (f : A → Exec B) → ((a : A) → Answers b (f a)) → Answers b (m >>= f)
  unfolding ◌>>=◌
  Answers-bind b m f h = record { answer = λ s c e. answer-continue b (m s).0 f (m s).1 h c e }

pub ruleset answer_rules = (Answers-bind, Answers-pure)
