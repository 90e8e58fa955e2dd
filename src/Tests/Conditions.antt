-- ===== src/Tests/Conditions.antt =====
-- A list of conditions that behaves as k8s.io/apimachinery documents of its own.
use pgcopydb_operator.Prelude.{
  ℕ, ◌≡◌, refl, ◌∙◌, ap, Bool, true, false, Option, none, some, List, [], ◌∷◌, if◌then◌else◌, ◌==◌,
  arith,
}
use pgcopydb_operator.Migration.Conditions.{
  ConditionType, type_code, same_type, Verdict, yes_true, no_false, unknown, verdict_true,
  verdict_false, Condition, ConditionApi, has_status, IsLawful,
}

unfoldable pub find : List Condition → ConditionType → Option Condition
find [] t = none
find (c ∷ cs) t = let rest = find cs t in if same_type c.type t then some c else rest

unfoldable pub place : Condition → List Condition → List Condition
place c [] = c ∷ []
place c (d ∷ ds) = let rest = place c ds in if same_type d.type c.type then c ∷ ds else d ∷ rest

unfoldable pub remove : List Condition → ConditionType → List Condition
remove [] t = []
remove (c ∷ cs) t = let rest = remove cs t in if same_type c.type t then rest else c ∷ rest

abbrev same_verdict : Verdict → Verdict → Bool
same_verdict yes_true v = verdict_true v
same_verdict no_false v = verdict_false v
same_verdict unknown yes_true = false
same_verdict unknown no_false = false
same_verdict unknown unknown = true

-- The wall clock of a change that brings no time of its own.
abbrev clock : ℕ
clock = 5

abbrev stamped : Option Condition → Condition → ℕ
stamped none c = if c.last_transition == 0 then clock else c.last_transition
stamped (some d) c =
    if same_verdict d.status c.status
    then d.last_transition
    else if c.last_transition == 0
    then clock
    else c.last_transition

abbrev pub conditions : ConditionApi
conditions = record {
  find = find;
  set = λ cs c. place (record c { last_transition = stamped (find cs c.type) c }) cs;
  remove = remove;
  is_true = λ cs t. has_status verdict_true (find cs t);
  is_false = λ cs t. has_status verdict_false (find cs t);
  stamp = λ cs c. stamped (find cs c.type) c;
}

module _ {A : Type 0} (d c t : ℕ) (x y r : A) where
  shadowed :
      (d == c) ≡ true
      → (if c == t then x else r) ≡ (if c == t then x else (if d == t then y else r))
  shadowed h = ground arith

  swapped :
      (d == c) ≡ false
      → (if d == t then y else (if c == t then x else r))
        ≡ (if c == t then x else (if d == t then y else r))
  swapped h = ground arith

place-step :
    (c d : Condition) (ds : List Condition) (t : ConditionType) (b : Bool)
    → same_type d.type c.type ≡ b
    → find (place c ds) t ≡ (if same_type c.type t then some c else find ds t)
    → find (if b then c ∷ ds else d ∷ place c ds) t
      ≡ (if same_type c.type t then some c else find (d ∷ ds) t)
unfolding find
place-step c d ds t true h i =
    shadowed (type_code d.type) (type_code c.type) (type_code t) (some c) (some d) (find ds t) h
place-step c d ds t false h i =
    ap (λ r. if same_type d.type t then some d else r) i
    ∙ swapped (type_code d.type) (type_code c.type) (type_code t) (some c) (some d) (find ds t) h

find-place :
    (c : Condition) (cs : List Condition) (t : ConditionType)
    → find (place c cs) t ≡ (if same_type c.type t then some c else find cs t)
unfolding find place
find-place c [] t = refl
find-place c (d ∷ ds) t = place-step c d ds t (same_type d.type c.type) refl (find-place c ds t)

remove-step :
    (c : Condition) (cs : List Condition) (t u : ConditionType) (b : Bool)
    → same_type c.type t ≡ b
    → find (remove cs t) u ≡ (if same_type t u then none else find cs u)
    → find (if b then remove cs t else c ∷ remove cs t) u
      ≡ (if same_type t u then none else find (c ∷ cs) u)
unfolding find
remove-step c cs t u true h i =
    i ∙ shadowed (type_code c.type) (type_code t) (type_code u) none (some c) (find cs u) h
remove-step c cs t u false h i =
    ap (λ r. if same_type c.type u then some c else r) i
    ∙ swapped (type_code c.type) (type_code t) (type_code u) none (some c) (find cs u) h

find-remove :
    (cs : List Condition) (t u : ConditionType)
    → find (remove cs t) u ≡ (if same_type t u then none else find cs u)
unfolding find remove
find-remove [] t u = ground arith
find-remove (c ∷ cs) t u = remove-step c cs t u (same_type c.type t) refl (find-remove cs t u)

pub conditions-IsLawful : IsLawful conditions
conditions-IsLawful = record {
  find-set = λ cs c t. find-place _ cs t;
  find-remove = find-remove;
  is_true-find = λ cs t. refl;
  is_false-find = λ cs t. refl;
}
