-- ===== src/Platform/Exec/Keeps.antt =====
-- What holds between the start and the end of a method, one rule for each way to build a method.
-- `Keeps` is for a preorder on passes; `Ends` allows the method to end in a goal instead.
use pgcopydb_operator.Prelude.{
  ◌≡◌, refl, ◌∙◌, ◌⊎◌, inl, inr, Bool, true, false, Option, none, some, List, [], ◌∷◌,
  if◌then◌else◌,
}
use pgcopydb_operator.Platform.Types.{Err, Result, ok, err, Trace}
use pgcopydb_operator.Platform.Exec.{
  Pass, Exec, pure, raise, lift, gets, ask, skip, raise_some, ◌>>=◌, caught, continue, for_each,
  until_false,
}

pub record IsPreorder (R : Pass → Pass → Type 0) : Type 0 where
  pub same : (s : Pass) → R s s
  pub chain : (s t u : Pass) → R s t → R t u → R s u

-- A view of the pass that stays as it was.
abbrev pub Same : {A : Type 0} → (Pass → A) → Pass → Pass → Type 0
Same f s t = f t ≡ f s

pub Same-IsPreorder : {A : Type 0} (f : Pass → A) → IsPreorder (Same f)
Same-IsPreorder f = record { same = λ s. refl; chain = λ s t u p q. q ∙ p }

pub record Keeps (R : Pass → Pass → Type 0) {A : Type 0} (m : Exec A) : Type 0 where
  pub at : (s : Pass) → R s (m s).1

pub record Ends (R : Pass → Pass → Type 0) (G : Pass → Type 0) {A : Type 0} (m : Exec A)
    : Type 0 where
  pub at : (s : Pass) → R s (m s).1 ⊎ G (m s).1

module _ {R : Pass → Pass → Type 0} (o : IsPreorder R) where
  module _ {A : Type 0} where
    pub Keeps-pure : (a : A) → Keeps R (pure a)
    unfolding pure
    Keeps-pure a = record { at = o.same }

    pub Keeps-raise : (e : Err) → Keeps R (raise {A = A} e)
    unfolding raise
    Keeps-raise e = record { at = o.same }

    pub Keeps-lift : (r : Result A) → Keeps R (lift r)
    unfolding lift
    Keeps-lift r = record { at = o.same }

    pub Keeps-gets : (f : Pass → A) → Keeps R (gets f)
    unfolding gets
    Keeps-gets f = record { at = o.same }

    pub Keeps-ask : (f : Trace → A) → Keeps R (ask f)
    unfolding ask
    Keeps-ask f = record { at = o.same }

    pub Keeps-caught : (m : Exec A) → Keeps R m → Keeps R (caught m)
    unfolding caught
    Keeps-caught m h = record { at = h.at }

    pub Keeps-if : (b : Bool) (m n : Exec A) → Keeps R m → Keeps R n → Keeps R (if b then m else n)
    Keeps-if true m n km kn = km
    Keeps-if false m n km kn = kn

  pub Keeps-skip : Keeps R skip
  unfolding skip
  Keeps-skip = record { at = o.same }

  pub Keeps-raise_some : (e : Option Err) → Keeps R (raise_some e)
  unfolding raise_some
  Keeps-raise_some none = record { at = o.same }
  Keeps-raise_some (some e) = record { at = o.same }

  module _ {A B : Type 0} where
    Keeps-continue :
        (r : Result A) (f : A → Exec B) (s t : Pass)
        → ((a : A) → Keeps R (f a))
        → R s t
        → R s (continue r f t).1
    Keeps-continue (ok a) f s t kf h = o.chain s t (f a t).1 h ((kf a).at t)
    Keeps-continue (err e) f s t kf h = h

    pub Keeps-bind :
        (m : Exec A) (f : A → Exec B) → Keeps R m → ((a : A) → Keeps R (f a)) → Keeps R (m >>= f)
    unfolding ◌>>=◌
    Keeps-bind m f km kf = record {
      at = λ s. let (r, t) = m s in Keeps-continue r f s t kf (km.at s);
    }

  pub Keeps-for_each :
      {A : Type 0} (f : A → Exec (Unit {0})) (l : List A)
      → ((a : A) → Keeps R (f a))
      → Keeps R (for_each f l)
  unfolding for_each
  Keeps-for_each f [] h = Keeps-skip
  Keeps-for_each f (a ∷ l) h =
      Keeps-bind (f a) (λ _. for_each f l) (h a) (λ _. Keeps-for_each f l h)

  pub Keeps-until_false :
      {A : Type 0} (f : A → Exec Bool) (l : List A)
      → ((a : A) → Keeps R (f a))
      → Keeps R (until_false f l)
  unfolding until_false
  Keeps-until_false f [] h = Keeps-pure true
  Keeps-until_false f (a ∷ l) h =
      Keeps-bind (f a) (λ go. if go then until_false f l else pure false) (h a)
        (λ go.
          Keeps-if go (until_false f l) (pure false) (Keeps-until_false f l h) (Keeps-pure false))

module _ {R : Pass → Pass → Type 0} {G : Pass → Type 0} where
  pub Ends-of : {A : Type 0} (m : Exec A) → Keeps R m → Ends R G m
  Ends-of m h = record { at = λ s. inl (h.at s) }

  pub Ends-goal : {A : Type 0} (m : Exec A) → ((s : Pass) → G (m s).1) → Ends R G m
  Ends-goal m h = record { at = λ s. inr (h s) }

  pub Ends-if :
      {A : Type 0} (b : Bool) (m n : Exec A)
      → Ends R G m
      → Ends R G n
      → Ends R G (if b then m else n)
  Ends-if true m n h i = h
  Ends-if false m n h i = i

  module _ (o : IsPreorder R) {A B : Type 0} where
    Ends-continue :
        (r : Result A) (f : A → Exec B) (s t : Pass)
        → R s t
        → ((a : A) → Ends R G (f a))
        → R s (continue r f t).1 ⊎ G (continue r f t).1
    Ends-continue (err e) f s t h kf = inl h
    Ends-continue (ok a) f s t h kf = elim ((kf a).at t) [
      | inl q ↦ inl (o.chain s t (f a t).1 h q)
      | inr g ↦ inr g
    ]

    pub Ends-bind :
        (m : Exec A) (f : A → Exec B) → Keeps R m → ((a : A) → Ends R G (f a)) → Ends R G (m >>= f)
    unfolding ◌>>=◌
    Ends-bind m f km kf = record {
      at = λ s. let (r, t) = m s in Ends-continue r f s t (km.at s) kf;
    }

pub ruleset keeps_rules = (
  Keeps-pure, Keeps-raise, Keeps-lift, Keeps-gets, Keeps-ask, Keeps-caught, Keeps-if, Keeps-skip,
  Keeps-raise_some, Keeps-bind, Keeps-for_each, Keeps-until_false,
)
