-- ===== src/Prelude/Lists.antt =====
-- Lists searched by a Boolean test, and the last elements of a list.
use Prim.Native.Nat.{ℕ, zero, suc, ◌+◌, ◌-◌, ◌≤◌}
use mathlib.Core.Path.{◌≡◌, refl, ◌∙◌}
use native.Mathlib.Omega.{arith}
use mathlib.Core.Bool.{Bool, true, false}
use mathlib.Core.List.{List, [], ◌∷◌, ◌++◌}
use mathlib.Core.Option.{Option, none, some}

sub_short : (m n : ℕ) → m ≤ n → m - n ≡ 0
sub_short m n h = omega arith

sub_suc : (m n : ℕ) → n ≤ m → suc m - n ≡ suc (m - n)
sub_suc m n h = omega arith

module _ {ℓ} {A : Type ℓ} where
  -- The first element that passes the test, as a loop that returns it finds it.
  unfoldable pub first : (A → Bool) → List A → Option A
  first p [] = none
  first p (x ∷ xs) = elim (p x) [ true ↦ some x | false ↦ first p xs ]

  abbrev pub length : List A → ℕ
  length [] = 0
  length (x ∷ xs) = suc (length xs)

  -- Without the first `n` elements.
  abbrev pub drop : ℕ → List A → List A
  drop zero xs = xs
  drop (suc n) [] = []
  drop (suc n) (x ∷ xs) = drop n xs

  -- The last `n` elements, or all where there are fewer.
  abbrev pub last : ℕ → List A → List A
  last n xs = drop (length xs - n) xs

  pub length-append : (xs ys : List A) → length (xs ++ ys) ≡ length xs + length ys
  length-append [] ys = omega arith
  length-append (x ∷ xs) ys = omega (arith, length-append xs ys)

  pub last_short : (n : ℕ) (xs : List A) → length xs ≤ n → last n xs ≡ xs
  last_short n xs h = rw (sub_short (length xs) n h)

  -- One more element in front does not reach the last `n`.
  pub last-cons : (n : ℕ) (x : A) (xs : List A) → n ≤ length xs → last n (x ∷ xs) ≡ last n xs
  last-cons n x xs h = rw (sub_suc (length xs) n h)

  pub last-append : (n : ℕ) (xs ys : List A) → n ≤ length ys → last n (xs ++ ys) ≡ last n ys
  last-append n [] ys h = refl
  last-append n (x ∷ xs) ys h =
      last-cons n x (xs ++ ys) (omega (arith, length-append xs ys)) ∙ last-append n xs ys h
