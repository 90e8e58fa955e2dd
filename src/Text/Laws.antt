-- ===== src/Text/Laws.antt =====
-- Laws of the texts that the components share.
use mathlib.Core.List.{append_assoc, append-nil}
use pgcopydb_operator.Prelude.{
  ℕ, ◌≡◌, refl, ◌∙◌, subst, Bool, true, false, not, ◌&&◌, arith, [], ◌∷◌, ◌++◌, some, ◌==◌, Option,
  none, Bool-cases, inl, inr,
}
use pgcopydb_operator.Text.{
  Text, behind, same, is_space, cut, cut_prefix, trim_left, trim_right, trim_space, close,
  fields_from,
}

pub same_sound : (s t : Text) → same s t ≡ true → s ≡ t
unfolding same
same_sound [] [] h = refl
same_sound [] (d ∷ t) h = ground arith
same_sound (c ∷ s) [] h = ground arith
same_sound (c ∷ s) (d ∷ t) h = ground (arith, same_sound s t)

pub same_refl : (s : Text) → same s s ≡ true
unfolding same
same_refl [] = refl
same_refl (c ∷ s) = ground (arith, same_refl s)

-- No character of the text passes the test.
abbrev pub Free : (ℕ → Bool) → Text → Type 0
Free p [] = Unit
Free p (c ∷ s) = (p c ≡ false) × Free p s

pub Free-append : (p : ℕ → Bool) (s t : Text) → Free p s → Free p t → Free p (s ++ t)
Free-append p [] t f g = g
Free-append p (c ∷ s) t (e, f) g = (e, Free-append p s t f g)

-- One separating character is found where no earlier one stands.
pub cut-first :
    (sep : ℕ) (s t : Text) → Free (λ c. sep == c) s → cut (sep ∷ []) (s ++ sep ∷ t) ≡ some (s, t)
unfolding cut cut_prefix
cut-first sep [] t f = ground arith
cut-first sep (c ∷ s) t (e, f) = ground (arith, cut-first sep s t f)

trim_left-Free : (s : Text) → Free is_space s → trim_left s ≡ s
unfolding trim_left
trim_left-Free [] f = refl
trim_left-Free (c ∷ s) (e, f) = rw (e, trim_left)

pub trim_right-Free : (s : Text) → Free is_space s → trim_right s ≡ s
unfolding trim_right
trim_right-Free [] f = refl
trim_right-Free (c ∷ s) (e, f) = rw (e, trim_right-Free s f)

pub trim_space-Free : (s : Text) → Free is_space s → trim_space s ≡ s
unfolding trim_space
trim_space-Free s f = rw (trim_left-Free s f) (trim_right-Free s f)

-- A word is closed by the next space.
pub fields_from-word :
    (part w : Text) (c : ℕ) (t : Text)
    → Free is_space w
    → is_space c ≡ true
    → fields_from part (w ++ c ∷ t) ≡ close (part ++ w) (fields_from [] t)
unfolding fields_from
fields_from-word part [] c t f e = rw (e, append-nil part, fields_from)
fields_from-word part (d ∷ w) c t (n, f) e =
    rw (n, fields_from)
      (fields_from-word (part ++ d ∷ []) w c t f e ∙ rw (append_assoc part (d ∷ []) w))

pub fields_from-last : (part w : Text) → Free is_space w → fields_from part w ≡ close (part ++ w) []
unfolding fields_from
fields_from-last part [] f = rw (append-nil part)
fields_from-last part (d ∷ w) (n, f) =
    rw (n, fields_from) (fields_from-last (part ++ d ∷ []) w f ∙ rw (append_assoc part (d ∷ []) w))

-- Of a literal text the test is computed.
abbrev pub free : (ℕ → Bool) → Text → Bool
free p [] = true
free p (c ∷ s) = not (p c) && free p s

pub free-Free : (p : ℕ → Bool) (s : Text) → free p s ≡ true → Free p s
free-Free p [] h = tt
free-Free p (c ∷ s) h = (ground arith, free-Free p s (ground arith))

behind-joins :
    (sep c : ℕ) (e s t : Text) (o : Option (Text × Text))
    → ((a b : Text) → o ≡ some (a, b) → e ≡ a ++ sep ∷ b)
    → behind c o ≡ some (s, t)
    → c ∷ e ≡ s ++ sep ∷ t
behind-joins sep c e s t none ih h = ground (arith, h)
behind-joins sep c e [] t (some (a, b)) ih h = ground (arith, h)
behind-joins sep c e (d ∷ s) t (some (a, b)) ih h = ground (arith, ih a b refl, h)

-- A cut at one character leaves the two parts around it.
pub cut-joins : (sep : ℕ) (e s t : Text) → cut (sep ∷ []) e ≡ some (s, t) → e ≡ s ++ sep ∷ t
unfolding cut cut_prefix
cut-joins sep [] s t h = ground (arith, h)
cut-joins sep (c ∷ e) s t h = elim (Bool-cases (sep == c)) [
  | inl q ↦ ground (arith, q, h)
  | inr q ↦ behind-joins sep c e s t (cut (sep ∷ []) e) (cut-joins sep e) ((rw (q, cut) at h))
]

some_first : {s t a b : Text} → ◌≡◌ {A = Option (Text × Text)} (some (a, b)) (some (s, t)) → a ≡ s
some_first h = cc

behind-Free :
    (sep c : ℕ) (s t : Text) (o : Option (Text × Text))
    → (sep == c) ≡ false
    → ((a b : Text) → o ≡ some (a, b) → Free (λ x. sep == x) a)
    → behind c o ≡ some (s, t)
    → Free (λ x. sep == x) s
behind-Free sep c s t none q ih h = ground (arith, h)
behind-Free sep c s t (some (a, b)) q ih h =
    subst (Free (λ x. sep == x)) (some_first h) (q, ih a b refl)

-- What stands before a cut at one character is free of it.
pub cut-Free : (sep : ℕ) (e s t : Text) → cut (sep ∷ []) e ≡ some (s, t) → Free (λ x. sep == x) s
unfolding cut cut_prefix
cut-Free sep [] s t h = ground (arith, h)
cut-Free sep (c ∷ e) s t h = elim (Bool-cases (sep == c)) [
  | inl q ↦ subst (Free (λ x. sep == x)) (some_first (rw (q, cut) at h)) tt
  | inr q ↦ behind-Free sep c s t (cut (sep ∷ []) e) q (cut-Free sep e) ((rw (q, cut) at h))
]
