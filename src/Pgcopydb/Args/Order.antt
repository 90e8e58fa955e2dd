-- ===== src/Pgcopydb/Args/Order.antt =====
-- The skips are sorted, so their order in the spec does not reach the argv.
use mathlib.Core.List.{Perm, foldr}
use mathlib.Core.List.Perm.{foldr-eq}
use pgcopydb_operator.Prelude.{
  ◌≡◌, refl, ap, ◌∙◌, sym, arith, Bool, true, false, Bool-cases, inl, inr, List, [], ◌∷◌, ◌++◌,
}
use pgcopydb_operator.Migration.{MigrationSpec}
use pgcopydb_operator.Text.{Text, codes}
use pgcopydb_operator.Pgcopydb.Args.{
  le_text, insert_sorted, sort, sized_args, option_args, split_tables_larger_than, split_max_parts,
  skip_flags, filters_args, flag, start_args, clone_args,
}

le_text_total : (s t : Text) → le_text s t ≡ false → le_text t s ≡ true
unfolding le_text
le_text_total [] t h = absurd (cc)
le_text_total (c ∷ s) [] h = refl
le_text_total (c ∷ s) (d ∷ t) h = ground (arith, le_text_total s t)

le_text_antisym : (s t : Text) → le_text s t ≡ true → le_text t s ≡ true → s ≡ t
unfolding le_text
le_text_antisym [] [] h g = refl
le_text_antisym [] (d ∷ t) h g = absurd (cc)
le_text_antisym (c ∷ s) [] h g = absurd (cc)
le_text_antisym (c ∷ s) (d ∷ t) h g = ground (arith, le_text_antisym s t)

le_text_trans : (s t u : Text) → le_text s t ≡ true → le_text t u ≡ true → le_text s u ≡ true
unfolding le_text
le_text_trans [] t u h g = refl
le_text_trans (c ∷ s) [] u h g = absurd (cc)
le_text_trans (c ∷ s) (d ∷ t) [] h g = absurd (cc)
le_text_trans (c ∷ s) (d ∷ t) (e ∷ u) h g = ground (arith, le_text_trans s t u)

insert_here :
    (s t : Text) (ts : List Text) → le_text s t ≡ true → insert_sorted s (t ∷ ts) ≡ s ∷ t ∷ ts
unfolding insert_sorted
insert_here s t ts h = rw (h, insert_sorted)

insert_there :
    (s t : Text) (ts : List Text)
    → le_text s t ≡ false
    → insert_sorted s (t ∷ ts) ≡ t ∷ insert_sorted s ts
unfolding insert_sorted
insert_there s t ts h = rw (h, insert_sorted)

Text-IsSet : IsSet (List Text)
Text-IsSet = hlevel

swapped : (s t : Text) (us : List Text) → s ≡ t → t ∷ s ∷ us ≡ s ∷ t ∷ us
swapped s t us e = cc

-- Behind a smaller text that is first, where the text would be first among the others.
insert_second :
    (s t : Text) (us : List Text)
    → le_text s t ≡ true
    → insert_sorted t us ≡ t ∷ us
    → insert_sorted t (s ∷ us) ≡ s ∷ t ∷ us
insert_second s t us h first = elim (Bool-cases (le_text t s)) [
  | inl q ↦ insert_here t s us q ∙ swapped s t us (le_text_antisym s t h q)
  | inr q ↦ insert_there t s us q ∙ ap (λ r. s ∷ r) first
]

not_before : (s t x : Text) → le_text s x ≡ true → le_text t x ≡ false → le_text t s ≡ false
not_before s t x p q = elim (Bool-cases (le_text t s)) [
  | inl r ↦ absurd (cc (le_text_trans t s x r p))
  | inr r ↦ r
]

-- Two insertions commute, here in the order of the texts.
insert_ordered :
    (s t : Text) (ts : List Text)
    → le_text s t ≡ true
    → insert_sorted s (insert_sorted t ts) ≡ insert_sorted t (insert_sorted s ts)
insert_ordered s t [] h =
    unfold insert_sorted in (insert_here s t [] h ∙ sym (insert_second s t [] h refl))
insert_ordered s t (x ∷ ts) h = elim (Bool-cases (le_text t x)) [
  | inl q ↦
      ap (insert_sorted s) (insert_here t x ts q)
      ∙ insert_here s t (x ∷ ts) h
      ∙ sym (
          ap (insert_sorted t) (insert_here s x ts (le_text_trans s t x h q))
          ∙ insert_second s t (x ∷ ts) h (insert_here t x ts q))
  | inr q ↦ elim (Bool-cases (le_text s x)) [
    | inl p ↦
        ap (insert_sorted s) (insert_there t x ts q)
        ∙ insert_here s x (insert_sorted t ts) p
        ∙ sym (
            ap (insert_sorted t) (insert_here s x ts p)
            ∙ insert_there t s (x ∷ ts) (not_before s t x p q)
            ∙ ap (λ r. s ∷ r) (insert_there t x ts q))
    | inr p ↦
        ap (insert_sorted s) (insert_there t x ts q)
        ∙ insert_there s x (insert_sorted t ts) p
        ∙ ap (λ r. x ∷ r) (insert_ordered s t ts h)
        ∙ sym
            (ap (insert_sorted t) (insert_there s x ts p) ∙ insert_there t x (insert_sorted s ts) q)
  ]
]

insert_sorted_comm :
    (s t : Text) (ts : List Text)
    → insert_sorted s (insert_sorted t ts) ≡ insert_sorted t (insert_sorted s ts)
insert_sorted_comm s t ts = elim (Bool-cases (le_text s t)) [
  | inl q ↦ insert_ordered s t ts q
  | inr q ↦ sym (insert_ordered t s ts (le_text_total s t q))
]

sort-foldr : (ts : List Text) → sort ts ≡ foldr insert_sorted [] ts
unfolding sort
sort-foldr [] = refl
sort-foldr (t ∷ ts) = ap (insert_sorted t) (sort-foldr ts)

sort-Perm : {ss ts : List Text} → Perm ss ts → sort ss ≡ sort ts
sort-Perm {ss} {ts} p =
    sort-foldr ss ∙ foldr-eq Text-IsSet insert_sorted insert_sorted_comm p [] ∙ sym (sort-foldr ts)

-- Two specs that differ in the order of their skips alone give the same argv.
pub clone_args-Perm :
    (spec : MigrationSpec) (skips : List Text) (restart resume not_consistent : Bool)
    → Perm spec.clone.skip skips
    → clone_args spec restart resume not_consistent
      ≡ clone_args
          (record spec { clone = record spec.clone { skip = skips } })
          restart
          resume
          not_consistent
unfolding clone_args sized_args option_args split_tables_larger_than split_max_parts
clone_args-Perm spec skips restart resume not_consistent p =
    ap
      (λ sorted.
        sized_args spec
        ++ (option_args spec.clone
            ++ (skip_flags sorted
                ++ (filters_args spec.clone.filters
                    ++ (flag spec.clone.all_databases (codes "--all-databases")
                        ++ start_args restart resume not_consistent)))))
      (sort-Perm p)
