-- ===== src/Controller/Compare/Items.antt =====
-- The progress list as a map from the kind of a run to its latest item.
use pgcopydb_operator.Prelude.{
  ℕ, ◌+◌, ◌≤◌, Bool-cases, inl, inr, ◌≡◌, refl, ◌∙◌, sym, ap, Bool, true, false, ◌&&◌, Option, none,
  some, List, [], ◌∷◌, if◌then◌else◌, arith,
}
use pgcopydb_operator.Migration.{
  ProgressKind, rehearsal_run, drain_run, data_run, VerificationProgress,
}
use pgcopydb_operator.Controller.Compare.{same_kind, replace_item}

same_kind_refl : (a : ProgressKind) → same_kind a a ≡ true
same_kind_refl rehearsal_run = refl
same_kind_refl drain_run = refl
same_kind_refl data_run = refl

same_kind_trans : (a b c : ProgressKind) → same_kind a b ≡ true → same_kind a c ≡ same_kind b c
same_kind_trans rehearsal_run rehearsal_run c h = refl
same_kind_trans drain_run drain_run c h = refl
same_kind_trans data_run data_run c h = refl
same_kind_trans rehearsal_run drain_run c h = ground arith
same_kind_trans rehearsal_run data_run c h = ground arith
same_kind_trans drain_run rehearsal_run c h = ground arith
same_kind_trans drain_run data_run c h = ground arith
same_kind_trans data_run rehearsal_run c h = ground arith
same_kind_trans data_run drain_run c h = ground arith

-- The item of a kind, as readers of the list find it.
pub item_of : ProgressKind → List VerificationProgress → Option VerificationProgress
item_of kind [] = none
item_of kind (p ∷ ps) = let rest = item_of kind ps in if same_kind p.kind kind then some p else rest

if-same :
    {A : Type 0} (b c : Bool) (x y r : A)
    → b ≡ c
    → (if b then x else (if c then y else r)) ≡ (if b then x else r)
if-same true c x y r h = refl
if-same false true x y r h = ground arith
if-same false false x y r h = refl

if-swap :
    {A : Type 0} (b c : Bool) (x y r : A)
    → b && c ≡ false
    → (if b then x else (if c then y else r)) ≡ (if c then y else (if b then x else r))
if-swap true true x y r h = ground arith
if-swap true false x y r h = refl
if-swap false c x y r h = refl

apart : (a b c : ProgressKind) → same_kind a b ≡ false → same_kind a c && same_kind b c ≡ false
apart rehearsal_run rehearsal_run c h = ground arith
apart drain_run drain_run c h = ground arith
apart data_run data_run c h = ground arith
apart rehearsal_run drain_run rehearsal_run h = refl
apart rehearsal_run drain_run drain_run h = refl
apart rehearsal_run drain_run data_run h = refl
apart rehearsal_run data_run rehearsal_run h = refl
apart rehearsal_run data_run drain_run h = refl
apart rehearsal_run data_run data_run h = refl
apart drain_run rehearsal_run rehearsal_run h = refl
apart drain_run rehearsal_run drain_run h = refl
apart drain_run rehearsal_run data_run h = refl
apart drain_run data_run rehearsal_run h = refl
apart drain_run data_run drain_run h = refl
apart drain_run data_run data_run h = refl
apart data_run rehearsal_run rehearsal_run h = refl
apart data_run rehearsal_run drain_run h = refl
apart data_run rehearsal_run data_run h = refl
apart data_run drain_run rehearsal_run h = refl
apart data_run drain_run drain_run h = refl
apart data_run drain_run data_run h = refl

replace-step :
    (i p : VerificationProgress) (ps : List VerificationProgress) (kind : ProgressKind) (b : Bool)
    → same_kind p.kind i.kind ≡ b
    → item_of kind (replace_item i ps) ≡ (if same_kind i.kind kind then some i else item_of kind ps)
    → item_of kind (if b then i ∷ ps else p ∷ replace_item i ps)
      ≡ (if same_kind i.kind kind then some i else item_of kind (p ∷ ps))
unfolding item_of
replace-step i p ps kind true h e =
    sym (if-same (same_kind i.kind kind) _ _ _ _ (sym (same_kind_trans p.kind i.kind kind h)))
replace-step i p ps kind false h e =
    ap (λ r. if same_kind p.kind kind then some p else r) e
    ∙ if-swap (same_kind p.kind kind) (same_kind i.kind kind) _ _ _ (apart p.kind i.kind kind h)

replace_item-item_of :
    (i : VerificationProgress) (ps : List VerificationProgress) (kind : ProgressKind)
    → item_of kind (replace_item i ps) ≡ (if same_kind i.kind kind then some i else item_of kind ps)
unfolding item_of replace_item
replace_item-item_of i [] kind = refl
replace_item-item_of i (p ∷ ps) kind =
    replace-step i p ps kind (same_kind p.kind i.kind) refl (replace_item-item_of i ps kind)

abbrev one_if : Bool → ℕ
one_if true = 1
one_if false = 0

-- How many items of a kind the list has.
abbrev pub items : ProgressKind → List VerificationProgress → ℕ
items kind [] = 0
items kind (p ∷ ps) = one_if (same_kind p.kind kind) + items kind ps

other-step :
    (i p : VerificationProgress) (ps : List VerificationProgress) (kind : ProgressKind) (b : Bool)
    → same_kind p.kind i.kind ≡ b
    → same_kind i.kind kind ≡ false
    → items kind (replace_item i ps) ≡ items kind ps
    → items kind (if b then i ∷ ps else p ∷ replace_item i ps) ≡ items kind (p ∷ ps)
other-step i p ps kind true h o e = ground (arith, o, same_kind_trans p.kind i.kind kind h)
other-step i p ps kind false h o e = ap (λ n. one_if (same_kind p.kind kind) + n) e

replace_item-other :
    (i : VerificationProgress) (ps : List VerificationProgress) (kind : ProgressKind)
    → same_kind i.kind kind ≡ false
    → items kind (replace_item i ps) ≡ items kind ps
unfolding replace_item
replace_item-other i [] kind o = ground (arith, o)
replace_item-other i (p ∷ ps) kind o =
    other-step i p ps kind (same_kind p.kind i.kind) refl o (replace_item-other i ps kind o)

same-step :
    (i p : VerificationProgress) (ps : List VerificationProgress) (kind : ProgressKind) (b : Bool)
    → same_kind p.kind i.kind ≡ b
    → same_kind i.kind kind ≡ true
    → items kind (p ∷ ps) ≤ 1
    → (items kind ps ≤ 1 → items kind (replace_item i ps) ≡ 1)
    → items kind (if b then i ∷ ps else p ∷ replace_item i ps) ≡ 1
same-step i p ps kind true h o l e = ground (arith, o, l, same_kind_trans p.kind i.kind kind h)
same-step i p ps kind false h o l e =
    ground (arith, o, l, apart p.kind i.kind kind h, e (omega (arith, l)))

replace_item-same :
    (i : VerificationProgress) (ps : List VerificationProgress) (kind : ProgressKind)
    → same_kind i.kind kind ≡ true
    → items kind ps ≤ 1
    → items kind (replace_item i ps) ≡ 1
unfolding replace_item
replace_item-same i [] kind o l = ground (arith, o)
replace_item-same i (p ∷ ps) kind o l =
    same-step i p ps kind (same_kind p.kind i.kind) refl o l (replace_item-same i ps kind o)

-- What recording an item makes of a kind.
pub record IsRecorded (i : VerificationProgress) (ps : List VerificationProgress)
    (kind : ProgressKind) : Type 0 where
  pub single : items kind (replace_item i ps) ≡ (if same_kind i.kind kind then 1 else items kind ps)
  pub found :
      item_of kind (replace_item i ps) ≡ (if same_kind i.kind kind then some i else item_of kind ps)

-- Recording a progress item in a list with one item of each kind at most leaves exactly one of its
-- kind, that item, and the number and the first item of every other kind as they were.
pub replace_item-IsRecorded :
    (i : VerificationProgress) (ps : List VerificationProgress) (kind : ProgressKind)
    → items kind ps ≤ 1
    → IsRecorded i ps kind
replace_item-IsRecorded i ps kind l = record {
  single = elim (Bool-cases (same_kind i.kind kind)) [
    | inl q ↦ rw q (replace_item-same i ps kind q l)
    | inr q ↦ rw q (replace_item-other i ps kind q)
  ];
  found = replace_item-item_of i ps kind;
}
