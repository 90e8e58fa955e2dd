-- ===== src/Controller/Scope/Exact.antt =====
-- The audited scope splits what the filters name: an include list is complete or void, and an exclude
-- list has exactly its exact entries.
use pgcopydb_operator.Prelude.{
  ◌≡◌, refl, sym, ◌∙◌, ap, subst, Bool, true, false, not, ◌&&◌, ◌==◌, if◌then◌else◌, arith, Option,
  none, some, List, [], ◌∷◌, ◌++◌, Bool-cases, inl, inr,
}
use pgcopydb_operator.Text.{Text, codes, cut}
use pgcopydb_operator.Text.Laws.{Free, cut-joins, cut-Free}
use pgcopydb_operator.Migration.Spec.{Filters}
use pgcopydb_operator.Controller.Scope.{
  ScopeEntry, Scope, entry_of, if_mapped, publish_of, inexact, scope_entries, table_scope,
}

-- The entry of a filter as schema and table: a qualified one is split at its first dot, any other
-- names a whole schema.
abbrev pub Splits : (qualified : Bool) → Text → ScopeEntry → Type 0
Splits true e (s, some t) = Free (λ c. b'.' == c) s × (e ≡ s ++ b'.' ∷ t)
Splits true e (s, none) = ⊥
Splits false e (s, some t) = ⊥
Splits false e (s, none) = s ≡ e

-- Two lists entry by entry.
abbrev pub AllSplit : (qualified : Bool) → List Text → List ScopeEntry → Type 0
AllSplit qualified [] [] = Unit
AllSplit qualified [] (p ∷ ps) = ⊥
AllSplit qualified (e ∷ es) [] = ⊥
AllSplit qualified (e ∷ es) (p ∷ ps) = Splits qualified e p × AllSplit qualified es ps

-- The include list that is audited: complete, or void where an entry cannot be matched.
abbrev pub complete : Bool → List Text → List Text
complete true es = es
complete false es = []

-- The includes that the publication has: those of both kinds, beside a table only.
abbrev pub published : Bool → (schemas tables : List ScopeEntry) → List ScopeEntry
published exact schemas [] = []
published true schemas (t ∷ tables) = schemas ++ t ∷ tables
published false schemas (t ∷ tables) = []

complete-if_mapped :
    (qualified : Bool) (es : List Text) (a : List ScopeEntry × Bool)
    → (a.1 ≡ true → AllSplit qualified es a.0)
    → AllSplit qualified (complete a.1 es) (if_mapped a)
complete-if_mapped qualified es (out, true) h = h refl
complete-if_mapped qualified es (out, false) h = tt

publish_mapped :
    (a b : List ScopeEntry × Bool)
    → publish_of a b ≡ published (a.1 && b.1) (if_mapped a) (if_mapped b)
publish_mapped (out, true) ([], true) = refl
publish_mapped (out, true) (p ∷ ps, true) = refl
publish_mapped (out, true) (ps, false) = refl
publish_mapped (out, false) ([], true) = refl
publish_mapped (out, false) (p ∷ ps, true) = refl
publish_mapped (out, false) (ps, false) = refl

module _ (to_lower : Text → Text) where
  abbrev is_inexact : Bool → Text → Bool
  is_inexact qualified e = inexact to_lower qualified e (cut (codes ".") e)

  -- The entries that can be matched exactly.
  abbrev pub exact_entries : Bool → List Text → List Text
  exact_entries qualified [] = []
  exact_entries qualified (e ∷ es) =
      let rest = exact_entries qualified es in if is_inexact qualified e then rest else e ∷ rest

  abbrev pub all_exact : Bool → List Text → Bool
  all_exact qualified [] = true
  all_exact qualified (e ∷ es) = not (is_inexact qualified e) && all_exact qualified es

  entry_of-Splits :
      (qualified : Bool) (e : Text) (o : Option (Text × Text))
      → cut (codes ".") e ≡ o
      → inexact to_lower qualified e o ≡ false
      → Splits qualified e (entry_of qualified e o)
  unfolding inexact
  entry_of-Splits true e none d h = ground (arith, h)
  entry_of-Splits true e (some (s, t)) d h = (cut-Free b'.' e s t d, cut-joins b'.' e s t d)
  entry_of-Splits false e o d h = refl

  scope_entries-AllSplit :
      (qualified : Bool) (es : List Text)
      → AllSplit qualified (exact_entries qualified es) (scope_entries to_lower qualified es).0
  unfolding scope_entries
  scope_entries-AllSplit qualified [] = tt
  scope_entries-AllSplit qualified (e ∷ es) = elim (Bool-cases (is_inexact qualified e)) [
    | inl q ↦ rw (q, scope_entries) (scope_entries-AllSplit qualified es)
    | inr q ↦
        rw (q, scope_entries)
          (
            entry_of-Splits qualified e (cut (codes ".") e) refl q,
            scope_entries-AllSplit qualified es,
          )
  ]

  scope_entries-all_exact :
      (qualified : Bool) (es : List Text)
      → (scope_entries to_lower qualified es).1 ≡ all_exact qualified es
  unfolding scope_entries
  scope_entries-all_exact qualified [] = refl
  scope_entries-all_exact qualified (e ∷ es) = elim (Bool-cases (is_inexact qualified e)) [
    | inl q ↦ rw (q, scope_entries) refl
    | inr q ↦ rw (q, scope_entries) (scope_entries-all_exact qualified es)
  ]

  exact_entries-all_exact :
      (qualified : Bool) (es : List Text)
      → all_exact qualified es ≡ true
      → exact_entries qualified es ≡ es
  exact_entries-all_exact qualified [] h = refl
  exact_entries-all_exact qualified (e ∷ es) h = elim (Bool-cases (is_inexact qualified e)) [
    | inl q ↦ ground (arith, q, h)
    | inr q ↦ ground (arith, q, exact_entries-all_exact qualified es, h)
  ]

  mapped_all :
      (qualified : Bool) (es : List Text)
      → (scope_entries to_lower qualified es).1 ≡ true
      → AllSplit qualified es (scope_entries to_lower qualified es).0
  mapped_all qualified es h =
      subst (λ xs. AllSplit qualified xs (scope_entries to_lower qualified es).0)
        (exact_entries-all_exact qualified es (sym (scope_entries-all_exact qualified es) ∙ h))
        (scope_entries-AllSplit qualified es)

  included :
      (qualified : Bool) (es : List Text)
      → AllSplit qualified
          (complete (all_exact qualified es) es)
          (if_mapped (scope_entries to_lower qualified es))
  included qualified es =
      subst
        (λ b. AllSplit qualified (complete b es) (if_mapped (scope_entries to_lower qualified es)))
        (scope_entries-all_exact qualified es)
        (complete-if_mapped qualified es (scope_entries to_lower qualified es)
          (mapped_all qualified es))

  -- What a scope has of the filters.
  pub record IsExact (f : Filters) (s : Scope) : Type 0 where
    pub schemas :
        AllSplit false
          (complete (all_exact false f.include_only_schemas) f.include_only_schemas)
          s.schemas
    pub tables :
        AllSplit true
          (complete (all_exact true f.include_only_tables) f.include_only_tables)
          s.tables
    pub publish :
        s.publish
        ≡ published
            (all_exact false f.include_only_schemas && all_exact true f.include_only_tables)
            s.schemas
            s.tables
    pub exclude :
        (a : List ScopeEntry) × (b : List ScopeEntry) × (s.exclude ≡ a ++ b)
        × AllSplit false (exact_entries false f.exclude_schemas) a
        × AllSplit true (exact_entries true f.exclude_tables) b
    pub skip_data : AllSplit true (exact_entries true f.exclude_table_data) s.skip_data

  -- The scope of the audits has the filters split into schema and table, a table entry at its first
  -- dot: an include list is complete, or void where one of its entries cannot be matched exactly; the
  -- publication's includes are both lists, beside a table and where both are exact, else void; an
  -- exclude list keeps its exact entries alone.
  pub table_scope-IsExact : (f : Filters) → IsExact f (table_scope to_lower (some f))
  unfolding table_scope
  table_scope-IsExact f =
      let ss : List Text = f.include_only_schemas in
      let ts : List Text = f.include_only_tables in
      let a : List ScopeEntry × Bool = scope_entries to_lower false ss in
      let b : List ScopeEntry × Bool = scope_entries to_lower true ts in
      record {
        schemas = included false ss;
        tables = included true ts;
        publish =
            publish_mapped a b
            ∙ ap (λ q. published (q && b.1) (if_mapped a) (if_mapped b))
                (scope_entries-all_exact false ss)
            ∙ ap (λ q. published (all_exact false ss && q) (if_mapped a) (if_mapped b))
                (scope_entries-all_exact true ts);
        exclude = (
          (scope_entries to_lower false f.exclude_schemas).0,
          (scope_entries to_lower true f.exclude_tables).0,
          refl,
          scope_entries-AllSplit false f.exclude_schemas,
          scope_entries-AllSplit true f.exclude_tables,
        );
        skip_data = scope_entries-AllSplit true f.exclude_table_data;
      }
