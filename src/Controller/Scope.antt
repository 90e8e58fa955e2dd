-- ===== src/Controller/Scope.antt =====
-- The tables that the preflight Job audits, from clone.filters (resources.go: tableScope,
-- scopeEntries). strings.ToLower is a parameter; json.Marshal of the scope is left out.
pub mod Exact
use pgcopydb_operator.Prelude.{
  ℕ, Bool, true, false, not, ◌&&◌, ◌||◌, ◌==◌, if◌then◌else◌, is_some, Option, none, some, List, [],
  ◌∷◌, ◌++◌,
}
use pgcopydb_operator.Text.{Text, codes, same, cut}
use pgcopydb_operator.Migration.Spec.{Filters}

-- A schema and its table, `none` for the whole schema.
abbrev pub ScopeEntry : Type 0
ScopeEntry = Text × Option Text

-- strings.ContainsAny(e, `~"`)
unfoldable pub has_pattern : Text → Bool
has_pattern [] = false
has_pattern (c ∷ s) = c == b'~' || c == b'"' || has_pattern s

-- strings.Cut without a separator gives the text and an empty rest.
abbrev pub entry_of : Bool → Text → Option (Text × Text) → ScopeEntry
entry_of true e none = (e, some [])
entry_of true e (some (s, t)) = (s, some t)
entry_of false e o = (e, none)

pub record Scope : Type 0 where
  pub schemas : List ScopeEntry
  pub tables : List ScopeEntry
  pub publish : List ScopeEntry
  pub exclude : List ScopeEntry
  pub skip_data : List ScopeEntry

abbrev pub empty_scope : Scope
empty_scope = record { schemas = []; tables = []; publish = []; exclude = []; skip_data = [] }

abbrev pub if_mapped : List ScopeEntry × Bool → List ScopeEntry
if_mapped (out, true) = out
if_mapped (out, false) = []

-- The includes of both kinds, where both are mapped and a table is included.
abbrev pub publish_of : List ScopeEntry × Bool → List ScopeEntry × Bool → List ScopeEntry
publish_of (schemas, true) (t ∷ tables, true) = schemas ++ t ∷ tables
publish_of (schemas, true) ([], true) = []
publish_of (schemas, true) (tables, false) = []
publish_of (schemas, false) tables = []

module _ (to_lower : Text → Text) where
  -- The first case of scopeEntries' switch, with the entry's cut at its first dot.
  unfoldable pub inexact : Bool → Text → Option (Text × Text) → Bool
  inexact qualified e dot =
      has_pattern e
      || (qualified && not (is_some dot))
      || (not qualified && not (same e (to_lower e)))

  -- scopeEntries
  unfoldable pub scope_entries : Bool → List Text → List ScopeEntry × Bool
  scope_entries qualified [] = ([], true)
  scope_entries qualified (e ∷ es) = elim (inexact qualified e (cut (codes ".") e)) [
    | true ↦ ((scope_entries qualified es).0, false)
    | false ↦ (
      entry_of qualified e (cut (codes ".") e) ∷ (scope_entries qualified es).0,
      (scope_entries qualified es).1,
    )
  ]

  -- tableScope
  unfoldable pub table_scope : Option Filters → Scope
  table_scope none = empty_scope
  table_scope (some f) =
      let schemas : List ScopeEntry × Bool = scope_entries false f.include_only_schemas in
      let tables : List ScopeEntry × Bool = scope_entries true f.include_only_tables in
      record {
        schemas = if_mapped schemas;
        tables = if_mapped tables;
        publish = publish_of schemas tables;
        exclude =
            (scope_entries false f.exclude_schemas).0 ++ (scope_entries true f.exclude_tables).0;
        skip_data = (scope_entries true f.exclude_table_data).0;
      }
