-- ===== src/Tests/Scope.antt =====
-- The theorem on the audited scope, applied to concrete filters.
use pgcopydb_operator.Prelude.{◌≡◌, refl, ◌+◌, leb, ◌&&◌, if◌then◌else◌, [], ◌∷◌, some, none}
use pgcopydb_operator.Text.{Text, codes, same, cut, cut_prefix}
use pgcopydb_operator.Migration.Spec.{Filters}
use pgcopydb_operator.Controller.Scope.{has_pattern, inexact, scope_entries, table_scope}
use pgcopydb_operator.Controller.Scope.Exact.{IsExact, table_scope-IsExact}

-- Lower case of the letters A to Z.
abbrev ascii_lower : Text → Text
ascii_lower [] = []
ascii_lower (c ∷ s) = (if leb b'A' c && leb c b'Z' then c + 32 else c) ∷ ascii_lower s

-- One schema, one table, and two exclusions, of which the pattern cannot be matched.
abbrev sales : Filters
sales = record {
  include_only_tables = codes "sales.orders" ∷ [];
  exclude_tables = codes "sales.log" ∷ codes "~^sales.tmp_" ∷ [];
  include_only_schemas = codes "app" ∷ [];
  exclude_schemas = [];
  exclude_indexes = [];
  exclude_table_data = [];
  include_only_extensions = [];
  exclude_extensions = [];
}

-- Both includes are published, and the pattern is no exclusion of the audit.
sales_scope : table_scope ascii_lower (some sales) ≡ record {
  schemas = (codes "app", none) ∷ [];
  tables = (codes "sales", some (codes "orders")) ∷ [];
  publish = (codes "app", none) ∷ (codes "sales", some (codes "orders")) ∷ [];
  exclude = (codes "sales", some (codes "log")) ∷ [];
  skip_data = [];
}
unfolding table_scope scope_entries inexact has_pattern cut cut_prefix same
sales_scope = refl

table_scope-IsExact_example : IsExact ascii_lower sales (table_scope ascii_lower (some sales))
table_scope-IsExact_example = table_scope-IsExact ascii_lower sales
