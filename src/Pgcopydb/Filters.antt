-- ===== src/Pgcopydb/Filters.antt =====
-- The --filters INI (RenderFilters of internal/pgcopydb/args.go, IsEmpty of api/v1beta1/filters.go).
use pgcopydb_operator.Prelude.{
  ℕ, ◌==◌, if◌then◌else◌, Bool, true, false, ◌&&◌, Option, none, some, List, [], ◌∷◌, ◌++◌,
}
use pgcopydb_operator.Migration.{Filters}
use pgcopydb_operator.Text.{Text, codes}

-- FiltersPath
abbrev pub filters_path : Text
filters_path = codes "/etc/pgcopydb/conf/filters.ini"

abbrev pub no_entry : List Text → Bool
no_entry [] = true
no_entry (e ∷ es) = false

-- Filters.IsEmpty
unfoldable pub is_empty_filters : Filters → Bool
is_empty_filters f =
    no_entry f.include_only_tables
    && no_entry f.exclude_tables
    && no_entry f.include_only_schemas
    && no_entry f.exclude_schemas
    && no_entry f.exclude_indexes
    && no_entry f.exclude_table_data
    && no_entry f.include_only_extensions
    && no_entry f.exclude_extensions

-- The entries of a section, each with its newline.
unfoldable pub entry_lines : List Text → Text
entry_lines [] = []
entry_lines (e ∷ es) = e ++ 10 ∷ entry_lines es

-- One section with the blank line behind it, nothing where it is empty.
unfoldable pub section : Text → List Text → Text
section name [] = []
section name (e ∷ es) = b'[' ∷ (name ++ b']' ∷ 10 ∷ (entry_lines (e ∷ es) ++ 10 ∷ []))

abbrev kept_newline : ℕ → Text → Text
kept_newline c [] = if c == 10 then [] else c ∷ []
kept_newline c (d ∷ s) = c ∷ d ∷ s

-- strings.TrimRight(s, "\n")
unfoldable pub trim_newlines : Text → Text
trim_newlines [] = []
trim_newlines (c ∷ s) = kept_newline c (trim_newlines s)

unfoldable pub sections : Filters → Text
sections f =
    section (codes "include-only-schema") f.include_only_schemas
    ++ (section (codes "include-only-table") f.include_only_tables
        ++ (section (codes "exclude-schema") f.exclude_schemas
            ++ (section (codes "exclude-table") f.exclude_tables
                ++ (section (codes "exclude-table-data") f.exclude_table_data
                    ++ (section (codes "exclude-index") f.exclude_indexes
                        ++ (section (codes "include-only-extension") f.include_only_extensions
                            ++ section (codes "exclude-extension") f.exclude_extensions))))))

-- RenderFilters
unfoldable pub render_filters : Option Filters → Text
render_filters none = []
render_filters (some f) = if is_empty_filters f then [] else trim_newlines (sections f) ++ 10 ∷ []
