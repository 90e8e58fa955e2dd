-- ===== src/Pgcopydb/Args.antt =====
-- The argv of the worker (internal/pgcopydb/args.go and defaults.go): CloneArgs, FollowArgs and the
-- sizing behind them.
pub mod Order
pub mod Flags
use pgcopydb_operator.Prelude.{
  ℕ, ◌+◌, ◌-◌, ◌/◌, ◌%◌, ltb, ◌==◌, if◌then◌else◌, Bool, true, false, not, ◌&&◌, ◌||◌, Option, none,
  some, List, [], ◌∷◌, ◌++◌,
}
use pgcopydb_operator.Prelude.Word.{add64, lt32}
use pgcopydb_operator.Migration.{
  MigrationSpec, CloneOptions, FollowOptions, RunnerRequests, Filters,
}
use pgcopydb_operator.Text.{Text, codes, same}
use pgcopydb_operator.Text.Numbers.{decimal, format_int64}
use pgcopydb_operator.Pgcopydb.Slot.{slot_name}
use pgcopydb_operator.Pgcopydb.Filters.{is_empty_filters, filters_path}

abbrev pub work_dir : Text
work_dir = codes "/work/pgcopydb"

-- fmt's %d of an int32's bit pattern.
unfoldable pub itoa : ℕ → Text
itoa i = if ltb i 2147483648 then decimal i else b'-' ∷ decimal (4294967296 - i)

-- EffectiveRunnerResources: 4 CPUs and 4Gi where the Migration asks for none.
abbrev requested : Option ℕ → ℕ → Option ℕ
requested none default = some default
requested (some v) default = some v

unfoldable pub effective_runner_requests : RunnerRequests → RunnerRequests
effective_runner_requests r = record {
  cpu = requested r.cpu 4000;
  memory = requested r.memory 4294967296;
}

abbrev milli_value : Option ℕ → ℕ
milli_value none = 0
milli_value (some v) = v

-- int32 of an int64 division by 1000, which truncates toward zero.
abbrev thousands : ℕ → ℕ
thousands n =
    if ltb n 9223372036854775808
    then n / 1000 % 4294967296
    else (4294967296 - (18446744073709551616 - n) / 1000 % 4294967296) % 4294967296

-- tableJobsFor
unfoldable pub table_jobs_for : RunnerRequests → ℕ
table_jobs_for r =
    let cores = thousands (add64 (milli_value (effective_runner_requests r).cpu) 999) in
    if lt32 cores 4 then 4 else cores

-- splitTablesLargerThan: 512Mi
unfoldable pub split_tables_larger_than : CloneOptions → ℕ
split_tables_larger_than c = elim c.split_tables_larger_than [ none ↦ 536870912 | some q ↦ q ]

-- splitMaxParts
unfoldable pub split_max_parts : CloneOptions → ℕ
split_max_parts c = if lt32 0 c.split_max_parts then c.split_max_parts else 8

-- A map with text keys; its keys are distinct.
unfoldable pub lookup : Text → List (Text × Text) → Option Text
lookup k [] = none
lookup k ((j, v) ∷ m) = if same k j then some v else lookup k m

-- skipFlag
abbrev pub skip_flag : List (Text × Text)
skip_flag =
    (codes "largeObjects", codes "--skip-large-objects")
    ∷ (codes "extensions", codes "--skip-extensions")
    ∷ (codes "extensionComments", codes "--skip-ext-comments")
    ∷ (codes "collations", codes "--skip-collations")
    ∷ (codes "vacuum", codes "--skip-vacuum")
    ∷ (codes "analyze", codes "--skip-analyze")
    ∷ (codes "dbProperties", codes "--skip-db-properties")
    ∷ (codes "ctidSplit", codes "--skip-split-by-ctid")
    ∷ []

-- s <= t on strings: the order of the code points is that of their UTF-8 bytes.
unfoldable pub le_text : Text → Text → Bool
le_text [] t = true
le_text (c ∷ s) [] = false
le_text (c ∷ s) (d ∷ t) = ltb c d || (c == d && le_text s t)

-- slices.Sort; the sorted list does not depend on the algorithm.
unfoldable pub insert_sorted : Text → List Text → List Text
insert_sorted s [] = s ∷ []
insert_sorted s (t ∷ ts) = elim (le_text s t) [ true ↦ s ∷ t ∷ ts | false ↦ t ∷ insert_sorted s ts ]

unfoldable pub sort : List Text → List Text
sort [] = []
sort (s ∷ ts) = insert_sorted s (sort ts)

abbrev add_flag : Option Text → List Text → List Text
add_flag none flags = flags
add_flag (some f) flags = f ∷ flags

-- The loop over the sorted skips.
unfoldable pub skip_flags : List Text → List Text
skip_flags [] = []
skip_flags (s ∷ ss) = add_flag (lookup s skip_flag) (skip_flags ss)

-- A flag that is appended where its test holds, and one with a value.
abbrev pub flag : Bool → Text → List Text
flag b f = if b then f ∷ [] else []

abbrev pub jobs : Text → ℕ → List Text
jobs f n = if lt32 0 n then f ∷ itoa n ∷ [] else []

abbrev copy_binary : Option Bool → Bool
copy_binary none = true
copy_binary (some b) = b

-- FiltersArgs
unfoldable pub filters_args : Option Filters → List Text
filters_args none = []
filters_args (some f) = if is_empty_filters f then [] else codes "--filters" ∷ filters_path ∷ []

-- The arguments before the skips, those of the sections and the sizes.
unfoldable pub sized_args : MigrationSpec → List Text
sized_args spec =
    let c = spec.clone in
    codes "clone"
    ∷ codes "--dir"
    ∷ work_dir
    ∷ codes "--table-jobs"
    ∷ (if lt32 0 c.table_jobs then itoa c.table_jobs else itoa (table_jobs_for spec.runner))
    ∷ (jobs (codes "--index-jobs") c.index_jobs
        ++ (jobs (codes "--restore-jobs") c.restore_jobs
            ++ (jobs (codes "--large-objects-jobs") c.large_objects_jobs
                ++ codes "--split-tables-larger-than"
                  ∷ format_int64 (split_tables_larger_than c)
                  ∷ codes "--split-max-parts"
                  ∷ itoa (split_max_parts c)
                  ∷ [])))

unfoldable pub option_args : CloneOptions → List Text
option_args c =
    flag c.estimate_table_sizes (codes "--estimate-table-sizes")
    ++ (flag c.drop_if_exists (codes "--drop-if-exists")
        ++ (flag c.roles (codes "--roles")
            ++ (flag c.no_role_passwords (codes "--no-role-passwords")
                ++ (flag c.no_owner (codes "--no-owner")
                    ++ (flag c.no_acl (codes "--no-acl")
                        ++ (flag c.no_comments (codes "--no-comments")
                            ++ (flag c.no_tablespaces (codes "--no-tablespaces")
                                ++ (flag (copy_binary c.use_copy_binary) (codes "--use-copy-binary")
                                    ++ (flag c.fail_fast (codes "--fail-fast")
                                        ++ flag c.defer_indexes (codes "--defer-indexes"))))))))))

-- The last part of CloneArgs: how the run starts.
unfoldable pub start_args : (restart resume not_consistent : Bool) → List Text
start_args restart resume not_consistent =
    flag restart (codes "--restart")
    ++ (flag resume (codes "--resume") ++ flag not_consistent (codes "--not-consistent"))

-- CloneArgs
unfoldable pub clone_args : MigrationSpec → (restart resume not_consistent : Bool) → List Text
clone_args spec restart resume not_consistent =
    sized_args spec
    ++ (option_args spec.clone
        ++ (skip_flags (sort spec.clone.skip)
            ++ (filters_args spec.clone.filters
                ++ (flag spec.clone.all_databases (codes "--all-databases")
                    ++ start_args restart resume not_consistent))))

abbrev pub or_default : Text → Text → Text
or_default [] default = default
or_default (c ∷ s) default = c ∷ s

abbrev named : Text → Text → List Text
named f [] = []
named f (c ∷ s) = f ∷ (c ∷ s) ∷ []

abbrev followed : FollowOptions → Text → List Text
followed f slot =
    codes "--follow"
    ∷ codes "--slot-name"
    ∷ slot
    ∷ codes "--origin"
    ∷ slot
    ∷ (named (codes "--plugin") f.plugin
        ++ (named (codes "--publication") f.publication
            ++ (flag f.wal2json_numeric_as_string (codes "--wal2json-numeric-as-string")
                ++ flag f.replay_no_op_updates (codes "--replay-no-op-updates"))))

-- FollowArgs
unfoldable pub follow_args : Option FollowOptions → (namespace name : Text) → List Text
follow_args none namespace name = []
follow_args (some f) namespace name =
    if f.enabled then followed f (or_default f.slot_name (slot_name namespace name)) else []
