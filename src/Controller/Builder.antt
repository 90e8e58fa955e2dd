-- ===== src/Controller/Builder.antt =====
-- What the Job builders of resources.go decide about the worker's argv, its setup and its
-- environment: buildJob, publicationDropGuard, cleanupArgs, with effectiveSlotName of follow.go. The
-- guard's SQL text is left out; it is rendered for the slot that is kept here.
pub mod Restart
use pgcopydb_operator.Prelude.{
  ℕ, Bool, true, false, not, ◌==◌, ◌&&◌, ◌||◌, if◌then◌else◌, Option, none, some, List, [], ◌∷◌,
  ◌++◌,
}
use pgcopydb_operator.Prelude.Word.{le32, lt32}
use pgcopydb_operator.Migration.{
  Migration, MigrationSpec, FollowOptions, VerificationOptions, follow_enabled,
}
use pgcopydb_operator.Migration.Conditions.{ConditionApi}
use pgcopydb_operator.Text.{Text, codes, same}
use pgcopydb_operator.Pgcopydb.Args.{
  work_dir, clone_args, follow_args, itoa, or_default, effective_runner_requests,
}
use pgcopydb_operator.Pgcopydb.Slot.{slot_name}
use pgcopydb_operator.Pgcopydb.Logs.{is_empty}
use pgcopydb_operator.Controller.Status.{snapshot_lost_seen}

abbrev slot_of : Option FollowOptions → Text
slot_of none = []
slot_of (some f) = f.slot_name

-- effectiveSlotName
unfoldable pub effective_slot_name : Migration → Text
effective_slot_name m = or_default (slot_of m.spec.follow) (slot_name m.namespace m.name)

abbrev compares_data : Option VerificationOptions → Bool
compares_data none = false
compares_data (some v) = v.compare_data

-- The specs that buildJob refuses.
unfoldable pub refuses : Migration → Bool
refuses m =
    m.spec.clone.all_databases
    && (m.spec.clone.drop_if_exists || follow_enabled m || compares_data m.spec.verification)

-- cleanupArgs
unfoldable pub cleanup_args : Migration → List Text
cleanup_args m =
    codes "stream"
    ∷ codes "cleanup"
    ∷ codes "--dir"
    ∷ work_dir
    ∷ codes "--slot-name"
    ∷ effective_slot_name m
    ∷ codes "--origin"
    ∷ effective_slot_name m
    ∷ []

abbrev guarded_plugin : Text → Bool
guarded_plugin plugin = is_empty plugin || same plugin (codes "pgoutput")

abbrev guards : Option FollowOptions → Bool
guards none = false
guards (some f) = f.enabled && is_empty f.publication && guarded_plugin f.plugin

-- publicationDropGuard: the slot that the guard is rendered for, `none` where it is empty.
unfoldable pub publication_drop_guard : Migration → (attempt : ℕ) → Option Text
publication_drop_guard m attempt =
    if le32 attempt 1
    then none
    else if guards m.spec.follow
    then some (effective_slot_name m)
    else none

-- What runs before the worker's command: the cleanup's arguments, then the guard.
pub record Setup : Type 0 where
  pub cleanup : Option (List Text)
  pub guard : Option Text

abbrev apply_group : Option FollowOptions → Option Text
apply_group none = none
apply_group (some f) =
    if f.enabled && lt32 0 f.apply_group_transactions
    then some (itoa f.apply_group_transactions)
    else none

pub record WorkerJob : Type 0 where
  pub args : List Text
  pub setup : Setup
  pub cpu : Option ℕ
  pub memory : Option ℕ
  -- PGCOPYDB_APPLY_GROUP_TXNS
  pub apply_group_txns : Option Text

module _ (k : ConditionApi) where
  -- The attempt wipes the work directory.
  unfoldable pub wipes : Migration → ℕ → Bool
  wipes m attempt = attempt == 1 || (snapshot_lost_seen k m && m.spec.clone.drop_if_exists)

  unfoldable pub worker_args : Migration → ℕ → List Text
  worker_args m attempt =
      clone_args m.spec (wipes m attempt) (not (wipes m attempt)) (not (wipes m attempt))
      ++ follow_args m.spec.follow m.namespace m.name

  unfoldable pub worker_setup : Migration → ℕ → Setup
  worker_setup m attempt = record {
    cleanup = if wipes m attempt && lt32 1 attempt then some (cleanup_args m) else none;
    guard = publication_drop_guard m attempt;
  }

  -- buildJob, with `none` its errors; jobSkeleton's pod is left out.
  unfoldable pub build_job : Migration → ℕ → Option WorkerJob
  build_job m attempt =
      if refuses m
      then none
      else some (record {
        args = worker_args m attempt;
        setup = worker_setup m attempt;
        cpu = (effective_runner_requests m.spec.runner).cpu;
        memory = (effective_runner_requests m.spec.runner).memory;
        apply_group_txns = apply_group m.spec.follow;
      })
