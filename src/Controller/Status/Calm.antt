-- ===== src/Controller/Status/Calm.antt =====
-- The status writes leave the core alone.
use pgcopydb_operator.Prelude.{refl, Bool}
use pgcopydb_operator.Migration.Conditions.{ConditionApi}
use pgcopydb_operator.Platform.Types.{Api}
use pgcopydb_operator.Platform.Exec.Keeps.{Keeps}
use pgcopydb_operator.Controller.Frame.{Still, modify-Still, still_rules}
use pgcopydb_operator.Controller.Status.{
  patch, observe_generation, update_status, rebase, patch_status_locked,
}

module _ (k : ConditionApi) (api : Api) where
  pub patch-Still : (b : Bool) → Keeps (Still k) (patch api b)
  unfolding patch
  patch-Still b = search still_rules depth 12

  pub observe_generation-Still : Keeps (Still k) (observe_generation api)
  unfolding observe_generation
  observe_generation-Still = modify-Still k _ (λ m. record {
    spec = refl;
    attempts = refl;
    replication = refl;
    complete = refl;
    cutover = refl;
  })

  rebase-Still : Keeps (Still k) (rebase api)
  unfolding rebase
  rebase-Still = record {
    at = λ s. record {
      core = record {
        spec = refl;
        attempts = refl;
        replication = refl;
        complete = refl;
        cutover = refl;
      };
      creates = refl;
      freezes = refl;
    };
  }

  pub update_status-Still : Keeps (Still k) (update_status api)
  unfolding update_status
  update_status-Still = search (still_rules, patch-Still, observe_generation-Still) depth 12

  pub patch_status_locked-Still : Keeps (Still k) (patch_status_locked api)
  unfolding patch_status_locked
  patch_status_locked-Still =
      search (still_rules, patch-Still, observe_generation-Still, rebase-Still) depth 12
