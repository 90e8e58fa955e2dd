-- ===== src/Controller/Builder/Restart.antt =====
-- When an attempt of the worker wipes its work directory.
use pgcopydb_operator.Prelude.{
  ℕ, ◌<◌, ◌≤◌, ◌≡◌, ◌↔◌, ◌⊎◌, inl, inr, refl, sym, ◌∙◌, ap, arith, Bool, true, not, ◌==◌, ◌&&◌,
  is_some, Bool-cases, some,
}
use pgcopydb_operator.Migration.{Migration}
use pgcopydb_operator.Migration.Conditions.{ConditionApi}
use pgcopydb_operator.Text.{codes, same}
use pgcopydb_operator.Pgcopydb.Args.{clone_args}
use pgcopydb_operator.Pgcopydb.Args.Flags.{has, PlainNames, clone_args-flags, has-follow_args}
use pgcopydb_operator.Controller.Status.{snapshot_lost_seen}
use pgcopydb_operator.Controller.Builder.{
  wipes, refuses, worker_args, worker_setup, Setup, WorkerJob, build_job,
}

module _ (k : ConditionApi) where
  worker_args-flags :
      (m : Migration) (attempt : ℕ)
      → PlainNames m.spec.follow
      → (has (codes "--restart") (worker_args k m attempt) ≡ wipes k m attempt)
        × (has (codes "--resume") (worker_args k m attempt) ≡ not (wipes k m attempt))
        × (has (codes "--not-consistent") (worker_args k m attempt) ≡ not (wipes k m attempt))
  unfolding worker_args same
  worker_args-flags m attempt p =
      let b : Bool = wipes k m attempt in
      let flags : (has (codes "--restart") (clone_args m.spec b (not b) (not b)) ≡ b)
          × (has (codes "--resume") (clone_args m.spec b (not b) (not b)) ≡ not b)
          × (has (codes "--not-consistent") (clone_args m.spec b (not b) (not b)) ≡ not b) =
        clone_args-flags m.spec b (not b) (not b) in
      (
        has-follow_args (codes "--restart") _ m.spec.follow m.namespace m.name refl p ∙ flags.0,
        has-follow_args (codes "--resume") _ m.spec.follow m.namespace m.name refl p ∙ flags.1,
        has-follow_args (codes "--not-consistent") _ m.spec.follow m.namespace m.name refl p
            ∙ flags.2,
      )

  wipes_iff :
      (m : Migration) (attempt : ℕ)
      → (wipes k m attempt ≡ true)
        ↔ ((attempt ≡ 1) ⊎ ((snapshot_lost_seen k m ≡ true) × (m.spec.clone.drop_if_exists ≡ true)))
  unfolding wipes
  wipes_iff m attempt = (λ h. ground (arith, h), λ h. ground (arith, h))

  cleanup_iff :
      (m : Migration) (attempt : ℕ)
      → 1 ≤ attempt
      → attempt < 2147483648
      → is_some (worker_setup k m attempt).cleanup ≡ (wipes k m attempt && not (attempt == 1))
  unfolding worker_setup
  cleanup_iff m attempt l u = ground arith

  build_job-parts :
      (m : Migration) (attempt : ℕ) (job : WorkerJob)
      → build_job k m attempt ≡ some job
      → (worker_args k m attempt ≡ job.args) × (worker_setup k m attempt ≡ job.setup)
  unfolding build_job
  build_job-parts m attempt job h = elim (Bool-cases (refuses m)) [
    | inl q ↦ absurd (cc)
    | inr q ↦ (cc, cc)
  ]

  -- Of the Job that buildJob makes for a positive attempt, with names that are no start flags: it
  -- wipes the work directory exactly on the first attempt or after a lost snapshot with dropIfExists;
  -- it resumes, and gives up consistency, exactly where it does not wipe; and the old slot is cleaned
  -- up first exactly where a later attempt wipes.
  pub build_job-restart :
      (m : Migration) (attempt : ℕ) (job : WorkerJob)
      → 1 ≤ attempt
      → attempt < 2147483648
      → PlainNames m.spec.follow
      → build_job k m attempt ≡ some job
      → ((has (codes "--restart") job.args ≡ true) ↔ (
          (attempt ≡ 1) ⊎ ((snapshot_lost_seen k m ≡ true) × (m.spec.clone.drop_if_exists ≡ true))))
        × (has (codes "--resume") job.args ≡ not (has (codes "--restart") job.args))
        × (has (codes "--not-consistent") job.args ≡ not (has (codes "--restart") job.args))
        × (is_some job.setup.cleanup ≡ (has (codes "--restart") job.args && not (attempt == 1)))
  build_job-restart m attempt job l u p h =
      let (args, setup) = build_job-parts m attempt job h in
      let (r, s, n) = worker_args-flags m attempt p in
      let restarts : has (codes "--restart") job.args ≡ wipes k m attempt = cc in
      (
        (λ q. (wipes_iff m attempt).0 (cc), λ q. restarts ∙ (wipes_iff m attempt).1 q),
        ap (has (codes "--resume")) (sym args) ∙ s ∙ ap not (sym restarts),
        ap (has (codes "--not-consistent")) (sym args) ∙ n ∙ ap not (sym restarts),
        ap (λ (t : Setup). is_some t.cleanup) (sym setup)
            ∙ cleanup_iff m attempt l u
            ∙ ap (λ b. b && not (attempt == 1)) (sym restarts),
      )
