-- ===== src/Controller/Sampler/Confirmed.antt =====
-- When a sample confirms a wait for a synchronous standby.
use pgcopydb_operator.Prelude.{
  ◌≤◌, ◌≡◌, refl, arith, true, ◌&&◌, ltb, Bool-cases, inl, inr, Option, none, some,
}
use pgcopydb_operator.Migration.{Time}
use pgcopydb_operator.Migration.Name.{JobName, same_name}
use pgcopydb_operator.Platform.Types.{Sample}
use pgcopydb_operator.Controller.Observe.{sync_rep_of, sync_rep_over}
use pgcopydb_operator.Controller.Sampler.{
  Key, Run, Sampler, taken, keep_locked, kept_now, sample_now,
}
use pgcopydb_operator.Controller.Sampler.Steps.{
  IsSound, Reach, new_sampler, Reach-AllSound, new_sampler-AllSound,
}

-- The run of this Job that the store holds shows a wait over the threshold in a sample that is not
-- newer, and the sample shows one too.
pub record IsConfirmed (s : Sampler) (key : Key) (job : JobName) (at : Time)
    (sample : Option Sample) : Type 0 where
  pub run : Run
  pub is_run : s.runs key ≡ some run
  pub of_job : same_name run.job job ≡ true
  pub in_order : run.last.at ≤ at
  pub before : sync_rep_over (sync_rep_of run.last.sample) ≡ true
  pub now : sync_rep_over (sync_rep_of sample) ≡ true

kept-IsConfirmed :
    (s : Sampler) (key : Key) (job : JobName) (at : Time) (sample : Option Sample) (o : Option Run)
    → s.runs key ≡ o
    → ((run : Run) → s.runs key ≡ some run → IsSound s.next_id run)
    → (kept_now key job (taken at sample) o s).1.sync_rep_confirmed ≡ true
    → IsConfirmed s key job at sample
unfolding keep_locked
kept-IsConfirmed s key job at sample none h sound c = absurd (cc)
kept-IsConfirmed s key job at sample (some run) h sound c =
    elim (Bool-cases (same_name run.job job)) [
      | inl j ↦ elim (Bool-cases (ltb at run.last.at)) [
        | inl q ↦ absurd (ground (arith, c, j, q))
        | inr q ↦
            let v : IsSound s.next_id run = sound run h in
            let both : (sync_rep_over (sync_rep_of sample) && run.sync_rep_over) ≡ true =
              rw (j, q) at c in
            record {
              run = run;
              is_run = h;
              of_job = j;
              in_order = ground (arith, q);
              before = ground (arith, both, v.flag);
              now = ground (arith, both);
            }
      ]
      | inr j ↦ absurd (cc)
    ]

-- In every reachable store a sample taken now is confirmed only if the worker's run holds an earlier
-- sample over the threshold and the new sample is over it too.
pub sample_now-IsConfirmed :
    (s : Sampler) (key : Key) (job : JobName) (at : Time) (sample : Option Sample)
    → Reach new_sampler s
    → (sample_now key job (taken at sample) s).1.sync_rep_confirmed ≡ true
    → IsConfirmed s key job at sample
unfolding sample_now
sample_now-IsConfirmed s key job at sample r c =
    kept-IsConfirmed s key job at sample (s.runs key) refl
      (Reach-AllSound new_sampler-AllSound r key) c
