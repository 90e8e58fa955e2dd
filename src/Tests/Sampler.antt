-- ===== src/Tests/Sampler.antt =====
-- The theorems on the sampler, applied to a short run.
use pgcopydb_operator.Prelude.{◌≡◌, refl, true, false, Option, none, some}
use pgcopydb_operator.Migration.Name.{worker}
use pgcopydb_operator.Platform.Types.{Sample}
use pgcopydb_operator.Text.{codes, same}
use pgcopydb_operator.Controller.Sampler.{
  Key, Hint, Run, Sampler, live, taken, observe, sample_now, stop_locked, tick, record_sizes,
  record_waits,
}
use pgcopydb_operator.Controller.Sampler.Steps.{
  new_sampler, Reach, here, next, starting, observing, sampling, Follows, run-Follows,
  stop_locked-final,
}
use pgcopydb_operator.Controller.Sampler.Confirmed.{IsConfirmed, sample_now-IsConfirmed}

abbrev key : Key
key = (codes "prod", codes "orders")

abbrev hint : Hint
hint = record { copy_started = false; data_across = false }

-- Two sessions that have waited for 40 seconds.
abbrev slow : Option Sample
slow = some (record {
  source_size = some 900;
  target_size = some 100;
  counts = none;
  copying = true;
  finalizing = false;
  copy_started = true;
  sync_rep = some (record { waiting = 2; oldest_seconds = 40; pgcopydb_named = 0 });
  lost = λ side. none;
})

abbrev started : Sampler
started = record new_sampler { ctx = live }

abbrev observed : Sampler
observed = (observe key (worker 1) false hint started).0

abbrev sampled_once : Sampler
sampled_once = (sample_now key (worker 1) (taken 10 slow) observed).0

abbrev sampled_twice : Sampler
sampled_twice = (sample_now key (worker 1) (taken 20 slow) sampled_once).0

Reach-once : Reach new_sampler sampled_once
Reach-once =
    next (next (next here starting) (observing key (worker 1) false hint))
      (sampling key (worker 1) 10 slow)

confirmed : (sample_now key (worker 1) (taken 20 slow) sampled_once).1.sync_rep_confirmed ≡ true
unfolding sample_now observe same record_sizes record_waits
confirmed = refl

sample_now-IsConfirmed_example : IsConfirmed sampled_once key (worker 1) 20 slow
sample_now-IsConfirmed_example =
    sample_now-IsConfirmed sampled_once key (worker 1) 20 slow Reach-once confirmed

abbrev run_once : Run
run_once = record {
  id = 0;
  job = worker 1;
  all_databases = false;
  hint = hint;
  last = record { sample = slow; at = 10; copy_seen = true; sync_rep_confirmed = false };
  copy_seen = true;
  sync_rep_over = true;
}

abbrev run_twice : Run
run_twice = record run_once {
  last = record { sample = slow; at = 20; copy_seen = true; sync_rep_confirmed = true };
}

run_at_once : sampled_once.runs key ≡ some run_once
unfolding sample_now observe same record_sizes record_waits
run_at_once = refl

run_at_twice : sampled_twice.runs key ≡ some run_twice
unfolding sample_now observe same record_sizes record_waits
run_at_twice = refl

run-Follows_example : Follows run_once run_twice
run-Follows_example =
    run-Follows sampled_once sampled_twice key run_once run_twice Reach-once
      (next here (sampling key (worker 1) 20 slow)) run_at_once run_at_twice refl

-- A late round of the stopped run, after a new run began for the same Job.
abbrev restarted : Sampler
restarted = (observe key (worker 1) false hint (stop_locked key sampled_once)).0

stop_locked-final_example : tick key 0 (taken 30 slow) restarted ≡ restarted
stop_locked-final_example =
    stop_locked-final sampled_once restarted key run_once (taken 30 slow) Reach-once run_at_once
      (next here (observing key (worker 1) false hint))
