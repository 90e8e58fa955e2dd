-- ===== src/Controller/Sampler.antt =====
-- The background sampler (sampler.go), with progressSample and hintFor of migration_controller.go. Its
-- store is explicit, and a run's pointer is a number that is never used again. The databases' answers
-- (a time and a sample, or none) are arguments; errors of a sample are only logged and left out. The
-- two pairs of gauges it writes are kept, by Migration.
pub mod Store
pub mod Steps
pub mod Confirmed
use pgcopydb_operator.Prelude.{
  ℕ, ◌+◌, Bool, true, false, not, ◌&&◌, ◌||◌, ◌==◌, ltb, if◌then◌else◌, is_some, Option, none, some,
}
use pgcopydb_operator.Migration.{
  Migration, Time, Phase, finalizing, streaming, cutover_pending, cutting_over,
}
use pgcopydb_operator.Migration.Name.{JobName, same_name}
use pgcopydb_operator.Migration.Conditions.{ConditionApi, clone_completed}
use pgcopydb_operator.Platform.Types.{Sample, Sampled, SyncRepWait}
use pgcopydb_operator.Text.{Text, same}
use pgcopydb_operator.Controller.Status.{holds, copy_seen, tables_empty_seen}
use pgcopydb_operator.Controller.Observe.{sync_rep_of, sync_rep_over}

-- types.NamespacedName
abbrev pub Key : Type 0
Key = Text × Text

abbrev pub same_key : Key → Key → Bool
same_key (a, b) (c, d) = same a c && same b d

-- samplerHint
pub record Hint : Type 0 where
  pub copy_started : Bool
  pub data_across : Bool

-- samplerRun; `id` stands for its pointer.
pub record Run : Type 0 where
  pub id : ℕ
  pub job : JobName
  pub all_databases : Bool
  pub hint : Hint
  pub last : Sampled
  pub copy_seen : Bool
  pub sync_rep_over : Bool

-- The context of Start: none before it, and canceled before the runs are stopped.
pub data Context : Type 0 where
  no_context live canceled : Context

abbrev pub is_context : Context → Bool
is_context no_context = false
is_context live = true
is_context canceled = true

abbrev pub is_live : Context → Bool
is_live no_context = false
is_live live = true
is_live canceled = false

pub record Sampler : Type 0 where
  pub ctx : Context
  pub runs : Key → Option Run
  pub next_id : ℕ
  -- The source's and the target's size gauge.
  pub sizes : Key → Option ℕ × Option ℕ
  pub waits : Key → Option SyncRepWait

abbrev pub put {ℓ} : {A : Type ℓ} → Key → A → (Key → A) → Key → A
put k a f j = if same_key k j then a else f j

-- The zero value of sampled.
abbrev pub nothing_sampled : Sampled
nothing_sampled = record { sample = none; at = 0; copy_seen = false; sync_rep_confirmed = false }

abbrev copy_started_in : Option Sample → Bool
copy_started_in none = false
copy_started_in (some s) = s.copy_started

-- A sample as it is taken.
abbrev pub taken : Time → Option Sample → Sampled
taken at s = record {
  sample = s;
  at = at;
  copy_seen = copy_started_in s;
  sync_rep_confirmed = false;
}

abbrev pub kept_size : Option ℕ → Option ℕ → Option ℕ
kept_size old none = old
kept_size old (some n) = some n

abbrev recorded : Option Sample → Bool → Option ℕ × Option ℕ → Option ℕ × Option ℕ
recorded none started old = old
recorded (some s) started (source, target) =
    (kept_size source s.source_size, kept_size target (if started then s.target_size else none))

-- recordSizes with RecordDatabaseSizes: a nil side keeps its gauge.
unfoldable pub record_sizes : Key → Option Sample → Bool → Sampler → Sampler
record_sizes key s started st = record st {
  sizes = put key (recorded s started (st.sizes key)) st.sizes;
}

-- RecordSyncRepWaits
unfoldable pub record_waits : Key → Option SyncRepWait → Sampler → Sampler
record_waits key w st = record st { waits = put key w st.waits }

-- stopLocked, Stop
unfoldable pub stop_locked : Key → Sampler → Sampler
unfolding record_waits
stop_locked key st = record_waits key none (record st { runs = put key none st.runs })

-- keepLocked's run and result where the sample is older than the one that the run holds, and where
-- it is stored.
abbrev pub latched : Run → Sampled → Run
latched run got = record run { copy_seen = run.copy_seen || got.copy_seen }

abbrev pub with_latch : Run → Sampled → Sampled
with_latch run got = record got { copy_seen = run.copy_seen || got.copy_seen }

abbrev pub stored : Run → Sampled → Sampled
stored run got = record got {
  copy_seen = run.copy_seen || got.copy_seen;
  sync_rep_confirmed = sync_rep_over (sync_rep_of got.sample) && run.sync_rep_over;
}

abbrev pub storing : Run → Sampled → Run
storing run got = record run {
  copy_seen = run.copy_seen || got.copy_seen;
  sync_rep_over = sync_rep_over (sync_rep_of got.sample);
  last = stored run got;
}

abbrev pub put_run : Key → Run → Sampler → Sampler
put_run key run st = record st { runs = put key (some run) st.runs }

-- keepLocked
unfoldable pub keep_locked : Key → Run → Sampled → Sampler → Sampler × Sampled
unfolding record_sizes record_waits
keep_locked key run got st =
    if ltb got.at run.last.at then (put_run key (latched run got) st, with_latch run got) else (
      record_waits key (sync_rep_of got.sample) (
          record_sizes key got.sample (run.hint.copy_started || (run.copy_seen || got.copy_seen))
            (put_run key (storing run got) st)),
      stored run got,
    )

abbrev pub new_run : ℕ → JobName → Bool → Hint → Run
new_run id job all_databases hint = record {
  id = id;
  job = job;
  all_databases = all_databases;
  hint = hint;
  last = nothing_sampled;
  copy_seen = false;
  sync_rep_over = false;
}

abbrev pub same_flag : Bool → Bool → Bool
same_flag true b = b
same_flag false b = not b

-- Observe with the run that stays, or a new one.
abbrev pub join : Key → JobName → Bool → Hint → Option Run → Sampler → Sampler × Option Sampled
join key job all_databases hint none st = (
  put_run key (new_run st.next_id job all_databases hint) (record st { next_id = st.next_id + 1 }),
  some nothing_sampled,
)
join key job all_databases hint (some run) st = (
  put_run key (record run { hint = hint }) st,
  some (record run.last { copy_seen = run.copy_seen }),
)

abbrev pub fits : JobName → Bool → Option Run → Bool
fits job all_databases none = true
fits job all_databases (some run) =
    same_name run.job job && same_flag run.all_databases all_databases

-- Observe; `none` is its false.
unfoldable pub observe : Key → JobName → Bool → Hint → Sampler → Sampler × Option Sampled
unfolding stop_locked
observe key job all_databases hint st =
    if not (is_context st.ctx)
    then (st, none)
    else if fits job all_databases (st.runs key)
    then join key job all_databases hint (st.runs key) st
    else join key job all_databases hint none (stop_locked key st)

abbrev pub kept_now : Key → JobName → Sampled → Option Run → Sampler → Sampler × Sampled
kept_now key job got none st = (st, got)
kept_now key job got (some run) st =
    if same_name run.job job then keep_locked key run got st else (st, got)

-- SampleNow, with the sample that it took before it locks.
unfoldable pub sample_now : Key → JobName → Sampled → Sampler → Sampler × Sampled
unfolding keep_locked
sample_now key job got st = kept_now key job got (st.runs key) st

abbrev pub kept_tick : Key → ℕ → Sampled → Option Run → Sampler → Sampler
kept_tick key id got none st = st
kept_tick key id got (some run) st =
    if is_live st.ctx && run.id == id then (keep_locked key run got st).0 else st

-- One round of the loop of a run: its context ends with the run and with Start's.
unfoldable pub tick : Key → ℕ → Sampled → Sampler → Sampler
unfolding keep_locked
tick key id got st = kept_tick key id got (st.runs key) st

-- The end of Start.
unfoldable pub end_start : Sampler → Sampler
end_start st = record st {
  ctx = no_context;
  runs = λ j. none;
  waits = λ j. if is_some (st.runs j) then none else st.waits j;
}

module _ (k : ConditionApi) where
  abbrev past_copy : Phase → Bool
  past_copy finalizing = true
  past_copy streaming = true
  past_copy cutover_pending = true
  past_copy cutting_over = true
  past_copy _ = false

  -- hintFor
  unfoldable pub hint_for : Migration → Hint
  hint_for m =
      let across = holds k m clone_completed || tables_empty_seen k m || past_copy m.status.phase in
      record { copy_started = across || copy_seen k m; data_across = across }

  abbrev directly : Key → Hint → Sampled → Sampler → Sampler × Sampled
  directly key hint got st = (
    record_waits key (sync_rep_of got.sample)
        (record_sizes key got.sample (hint.copy_started || got.copy_seen) st),
    got,
  )

  abbrev answered :
      Key → JobName → Hint → (now : Bool) → Sampled → Sampler × Option Sampled → Sampler × Sampled
  answered key job hint now got (st, none) = directly key hint got st
  answered key job hint now got (st, some seen) =
      if now then sample_now key job got st else (st, seen)

  -- progressSample, with the sample that it would take itself; the two flags are the tests
  -- `r.Progress != nil` and `r.Sampler != nil`.
  unfoldable pub progress_sample :
      (has_progress has_sampler : Bool)
      → Migration
      → JobName
      → (now : Bool) → Sampled
      → Sampler
      → Sampler × Sampled
  unfolding observe sample_now
  progress_sample false has_sampler m job now got st = (st, nothing_sampled)
  progress_sample true false m job now got st = directly (m.namespace, m.name) (hint_for m) got st
  progress_sample true true m job now got st =
      answered (m.namespace, m.name) job (hint_for m) now got
        (observe (m.namespace, m.name) job m.spec.clone.all_databases (hint_for m) st)
