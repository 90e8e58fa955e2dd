-- ===== src/Controller/Sampler/Steps.antt =====
-- The sampler as a system of steps: passes that observe, sample and stop, the loops of its runs, and
-- the start and end of the manager's leadership, in any order.
use pgcopydb_operator.Prelude.{
  ℕ, ◌<◌, ◌≤◌, ◌≡◌, refl, sym, ◌∙◌, subst, arith, Bool, true, ◌&&◌, ◌||◌, ◌==◌, Bool-cases, inl,
  inr, Option, none, some,
}
use pgcopydb_operator.Migration.{Time}
use pgcopydb_operator.Migration.Name.{JobName}
use pgcopydb_operator.Platform.Types.{Sample, Sampled}
use pgcopydb_operator.Controller.Observe.{sync_rep_of, sync_rep_over}
use pgcopydb_operator.Controller.Sampler.{
  Key, Hint, Run, no_context, live, canceled, Sampler, taken, new_run, latched, storing, is_live,
  stop_locked, observe, sample_now, tick, kept_tick, end_start,
}
use pgcopydb_operator.Controller.Sampler.Store.{
  Fate, left_alone, ended, begun, hinted, outdated, updated, stop_locked-Fate, sample_now-Fate,
  tick-Fate, end_start-Fate, observe-Fate, same_key_refl,
}

-- NewSampler
abbrev pub new_sampler : Sampler
new_sampler = record {
  ctx = no_context;
  runs = λ key. none;
  next_id = 0;
  sizes = λ key. (none, none);
  waits = λ key. none;
}

pub data Step (s : Sampler) : Sampler → Type 0 where
  starting : Step s (record s { ctx = live })
  canceling : Step s (record s { ctx = canceled })
  ending : Step s (end_start s)
  observing :
      (key : Key) (job : JobName) (all_databases : Bool) (hint : Hint)
      → Step s (observe key job all_databases hint s).0
  sampling :
      (key : Key) (job : JobName) (at : Time) (sample : Option Sample)
      → Step s (sample_now key job (taken at sample) s).0
  ticking :
      (key : Key) (id : ℕ) (at : Time) (sample : Option Sample)
      → Step s (tick key id (taken at sample) s)
  stopping : (key : Key) → Step s (stop_locked key s)

pub data Reach (s : Sampler) : Sampler → Type 0 where
  here : Reach s s
  next : {t u : Sampler} → Reach s t → Step t u → Reach s u

Step-Fate : {s t : Sampler} (j : Key) → Step s t → Fate s t j
Step-Fate {s} j starting = left_alone refl (omega arith)
Step-Fate {s} j canceling = left_alone refl (omega arith)
Step-Fate {s} j ending = end_start-Fate j s
Step-Fate {s} j (observing key job all_databases hint) = observe-Fate key j job all_databases hint s
Step-Fate {s} j (sampling key job at sample) = sample_now-Fate key j job (taken at sample) s
Step-Fate {s} j (ticking key id at sample) = tick-Fate key j id (taken at sample) s
Step-Fate {s} j (stopping key) = stop_locked-Fate key j s

-- What holds of each run: its number was given out, the flag of SyncRep is that of the sample it
-- holds, and a confirmed sample is over the threshold.
pub record IsSound (bound : ℕ) (run : Run) : Type 0 where
  pub numbered : run.id < bound
  pub flag : run.sync_rep_over ≡ sync_rep_over (sync_rep_of run.last.sample)
  pub over : run.last.sync_rep_confirmed ≡ true → run.sync_rep_over ≡ true

abbrev pub AllSound : Sampler → Type 0
AllSound s = (j : Key) (run : Run) → s.runs j ≡ some run → IsSound s.next_id run

some_inj : {a b : Run} → some a ≡ some b → a ≡ b
some_inj e = cc

-- The run under a key after an operation is sound if the run before it was.
IsSound-after :
    (s t : Sampler) (j : Key)
    → ((run : Run) → s.runs j ≡ some run → IsSound s.next_id run)
    → Fate s t j
    → (run : Run) → t.runs j ≡ some run
    → IsSound t.next_id run
IsSound-after s t j old (left_alone e n) run h =
    let v : IsSound s.next_id run = old run (sym e ∙ h) in
    record { numbered = omega (arith, v.numbered, n); flag = v.flag; over = v.over }
IsSound-after s t j old (ended e n) run h = absurd (cc)
IsSound-after s t j old (begun job all_databases hint e n) run h =
    subst (IsSound t.next_id) (some_inj (sym e ∙ h))
      (record { numbered = omega (arith, n); flag = refl; over = λ c. absurd (cc) })
IsSound-after s t j old (hinted r hint q e n) run h =
    let v : IsSound s.next_id r = old r q in
    subst (IsSound t.next_id) (some_inj (sym e ∙ h))
      (record { numbered = omega (arith, v.numbered, n); flag = v.flag; over = v.over })
IsSound-after s t j old (outdated r got q e n) run h =
    let v : IsSound s.next_id r = old r q in
    subst (IsSound t.next_id) (some_inj (sym e ∙ h))
      (record { numbered = omega (arith, v.numbered, n); flag = v.flag; over = v.over })
IsSound-after s t j old (updated r got q late e n) run h =
    let v : IsSound s.next_id r = old r q in
    subst (IsSound t.next_id) (some_inj (sym e ∙ h)) (record {
      numbered = omega (arith, v.numbered, n);
      flag = refl;
      over = λ c. ground (arith, c);
    })

Step-AllSound : {s t : Sampler} → Step s t → AllSound s → AllSound t
Step-AllSound {s} {t} st a j = IsSound-after s t j (a j) (Step-Fate j st)

pub Reach-AllSound : {s t : Sampler} → AllSound s → Reach s t → AllSound t
Reach-AllSound a here = a
Reach-AllSound a (next r st) = Step-AllSound st (Reach-AllSound a r)

pub new_sampler-AllSound : AllSound new_sampler
new_sampler-AllSound j run h = absurd (cc)

-- What a later store may hold under a key: nothing of the run `r`, or the same run with a sample that
-- is no older and the copy seen where it was.
abbrev pub Follows : Run → Run → Type 0
Follows r run = (r.last.at ≤ run.last.at) × (r.copy_seen ≡ true → run.copy_seen ≡ true)

-- A property of a run that what happens to the run keeps.
pub record IsKept (P : Run → Type 0) : Type 0 where
  pub hint : (r : Run) (hint : Hint) → P r → P (record r { hint = hint })
  pub latch : (r : Run) (got : Sampled) → P r → P (latched r got)
  pub store : (r : Run) (got : Sampled) → r.last.at ≤ got.at → P r → P (storing r got)

-- All numbers below the bound were given out, and the run with this number, if it stands under the
-- key, has the property.
pub record Later (P : Run → Type 0) (bound id : ℕ) (t : Sampler) (j : Key) : Type 0 where
  pub grown : bound ≤ t.next_id
  pub same : (run : Run) → t.runs j ≡ some run → run.id ≡ id → P run

id_of : (a b : Run) (i : ℕ) → a ≡ b → b.id ≡ i → a.id ≡ i
id_of a b i e h = cc

module _ (P : Run → Type 0) (kept : IsKept P) (bound id : ℕ) (given : id < bound) where
  -- Where the store has one run under a key, made of one that has the property.
  from_one :
      (t u : Sampler) (j : Key) (m : Run)
      → bound ≤ u.next_id
      → u.runs j ≡ some m
      → (m.id ≡ id → P m)
      → Later P bound id u j
  from_one t u j m n e p = record {
    grown = n;
    same = λ run h i. subst P (some_inj (sym e ∙ h)) (p (id_of m run id (some_inj (sym e ∙ h)) i));
  }

  Later-after : (t u : Sampler) (j : Key) → Later P bound id t j → Fate t u j → Later P bound id u j
  Later-after t u j v (left_alone e n) = record {
    grown = omega (arith, v.grown, n);
    same = λ run h. v.same run (sym e ∙ h);
  }
  Later-after t u j v (ended e n) = record {
    grown = omega (arith, v.grown, n);
    same = λ run h i. absurd (cc);
  }
  Later-after t u j v (begun job all_databases hint e n) =
      from_one t u j (new_run t.next_id job all_databases hint) (omega (arith, v.grown, n)) e
        (λ i. absurd (omega (arith, given, v.grown, i)))
  Later-after t u j v (hinted m hint q e n) =
      from_one t u j (record m { hint = hint }) (omega (arith, v.grown, n)) e
        (λ i. kept.hint m hint (v.same m q i))
  Later-after t u j v (outdated m got q e n) =
      from_one t u j (latched m got) (omega (arith, v.grown, n)) e
        (λ i. kept.latch m got (v.same m q i))
  Later-after t u j v (updated m got q late e n) =
      from_one t u j (storing m got) (omega (arith, v.grown, n)) e
        (λ i. kept.store m got late (v.same m q i))

  Reach-Later : {t u : Sampler} (j : Key) → Later P bound id t j → Reach t u → Later P bound id u j
  Reach-Later j v here = v
  Reach-Later j v (next {t} {u} p st) = Later-after t u j (Reach-Later j v p) (Step-Fate j st)

Follows-or :
    (r run : Run) (b : Bool) → Follows r run → r.copy_seen ≡ true → (run.copy_seen || b) ≡ true
Follows-or r run b f c = rw (f.1 c)

Follows-IsKept : (r : Run) → IsKept (Follows r)
Follows-IsKept r = record {
  hint = λ m h f. f;
  latch = λ m got f. (f.0, Follows-or r m got.copy_seen f);
  store = λ m got late f. (omega (arith, f.0, late), Follows-or r m got.copy_seen f);
}

-- As long as a run lasts, from any reachable store to any later one, the sample that it holds never
-- gets older and a copy that it saw stays seen.
pub run-Follows :
    (s t : Sampler) (key : Key) (run later : Run)
    → Reach new_sampler s
    → Reach s t
    → s.runs key ≡ some run
    → t.runs key ≡ some later
    → later.id ≡ run.id
    → Follows run later
run-Follows s t key run later p q h g i =
    let a : IsSound s.next_id run = Reach-AllSound new_sampler-AllSound p key run h in
    (Reach-Later (Follows run) (Follows-IsKept run) s.next_id run.id a.numbered key
        (record {
          grown = omega arith;
          same = λ r e j. subst (Follows run) (some_inj (sym h ∙ e)) (omega arith, λ c. c);
        })
        q).same
      later g i

never-IsKept : IsKept (λ run. ⊥)
never-IsKept = record { hint = λ m h f. f; latch = λ m got f. f; store = λ m got late f. f }

stop_locked-next_id : (key : Key) (s : Sampler) → (stop_locked key s).next_id ≡ s.next_id
unfolding stop_locked
stop_locked-next_id key s = refl

stop_locked-runs : (key : Key) (s : Sampler) → (stop_locked key s).runs key ≡ none
unfolding stop_locked
stop_locked-runs key s = rw (same_key_refl key)

other_run :
    (key : Key) (id : ℕ) (got : Sampled) (t : Sampler) (o : Option Run)
    → ((run : Run) → o ≡ some run → run.id ≡ id → ⊥)
    → kept_tick key id got o t ≡ t
other_run key id got t none never = refl
other_run key id got t (some run) never = elim (Bool-cases (is_live t.ctx && run.id == id)) [
  | inl q ↦ absurd (never run refl (ground (arith, q)))
  | inr q ↦ rw q
]

-- Once a run is stopped, its loop writes nothing more: after Stop, however the store goes on, a round
-- of the stopped run leaves the store and its gauges as they are.
pub stop_locked-final :
    (s t : Sampler) (key : Key) (run : Run) (got : Sampled)
    → Reach new_sampler s
    → s.runs key ≡ some run
    → Reach (stop_locked key s) t
    → tick key run.id got t ≡ t
unfolding tick
stop_locked-final s t key run got p h q =
    let a : IsSound s.next_id run = Reach-AllSound new_sampler-AllSound p key run h in
    other_run key run.id got t (t.runs key)
      (Reach-Later (λ r. ⊥) never-IsKept s.next_id run.id a.numbered key
        (record {
          grown = omega (arith, stop_locked-next_id key s);
          same = λ r e i. absurd (cc (stop_locked-runs key s));
        })
        q).same
