-- ===== src/Controller/Sampler/Store.antt =====
-- What each operation of the sampler may do to the run of a Migration.
use pgcopydb_operator.Prelude.{
  ℕ, ◌+◌, ◌≤◌, ◌≡◌, refl, sym, ◌∙◌, ap, arith, Bool, true, false, not, ◌&&◌, ◌==◌, ltb,
  if◌then◌else◌, Bool-cases, inl, inr, Option, none, some,
}
use pgcopydb_operator.Migration.Name.{JobName, same_name}
use pgcopydb_operator.Platform.Types.{Sampled}
use pgcopydb_operator.Text.Laws.{same_sound, same_refl}
use pgcopydb_operator.Controller.Sampler.{
  Key, same_key, Hint, Run, Sampler, put, new_run, latched, storing, stop_locked, keep_locked, join,
  fits, observe, is_context, kept_now, sample_now, is_live, kept_tick, tick, end_start,
}

same_key_sound : (a b : Key) → same_key a b ≡ true → a ≡ b
same_key_sound (a, b) (c, d) h =
    cc (same_sound a c (ground (arith, h)), same_sound b d (ground (arith, h)))

pub same_key_refl : (a : Key) → same_key a a ≡ true
same_key_refl (a, b) = rw (same_refl a, same_refl b)

-- What becomes of the run under a key, from one store to another.
pub data Fate (s t : Sampler) (j : Key) : Type 0 where
  left_alone : t.runs j ≡ s.runs j → s.next_id ≤ t.next_id → Fate s t j
  ended : t.runs j ≡ none → s.next_id ≤ t.next_id → Fate s t j
  begun :
      (job : JobName) (all_databases : Bool) (hint : Hint)
      → t.runs j ≡ some (new_run s.next_id job all_databases hint)
      → t.next_id ≡ s.next_id + 1
      → Fate s t j
  hinted :
      (run : Run) (hint : Hint)
      → s.runs j ≡ some run
      → t.runs j ≡ some (record run { hint = hint })
      → s.next_id ≤ t.next_id
      → Fate s t j
  outdated :
      (run : Run) (got : Sampled)
      → s.runs j ≡ some run
      → t.runs j ≡ some (latched run got)
      → s.next_id ≤ t.next_id
      → Fate s t j
  updated :
      (run : Run) (got : Sampled)
      → s.runs j ≡ some run
      → run.last.at ≤ got.at
      → t.runs j ≡ some (storing run got)
      → s.next_id ≤ t.next_id
      → Fate s t j

put_same {ℓ} :
    {A : Type ℓ} (k j : Key) (a : A) (f : Key → A) → same_key k j ≡ true → put k a f j ≡ a
put_same k j a f e = rw e

put_other {ℓ} :
    {A : Type ℓ} (k j : Key) (a : A) (f : Key → A) → same_key k j ≡ false → put k a f j ≡ f j
put_other k j a f e = rw e

pub stop_locked-Fate : (k j : Key) (s : Sampler) → Fate s (stop_locked k s) j
unfolding stop_locked
stop_locked-Fate k j s = elim (Bool-cases (same_key k j)) [
  | inl e ↦ ended (put_same k j none s.runs e) (omega arith)
  | inr e ↦ left_alone (put_other k j none s.runs e) (omega arith)
]

pub keep_locked-Fate :
    (k j : Key) (run : Run) (got : Sampled) (s : Sampler)
    → s.runs k ≡ some run
    → Fate s (keep_locked k run got s).0 j
unfolding keep_locked
keep_locked-Fate k j run got s h = elim (Bool-cases (same_key k j)) [
  | inl e ↦ elim (Bool-cases (ltb got.at run.last.at)) [
    | inl q ↦ rw q (
        outdated run got (ap s.runs (sym (same_key_sound k j e)) ∙ h)
          (put_same k j (some (latched run got)) s.runs e) (omega arith))
    | inr q ↦ rw q (
        updated run got (ap s.runs (sym (same_key_sound k j e)) ∙ h) (ground (arith, q))
          (put_same k j (some (storing run got)) s.runs e) (omega arith))
  ]
  | inr e ↦ elim (Bool-cases (ltb got.at run.last.at)) [
    | inl q ↦ rw q (left_alone (put_other k j (some (latched run got)) s.runs e) (omega arith))
    | inr q ↦ rw q (left_alone (put_other k j (some (storing run got)) s.runs e) (omega arith))
  ]
]

pub sample_now-Fate :
    (k j : Key) (job : JobName) (got : Sampled) (s : Sampler) → Fate s (sample_now k job got s).0 j
unfolding sample_now
sample_now-Fate k j job got s = by_run (s.runs k) refl
  where
    by_run : (o : Option Run) → s.runs k ≡ o → Fate s (kept_now k job got o s).0 j
    by_run none h = left_alone refl (omega arith)
    by_run (some run) h = elim (Bool-cases (same_name run.job job)) [
      | inl q ↦ rw q (keep_locked-Fate k j run got s h)
      | inr q ↦ rw q (left_alone refl (omega arith))
    ]

pub tick-Fate : (k j : Key) (id : ℕ) (got : Sampled) (s : Sampler) → Fate s (tick k id got s) j
unfolding tick
tick-Fate k j id got s = by_run (s.runs k) refl
  where
    by_run : (o : Option Run) → s.runs k ≡ o → Fate s (kept_tick k id got o s) j
    by_run none h = left_alone refl (omega arith)
    by_run (some run) h = elim (Bool-cases (is_live s.ctx && run.id == id)) [
      | inl q ↦ rw q (keep_locked-Fate k j run got s h)
      | inr q ↦ rw q (left_alone refl (omega arith))
    ]

pub end_start-Fate : (j : Key) (s : Sampler) → Fate s (end_start s) j
unfolding end_start
end_start-Fate j s = ended refl (omega arith)

-- Where a run is begun, another key keeps what it had.
join_none-Fate :
    (k j : Key) (job : JobName) (all_databases : Bool) (hint : Hint) (s t : Sampler)
    → t.next_id ≡ s.next_id
    → (same_key k j ≡ false → t.runs j ≡ s.runs j)
    → Fate s (join k job all_databases hint none t).0 j
join_none-Fate k j job all_databases hint s t n other = elim (Bool-cases (same_key k j)) [
  | inl e ↦
      begun job all_databases hint
        (put_same k j _ t.runs e ∙ ap (λ i. some (new_run i job all_databases hint)) n)
        (omega (arith, n))
  | inr e ↦ left_alone (put_other k j _ t.runs e ∙ other e) (omega (arith, n))
]

pub observe-Fate :
    (k j : Key) (job : JobName) (all_databases : Bool) (hint : Hint) (s : Sampler)
    → Fate s (observe k job all_databases hint s).0 j
unfolding observe
observe-Fate k j job all_databases hint s = elim (Bool-cases (not (is_context s.ctx))) [
  | inl q ↦ rw q (left_alone refl (omega arith))
  | inr q ↦ rw q (by_run (s.runs k) refl)
]
  where
    joined : (o : Option Run) → s.runs k ≡ o → Fate s (join k job all_databases hint o s).0 j
    joined none h = join_none-Fate k j job all_databases hint s s refl (λ e. refl)
    joined (some run) h = elim (Bool-cases (same_key k j)) [
      | inl e ↦
          hinted run hint (ap s.runs (sym (same_key_sound k j e)) ∙ h) (put_same k j _ s.runs e)
            (omega arith)
      | inr e ↦ left_alone (put_other k j _ s.runs e) (omega arith)
    ]

    by_run :
        (o : Option Run)
        → s.runs k ≡ o
        → Fate s
            (if fits job all_databases o
              then join k job all_databases hint o s
              else join k job all_databases hint none (stop_locked k s)).0
            j
    by_run o h = elim (Bool-cases (fits job all_databases o)) [
      | inl q ↦ rw q (joined o h)
      | inr q ↦ rw q (
          join_none-Fate k j job all_databases hint s (stop_locked k s) (unfold stop_locked in refl)
            (λ e. unfold stop_locked in put_other k j none s.runs e))
    ]
