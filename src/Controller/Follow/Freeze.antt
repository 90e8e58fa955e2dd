-- ===== src/Controller/Follow/Freeze.antt =====
-- When a step over a running worker freezes the stream.
use pgcopydb_operator.Prelude.{
  ◌≡◌, refl, suc, ◌⊎◌, inl, inr, Bool, true, false, Bool-cases, Option, none, some, not, arith,
  if◌then◌else◌,
}
use pgcopydb_operator.Migration.{automatic}
use pgcopydb_operator.Migration.Conditions.{ConditionApi, IsLawful}
use pgcopydb_operator.Platform.Types.{Result, ok, err, SlotSample, Api}
use pgcopydb_operator.Platform.Exec.{Pass, gets, ask, skip, status, ◌>>=◌}
use pgcopydb_operator.Sentinel.{state_of}
use pgcopydb_operator.Controller.Status.{lag_seen_below}
use pgcopydb_operator.Controller.Frame.{freezes}
use pgcopydb_operator.Controller.Onward.{recorded}
use pgcopydb_operator.Controller.Follow.{
  max_catchup_lag_bytes, lag_below, merge_replication, stream_step, sampled_step,
  reconcile_follow_running,
}
use pgcopydb_operator.Controller.Follow.Onward.{merge-endpos_set, merged}
use pgcopydb_operator.Controller.Follow.Cutover.{IsDue, stream_step-freezes}

module _ (k : ConditionApi) (L : IsLawful k) (api : Api) where
  -- What stood when the stream was frozen. The lag is the sample's, or the recorded one where the
  -- sample shows none.
  pub record IsFreezing (clone_done : Bool) (s : Pass) : Type 0 where
    pub copied : clone_done ≡ true
    pub sample : SlotSample
    pub read : api.sentinel_read s.calls ≡ ok (some sample)
    pub unrecorded : recorded s ≡ false
    pub below :
        lag_below
          (merge_replication (state_of sample) s.m.status.replication).lag_bytes
          (max_catchup_lag_bytes s.m)
        ≡ true
    pub confirmed : lag_seen_below k s.m ≡ true
    pub wanted_by : (s.m.spec.cutover.mode ≡ automatic) ⊎ (s.m.spec.cutover.approved ≡ true)

  abbrev Outcome : Bool → Pass → Pass → Type 0
  Outcome done s t = (freezes t ≡ freezes s) ⊎ ((freezes t ≡ suc (freezes s)) × IsFreezing done s)

  unset-unrecorded :
      (st : SlotSample) (s : Pass)
      → IsDue k (merge_replication (state_of st) s.m.status.replication) (merged st s).m
      → recorded s ≡ false
  unset-unrecorded st s d = elim (Bool-cases (recorded s)) [
    | inl h ↦ ground (arith, merge-endpos_set st s.m.status.replication h, d.unset)
    | inr h ↦ h
  ]

  merged-Outcome :
      (st : SlotSample) (done : Bool) (s : Pass)
      → api.sentinel_read s.calls ≡ ok (some st)
      → Outcome done s
          ((if done
              then stream_step k api (merge_replication (state_of st) s.m.status.replication)
              else skip)
            (merged st s)).1
  unfolding skip
  merged-Outcome st false s e = inl refl
  merged-Outcome st true s e =
      elim (stream_step-freezes k L api (merge_replication (state_of st) s.m.status.replication)
        (merged st s)) [
          | inl q ↦ inl q
          | inr (q, d) ↦ inr (
            q,
            record {
              copied = refl;
              sample = st;
              read = e;
              unrecorded = unset-unrecorded st s d;
              below = d.below;
              confirmed = d.confirmed;
              wanted_by = d.wanted_by;
            },
          )
        ]

  sampled_step-Outcome :
      (done : Bool) (r : Result (Option SlotSample)) (s : Pass)
      → api.sentinel_read s.calls ≡ r
      → Outcome done s (sampled_step k api done r s).1
  unfolding sampled_step skip gets status ◌>>=◌
  sampled_step-Outcome done (err x) s e = inl refl
  sampled_step-Outcome done (ok none) s e = inl refl
  sampled_step-Outcome done (ok (some st)) s e = merged-Outcome st done s e

  -- A step over a running worker asks the source once at most to set the endpos, and only when the
  -- base copy is done, a sample was read, no endpos is recorded, the lag that the step records (the
  -- sample's, or the one recorded before where the sample shows none) is within the limit of the
  -- spec, CaughtUp says that it was so at the pass before, and the mode is Automatic or the cutover
  -- approved.
  pub reconcile_follow_running-freezes :
      (clone_done : Bool) (s : Pass)
      → (freezes (reconcile_follow_running k api clone_done s).1 ≡ freezes s)
        ⊎ ((freezes (reconcile_follow_running k api clone_done s).1 ≡ suc (freezes s))
            × IsFreezing clone_done s)
  unfolding reconcile_follow_running skip ask ◌>>=◌
  reconcile_follow_running-freezes done s = elim (Bool-cases (not api.has_sentinel)) [
    | inl q ↦ rw (q, reconcile_follow_running) (inl refl)
    | inr q ↦ rw (q, reconcile_follow_running) (sampled_step-Outcome done _ s refl)
  ]
