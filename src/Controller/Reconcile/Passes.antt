-- ===== src/Controller/Reconcile/Passes.antt =====
-- What a whole pass of the reconciler guarantees, whatever the API, the logs and the databases say.
use pgcopydb_operator.Prelude.{
  Bool-cases, ◌≡◌, refl, sym, subst, ◌⊎◌, inl, inr, Bool, true, false, List, ◌∷◌, if◌then◌else◌,
}
use pgcopydb_operator.Migration.{Migration, Time}
use pgcopydb_operator.Migration.Name.{JobName, worker}
use pgcopydb_operator.Migration.Conditions.{ConditionApi, IsLawful}
use pgcopydb_operator.Platform.Types.{Api, Next, stop_sampling}
use pgcopydb_operator.Platform.Exec.{Pass, Exec, say, ◌>>=◌, ◌>>◌}
use pgcopydb_operator.Platform.Exec.Keeps.{Keeps}
use pgcopydb_operator.Controller.Frame.{created, workers, freezes, SameCore, Calm, calm_rules}
use pgcopydb_operator.Controller.Onward.{
  Onward, Calm-Quiet, Still-Quiet, recorded, frozen_at, onward_rules,
}
use pgcopydb_operator.Controller.Launch.{upcoming}
use pgcopydb_operator.Controller.Stop.{reconcile_suspended, reconcile_deletion}
use pgcopydb_operator.Controller.Stop.Calm.{reconcile_suspended-Still, reconcile_deletion-Calm}
use pgcopydb_operator.Controller.Reconcile.{
  is_terminal, status_is_empty, terminal_pass, first_pass, active_pass, reconcile,
}
use pgcopydb_operator.Controller.Reconcile.Calm.{terminal_pass-Still, first_pass-Still}
use pgcopydb_operator.Controller.Reconcile.Dry.{active_pass-Dry}
use pgcopydb_operator.Controller.Reconcile.Onward.{active_pass-Launches, active_pass-Onward}

-- A Migration for which an attempt may start.
pub record IsStartable (k : ConditionApi) (m : Migration) : Type 0 where
  pub kept : m.deleting ≡ false
  pub unfinished : is_terminal k m ≡ false
  pub known : status_is_empty m.status ≡ false
  pub resumed : m.spec.suspend ≡ false
  pub wet : m.spec.dry_run ≡ false

module _ (k : ConditionApi) (L : IsLawful k) (api : Api) where
  deletion-Calm : Keeps (Calm k) (say stop_sampling >> reconcile_deletion k api)
  deletion-Calm = search (calm_rules, reconcile_deletion-Calm) depth 14

  -- The tests of reconcile on values that are known.
  routed : (deleting terminal new suspend : Bool) → Time → Exec Next
  routed deleting terminal new suspend start =
      if deleting
      then (say stop_sampling >> reconcile_deletion k api)
      else if terminal
      then terminal_pass k api
      else if new
      then first_pass k api
      else if suspend
      then reconcile_suspended k api
      else active_pass k api start

  reconcile-routed :
      (s : Pass)
      → reconcile k api s
        ≡ routed s.m.deleting
            (is_terminal k s.m)
            (status_is_empty s.m.status)
            s.m.spec.suspend
            (api.now s.calls)
            s
  unfolding reconcile routed ◌>>=◌
  reconcile-routed s = refl

  reconcile-at :
      (s : Pass) (a b c d : Bool)
      → s.m.deleting ≡ a
      → is_terminal k s.m ≡ b
      → status_is_empty s.m.status ≡ c
      → s.m.spec.suspend ≡ d
      → reconcile k api s ≡ routed a b c d (api.now s.calls) s
  reconcile-at s a b c d p q r h = cc (reconcile-routed s)

  routed-Onward : (a b c d : Bool) (t : Time) → Keeps Onward (routed a b c d t)
  unfolding routed
  routed-Onward a b c d t =
      search
        (
          onward_rules,
          Calm-Quiet k,
          Still-Quiet k,
          deletion-Calm,
          terminal_pass-Still,
          first_pass-Still,
          reconcile_suspended-Still,
          active_pass-Onward,
        )
        depth 14

  reconcile-Onward : Keeps Onward (reconcile k api)
  reconcile-Onward = record {
    at = λ s.
        subst (λ r. Onward s r.1) (sym (reconcile-routed s))
          ((routed-Onward s.m.deleting (is_terminal k s.m) (status_is_empty s.m.status)
              s.m.spec.suspend (api.now s.calls)).at
            s);
  }

  -- No pass changes the spec. Where an endpos is recorded, a pass leaves exactly that position
  -- recorded and does not ask the source to set the endpos again.
  pub reconcile-keeps_endpos :
      (s : Pass)
      → (reconcile k api s).1.m.spec ≡ s.m.spec
        × ((recorded s ≡ false)
            ⊎ ((frozen_at (reconcile k api s).1 ≡ frozen_at s)
                × (freezes (reconcile k api s).1 ≡ freezes s)))
  reconcile-keeps_endpos s =
      let o = reconcile-Onward.at s in
      (o.spec, elim (Bool-cases (recorded s)) [ inl h ↦ inr (o.endpos h) | inr h ↦ inl h ])

  -- A pass over a suspended Migration that is neither new, nor finished, nor being deleted creates
  -- no Job of any kind, and leaves the spec, the attempts, the replication status and the truth of
  -- Complete and CutoverComplete as they were.
  pub reconcile-suspended :
      (s : Pass)
      → s.m.deleting ≡ false
      → is_terminal k s.m ≡ false
      → status_is_empty s.m.status ≡ false
      → s.m.spec.suspend ≡ true
      → created (reconcile k api s).1 ≡ created s × SameCore k s.m (reconcile k api s).1.m
  unfolding routed
  reconcile-suspended s d t n h =
      let q = reconcile_suspended-Still k L api in
      subst (λ r. created r.1 ≡ created s × SameCore k s.m r.1.m)
        (sym (reconcile-at s false false false true d t n h)) ((q.at s).creates, (q.at s).core)

  -- A pass over a Migration that is Complete or Failed and not being deleted creates no Job, and
  -- leaves the spec, the attempts, the replication status and the truth of Complete and
  -- CutoverComplete as they were.
  pub reconcile-terminal :
      (s : Pass)
      → s.m.deleting ≡ false
      → is_terminal k s.m ≡ true
      → created (reconcile k api s).1 ≡ created s × SameCore k s.m (reconcile k api s).1.m
  unfolding routed
  reconcile-terminal s d t =
      let q = terminal_pass-Still k L api in
      subst (λ r. created r.1 ≡ created s × SameCore k s.m r.1.m)
        (sym (reconcile-at s false true _ _ d t refl refl)) ((q.at s).creates, (q.at s).core)

  -- A pass over a Migration that is being deleted creates no worker, and leaves the spec, the
  -- attempts, the replication status and the truth of Complete and CutoverComplete as they were.
  pub reconcile-deletion :
      (s : Pass)
      → s.m.deleting ≡ true
      → workers (reconcile k api s).1 ≡ workers s × SameCore k s.m (reconcile k api s).1.m
  unfolding routed
  reconcile-deletion s d =
      subst (λ r. workers r.1 ≡ workers s × SameCore k s.m r.1.m)
        (sym (reconcile-at s true _ _ _ d refl refl refl))
        ((deletion-Calm.at s).works, (deletion-Calm.at s).core)

  -- The workers that a pass may leave behind: those before it, or one more, the worker of the
  -- attempt after those recorded, where the Migration can start one.
  Workers : Pass → List JobName → Type 0
  Workers s new = (new ≡ workers s) ⊎ ((new ≡ worker (upcoming s) ∷ workers s) × IsStartable k s.m)

  active-Workers :
      (s : Pass) (dry : Bool)
      → s.m.deleting ≡ false
      → is_terminal k s.m ≡ false
      → status_is_empty s.m.status ≡ false
      → s.m.spec.suspend ≡ false
      → s.m.spec.dry_run ≡ dry
      → Workers s (workers (active_pass k api (api.now s.calls) s).1)
  unfolding Workers
  active-Workers s true d t n h w = inl (((active_pass-Dry k L api (api.now s.calls)).at s).works w)
  active-Workers s false d t n h w =
      elim (((active_pass-Launches k L api (api.now s.calls)).at s).works) [
        | inl q ↦ inl q
        | inr q ↦ inr (q, record { kept = d; unfinished = t; known = n; resumed = h; wet = w })
      ]

  routed-Workers :
      (s : Pass) (deleting terminal new suspend : Bool)
      → s.m.deleting ≡ deleting
      → is_terminal k s.m ≡ terminal
      → status_is_empty s.m.status ≡ new
      → s.m.spec.suspend ≡ suspend
      → Workers s (workers (routed deleting terminal new suspend (api.now s.calls) s).1)
  unfolding routed Workers
  routed-Workers s true _ _ _ d t n h = inl ((deletion-Calm.at s).works)
  routed-Workers s false true _ _ d t n h =
      inl (((Still-Quiet k _ (terminal_pass-Still k L api)).at s).works)
  routed-Workers s false false true _ d t n h =
      inl (((Still-Quiet k _ (first_pass-Still k L api)).at s).works)
  routed-Workers s false false false true d t n h =
      inl (((Still-Quiet k _ (reconcile_suspended-Still k L api)).at s).works)
  routed-Workers s false false false false d t n h = active-Workers s s.m.spec.dry_run d t n h refl

  -- A pass creates one worker at most. If it creates one, it is the worker of attempt
  -- `attempts + 1`, and the Migration is not being deleted, neither Complete nor Failed, not new,
  -- not suspended and no dry run.
  pub reconcile-one_worker :
      (s : Pass)
      → (workers (reconcile k api s).1 ≡ workers s)
        ⊎ ((workers (reconcile k api s).1 ≡ worker (upcoming s) ∷ workers s) × IsStartable k s.m)
  unfolding Workers
  reconcile-one_worker s = rw (reconcile-routed s) (
      routed-Workers s s.m.deleting (is_terminal k s.m) (status_is_empty s.m.status)
        s.m.spec.suspend refl refl refl refl)
