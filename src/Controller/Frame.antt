-- ===== src/Controller/Frame.antt =====
-- What most methods of the controller leave alone: the spec, the attempts, the replication status
-- and the Complete and CutoverComplete conditions of the object, and the Jobs created. The two relations are preorders;
-- each method gets its lemma in a module below the one that defines it.
use pgcopydb_operator.Prelude.{
  ℕ, suc, ◌≡◌, refl, ◌∙◌, ap, Bool, true, false, Option, none, some, List, [], ◌∷◌, if◌then◌else◌,
  Bool-cases, inl, inr, arith,
}
use pgcopydb_operator.Migration.{Migration, MigrationStatus}
use pgcopydb_operator.Migration.Name.{JobName, worker}
use pgcopydb_operator.Migration.Conditions.{
  ConditionApi, IsLawful, ConditionType, complete, cutover_complete, Condition, Verdict, Reason,
  same_type, verdict_true,
}
use pgcopydb_operator.Platform.Types.{Call, create_job, set_endpos}
use pgcopydb_operator.Platform.Exec.{Pass, Exec, say, modify, status}
use pgcopydb_operator.Platform.Exec.Keeps.{Keeps, IsPreorder, keeps_rules}
use pgcopydb_operator.Controller.Status.{condition, put_condition, set_condition, holds}

-- The Jobs that a pass has asked the API to create, newest first.
abbrev pub created_in : List Call → List JobName
created_in [] = []
created_in (create_job n ∷ cs) = n ∷ created_in cs
created_in (c ∷ cs) = created_in cs

abbrev pub created : Pass → List JobName
created s = created_in s.calls

abbrev pub is_worker : JobName → Bool
is_worker (worker n) = true
is_worker _ = false

-- The workers among them.
abbrev pub workers_in : List JobName → List JobName
workers_in [] = []
workers_in (n ∷ ns) = let rest = workers_in ns in if is_worker n then n ∷ rest else rest

abbrev pub workers : Pass → List JobName
workers s = workers_in (created s)

abbrev pub is_create : Call → Bool
is_create (create_job n) = true
is_create _ = false

pub created-say :
    (c : Call) (cs : List Call) → is_create c ≡ false → created_in (c ∷ cs) ≡ created_in cs
created-say (create_job n) cs h = ground arith
created-say _ cs h = refl

abbrev pub is_freeze : Call → Bool
is_freeze set_endpos = true
is_freeze _ = false

-- How often a pass has asked to freeze the stream.
abbrev pub freezes_in : List Call → ℕ
freezes_in [] = 0
freezes_in (set_endpos ∷ cs) = suc (freezes_in cs)
freezes_in (_ ∷ cs) = freezes_in cs

abbrev pub freezes : Pass → ℕ
freezes s = freezes_in s.calls

pub freezes-say :
    (c : Call) (cs : List Call) → is_freeze c ≡ false → freezes_in (c ∷ cs) ≡ freezes_in cs
freezes-say set_endpos cs h = ground arith
freezes-say _ cs h = refl

module _ (k : ConditionApi) where
  -- The part of the object that few methods write.
  pub record SameCore (m n : Migration) : Type 0 where
    pub spec : n.spec ≡ m.spec
    pub attempts : n.status.attempts ≡ m.status.attempts
    pub replication : n.status.replication ≡ m.status.replication
    pub complete : holds k n ConditionType.complete ≡ holds k m ConditionType.complete
    pub cutover : holds k n cutover_complete ≡ holds k m cutover_complete

  pub record Still (s t : Pass) : Type 0 where
    pub core : SameCore s.m t.m
    pub creates : created t ≡ created s
    pub freezes : freezes t ≡ freezes s

  pub record Calm (s t : Pass) : Type 0 where
    pub core : SameCore s.m t.m
    pub works : workers t ≡ workers s
    pub freezes : freezes t ≡ freezes s

  SameCore-refl : (m : Migration) → SameCore m m
  SameCore-refl m = record {
    spec = refl;
    attempts = refl;
    replication = refl;
    complete = refl;
    cutover = refl;
  }

  SameCore-trans : (a b c : Migration) → SameCore a b → SameCore b c → SameCore a c
  SameCore-trans a b c p q = record {
    spec = q.spec ∙ p.spec;
    attempts = q.attempts ∙ p.attempts;
    replication = q.replication ∙ p.replication;
    complete = q.complete ∙ p.complete;
    cutover = q.cutover ∙ p.cutover;
  }

  pub Still-IsPreorder : IsPreorder Still
  Still-IsPreorder = record {
    same = λ s. record { core = SameCore-refl s.m; creates = refl; freezes = refl };
    chain = λ s t u p q. record {
      core = SameCore-trans s.m t.m u.m p.core q.core;
      creates = q.creates ∙ p.creates;
      freezes = q.freezes ∙ p.freezes;
    };
  }

  pub Calm-IsPreorder : IsPreorder Calm
  Calm-IsPreorder = record {
    same = λ s. record { core = SameCore-refl s.m; works = refl; freezes = refl };
    chain = λ s t u p q. record {
      core = SameCore-trans s.m t.m u.m p.core q.core;
      works = q.works ∙ p.works;
      freezes = q.freezes ∙ p.freezes;
    };
  }

  -- A still method is calm.
  pub Keeps-weaken : {A : Type 0} (m : Exec A) → Keeps Still m → Keeps Calm m
  Keeps-weaken m h = record {
    at = λ s. record {
      core = (h.at s).core;
      works = ap workers_in ((h.at s).creates);
      freezes = (h.at s).freezes;
    };
  }

  pub say-Still : (c : Call) → is_create c ≡ false → is_freeze c ≡ false → Keeps Still (say c)
  unfolding say
  say-Still c h f = record {
    at = λ s. record {
      core = SameCore-refl s.m;
      creates = created-say c s.calls h;
      freezes = freezes-say c s.calls f;
    };
  }

  pub say-Calm : (n : JobName) → is_worker n ≡ false → Keeps Calm (say (create_job n))
  unfolding say
  say-Calm n h = record {
    at = λ s. record { core = SameCore-refl s.m; works = ground arith; freezes = refl };
  }

  pub modify-Still :
      (f : Migration → Migration) → ((m : Migration) → SameCore m (f m)) → Keeps Still (modify f)
  unfolding modify
  modify-Still f h = record { at = λ s. record { core = h s.m; creates = refl; freezes = refl } }

  -- A write of status fields outside the core.
  pub status-Still :
      (f : MigrationStatus → MigrationStatus)
      → ((st : MigrationStatus) → (f st).attempts ≡ st.attempts)
      → ((st : MigrationStatus) → (f st).replication ≡ st.replication)
      → ((st : MigrationStatus) → (f st).conditions ≡ st.conditions)
      → Keeps Still (status f)
  unfolding status
  status-Still f a r c = record {
    at = λ s. record {
      core = record {
        spec = refl;
        attempts = a s.m.status;
        replication = r s.m.status;
        complete = ap (λ cs. k.is_true cs complete) (c s.m.status);
        cutover = ap (λ cs. k.is_true cs cutover_complete) (c s.m.status);
      };
      creates = refl;
      freezes = refl;
    };
  }

  module _ (L : IsLawful k) where
    -- A condition that is set leaves the truth of every other type.
    pub is_true-set :
        (cs : List Condition) (c : Condition) (t : ConditionType)
        → k.is_true (k.set cs c) t
          ≡ (if same_type c.type t then verdict_true c.status else k.is_true cs t)
    is_true-set cs c t =
        ground (arith, L.is_true-find (k.set cs c) t, L.is_true-find cs t, L.find-set cs c t)

    pub is_true-set_ne :
        (cs : List Condition) (c : Condition) (t : ConditionType)
        → same_type c.type t ≡ false
        → k.is_true (k.set cs c) t ≡ k.is_true cs t
    is_true-set_ne cs c t h = ground (arith, is_true-set cs c t)

    pub put-SameCore :
        (c : Condition) (m : Migration)
        → same_type c.type complete ≡ false
        → same_type c.type cutover_complete ≡ false
        → SameCore m (put_condition k c m)
    put-SameCore c m h i = record {
      spec = refl;
      attempts = refl;
      replication = refl;
      complete = is_true-set_ne m.status.conditions c complete h;
      cutover = is_true-set_ne m.status.conditions c cutover_complete i;
    }

    -- setCondition of any type but Complete and CutoverComplete.
    pub set_condition-Still :
        (t : ConditionType) (v : Verdict) (r : Reason)
        → same_type t complete ≡ false
        → same_type t cutover_complete ≡ false
        → Keeps Still (set_condition k t v r)
    unfolding set_condition
    set_condition-Still t v r h i = modify-Still _ (λ m. put-SameCore (condition k m t v r) m h i)

pub ruleset still_rules =
    (keeps_rules, Still-IsPreorder, say-Still, status-Still, set_condition-Still, refl)

pub ruleset calm_rules = (keeps_rules, Calm-IsPreorder, say-Calm, Keeps-weaken, still_rules)
