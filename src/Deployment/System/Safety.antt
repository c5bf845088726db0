-- ===== src/Deployment/System/Safety.antt =====
-- What holds of the server between any two actions.
use maos_core.Common.{
  ◌≡◌, ◌≤◌, refl, sym, arith, Bool, true, false, List, [], ◌∷◌, ℕ, String, subst, length,
}
use maos_core.Common.Table.{count_where, count_mono}
use maos_core.Common.Membership.{All, All-map, All-append}
use maos_core.Deployment.Store.{Store}
use maos_core.Deployment.Store.Statements.{is_deploying, is_deploying_id}
use maos_core.Deployment.Manage.{Response, publish_deployment}
use maos_core.Deployment.Job.{
  Outside, Outcome, done, fails_with, job_panics, job_migrate, job_publish,
}
use maos_core.Deployment.System.{
  Action, create, update, submit, reject, publish, delete, advance, rotate, crash, Job, Phase,
  migrating, publishing, reporting, System, act, act_all, advance_jobs, advance_phase, after_part,
  after_publish, rotate_jobs, with_job,
}
use maos_core.Deployment.System.Handlers.{
  StoreInv, Kept, create-Kept, update-Kept, submit-Kept, reject-Kept, delete-Kept,
}
use maos_core.Deployment.System.Publishing.{PublishKept, publish-Kept, migrate-Kept}
use maos_core.Deployment.System.Landing.{Commits, publish-Commits, report-Landed}

-- The job's deployment is deploying.
abbrev pub Owned : Store → Job → Type 0
Owned s j = 1 ≤ count_where (is_deploying_id j.deployment_id) s.deployments

pub record Safe (s : System) : Type 0 where
  pub tables : StoreInv s.store
  pub owned : All (Owned s.store) s.jobs
  pub few : length s.jobs ≤ 1

Kept-Owned : (s s' : Store) (jobs : List Job) → Kept s s' → All (Owned s) jobs → All (Owned s') jobs
Kept-Owned s s' jobs k h =
    All-map (Owned s) (Owned s') jobs (λ j o. omega (arith, k.owned j.deployment_id)) h

Kept-Safe : (s : System) (s' : Store) → Safe s → Kept s.store s' → Safe (record s { store = s' })
Kept-Safe s s' v k = record {
  tables = k.inv;
  owned = Kept-Owned s.store s' s.jobs k v.owned;
  few = v.few;
}

no_jobs :
    (s : Store) (jobs : List Job)
    → All (Owned s) jobs
    → count_where is_deploying s.deployments ≡ 0
    → jobs ≡ []
unfolding is_deploying_id
no_jobs s [] h e = refl
no_jobs s (j ∷ jobs) h e = absurd (
    omega (
      arith,
      h.0,
      count_mono (is_deploying_id j.deployment_id) is_deploying (λ d k. ground arith) s.deployments,
    ))

publish-Safe :
    (s : System) (id : ℕ) (user : String) (q : Store × Response × Bool)
    → Safe s
    → PublishKept id s.store q
    → Safe (with_job id user s.jobs q)
publish-Safe s id user (s', r, true) v (k, h) = record {
  tables = k.inv;
  owned =
      All-append (Owned s') s.jobs
        (record { deployment_id = id; user = user; phase = migrating } ∷ [])
        (Kept-Owned s.store s' s.jobs k v.owned) ((h refl).1, tt);
  few = rw (no_jobs s.store s.jobs v.owned (h refl).0) (omega arith);
}
publish-Safe s id user (s', r, false) v (k, h) = Kept-Safe s s' v k

part-Safe :
    (s : Store) (j : Job) (next : Phase) (q : Store × Outcome)
    → Owned s j
    → Kept s q.0
    → Safe (after_part j [] next q)
part-Safe s j next (s', done) h k = record {
  tables = k.inv;
  owned = (omega (arith, k.owned j.deployment_id), tt);
  few = omega arith;
}
part-Safe s j next (s', fails_with e) h k = record {
  tables = k.inv;
  owned = (omega (arith, k.owned j.deployment_id), tt);
  few = omega arith;
}
part-Safe s j next (s', job_panics) h k = record { tables = k.inv; owned = tt; few = omega arith }

commit-Safe :
    (s : Store) (j : Job) (q : Store × Outcome)
    → StoreInv s
    → Owned s j
    → Commits s q
    → Safe (after_publish j [] q)
commit-Safe s j (s', done) v h c = record { tables = c.inv; owned = tt; few = omega arith }
commit-Safe s j (s', fails_with e) v h c = record {
  tables = subst StoreInv (sym c) v;
  owned = (subst (λ t. Owned t j) (sym c) h, tt);
  few = omega arith;
}
commit-Safe s j (s', job_panics) v h c = record {
  tables = subst StoreInv (sym c) v;
  owned = tt;
  few = omega arith;
}

phase-Safe :
    (o : Outside) (report_fails : Bool) (now : ℕ) (s : Store) (j : Job) (phase : Phase)
    → StoreInv s
    → Owned s j
    → Safe (advance_phase o report_fails now s j [] phase)
phase-Safe o report_fails now s j migrating v h =
    part-Safe s j publishing (job_migrate o j.deployment_id s) h
      (migrate-Kept o j.deployment_id s v)
phase-Safe o report_fails now s j publishing v h =
    commit-Safe s j (job_publish o now j.deployment_id j.user s) v h
      (publish-Commits o now j.deployment_id j.user s v)
phase-Safe o report_fails now s j (reporting error) v h = record {
  tables = (report-Landed report_fails j.deployment_id error s v h).inv;
  owned = tt;
  few = omega arith;
}

advance-Safe :
    (o : Outside) (report_fails : Bool) (now : ℕ) (s : Store) (jobs : List Job)
    → StoreInv s
    → All (Owned s) jobs
    → length jobs ≤ 1
    → Safe (advance_jobs o report_fails now s jobs)
advance-Safe o report_fails now s [] v h f = record { tables = v; owned = tt; few = f }
advance-Safe o report_fails now s (j ∷ []) v h f = phase-Safe o report_fails now s j j.phase v h.0
advance-Safe o report_fails now s (j ∷ i ∷ jobs) v h f = absurd (omega (arith, f))

rotate_lem : (jobs : List Job) → length jobs ≤ 1 → rotate_jobs jobs ≡ jobs
rotate_lem [] f = refl
rotate_lem (j ∷ []) f = refl
rotate_lem (j ∷ i ∷ jobs) f = absurd (omega (arith, f))

pub act-Safe : (a : Action) (s : System) → Safe s → Safe (act a s)
unfolding act
act-Safe (create fails now name user reviewers clone_from) s v =
    Kept-Safe s _ v (create-Kept fails now name user reviewers clone_from s.store v.tables)
act-Safe (update fails id name reviewers) s v =
    Kept-Safe s _ v (update-Kept fails id name reviewers s.store v.tables)
act-Safe (submit faults id) s v = Kept-Safe s _ v (submit-Kept faults id s.store v.tables)
act-Safe (reject is_json fails now id user reason) s v =
    Kept-Safe s _ v (reject-Kept is_json fails now id user reason s.store v.tables)
act-Safe (publish fails now id user) s v =
    publish-Safe s id user (publish_deployment fails now id user s.store) v
      (publish-Kept fails now id user s.store v.tables)
act-Safe (delete fails id) s v = Kept-Safe s _ v (delete-Kept fails id s.store v.tables)
act-Safe (advance o report_fails now) s v =
    advance-Safe o report_fails now s.store s.jobs v.tables v.owned v.few
act-Safe rotate s v = rw (rotate_lem s.jobs v.few) v
act-Safe crash s v = record { tables = v.tables; owned = tt; few = omega arith }

-- From a state in which the following holds, it holds after any actions, whatever the administrators
-- ask for, in whatever order the jobs get on, whatever fails and whenever the process stops: ids are
-- distinct and below the next one, every deployment has a suite, at most one deployment is deploying
-- and at most one is deployed, and at most one job is under way, whose deployment is deploying.
pub act_all-Safe : (actions : List Action) (s : System) → Safe s → Safe (act_all actions s)
unfolding act_all
act_all-Safe [] s v = v
act_all-Safe (a ∷ actions) s v = act_all-Safe actions (act a s) (act-Safe a s v)
