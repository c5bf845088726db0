-- ===== src/Deployment/System/Blocked.antt =====
-- A deployment that is deploying while no job is under way, as after the process stopped.

use maos_core.Common.{◌≡◌, ◌≤◌, refl, arith, Bool, true, false, List, [], ◌∷◌, ℕ, some, String}
use maos_core.Common.Table.{count_where, count_mono}
use maos_core.Models.{Deployment, DeploymentStatus}
use maos_core.Deployment.Store.{Store, find_deployment}
use maos_core.Deployment.Store.Statements.{is_deploying, is_deploying_id}
use maos_core.Deployment.Manage.{Response, publish_deployment}
use maos_core.Deployment.System.{
  Action, create, update, submit, reject, publish, delete, advance, rotate, crash, System, act,
  act_all, with_job,
}
use maos_core.Deployment.System.Handlers.{
  StoreInv, Kept, create-Kept, update-Kept, submit-Kept, reject-Kept, delete-Kept,
}
use maos_core.Deployment.System.Publishing.{PublishKept, publish-Kept, owned_row}

-- The deployment is deploying, and nobody works on it.
pub record Orphan (k : ℕ) (s : System) : Type 0 where
  pub tables : StoreInv s.store
  pub idle : s.jobs ≡ []
  pub deploying : 1 ≤ count_where (is_deploying_id k) s.store.deployments

some_deploying :
    (k : ℕ) (s : Store)
    → 1 ≤ count_where (is_deploying_id k) s.deployments
    → 1 ≤ count_where is_deploying s.deployments
unfolding is_deploying_id
some_deploying k s h =
    omega
      (arith, h, count_mono (is_deploying_id k) is_deploying (λ d e. ground arith) s.deployments)

Kept-Orphan :
    (k : ℕ) (s : System) (s' : Store)
    → Orphan k s
    → Kept s.store s'
    → Orphan k (record s { store = s' })
Kept-Orphan k s s' v h = record {
  tables = h.inv;
  idle = v.idle;
  deploying = omega (arith, v.deploying, h.owned k);
}

publish-Orphan :
    (k : ℕ) (s : System) (id : ℕ) (user : String) (q : Store × Response × Bool)
    → Orphan k s
    → PublishKept id s.store q
    → Orphan k (with_job id user s.jobs q)
publish-Orphan k s id user (s', r, true) v (h, starts) =
    absurd (omega (arith, (starts refl).0, some_deploying k s.store v.deploying))
publish-Orphan k s id user (s', r, false) v (h, starts) = Kept-Orphan k s s' v h

act-Orphan : (a : Action) (k : ℕ) (s : System) → Orphan k s → Orphan k (act a s)
unfolding act
act-Orphan (create fails now name user reviewers clone_from) k s v =
    Kept-Orphan k s _ v (create-Kept fails now name user reviewers clone_from s.store v.tables)
act-Orphan (update fails id name reviewers) k s v =
    Kept-Orphan k s _ v (update-Kept fails id name reviewers s.store v.tables)
act-Orphan (submit faults id) k s v = Kept-Orphan k s _ v (submit-Kept faults id s.store v.tables)
act-Orphan (reject is_json fails now id user reason) k s v =
    Kept-Orphan k s _ v (reject-Kept is_json fails now id user reason s.store v.tables)
act-Orphan (publish fails now id user) k s v =
    publish-Orphan k s id user (publish_deployment fails now id user s.store) v
      (publish-Kept fails now id user s.store v.tables)
act-Orphan (delete fails id) k s v = Kept-Orphan k s _ v (delete-Kept fails id s.store v.tables)
act-Orphan (advance o report_fails now) k s v =
    rw (v.idle) (record { tables = v.tables; idle = refl; deploying = v.deploying })
act-Orphan rotate k s v =
    rw (v.idle) (record { tables = v.tables; idle = refl; deploying = v.deploying })
act-Orphan crash k s v = record { tables = v.tables; idle = refl; deploying = v.deploying }

pub act_all-Orphan :
    (actions : List Action) (k : ℕ) (s : System) → Orphan k s → Orphan k (act_all actions s)
unfolding act_all
act_all-Orphan [] k s v = v
act_all-Orphan (a ∷ actions) k s v = act_all-Orphan actions k (act a s) (act-Orphan a k s v)

never_starts :
    (k id : ℕ) (s : System) (q : Store × Response × Bool)
    → Orphan k s
    → PublishKept id s.store q
    → q.2 ≡ false
never_starts k id s (s', r, true) v (h, starts) =
    absurd (omega (arith, (starts refl).0, some_deploying k s.store v.deploying))
never_starts k id s (s', r, false) v (h, starts) = refl

-- In a store that keeps the invariant: where a deployment is deploying and no job is under way (the
-- process stopped during the job, or the report of its error failed), no later publication ever
-- starts. Whatever happens in between, PublishDeployment starts no job, for any deployment and
-- user.
pub orphan_blocks :
    (actions : List Action) (k : ℕ) (s : System) (d : Deployment)
    → StoreInv s.store
    → s.jobs ≡ []
    → find_deployment s.store k ≡ some d
    → d.status ≡ DeploymentStatus.deploying
    → (fails : Bool) (now id : ℕ) (user : String)
    → (publish_deployment fails now id user (act_all actions s).store).2 ≡ false
orphan_blocks actions k s d v idle f e fails now id user =
    never_starts k id (act_all actions s)
      (publish_deployment fails now id user (act_all actions s).store) after
      (publish-Kept fails now id user (act_all actions s).store after.tables)
  where
    after : Orphan k (act_all actions s)
    after =
        act_all-Orphan actions k s
          (record { tables = v; idle = idle; deploying = owned_row s.store k d f e })
