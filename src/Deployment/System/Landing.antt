-- ===== src/Deployment/System/Landing.antt =====
-- What the transaction of a job, and the report of its error, keep of the table `deployments`.

use mathlib.Core.Option
use maos_core.Deployment.System.Moves.{fail-TableInv, publish-TableInv}
use maos_core.Common.Table.{
  count_of_find_none, find-and, find-holds, find_where, update_where, count_where,
}
use maos_core.Models.{query_error, no_rows, DeploymentStatus, row, Deployment, same_status, Fetched}
use maos_core.Deployment.System.Handlers.{Lives, StoreInv}
use maos_core.Deployment.Store.Statements.{
  finish_deploying, retire, update_deployment_last_error, is_deploying, is_deploying_id,
  config_suite_activate, is_deployed, deployment_publish,
}
use maos_core.Deployment.Store.{deployment_get_by_id, Store}
use maos_core.Deployment.Job.{
  job_panics, done, job_published, publish_found, fails_with, job_suite, job_activated, Outcome,
  job_commit, Outside, job_publish, job_report,
}
use maos_core.Common.{
  inr, inl, Bool-cases, ◌&&◌, subst, List, none, if_rule, Option, Bool, ◌≡◌, ◌≤◌, refl, arith, ◌==◌,
  true, false, not, ℕ, some, String,
}
use maos_core.Deployment.System.Lifecycle.{
  failed, landed, retired, once, at, here, Life-trans, Life, update-Life,
}

-- The invariant holds, and every deployment went on with its life.
pub record Landed (s s' : Store) : Type 0 where
  pub inv : StoreInv s'
  pub lives : Lives s s'

-- A transaction that fails leaves the store as it was.
abbrev pub Commits : Store → Store × Outcome → Type 0
Commits s (s', done) = Landed s s'
Commits s (s', fails_with e) = s' ≡ s
Commits s (s', job_panics) = s' ≡ s

commit-Commits : (o : Outside) (s s' : Store) → Landed s s' → Commits s (job_commit o s s')
commit-Commits o s s' v = if_rule (Commits s) o.suite_store_fails refl (
    if_rule (Commits s) o.rotate_fails refl
      (if_rule (Commits s) o.cluster_fails refl (if_rule (Commits s) o.commit_fails refl v)))

published-Commits :
    (o : Outside) (s : Store) (q : Store × Fetched Deployment)
    → Landed s q.0
    → Commits s (job_published o s q)
published-Commits o s (s', row d) v = commit-Commits o s s' v
published-Commits o s (s', no_rows) v = refl
published-Commits o s (s', query_error) v = refl

retire-Life :
    (now : ℕ) (user : String) (d : Deployment)
    → is_deployed d ≡ true
    → Life (at d.status) (at (retire now user d).status)
unfolding is_deployed same_status
retire-Life now user d h =
    let f : d.status ≡ DeploymentStatus.deployed = ground arith in rw f (once retired)

finish-Life :
    (id now : ℕ) (d : Deployment)
    → is_deploying_id id d ≡ true
    → Life (at d.status) (at (finish_deploying now d).status)
unfolding is_deploying_id is_deploying same_status
finish-Life id now d h =
    let f : d.status ≡ DeploymentStatus.deploying = ground arith in rw f (once landed)

publish-Lives :
    (id now : ℕ) (user : String) (s : Store) → Lives s (deployment_publish false now id user s).0
unfolding deployment_publish
publish-Lives id now user s k =
    Life-trans
      (update-Life is_deployed (retire now user) s.deployments s.next_id k (λ d. refl)
        (λ d f h. retire-Life now user d h))
      (update-Life (is_deploying_id id) (finish_deploying now)
        (update_where is_deployed (retire now user) s.deployments) s.next_id k (λ d. refl)
        (λ d f h. finish-Life id now d h))

deployment_publish-Landed :
    (fails : Bool) (now id : ℕ) (user : String) (s : Store)
    → StoreInv s
    → Landed s (deployment_publish fails now id user s).0
unfolding deployment_publish
deployment_publish-Landed true now id user s v = record { inv = v; lives = λ k. here }
deployment_publish-Landed false now id user s v = record {
  inv = publish-TableInv id now user s.deployments s.next_id v;
  lives = publish-Lives id now user s;
}

Landed-trans : (s s' t : Store) → Landed s s' → Landed s' t → Landed s t
Landed-trans s s' t a b = record { inv = b.inv; lives = λ k. Life-trans (a.lives k) (b.lives k) }

activated-Commits :
    (o : Outside) (now id : ℕ) (user : String) (s : Store) (q : Store × Fetched ℕ)
    → Landed s q.0
    → Commits s (job_activated o now id user s q)
activated-Commits o now id user s (s', row c) v =
    published-Commits o s (deployment_publish o.publish_fails now id user s')
      (Landed-trans s s' _ v (deployment_publish-Landed o.publish_fails now id user s' v.inv))
activated-Commits o now id user s (s', no_rows) v = refl
activated-Commits o now id user s (s', query_error) v = refl

activate-Landed :
    (fails : Bool) (now id : ℕ) (user : String) (s : Store)
    → StoreInv s
    → Landed s (config_suite_activate fails now id user s).0
unfolding config_suite_activate
activate-Landed true now id user s v = record { inv = v; lives = λ k. here }
activate-Landed false now id user s v = record { inv = v; lives = λ k. here }

suite-Commits :
    (o : Outside) (now id : ℕ) (user : String) (s : Store) (c : Option ℕ)
    → StoreInv s
    → Commits s (job_suite o now id user s c)
suite-Commits o now id user s none v = refl
suite-Commits o now id user s (some c) v =
    activated-Commits o now id user s (config_suite_activate o.activate_fails now c user s)
      (activate-Landed o.activate_fails now c user s v)

pub publish-Commits :
    (o : Outside) (now id : ℕ) (user : String) (s : Store)
    → StoreInv s
    → Commits s (job_publish o now id user s)
unfolding job_publish
publish-Commits o now id user s v =
    if_rule (Commits s) o.begin_fails refl (found (deployment_get_by_id o.get_again_fails s id))
  where
    found : (r : Fetched Deployment) → Commits s (publish_found o now id user s r)
    found no_rows = refl
    found query_error = refl
    found (row d) =
        if_rule (Commits s) (not (same_status d.status DeploymentStatus.deploying)) refl
          (suite-Commits o now id user s d.config_suite_id v)

-- Where one row has the id and one such row is deploying, the row of the id is deploying.
deploying_of_find :
    (t : List Deployment) (k id : ℕ) (d : Deployment)
    → count_where (λ x. x.id == k) t ≤ 1
    → 1 ≤ count_where (is_deploying_id id) t
    → find_where (λ x. x.id == k) t ≡ some d
    → (d.id == id) ≡ true
    → d.status ≡ DeploymentStatus.deploying
unfolding Option.bind is_deploying_id is_deploying same_status
deploying_of_find t k id d one some_row f e = elim (Bool-cases (is_deploying d)) [
  | inl h ↦ ground arith
  | inr h ↦ absurd (omega (arith, some_row, count_of_find_none (is_deploying_id id) t (none_of h)))
]
  where
    same : k ≡ id
    same = ground (arith, find-holds (λ x. x.id == k) t d f)

    none_of : is_deploying d ≡ false → find_where (is_deploying_id id) t ≡ none
    none_of h =
        subst (λ n. find_where (λ x. (x.id == n) && is_deploying x) t ≡ none) same
          (rw (find-and (λ x. x.id == k) is_deploying t one, f, h) refl)

pub report-Landed :
    (fails : Bool) (id : ℕ) (error : String) (s : Store)
    → StoreInv s
    → 1 ≤ count_where (is_deploying_id id) s.deployments
    → Landed s (job_report fails id error s)
unfolding job_report update_deployment_last_error
report-Landed true id error s v h = record { inv = v; lives = λ k. here }
report-Landed false id error s v h = record {
  inv = fail-TableInv id error s.deployments s.next_id v;
  lives = λ k.
      update-Life (λ d. d.id == id)
        (λ d. record d { last_error = some error; status = DeploymentStatus.failed }) s.deployments
        s.next_id k (λ d. refl)
        (λ d f e. rw (deploying_of_find s.deployments k id d (v.unique k) h f e) (once failed));
}
