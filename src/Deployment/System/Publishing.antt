-- ===== src/Deployment/System/Publishing.antt =====
-- What the publication and the parts of its job keep of the table `deployments`.

use maos_core.Deployment.System.Lifecycle.{approved, Event, once, at, Life, update-Life}
use maos_core.Common.{
  ◌≡◌, ◌≤◌, refl, arith, ◌==◌, Bool, true, false, not, ℕ, Option, none, some, String, Bool-cases,
  if_rule, if◌then◌else◌, inl, inr, ◌∙◌,
}
use maos_core.Common.Table.{count_where, count-update-rise, find-update, find-holds}
use maos_core.Common.Membership.{count_of_Memᴰ, Memᴰ-find}
use maos_core.Models.{
  Bytes, Deployment, DeploymentStatus, Fetched, row, no_rows, query_error, same_status,
}
use maos_core.Deployment.Store.{Store, find_deployment, deployment_get_by_id}
use maos_core.Deployment.Store.Statements.{
  is_deploying, is_publishable, is_deploying_id, others_deploying, start_deploying,
  set_deployment_deploying, update_deployment_migration_logs, deploying_result,
}
use maos_core.Deployment.Manage.{Response, publish_deployment, answer_publish, is_blank}
use maos_core.Deployment.Job.{
  Outside, Outcome, job_migrate, migrate_found, migrate_suite, run_deployment_migrations,
  write_logs,
}
use maos_core.Deployment.System.Tables.{Quiet-TableInv, Quiet-owned, logs-Quiet, Quiet-Life}
use maos_core.Deployment.System.Moves.{can_start, start-TableInv}
use maos_core.Deployment.System.Handlers.{StoreInv, Kept, same_Kept, none_deploying}

start-Life :
    (now : ℕ) (user : String) (d : Deployment)
    → is_publishable d ≡ true
    → Life (at d.status) (at (start_deploying now user d).status)
unfolding is_publishable same_status
start-Life now user d h = elim (Bool-cases (same_status d.status DeploymentStatus.draft)) [
  | inl e ↦ let f : d.status ≡ DeploymentStatus.draft = ground arith in rw f (once Event.started)
  | inr e ↦ let f : d.status ≡ DeploymentStatus.reviewing = ground arith in rw f (once approved)
]

start-Kept :
    (id now : ℕ) (user : String) (s : Store)
    → StoreInv s
    → Kept s (set_deployment_deploying false now id user s).0
unfolding set_deployment_deploying is_deploying_id is_deploying is_publishable same_status
start-Kept id now user s v = record {
  inv =
      start-TableInv id now user (others_deploying s) s.deployments s.next_id (none_deploying s) v;
  lives = λ k.
      update-Life (can_start id (others_deploying s)) (start_deploying now user) s.deployments
        s.next_id k (λ d. refl) (λ d f h. start-Life now user d (ground arith));
  owned = λ k.
      count-update-rise (can_start id (others_deploying s)) (is_deploying_id k)
        (start_deploying now user) (λ d h. ground arith) s.deployments;
}

-- A row that is deploying counts.
pub owned_row :
    (s : Store) (k : ℕ) (d : Deployment)
    → find_deployment s k ≡ some d
    → d.status ≡ DeploymentStatus.deploying
    → 1 ≤ count_where (is_deploying_id k) s.deployments
unfolding find_deployment is_deploying_id is_deploying same_status
owned_row s k d f e =
    count_of_Memᴰ (is_deploying_id k) s.deployments (Memᴰ-find (λ x. x.id == k) s.deployments f)
      (rw (find-holds (λ x. x.id == k) s.deployments d f, e) refl)

-- What a publication that starts a job has done.
abbrev pub Starts : ℕ → Store → Store → Type 0
Starts id s s' =
    (count_where is_deploying s.deployments ≡ 0)
    × (1 ≤ count_where (is_deploying_id id) s'.deployments)

blank_text :
    (p others : Bool)
    → is_blank (
        if not p
        then "deployment must be in reviewing or draft status"
        else if others
        then "others are deploying"
        else "")
      ≡ true
    → (p ≡ true) × (others ≡ false)
unfolding is_blank
blank_text true true h = absurd (ground arith)
blank_text true false h = (refl, refl)
blank_text false others h = absurd (ground arith)

pub start_row :
    (id now : ℕ) (user : String) (s : Store) (d : Deployment)
    → find_deployment s id ≡ some d
    → is_publishable d ≡ true
    → others_deploying s ≡ false
    → find_deployment (set_deployment_deploying false now id user s).0 id
      ≡ some (start_deploying now user d)
unfolding find_deployment set_deployment_deploying
start_row id now user s d f p e =
    find-update (λ x. x.id == id) (can_start id (others_deploying s)) (start_deploying now user)
      (λ x. ground arith) s.deployments
    ∙ rw (f, e, p, find-holds (λ x. x.id == id) s.deployments d f) refl

started :
    (id now : ℕ) (user : String) (s : Store) (o : Option Deployment)
    → find_deployment s id ≡ o
    → is_blank (deploying_result (others_deploying s) o) ≡ true
    → Starts id s (set_deployment_deploying false now id user s).0
unfolding is_blank
started id now user s none f h = absurd (ground arith)
started id now user s (some d) f h =
    let (p, e) = blank_text (is_publishable d) (others_deploying s) h in
    (none_deploying s e, deploying_now (start_row id now user s d f p e))
  where
    s' : Store
    s' = (set_deployment_deploying false now id user s).0

    deploying_now :
        find_deployment s' id ≡ some (start_deploying now user d)
        → 1 ≤ count_where (is_deploying_id id) s'.deployments
    deploying_now f' = owned_row s' id (start_deploying now user d) f' refl

abbrev pub PublishKept : ℕ → Store → Store × Response × Bool → Type 0
PublishKept id s (s', r, starts) = Kept s s' × (starts ≡ true → Starts id s s')

answer_publish-Kept :
    (id : ℕ) (s s' : Store) (message : String)
    → Kept s s'
    → (is_blank message ≡ true → Starts id s s')
    → PublishKept id s (answer_publish (s', row message))
answer_publish-Kept id s s' message k h = elim (Bool-cases (is_blank message)) [
  | inl e ↦ rw e (k, λ t. h e)
  | inr e ↦ rw e (k, λ t. absurd cc)
]

pub publish-Kept :
    (fails : Bool) (now id : ℕ) (user : String) (s : Store)
    → StoreInv s
    → PublishKept id s (publish_deployment fails now id user s)
unfolding publish_deployment set_deployment_deploying
publish-Kept fails now id user s v =
    if_rule (PublishKept id s) (is_blank user) (same_Kept s v, λ t. absurd cc) (sent fails)
  where
    sent : (b : Bool) → PublishKept id s (answer_publish (set_deployment_deploying b now id user s))
    sent true = (same_Kept s v, λ t. absurd cc)
    sent false =
        answer_publish-Kept id s (set_deployment_deploying false now id user s).0
          (deploying_result (others_deploying s) (find_deployment s id))
          (start-Kept id now user s v) (started id now user s (find_deployment s id) refl)

write_logs-Kept :
    (o : Outside) (id : ℕ) (s : Store) (logs : Option Bytes)
    → StoreInv s
    → Kept s (write_logs o id s logs)
unfolding update_deployment_migration_logs
write_logs-Kept o id s none v = same_Kept s v
write_logs-Kept o id s (some logs) v = if_rule (Kept s) o.logs_fail (same_Kept s v) (record {
  inv =
      Quiet-TableInv (λ d. d.id == id) (λ d. record d { migration_logs = some logs }) s.deployments
        s.next_id (logs-Quiet (λ d. d.id == id) logs) v;
  lives = λ k.
      Quiet-Life (λ d. d.id == id) (λ d. record d { migration_logs = some logs }) s.deployments
        s.next_id k (logs-Quiet (λ d. d.id == id) logs);
  owned = λ k. omega (
    arith,
    Quiet-owned (λ d. d.id == id) (λ d. record d { migration_logs = some logs }) s.deployments k
        (logs-Quiet (λ d. d.id == id) logs),
  );
})

migrate_found-Kept :
    (o : Outside) (id : ℕ) (s : Store) (r : Fetched Deployment)
    → StoreInv s
    → Kept s (migrate_found o id s r).0
unfolding run_deployment_migrations
migrate_found-Kept o id s no_rows v = same_Kept s v
migrate_found-Kept o id s query_error v = same_Kept s v
migrate_found-Kept o id s (row d) v = suite d.config_suite_id
  where
    suite : (c : Option ℕ) → Kept s (migrate_suite o id s c).0
    suite none = same_Kept s v
    suite (some c) =
        if_rule (λ (q : Store × Outcome). Kept s q.0) o.configs_fail (same_Kept s v)
          (if_rule (λ (q : Store × Outcome). Kept s q.0) o.params_fail (same_Kept s v)
            (write_logs-Kept o id s o.logs v))

pub migrate-Kept : (o : Outside) (id : ℕ) (s : Store) → StoreInv s → Kept s (job_migrate o id s).0
unfolding job_migrate
migrate-Kept o id s v = migrate_found-Kept o id s (deployment_get_by_id o.get_fails s id) v
