-- ===== src/Deployment/System/Closure.antt =====
-- What the whole server keeps of the store, for a property that is blind to the table `deployments`.

use maos_core.Deployment.System.Rules.{
  delete_rule, reject_rule, submit_rule, update_rule, create_rule,
}
use maos_core.Deployment.Manage.{is_blank, Response, answer_publish, publish_deployment}
use maos_core.Deployment.System.{
  crash, rotate, advance, delete, publish, reject, submit, update, migrating, reporting, publishing,
  create, System, after_part, after_publish, advance_phase, Phase, advance_jobs, Bytes, Action, Job,
  act,
}
use maos_core.Models.{DeploymentStatus, same_status, query_error, no_rows, row, Deployment, Fetched}
use maos_core.Deployment.Store.Statements.{
  config_suite_activate, update_deployment_last_error, set_deployment_deploying,
  update_deployment_migration_logs, deployment_publish,
}
use maos_core.Deployment.Job.{
  job_panics, done, job_suite, migrate_suite, fails_with, write_logs, job_commit, job_published,
  migrate_found, publish_found, job_activated, Outcome, job_report, Outside, job_publish,
  job_migrate, run_deployment_migrations,
}
use maos_core.Deployment.Store.{deployment_get_by_id, insert_with, Store}
use maos_core.Common.{Bool, not, List, [], ◌∷◌, ℕ, Option, none, some, String, if_rule}

-- The property does not see the deployments, and the other statements keep it.
pub record Closed (P : Store → Type 0) : Type 0 where
  pub deployments : (s : Store) (t : List Deployment) → P s → P (record s { deployments = t })
  pub insert :
      (preferred : Option ℕ → Bool) (now : ℕ) (name user : String)
      (reviewers : Option (List String)) (s : Store)
      → P s
      → P (insert_with preferred now name user reviewers s).0
  pub activate :
      (fails : Bool) (now id : ℕ) (user : String) (s : Store)
      → P s
      → P (config_suite_activate fails now id user s).0

module _ (P : Store → Type 0) (c : Closed P) where
  answer_publish-Closed : (q : Store × Fetched String) → P q.0 → P (answer_publish q).0
  answer_publish-Closed (s, row message) h =
      if_rule (λ (q : Store × Response × Bool). P q.0) (is_blank message) h h
  answer_publish-Closed (s, no_rows) h = h
  answer_publish-Closed (s, query_error) h = h

  publish-Closed :
      (fails : Bool) (now id : ℕ) (user : String) (s : Store)
      → P s
      → P (publish_deployment fails now id user s).0
  unfolding publish_deployment set_deployment_deploying
  publish-Closed fails now id user s h =
      if_rule (λ (q : Store × Response × Bool). P q.0) (is_blank user) h
        (answer_publish-Closed (set_deployment_deploying fails now id user s)
          (if_rule (λ (q : Store × Fetched String). P q.0) fails h (c.deployments s _ h)))

  write_logs-Closed :
      (o : Outside) (id : ℕ) (s : Store) (logs : Option Bytes) → P s → P (write_logs o id s logs)
  unfolding update_deployment_migration_logs
  write_logs-Closed o id s none h = h
  write_logs-Closed o id s (some logs) h = if_rule P o.logs_fail h (c.deployments s _ h)

  migrate_found-Closed :
      (o : Outside) (id : ℕ) (s : Store) (r : Fetched Deployment)
      → P s
      → P (migrate_found o id s r).0
  unfolding run_deployment_migrations
  migrate_found-Closed o id s no_rows h = h
  migrate_found-Closed o id s query_error h = h
  migrate_found-Closed o id s (row d) h = suite d.config_suite_id
    where
      Q : Store × Outcome → Type 0
      Q q = P q.0

      suite : (x : Option ℕ) → P (migrate_suite o id s x).0
      suite none = h
      suite (some x) =
          if_rule Q o.configs_fail h (if_rule Q o.params_fail h (write_logs-Closed o id s o.logs h))

  migrate-Closed : (o : Outside) (id : ℕ) (s : Store) → P s → P (job_migrate o id s).0
  unfolding job_migrate
  migrate-Closed o id s h = migrate_found-Closed o id s (deployment_get_by_id o.get_fails s id) h

  commit-Closed : (o : Outside) (s s' : Store) → P s → P s' → P (job_commit o s s').0
  commit-Closed o s s' h k =
      if_rule Q o.suite_store_fails h
        (if_rule Q o.rotate_fails h (if_rule Q o.cluster_fails h (if_rule Q o.commit_fails h k)))
    where
      Q : Store × Outcome → Type 0
      Q q = P q.0

  published-Closed :
      (o : Outside) (s : Store) (q : Store × Fetched Deployment)
      → P s
      → P q.0
      → P (job_published o s q).0
  published-Closed o s (s', row d) h k = commit-Closed o s s' h k
  published-Closed o s (s', no_rows) h k = h
  published-Closed o s (s', query_error) h k = h

  activated-Closed :
      (o : Outside) (now id : ℕ) (user : String) (s : Store) (q : Store × Fetched ℕ)
      → P s
      → P q.0
      → P (job_activated o now id user s q).0
  unfolding deployment_publish
  activated-Closed o now id user s (s', row x) h k =
      published-Closed o s (deployment_publish o.publish_fails now id user s') h (
        if_rule (λ (q : Store × Fetched Deployment). P q.0) o.publish_fails k
          (c.deployments s' _ k))
  activated-Closed o now id user s (s', no_rows) h k = h
  activated-Closed o now id user s (s', query_error) h k = h

  publish_found-Closed :
      (o : Outside) (now id : ℕ) (user : String) (s : Store) (r : Fetched Deployment)
      → P s
      → P (publish_found o now id user s r).0
  publish_found-Closed o now id user s no_rows h = h
  publish_found-Closed o now id user s query_error h = h
  publish_found-Closed o now id user s (row d) h =
      if_rule (λ (q : Store × Outcome). P q.0)
        (not (same_status d.status DeploymentStatus.deploying)) h (suite d.config_suite_id)
    where
      suite : (x : Option ℕ) → P (job_suite o now id user s x).0
      suite none = h
      suite (some x) =
          activated-Closed o now id user s (config_suite_activate o.activate_fails now x user s) h
            (c.activate o.activate_fails now x user s h)

  job_publish-Closed :
      (o : Outside) (now id : ℕ) (user : String) (s : Store)
      → P s
      → P (job_publish o now id user s).0
  unfolding job_publish
  job_publish-Closed o now id user s h =
      if_rule (λ (q : Store × Outcome). P q.0) o.begin_fails h
        (publish_found-Closed o now id user s (deployment_get_by_id o.get_again_fails s id) h)

  report-Closed :
      (fails : Bool) (id : ℕ) (error : String) (s : Store) → P s → P (job_report fails id error s)
  unfolding job_report update_deployment_last_error
  report-Closed fails id error s h = if_rule P fails h (c.deployments s _ h)

  after_part_store :
      (j : Job) (jobs : List Job) (next : Phase) (q : Store × Outcome)
      → P q.0
      → P (after_part j jobs next q).store
  after_part_store j jobs next (s, done) h = h
  after_part_store j jobs next (s, fails_with e) h = h
  after_part_store j jobs next (s, job_panics) h = h

  after_publish_store :
      (j : Job) (jobs : List Job) (q : Store × Outcome) → P q.0 → P (after_publish j jobs q).store
  after_publish_store j jobs (s, done) h = h
  after_publish_store j jobs (s, fails_with e) h = h
  after_publish_store j jobs (s, job_panics) h = h

  phase-Closed :
      (o : Outside) (report_fails : Bool) (now : ℕ) (s : Store) (j : Job) (jobs : List Job)
      (phase : Phase)
      → P s
      → P (advance_phase o report_fails now s j jobs phase).store
  phase-Closed o report_fails now s j jobs migrating h =
      after_part_store j jobs publishing (job_migrate o j.deployment_id s)
        (migrate-Closed o j.deployment_id s h)
  phase-Closed o report_fails now s j jobs publishing h =
      after_publish_store j jobs (job_publish o now j.deployment_id j.user s)
        (job_publish-Closed o now j.deployment_id j.user s h)
  phase-Closed o report_fails now s j jobs (reporting error) h =
      report-Closed report_fails j.deployment_id error s h

  advance-Closed :
      (o : Outside) (report_fails : Bool) (now : ℕ) (s : Store) (jobs : List Job)
      → P s
      → P (advance_jobs o report_fails now s jobs).store
  advance-Closed o report_fails now s [] h = h
  advance-Closed o report_fails now s (j ∷ jobs) h =
      phase-Closed o report_fails now s j jobs j.phase h

  pub act-Closed : (a : Action) (s : System) → P s.store → P (act a s).store
  unfolding act
  act-Closed (create fails now name user reviewers from') s h =
      create_rule P s.store h fails now name user reviewers from'
        (λ p r. c.insert p now name user r s.store h)
  act-Closed (update fails id name reviewers) s h =
      update_rule P s.store h fails id name reviewers (c.deployments s.store _ h)
  act-Closed (submit faults id) s h = submit_rule P s.store h faults id (c.deployments s.store _ h)
  act-Closed (reject is_json fails now id user reason) s h =
      reject_rule P s.store h is_json fails now id user reason (c.deployments s.store _ h)
  act-Closed (publish fails now id user) s h = publish-Closed fails now id user s.store h
  act-Closed (delete fails id) s h = delete_rule P s.store h fails id (c.deployments s.store _ h)
  act-Closed (advance o report_fails now) s h = advance-Closed o report_fails now s.store s.jobs h
  act-Closed rotate s h = h
  act-Closed crash s h = h
