-- ===== src/Deployment/Job.antt =====
-- admin/deployment_manage.go: the job that PublishDeployment starts, in its three parts: up to the
-- migrations, the transaction after them, and the report of an error. Others run in between.
pub mod Success
use maos_core.Common.{Bool, not, ℕ, Option, none, some, if◌then◌else◌, String}
use maos_core.Models.{
  Bytes, Deployment, DeploymentStatus, Fetched, row, no_rows, query_error, same_status,
}
use maos_core.Deployment.Store.{Store, deployment_get_by_id}
use maos_core.Deployment.Store.Statements.{
  config_suite_activate, deployment_publish, update_deployment_last_error,
  update_deployment_migration_logs,
}

-- What the calls outside of the deployment tables give: the configurations, the cluster, the suite
-- store and the API tokens; `logs` are the migration logs as JSON where they can be written.
pub record Outside : Type 0 where
  pub get_fails : Bool
  pub configs_fail : Bool
  pub params_fail : Bool
  pub migrations_fail : Bool
  pub logs : Option Bytes
  pub logs_fail : Bool
  pub begin_fails : Bool
  pub get_again_fails : Bool
  pub activate_fails : Bool
  pub publish_fails : Bool
  pub suite_store_fails : Bool
  pub rotate_fails : Bool
  pub cluster_fails : Bool
  pub commit_fails : Bool

-- `none` is the success, else the error's text, without the cause that follows it. A nil suite id
-- would be dereferenced before the migrations.
pub data Outcome : Type 0 where
  done : Outcome
  fails_with : String → Outcome
  job_panics : Outcome

abbrev pub write_logs : Outside → ℕ → Store → Option Bytes → Store
write_logs o id store none = store
write_logs o id store (some logs) = update_deployment_migration_logs o.logs_fail id logs store

-- runDeploymentMigrations: the logs are written whatever the migrations give.
unfoldable pub run_deployment_migrations : Outside → ℕ → Store → Store × Outcome
run_deployment_migrations o id store =
    if o.params_fail then (store, fails_with "Cannot run deployment migrations") else (
      write_logs o id store o.logs,
      if o.migrations_fail then fails_with "Cannot run deployment migrations" else done,
    )

abbrev pub migrate_suite : Outside → ℕ → Store → Option ℕ → Store × Outcome
migrate_suite o id store none = (store, job_panics)
migrate_suite o id store (some suite_id) =
    if o.configs_fail
    then (store, fails_with "Cannot get configs")
    else run_deployment_migrations o id store

abbrev pub migrate_found : Outside → ℕ → Store → Fetched Deployment → Store × Outcome
migrate_found o id store no_rows = (store, fails_with "deployment not found")
migrate_found o id store query_error = (store, fails_with "Cannot get deployment")
migrate_found o id store (row d) = migrate_suite o id store d.config_suite_id

unfoldable pub job_migrate : Outside → ℕ → Store → Store × Outcome
unfolding run_deployment_migrations
job_migrate o id store = migrate_found o id store (deployment_get_by_id o.get_fails store id)

-- The transaction's last calls: `store` is what a rollback restores.
abbrev pub job_commit : Outside → Store → Store → Store × Outcome
job_commit o store store' =
    if o.suite_store_fails
    then (store, fails_with "Cannot publish config suite to S3")
    else if o.rotate_fails
    then (store, fails_with "Cannot rotate actor api keys")
    else if o.cluster_fails
    then (store, fails_with "Cannot update kubernetes deployments")
    else if o.commit_fails
    then (store, fails_with "commit")
    else (store', done)

abbrev pub job_published : Outside → Store → Store × Fetched Deployment → Store × Outcome
job_published o store (store', row d) = job_commit o store store'
job_published o store (store', _) = (store, fails_with "Cannot publish deployment")

abbrev pub job_activated : Outside → ℕ → ℕ → String → Store → Store × Fetched ℕ → Store × Outcome
job_activated o now id user store (store', row suite_id) =
    job_published o store (deployment_publish o.publish_fails now id user store')
job_activated o now id user store (store', _) = (store, fails_with "Cannot activate config suite")

abbrev pub job_suite : Outside → ℕ → ℕ → String → Store → Option ℕ → Store × Outcome
job_suite o now id user store none =
    (store, fails_with "Cannot publish deployment. Deployment has no config suite")
job_suite o now id user store (some suite_id) =
    job_activated o now id user store
      (config_suite_activate o.activate_fails now suite_id user store)

abbrev pub publish_found : Outside → ℕ → ℕ → String → Store → Fetched Deployment → Store × Outcome
publish_found o now id user store (row d) =
    if not (same_status d.status DeploymentStatus.deploying)
    then (store, fails_with "deployment must be in deploying status to be deployed")
    else job_suite o now id user store d.config_suite_id
publish_found o now id user store _ = (store, fails_with "Cannot get deployment")

unfoldable pub job_publish : Outside → ℕ → ℕ → String → Store → Store × Outcome
job_publish o now id user store =
    if o.begin_fails
    then (store, fails_with "Cannot publish deployment. Cannot start transaction")
    else publish_found o now id user store (deployment_get_by_id o.get_again_fails store id)

-- After an error the deployment is failed; the error of this call is only logged.
unfoldable pub job_report : Bool → ℕ → String → Store → Store
job_report report_fails id error store = update_deployment_last_error report_fails id error store
