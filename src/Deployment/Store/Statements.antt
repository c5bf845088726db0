-- ===== src/Deployment/Store/Statements.antt =====
-- dbaccess/dbsqlc/deployment.sql.go and config_suite.sql.go: the statements that change a row.
use mathlib.Core.Option
use maos_core.Common.{
  ◌==◌, Bool, true, false, not, ◌&&◌, ◌||◌, List, [], ◌∷◌, ℕ, Option, none, some, if◌then◌else◌,
  String, str_eq,
}
use maos_core.Common.Table.{find_where, update_where, delete_where}
use maos_core.Models.{
  Bytes, ConfigSuite, Deployment, DeploymentStatus, Fetched, row, query_error, fetched, coalesce,
  same_status,
}
use maos_core.Deployment.Store.{Store, find_deployment, name_taken, is_some}

-- `UPDATE deployments SET f WHERE p RETURNING ...`.
abbrev pub update_returning :
    Bool → (Deployment → Bool) → (Deployment → Deployment) → Store → Store × Fetched Deployment
update_returning fails p f store = if fails then (store, query_error) else (
  record store { deployments = update_where p f store.deployments },
  fetched (Option.map f (find_where p store.deployments)),
)

unfoldable pub is_draft : ℕ → Deployment → Bool
unfolding same_status
is_draft id d = (d.id == id) && same_status d.status DeploymentStatus.draft

unfoldable pub deployment_delete : Bool → ℕ → Store → Store × Fetched Deployment
unfolding is_draft
deployment_delete fails id store = if fails then (store, query_error) else (
  record store { deployments = delete_where (is_draft id) store.deployments },
  fetched (find_where (is_draft id) store.deployments),
)

abbrev pub set_name : Option String → Option (List String) → Deployment → Deployment
set_name name reviewers d = record d {
  name = coalesce name d.name;
  reviewers = coalesce reviewers d.reviewers;
}

-- The index on names looks at the other rows.
abbrev pub renames_onto : ℕ → Option String → List Deployment → Bool
renames_onto id none t = false
renames_onto id (some name) t = name_taken name (delete_where (λ d. d.id == id) t)

-- Only an update of a row can meet the index.
unfoldable pub deployment_update :
    Bool → ℕ → Option String → Option (List String) → Store → Store × Fetched Deployment
unfolding is_draft is_some name_taken
deployment_update fails id name reviewers store =
    let refused =
      is_some (find_where (is_draft id) store.deployments)
      && renames_onto id name store.deployments in
    update_returning (fails || refused) (is_draft id) (set_name name reviewers) store

abbrev pub submit : Deployment → Deployment
submit d = record d { status = DeploymentStatus.reviewing }

unfoldable pub deployment_submit_for_review : Bool → ℕ → Store → Store × Fetched Deployment
unfolding is_draft
deployment_submit_for_review fails id store = update_returning fails (is_draft id) submit store

unfoldable pub contains : String → List String → Bool
contains s [] = false
contains s (t ∷ ts) = str_eq s t || contains s ts

unfoldable pub can_reject : ℕ → String → Deployment → Bool
unfolding same_status contains
can_reject id user d =
    (d.id == id) && (same_status d.status DeploymentStatus.reviewing && contains user d.reviewers)

abbrev pub reject : ℕ → String → Bytes → Deployment → Deployment
reject now user notes d = record d {
  status = DeploymentStatus.rejected;
  finished_at = some now;
  finished_by = some user;
  notes = some notes;
}

unfoldable pub deployment_reject :
    Bool → ℕ → ℕ → String → Bytes → Store → Store × Fetched Deployment
unfolding can_reject
deployment_reject fails now id user notes store =
    update_returning fails (can_reject id user) (reject now user notes) store

unfoldable pub is_deploying : Deployment → Bool
unfolding same_status
is_deploying d = same_status d.status DeploymentStatus.deploying

unfoldable pub is_deployed : Deployment → Bool
unfolding same_status
is_deployed d = same_status d.status DeploymentStatus.deployed

unfoldable pub is_publishable : Deployment → Bool
unfolding same_status
is_publishable d =
    same_status d.status DeploymentStatus.reviewing || same_status d.status DeploymentStatus.draft

unfoldable pub others_deploying : Store → Bool
unfolding is_deploying is_some
others_deploying store = is_some (find_where is_deploying store.deployments)

-- The text that the statement returns; the empty text is the success.
abbrev pub deploying_result : Bool → Option Deployment → String
deploying_result others none = "deployment not found"
deploying_result others (some d) =
    if not (is_publishable d)
    then "deployment must be in reviewing or draft status"
    else if others
    then "others are deploying"
    else ""

abbrev pub start_deploying : ℕ → String → Deployment → Deployment
start_deploying now user d = record d {
  status = DeploymentStatus.deploying;
  deploying_at = some now;
  approved_at = some now;
  approved_by = some user;
}

-- As the statement is atomic, the unique index of migration 017 has nothing to refuse: the guard lets
-- a row become deploying only where no row is.
unfoldable pub set_deployment_deploying : Bool → ℕ → ℕ → String → Store → Store × Fetched String
unfolding find_deployment is_publishable others_deploying
set_deployment_deploying fails now id user store = if fails then (store, query_error) else (
  record store {
    deployments =
        update_where (λ d. (d.id == id) && (is_publishable d && not (others_deploying store)))
          (start_deploying now user) store.deployments;
  },
  row (deploying_result (others_deploying store) (find_deployment store id)),
)

abbrev pub retire : ℕ → String → Deployment → Deployment
retire now user d = record d {
  status = DeploymentStatus.retired;
  finished_at = some now;
  finished_by = some user;
}

abbrev pub finish_deploying : ℕ → Deployment → Deployment
finish_deploying now d = record d { status = DeploymentStatus.deployed; deployed_at = some now }

unfoldable pub is_deploying_id : ℕ → Deployment → Bool
unfolding is_deploying
is_deploying_id id d = (d.id == id) && is_deploying d

-- Both UPDATEs read the rows as they were before the statement, and no row is both deployed and
-- deploying, so that none is updated twice.
unfoldable pub deployment_publish : Bool → ℕ → ℕ → String → Store → Store × Fetched Deployment
unfolding is_deploying_id is_deployed
deployment_publish fails now id user store = if fails then (store, query_error) else (
  record store {
    deployments =
        update_where (is_deploying_id id) (finish_deploying now)
          (update_where is_deployed (retire now user) store.deployments);
  },
  fetched (Option.map (finish_deploying now) (find_where (is_deploying_id id) store.deployments)),
)

-- It has no condition on the status.
unfoldable pub update_deployment_last_error : Bool → ℕ → String → Store → Store
update_deployment_last_error fails id error store = if fails then store else record store {
  deployments =
      update_where (λ d. d.id == id)
        (λ d. record d { last_error = some error; status = DeploymentStatus.failed })
        store.deployments;
}

unfoldable pub update_deployment_migration_logs : Bool → ℕ → Bytes → Store → Store
update_deployment_migration_logs fails id logs store = if fails then store else record store {
  deployments =
      update_where (λ d. d.id == id) (λ d. record d { migration_logs = some logs })
        store.deployments;
}

abbrev pub activate : ℕ → ℕ → String → ConfigSuite → ConfigSuite
activate now id user s =
    if s.id == id
    then record s {
      active = true;
      deployed_at = some now;
      updated_at = some now;
      updated_by = some user;
    }
    else if s.active
    then record s { active = false; updated_at = some now; updated_by = some user }
    else s

unfoldable pub config_suite_activate : Bool → ℕ → ℕ → String → Store → Store × Fetched ℕ
config_suite_activate fails now id user store = if fails then (store, query_error) else (
  record store {
    config_suites = update_where (λ s. true) (activate now id user) store.config_suites;
  },
  fetched (Option.map (λ s. s.id) (find_where (λ s. s.id == id) store.config_suites)),
)
