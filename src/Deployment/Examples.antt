-- ===== src/Deployment/Examples.antt =====
-- The deployments on concrete inputs: one deployment is deployed, and a second one is a draft.
use maos_core.Common.{
  ◌≡◌, ◌≢◌, refl, Bool, true, false, List, [], ◌∷◌, ℕ, none, some, arith, ◌⊎◌, if◌then◌else◌, ◌==◌,
}
use maos_core.Common.Table.{find_where, count_where}
use maos_core.Common.Membership.{All}
use maos_core.Models.{ConfigSuite, Deployment, DeploymentStatus}
use maos_core.Deployment.Store.{Store, find_deployment}
use maos_core.Deployment.Store.Statements.{is_deployed, retire, finish_deploying, is_deploying}
use maos_core.Deployment.Manage.{publish_deployment, submit_deployment}
use maos_core.Deployment.Manage.Submission.{no_faults, Submits, Unsubmitted, submit_cases}
use maos_core.Deployment.Job.{Outside, job_publish, done}
use maos_core.Deployment.Job.Success.{Well, job_publish_succeeds}
use maos_core.Deployment.System.{System, Action, publish, submit, advance, crash, act_all}
use maos_core.Deployment.System.Tables.{TableInv}
use maos_core.Deployment.System.Safety.{Safe, act_all-Safe}
use maos_core.Deployment.System.Blocked.{orphan_blocks}

abbrev deployment : ℕ → DeploymentStatus → ℕ → Deployment
deployment id status suite = record {
  id = id;
  name = "release";
  status = status;
  reviewers = "ann" ∷ [];
  config_suite_id = some suite;
  notes = none;
  created_by = "bob";
  created_at = 1;
  approved_by = none;
  approved_at = none;
  finished_by = none;
  finished_at = none;
  migration_logs = none;
  last_error = none;
  deploying_at = none;
  deployed_at = none;
}

abbrev suite : ℕ → Bool → ConfigSuite
suite id active = record {
  id = id;
  active = active;
  created_by = "bob";
  created_at = 1;
  updated_by = none;
  updated_at = none;
  deployed_at = none;
}

-- The second deployment is in the given state.
abbrev store_with : DeploymentStatus → Store
store_with status = record {
  actors = [];
  deployments = deployment 1 DeploymentStatus.deployed 1 ∷ deployment 2 status 2 ∷ [];
  config_suites = suite 1 true ∷ suite 2 false ∷ [];
  configs = [];
  next_id = 3;
  next_suite_id = 3;
  next_config_id = 1;
}

abbrev fine : Outside
fine = record {
  get_fails = false;
  configs_fail = false;
  params_fail = false;
  migrations_fail = false;
  logs = none;
  logs_fail = false;
  begin_fails = false;
  get_again_fails = false;
  activate_fails = false;
  publish_fails = false;
  suite_store_fails = false;
  rotate_fails = false;
  cluster_fails = false;
  commit_fails = false;
}

fine-Well : Well fine
fine-Well = record {
  begin = refl;
  get_again = refl;
  activation = refl;
  publication = refl;
  suite_store = refl;
  rotation = refl;
  cluster = refl;
  commit = refl;
}

submit_cases_example :
    let r = submit_deployment no_faults 2 (store_with DeploymentStatus.draft) in
    Submits 2 (store_with DeploymentStatus.draft) r
    ⊎ Unsubmitted 2 (store_with DeploymentStatus.draft) r
submit_cases_example = submit_cases 2 (store_with DeploymentStatus.draft)

abbrev deploying_store : Store
deploying_store = store_with DeploymentStatus.deploying

abbrev deploying_row : Deployment
deploying_row = deployment 2 DeploymentStatus.deploying 2

job_publish_succeeds_example :
    let (s', outcome) = job_publish fine 5 2 "ann" deploying_store in
    (outcome ≡ done)
    × (find_deployment s' 2 ≡ some (finish_deploying 5 deploying_row))
    × ((n : ℕ) (e : Deployment)
        → n ≢ 2
        → find_deployment deploying_store n ≡ some e
        → find_deployment s' n ≡ some (if is_deployed e then retire 5 "ann" e else e))
    × All (λ x. x.active ≡ (x.id == 2)) s'.config_suites
unfolding find_deployment find_where
job_publish_succeeds_example =
    job_publish_succeeds fine 5 2 2 "ann" deploying_store deploying_row (suite 2 false) fine-Well
      refl refl refl refl

store-TableInv : TableInv deploying_store.deployments 3
unfolding count_where is_deploying is_deployed
store-TableInv = record {
  unique = λ k. ground arith;
  entries = (
    record { given = omega arith; suite = λ e. cc },
    (record { given = omega arith; suite = λ e. cc }, tt),
  );
  one_deploying = omega arith;
  one_deployed = omega arith;
}

draft-TableInv : TableInv (store_with DeploymentStatus.draft).deployments 3
unfolding count_where is_deploying is_deployed
draft-TableInv = record {
  unique = λ k. ground arith;
  entries = (
    record { given = omega arith; suite = λ e. cc },
    (record { given = omega arith; suite = λ e. cc }, tt),
  );
  one_deploying = omega arith;
  one_deployed = omega arith;
}

abbrev idle : System
idle = record { store = deploying_store; jobs = [] }

abbrev waiting : System
waiting = record { store = store_with DeploymentStatus.draft; jobs = [] }

waiting-Safe : Safe waiting
waiting-Safe = record { tables = draft-TableInv; owned = tt; few = omega arith }

abbrev a_day : List Action
a_day =
    publish false 5 2 "ann"
    ∷ advance fine false 6
    ∷ advance fine false 7
    ∷ submit no_faults 2
    ∷ crash
    ∷ []

act_all-Safe_example : Safe (act_all a_day waiting)
act_all-Safe_example = act_all-Safe a_day waiting waiting-Safe

orphan_blocks_example : (publish_deployment false 9 1 "ann" (act_all a_day idle).store).2 ≡ false
unfolding find_deployment find_where
orphan_blocks_example =
    orphan_blocks a_day 2 idle deploying_row store-TableInv refl refl refl false 9 1 "ann"
