-- ===== src/Deployment/System.antt =====
-- The deployments of a running server: the store, and the jobs that are under way. The handlers and
-- the parts of the jobs happen in any order, and the process may stop at any time.
pub mod Lifecycle
pub mod Tables
pub mod Moves
pub mod Rules
pub mod Closure
pub mod Handlers
pub mod Publishing
pub mod Landing
pub mod Safety
pub mod Refinement
pub mod Blocked
use maos_core.Common.{◌++◌, Bool, List, [], ◌∷◌, ℕ, Option, if◌then◌else◌, String}
use maos_core.Models.{Bytes}
use maos_core.Deployment.Store.{Store}
use maos_core.Deployment.Manage.{
  SubmitFaults, Response, create_deployment, update_deployment, submit_deployment,
  reject_deployment, publish_deployment, delete_deployment,
}
use maos_core.Deployment.Job.{
  Outside, Outcome, done, fails_with, job_panics, job_migrate, job_publish, job_report,
}

pub data Phase : Type 0 where
  migrating : Phase
  publishing : Phase
  reporting : String → Phase

pub record Job : Type 0 where
  pub deployment_id : ℕ
  pub user : String
  pub phase : Phase

pub record System : Type 0 where
  pub store : Store
  pub jobs : List Job

-- `advance` lets the first job do its next part, and `rotate` lets another be the first.
pub data Action : Type 0 where
  create : Bool → ℕ → String → String → Option (List String) → Option ℕ → Action
  update : Bool → ℕ → Option String → Option (List String) → Action
  submit : SubmitFaults → ℕ → Action
  reject : (Bytes → Bool) → Bool → ℕ → ℕ → String → Bytes → Action
  publish : Bool → ℕ → ℕ → String → Action
  delete : Bool → ℕ → Action
  advance : Outside → Bool → ℕ → Action
  rotate : Action
  crash : Action

-- A panic in a goroutine ends the process, and all jobs with it.
abbrev pub after_part : Job → List Job → Phase → Store × Outcome → System
after_part j jobs next (store, done) = record {
  store = store;
  jobs = record j { phase = next } ∷ jobs;
}
after_part j jobs next (store, fails_with error) = record {
  store = store;
  jobs = record j { phase = reporting error } ∷ jobs;
}
after_part j jobs next (store, job_panics) = record { store = store; jobs = [] }

abbrev pub after_publish : Job → List Job → Store × Outcome → System
after_publish j jobs (store, done) = record { store = store; jobs = jobs }
after_publish j jobs (store, fails_with error) = record {
  store = store;
  jobs = record j { phase = reporting error } ∷ jobs;
}
after_publish j jobs (store, job_panics) = record { store = store; jobs = [] }

abbrev pub advance_phase : Outside → Bool → ℕ → Store → Job → List Job → Phase → System
advance_phase o report_fails now store j jobs migrating =
    after_part j jobs publishing (job_migrate o j.deployment_id store)
advance_phase o report_fails now store j jobs publishing =
    after_publish j jobs (job_publish o now j.deployment_id j.user store)
advance_phase o report_fails now store j jobs (reporting error) = record {
  store = job_report report_fails j.deployment_id error store;
  jobs = jobs;
}

abbrev pub advance_jobs : Outside → Bool → ℕ → Store → List Job → System
advance_jobs o report_fails now store [] = record { store = store; jobs = [] }
advance_jobs o report_fails now store (j ∷ jobs) =
    advance_phase o report_fails now store j jobs j.phase

abbrev pub rotate_jobs : List Job → List Job
rotate_jobs [] = []
rotate_jobs (j ∷ jobs) = jobs ++ j ∷ []

abbrev pub with_job : ℕ → String → List Job → Store × Response × Bool → System
with_job id user jobs (store, r, starts) = record {
  store = store;
  jobs =
      if starts
      then jobs ++ record { deployment_id = id; user = user; phase = migrating } ∷ []
      else jobs;
}

unfoldable pub act : Action → System → System
act (create fails now name user reviewers clone_from) s = record s {
  store = (create_deployment fails now name user reviewers clone_from s.store).0;
}
act (update fails id name reviewers) s = record s {
  store = (update_deployment fails id name reviewers s.store).0;
}
act (submit faults id) s = record s { store = (submit_deployment faults id s.store).0 }
act (reject is_json fails now id user reason) s = record s {
  store = (reject_deployment is_json fails now id user reason s.store).0;
}
act (publish fails now id user) s =
    with_job id user s.jobs (publish_deployment fails now id user s.store)
act (delete fails id) s = record s { store = (delete_deployment fails id s.store).0 }
act (advance o report_fails now) s = advance_jobs o report_fails now s.store s.jobs
act rotate s = record s { jobs = rotate_jobs s.jobs }
act crash s = record s { jobs = [] }

unfoldable pub act_all : List Action → System → System
unfolding act
act_all [] s = s
act_all (a ∷ as') s = act_all as' (act a s)
