-- ===== src/Deployment/Job/Success.antt =====
-- The transaction at the end of the job where every call succeeds.
use mathlib.Core.Option
use maos_core.Common.{
  ◌≡◌, ◌≢◌, refl, arith, ◌==◌, true, false, List, [], ◌∷◌, ℕ, some, String, Option-cases, inl, inr,
  ◌∙◌, ap, if◌then◌else◌,
}
use maos_core.Common.Table.{
  find_where, update_where, row_update, find-update, find-holds, count_of_find_none,
}
use maos_core.Common.Membership.{All, count_of_Memᴰ, Memᴰ-find}
use maos_core.Models.{ConfigSuite, Deployment, DeploymentStatus, same_status}
use maos_core.Deployment.Store.{Store, find_deployment, deployment_get_by_id}
use maos_core.Deployment.Store.Statements.{
  is_deploying, is_deployed, is_deploying_id, retire, finish_deploying, deployment_publish,
  activate, config_suite_activate,
}
use maos_core.Deployment.Job.{Outside, done, job_publish}

pub record Well (o : Outside) : Type 0 where
  pub begin : o.begin_fails ≡ false
  pub get_again : o.get_again_fails ≡ false
  pub activation : o.activate_fails ≡ false
  pub publication : o.publish_fails ≡ false
  pub suite_store : o.suite_store_fails ≡ false
  pub rotation : o.rotate_fails ≡ false
  pub cluster : o.cluster_fails ≡ false
  pub commit : o.commit_fails ≡ false

suite_active :
    (now c : ℕ) (user : String) (t : List ConfigSuite)
    → All (λ x. x.active ≡ (x.id == c)) (update_where (λ x. true) (activate now c user) t)
unfolding update_where
suite_active now c user [] = tt
suite_active now c user (x ∷ xs) = (ground arith, suite_active now c user xs)

-- The store after the two statements.
abbrev landed : ℕ → ℕ → ℕ → String → Store → Store
landed now id c user s =
    (deployment_publish false now id user (config_suite_activate false now c user s).0).0

module _ (now id c : ℕ) (user : String) (s : Store) where
  retired_row :
      (n : ℕ)
      → find_where (λ x. x.id == n) (update_where is_deployed (retire now user) s.deployments)
        ≡ Option.map (row_update is_deployed (retire now user)) (find_deployment s n)
  unfolding find_deployment
  retired_row n =
      find-update (λ x. x.id == n) is_deployed (retire now user) (λ x. ground arith) s.deployments

  landed_row :
      (n : ℕ)
      → find_deployment (landed now id c user s) n
        ≡ Option.map
            (row_update (is_deploying_id id) (finish_deploying now))
            (Option.map (row_update is_deployed (retire now user)) (find_deployment s n))
  unfolding find_deployment deployment_publish config_suite_activate
  landed_row n =
      find-update (λ x. x.id == n) (is_deploying_id id) (finish_deploying now) (λ x. ground arith)
        (update_where is_deployed (retire now user) s.deployments)
      ∙ ap (Option.map (row_update (is_deploying_id id) (finish_deploying now))) (retired_row n)

  row_id : (n : ℕ) (d : Deployment) → find_deployment s n ≡ some d → (d.id == n) ≡ true
  unfolding find_deployment
  row_id n d f = find-holds (λ x. x.id == n) s.deployments d f

  own_row :
      (d : Deployment)
      → find_deployment s id ≡ some d
      → d.status ≡ DeploymentStatus.deploying
      → find_deployment (landed now id c user s) id ≡ some (finish_deploying now d)
  unfolding is_deploying_id is_deployed is_deploying same_status
  own_row d f e = landed_row id ∙ rw (f, e, row_id id d f) refl

  other_row :
      (n : ℕ) (d : Deployment)
      → n ≢ id
      → find_deployment s n ≡ some d
      → find_deployment (landed now id c user s) n
        ≡ some (if is_deployed d then retire now user d else d)
  unfolding is_deploying_id is_deployed
  other_row n d ne f = landed_row n ∙ rw f (ground (arith, row_id n d f))

  found_deploying :
      (d : Deployment)
      → find_deployment s id ≡ some d
      → d.status ≡ DeploymentStatus.deploying
      → (r : Deployment) × (find_where (is_deploying_id id) s.deployments ≡ some r)
  unfolding find_deployment is_deploying_id is_deploying same_status
  found_deploying d f e = elim (Option-cases (find_where (is_deploying_id id) s.deployments)) [
    | inl none' ↦ absurd (
        omega (
          arith,
          count_of_find_none (is_deploying_id id) s.deployments none',
          count_of_Memᴰ (is_deploying_id id) s.deployments
              (Memᴰ-find (λ x. x.id == id) s.deployments f) (rw (row_id id d f, e) refl),
        ))
    | inr r ↦ r
  ]

  commits :
      (o : Outside) (d : Deployment) (suite : ConfigSuite)
      → Well o
      → find_deployment s id ≡ some d
      → d.status ≡ DeploymentStatus.deploying
      → d.config_suite_id ≡ some c
      → find_where (λ x. x.id == c) s.config_suites ≡ some suite
      → job_publish o now id user s ≡ (landed now id c user s, done)
  unfolding job_publish deployment_get_by_id config_suite_activate deployment_publish same_status
  commits o d suite w f e g h =
      let (r, k) = found_deploying d f e in
      rw
        (
          w.begin, w.get_again, w.activation, w.publication, w.suite_store, w.rotation, w.cluster,
          w.commit, f, e, g, h, k,
        )
        refl

-- Where every call succeeds, the job of a deployment that is deploying, with a suite that is there,
-- ends with the deployment deployed at that time; each other deployment that was deployed is
-- retired by the user, and no other row changes; the deployment's suite is active, and no other.
pub job_publish_succeeds :
    (o : Outside) (now id c : ℕ) (user : String) (s : Store) (d : Deployment) (suite : ConfigSuite)
    → Well o
    → find_deployment s id ≡ some d
    → d.status ≡ DeploymentStatus.deploying
    → d.config_suite_id ≡ some c
    → find_where (λ x. x.id == c) s.config_suites ≡ some suite
    → let (s', outcome) = job_publish o now id user s in
      (outcome ≡ done)
      × (find_deployment s' id ≡ some (finish_deploying now d))
      × ((n : ℕ) (e : Deployment)
          → n ≢ id
          → find_deployment s n ≡ some e
          → find_deployment s' n ≡ some (if is_deployed e then retire now user e else e))
      × All (λ x. x.active ≡ (x.id == c)) s'.config_suites
unfolding deployment_publish config_suite_activate
job_publish_succeeds o now id c user s d suite w f e g h =
    rw (commits now id c user s o d suite w f e g h) (
      refl,
      own_row now id c user s d f e,
      λ n r ne k. other_row now id c user s n r ne k,
      suite_active now c user s.config_suites,
    )
