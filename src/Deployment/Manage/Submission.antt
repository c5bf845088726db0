-- ===== src/Deployment/Manage/Submission.antt =====
-- SubmitDeployment on every branch.
use mathlib.Core.Option
use maos_core.Common.{
  ◌⊎◌, ◌≡◌, ◌≢◌, refl, arith, ◌==◌, true, false, ℕ, some, Bool-cases, Option-cases, inl, inr, ◌∙◌,
}
use maos_core.Common.Table.{find_where, row_update, find-update, find-holds, count_of_find_none}
use maos_core.Common.Membership.{count_of_Memᴰ, Memᴰ-find}
use maos_core.Models.{Deployment, DeploymentStatus, same_status}
use maos_core.Deployment.Store.{Store, find_deployment, deployment_get_by_id}
use maos_core.Deployment.Store.Statements.{is_draft, submit, deployment_submit_for_review}
use maos_core.Deployment.Manage.{
  SubmitFaults, Response, success, submit_deployment, is_missing, is_nil,
}

-- A draft with a suite and a reviewer.
pub record Submittable (d : Deployment) : Type 0 where
  pub is_in_draft : d.status ≡ DeploymentStatus.draft
  pub has_suite : is_missing d.config_suite_id ≡ false
  pub has_reviewer : is_nil d.reviewers ≡ false

abbrev pub Submits : ℕ → Store → Store × Response → Type 0
Submits id s (s', r) =
    (d : Deployment) × (find_deployment s id ≡ some d)
    × Submittable d
    × (r ≡ success)
    × (find_deployment s' id ≡ some (submit d))
    × ((n : ℕ) → n ≢ id → find_deployment s' n ≡ find_deployment s n)

abbrev pub Unsubmitted : ℕ → Store → Store × Response → Type 0
Unsubmitted id s (s', r) =
    ((d : Deployment) → find_deployment s id ≡ some d → ¬ Submittable d) × (r ≢ success) × (s' ≡ s)

abbrev pub no_faults : SubmitFaults
no_faults = record { begin = false; get = false; update = false; commit = false }

module _ (id : ℕ) (s : Store) where
  row_id : (n : ℕ) (d : Deployment) → find_deployment s n ≡ some d → (d.id == n) ≡ true
  unfolding find_deployment
  row_id n d f = find-holds (λ x. x.id == n) s.deployments d f

  row_after :
      (n : ℕ)
      → find_deployment (deployment_submit_for_review false id s).0 n
        ≡ Option.map (row_update (is_draft id) submit) (find_deployment s n)
  unfolding find_deployment deployment_submit_for_review
  row_after n = find-update (λ x. x.id == n) (is_draft id) submit (λ x. ground arith) s.deployments

  other_row :
      (n : ℕ)
      → n ≢ id
      → find_deployment (deployment_submit_for_review false id s).0 n ≡ find_deployment s n
  unfolding is_draft
  other_row n ne = elim (Option-cases (find_deployment s n)) [
    | inl e ↦ row_after n ∙ rw e refl
    | inr (d, e) ↦ row_after n ∙ rw e (ground (arith, row_id n d e))
  ]

  found_draft :
      (d : Deployment)
      → find_deployment s id ≡ some d
      → d.status ≡ DeploymentStatus.draft
      → (r : Deployment) × (find_where (is_draft id) s.deployments ≡ some r)
  unfolding find_deployment is_draft same_status
  found_draft d f e = elim (Option-cases (find_where (is_draft id) s.deployments)) [
    | inl none' ↦ absurd (
        omega (
          arith,
          count_of_find_none (is_draft id) s.deployments none',
          count_of_Memᴰ (is_draft id) s.deployments (Memᴰ-find (λ x. x.id == id) s.deployments f)
              (rw (row_id id d f, e) refl),
        ))
    | inr r ↦ r
  ]

  own_row :
      (d : Deployment)
      → find_deployment s id ≡ some d
      → d.status ≡ DeploymentStatus.draft
      → find_deployment (deployment_submit_for_review false id s).0 id ≡ some (submit d)
  unfolding is_draft same_status
  own_row d f e = row_after id ∙ rw (f, row_id id d f, e) refl

  submitted_ok :
      (d : Deployment)
      → find_deployment s id ≡ some d
      → Submittable d
      → submit_deployment no_faults id s ≡ ((deployment_submit_for_review false id s).0, success)
  unfolding submit_deployment deployment_get_by_id deployment_submit_for_review same_status
  submitted_ok d f v =
      let (r, k) = found_draft d f v.is_in_draft in
      rw (f, v.is_in_draft, v.has_suite, v.has_reviewer, k) refl

  in_draft :
      (d : Deployment)
      → same_status d.status DeploymentStatus.draft ≡ true
      → d.status ≡ DeploymentStatus.draft
  unfolding same_status
  in_draft d h = ground arith

  found_cases :
      (d : Deployment)
      → find_deployment s id ≡ some d
      → let r = submit_deployment no_faults id s in Submits id s r ⊎ Unsubmitted id s r
  unfolding submit_deployment deployment_get_by_id same_status
  found_cases d f = elim (Bool-cases (same_status d.status DeploymentStatus.draft)) [
    | inr e ↦ inr (rw (f, e) (λ d' g v. ground (arith, v.is_in_draft), λ k. cc, refl))
    | inl e ↦ elim (Bool-cases (is_missing d.config_suite_id)) [
      | inl m ↦ inr (rw (f, e, m) (λ d' g v. cc (v.has_suite), λ k. cc, refl))
      | inr m ↦ elim (Bool-cases (is_nil d.reviewers)) [
        | inl n ↦ inr (rw (f, e, m, n) (λ d' g v. cc (v.has_reviewer), λ k. cc, refl))
        | inr n ↦
            inl (sent d f (record { is_in_draft = in_draft d e; has_suite = m; has_reviewer = n }))
      ]
    ]
  ]
    where
      sent :
          (x : Deployment)
          → find_deployment s id ≡ some x
          → Submittable x
          → Submits id s (submit_deployment no_faults id s)
      sent x g v =
          rw (submitted_ok x g v) (x, g, v, refl, own_row x g v.is_in_draft, λ n ne. other_row n ne)

-- Where no call fails, SubmitDeployment puts the deployment under review exactly where it is there,
-- a draft, with a suite and at least one reviewer; then no other row changes. Else it does not
-- answer a success, and nothing changes.
pub submit_cases :
    (id : ℕ) (s : Store)
    → let r = submit_deployment no_faults id s in Submits id s r ⊎ Unsubmitted id s r
unfolding submit_deployment deployment_get_by_id
submit_cases id s = elim (Option-cases (find_deployment s id)) [
  | inl f ↦ inr (rw f (λ d g v. cc, λ k. cc, refl))
  | inr (d, f) ↦ found_cases id s d f
]
