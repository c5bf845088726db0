-- ===== src/Deployment/System/Rules.antt =====
-- How a handler, or a part of a job, leaves the store: as it was, or as its statement leaves it. What
-- holds of both holds after it.

use maos_core.Common.Table.{find_where, select_where, delete_where, update_where}
use maos_core.Deployment.Store.Statements.{
  renames_onto, set_name, reject, submit, can_reject, is_draft, deployment_delete,
  deployment_reject, deployment_update, deployment_submit_for_review, update_returning,
}
use maos_core.Deployment.Manage.{
  is_nil, is_missing, rejection_notes, submit_found, is_blank, create_from, Response, SubmitFaults,
  answer_reject, answer_update, reject_deployment, answer_delete, create_deployment,
  delete_deployment, submit_deployment, answer_create, answer_submit, update_deployment,
  answer_clone,
}
use maos_core.Deployment.Store.{
  deployment_get_by_id, in_suites, is_some, find_deployment, same_suite,
  deployment_insert_with_config_suite, clone_of, insert_with, deployment_clone_from, Store,
}
use maos_core.Common.{
  Bool, true, false, not, ◌&&◌, ◌||◌, List, ℕ, Option, none, some, String, if_rule,
}
use maos_core.Models.{
  Bytes, Deployment, DeploymentStatus, Fetched, row, no_rows, query_error, same_status,
}

module _ (P : Store → Type 0) (s : Store) (same : P s) where
  -- `UPDATE deployments` with a RETURNING.
  abbrev Updated : (Deployment → Bool) → (Deployment → Deployment) → Type 0
  Updated p f = P (record s { deployments = update_where p f s.deployments })

  update_returning_rule :
      (fails : Bool) (p : Deployment → Bool) (f : Deployment → Deployment)
      → Updated p f
      → P (update_returning fails p f s).0
  update_returning_rule true p f h = same
  update_returning_rule false p f h = h

  answer_clone_rule : (q : Store × Fetched Deployment) → P q.0 → P (answer_clone q).0
  answer_clone_rule (s', row d) h = h
  answer_clone_rule (s', no_rows) h = h
  answer_clone_rule (s', query_error) h = h

  answer_create_rule : (q : Store × Fetched Deployment) → P q.0 → P (answer_create q).0
  answer_create_rule (s', row d) h = h
  answer_create_rule (s', no_rows) h = h
  answer_create_rule (s', query_error) h = h

  clone_rule :
      (now : ℕ) (name user : String) (reviewers : Option (List String)) (d : Option Deployment)
      → ((preferred : Option ℕ → Bool) → P (insert_with preferred now name user reviewers s).0)
      → P (clone_of now name user reviewers s d).0
  clone_rule now name user reviewers none h = same
  clone_rule now name user reviewers (some d) h = h (same_suite d.config_suite_id)

  create_from_rule :
      (fails : Bool) (now : ℕ) (name user : String) (reviewers : Option (List String))
      (from' : Option ℕ)
      → ((preferred : Option ℕ → Bool) (r : Option (List String))
          → P (insert_with preferred now name user r s).0)
      → P (create_from fails now name user reviewers s from').0
  unfolding deployment_clone_from deployment_insert_with_config_suite
  create_from_rule fails now name user reviewers (some id) h =
      answer_clone_rule (deployment_clone_from fails now id name user none s) (
        if_rule (λ (q : Store × Fetched Deployment). P q.0) fails same
          (clone_rule now name user none (find_deployment s id) (λ p. h p none)))
  create_from_rule fails now name user reviewers none h =
      answer_create_rule (deployment_insert_with_config_suite fails now name user reviewers s) (
        if_rule (λ (q : Store × Fetched Deployment). P q.0) fails same
          (h (in_suites (select_where (λ t. t.active) s.config_suites)) reviewers))

  pub create_rule :
      (fails : Bool) (now : ℕ) (name user : String) (reviewers : Option (List String))
      (from' : Option ℕ)
      → ((preferred : Option ℕ → Bool) (r : Option (List String))
          → P (insert_with preferred now name user r s).0)
      → P (create_deployment fails now name user reviewers from' s).0
  unfolding create_deployment
  create_rule fails now name user reviewers from' h =
      if_rule (λ (q : Store × Response). P q.0) (is_blank name || is_blank user) same
        (create_from_rule fails now name user reviewers from' h)

  answer_update_rule : (q : Store × Fetched Deployment) → P q.0 → P (answer_update q).0
  answer_update_rule (s', row d) h = h
  answer_update_rule (s', no_rows) h = h
  answer_update_rule (s', query_error) h = h

  pub update_rule :
      (fails : Bool) (id : ℕ) (name : Option String) (reviewers : Option (List String))
      → Updated (is_draft id) (set_name name reviewers)
      → P (update_deployment fails id name reviewers s).0
  unfolding update_deployment deployment_update
  update_rule fails id name reviewers h =
      answer_update_rule (deployment_update fails id name reviewers s) (
        update_returning_rule
          (fails
            || (is_some (find_where (is_draft id) s.deployments)
                && renames_onto id name s.deployments))
          (is_draft id) (set_name name reviewers) h)

  answer_submit_rule :
      (commit_fails : Bool) (q : Store × Fetched Deployment)
      → P q.0
      → P (answer_submit commit_fails s q).0
  answer_submit_rule commit_fails (s', row d) h = if_rule P commit_fails same h
  answer_submit_rule commit_fails (s', no_rows) h = same
  answer_submit_rule commit_fails (s', query_error) h = same

  submit_found_rule :
      (faults : SubmitFaults) (id : ℕ) (r : Fetched Deployment)
      → Updated (is_draft id) submit
      → P (submit_found faults id s r).0
  unfolding deployment_submit_for_review
  submit_found_rule faults id no_rows h = same
  submit_found_rule faults id query_error h = same
  submit_found_rule faults id (row d) h =
      if_rule Q (not (same_status d.status DeploymentStatus.draft)) same (
        if_rule Q (is_missing d.config_suite_id) same (
          if_rule Q (is_nil d.reviewers) same (
            answer_submit_rule faults.commit (deployment_submit_for_review faults.update id s)
              (update_returning_rule faults.update (is_draft id) submit h))))
    where
      Q : Store × Response → Type 0
      Q q = P q.0

  pub submit_rule :
      (faults : SubmitFaults) (id : ℕ)
      → Updated (is_draft id) submit
      → P (submit_deployment faults id s).0
  unfolding submit_deployment
  submit_rule faults id h =
      if_rule (λ (q : Store × Response). P q.0) faults.begin same
        (submit_found_rule faults id (deployment_get_by_id faults.get s id) h)

  answer_reject_rule : (q : Store × Fetched Deployment) → P q.0 → P (answer_reject q).0
  answer_reject_rule (s', row d) h = h
  answer_reject_rule (s', no_rows) h = h
  answer_reject_rule (s', query_error) h = h

  pub reject_rule :
      (is_json : Bytes → Bool) (fails : Bool) (now id : ℕ) (user : String) (reason : Bytes)
      → Updated (can_reject id user) (reject now user (rejection_notes reason))
      → P (reject_deployment is_json fails now id user reason s).0
  unfolding reject_deployment deployment_reject
  reject_rule is_json fails now id user reason h =
      if_rule (λ (q : Store × Response). P q.0) (is_blank user) same
        (answer_reject_rule _ (
          update_returning_rule (fails || not (is_json (rejection_notes reason)))
            (can_reject id user) (reject now user (rejection_notes reason)) h))

  answer_delete_rule : (q : Store × Fetched Deployment) → P q.0 → P (answer_delete q).0
  answer_delete_rule (s', row d) h = h
  answer_delete_rule (s', no_rows) h = h
  answer_delete_rule (s', query_error) h = h

  pub delete_rule :
      (fails : Bool) (id : ℕ)
      → P (record s { deployments = delete_where (is_draft id) s.deployments })
      → P (delete_deployment fails id s).0
  unfolding delete_deployment deployment_delete
  delete_rule fails id h =
      answer_delete_rule (deployment_delete fails id s)
        (if_rule (λ (q : Store × Fetched Deployment). P q.0) fails same h)
