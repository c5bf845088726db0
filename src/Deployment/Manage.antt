-- ===== src/Deployment/Manage.antt =====
-- admin/deployment_manage.go: the handlers that create and change deployments. The ids of the
-- requests are natural numbers (no row has another), an error's text stands without the cause that
-- follows it, and a response with data carries the row that is shown. A transaction that is rolled
-- back leaves the store as it was.
pub mod Publication
pub mod Submission
use maos_core.Common.{
  ◌++◌, Bool, true, false, not, ◌||◌, List, [], ◌∷◌, ℕ, Option, none, some, if◌then◌else◌, String,
  str_eq,
}
use maos_core.Models.{
  Bytes, Deployment, DeploymentStatus, Fetched, row, no_rows, query_error, same_status,
}
use maos_core.Deployment.Store.{
  Store, deployment_get_by_id, deployment_insert_with_config_suite, deployment_clone_from,
}
use maos_core.Deployment.Store.Statements.{
  deployment_update, deployment_submit_for_review, deployment_reject, set_deployment_deploying,
  deployment_delete,
}

pub data Response : Type 0 where
  success : Response
  success_with : Deployment → Response
  bad_request : String → Response
  missing : Response
  server_error : String → Response

unfoldable pub is_blank : String → Bool
is_blank s = str_eq s ""

abbrev pub answer_clone : Store × Fetched Deployment → Store × Response
answer_clone (store, row d) = (store, success_with d)
answer_clone (store, no_rows) =
    (store, bad_request "Cannot clone from deployment: deployment not found")
answer_clone (store, query_error) = (store, server_error "Cannot create deployment")

abbrev pub answer_create : Store × Fetched Deployment → Store × Response
answer_create (store, row d) = (store, success_with d)
answer_create (store, _) = (store, server_error "Cannot create deployment")

-- A clone does not take the reviewers of the request.
abbrev pub create_from :
    Bool → ℕ → String → String → Option (List String) → Store → Option ℕ → Store × Response
create_from fails now name user reviewers store (some id) =
    answer_clone (deployment_clone_from fails now id name user none store)
create_from fails now name user reviewers store none =
    answer_create (deployment_insert_with_config_suite fails now name user reviewers store)

unfoldable pub create_deployment :
    Bool → ℕ → String → String → Option (List String) → Option ℕ → Store → Store × Response
unfolding is_blank
create_deployment fails now name user reviewers clone_from store =
    if is_blank name || is_blank user
    then (store, bad_request "Missing required field")
    else create_from fails now name user reviewers store clone_from

abbrev pub answer_update : Store × Fetched Deployment → Store × Response
answer_update (store, row d) = (store, success_with d)
answer_update (store, no_rows) = (store, missing)
answer_update (store, query_error) = (store, server_error "Cannot update deployment")

unfoldable pub update_deployment :
    Bool → ℕ → Option String → Option (List String) → Store → Store × Response
update_deployment fails id name reviewers store =
    answer_update (deployment_update fails id name reviewers store)

-- Which of the calls of SubmitDeployment fail.
pub record SubmitFaults : Type 0 where
  pub begin : Bool
  pub get : Bool
  pub update : Bool
  pub commit : Bool

-- The error of the commit is not looked at.
abbrev pub answer_submit : Bool → Store → Store × Fetched Deployment → Store × Response
answer_submit commit_fails store (store', row d) = (if commit_fails then store else store', success)
answer_submit commit_fails store (store', no_rows) = (store, missing)
answer_submit commit_fails store (store', query_error) =
    (store, server_error "Cannot submit deployment")

abbrev pub is_missing {ℓ} : {A : Type ℓ} → Option A → Bool
is_missing none = true
is_missing (some a) = false

abbrev pub is_nil {ℓ} : {A : Type ℓ} → List A → Bool
is_nil [] = true
is_nil (a ∷ as') = false

abbrev pub submit_found : SubmitFaults → ℕ → Store → Fetched Deployment → Store × Response
submit_found faults id store no_rows = (store, missing)
submit_found faults id store query_error = (store, server_error "Cannot get deployment")
submit_found faults id store (row d) =
    if not (same_status d.status DeploymentStatus.draft)
    then (store, bad_request "Deployment must be in draft status to be submitted")
    else if is_missing d.config_suite_id
    then (store, bad_request "Deployment must have a config suite to be submitted")
    else if is_nil d.reviewers
    then (store, bad_request "Deployment must have at least one reviewer")
    else answer_submit faults.commit store (deployment_submit_for_review faults.update id store)

unfoldable pub submit_deployment : SubmitFaults → ℕ → Store → Store × Response
submit_deployment faults id store =
    if faults.begin
    then (store, server_error "Cannot start transaction")
    else submit_found faults id store (deployment_get_by_id faults.get store id)

abbrev pub answer_reject : Store × Fetched Deployment → Store × Response
answer_reject (store, row d) = (store, success)
answer_reject (store, no_rows) = (store, missing)
answer_reject (store, query_error) = (store, server_error "Cannot reject deployment")

-- `fmt.Sprintf` of {"reason": "%s"}: the reason is not escaped.
abbrev pub rejection_notes : Bytes → Bytes
rejection_notes reason =
    (b'{' ∷ 34 ∷ b'r' ∷ b'e' ∷ b'a' ∷ b's' ∷ b'o' ∷ b'n' ∷ 34 ∷ b':' ∷ b' ' ∷ 34 ∷ [])
    ++ (reason ++ 34 ∷ b'}' ∷ [])

-- `is_json` says what the database reads as jsonb; it refuses the statement for anything else.
unfoldable pub reject_deployment :
    (Bytes → Bool) → Bool → ℕ → ℕ → String → Bytes → Store → Store × Response
unfolding is_blank
reject_deployment is_json fails now id user reason store =
    if is_blank user
    then (store, bad_request "Missing required field")
    else answer_reject (
        deployment_reject (fails || not (is_json (rejection_notes reason))) now id user
          (rejection_notes reason) store)

-- The text of the refusal is the statement's, without the words before it. The last component says
-- whether the job is started.
abbrev pub answer_publish : Store × Fetched String → Store × Response × Bool
answer_publish (store, row message) =
    if is_blank message then (store, success, true) else (store, bad_request message, false)
answer_publish (store, _) = (store, server_error "Cannot publish deployment", false)

unfoldable pub publish_deployment : Bool → ℕ → ℕ → String → Store → Store × Response × Bool
unfolding is_blank
publish_deployment fails now id user store =
    if is_blank user
    then (store, bad_request "Missing required field", false)
    else answer_publish (set_deployment_deploying fails now id user store)

abbrev pub answer_delete : Store × Fetched Deployment → Store × Response
answer_delete (store, row d) = (store, success)
answer_delete (store, no_rows) = (store, missing)
answer_delete (store, query_error) = (store, server_error "Cannot delete deployment")

unfoldable pub delete_deployment : Bool → ℕ → Store → Store × Response
delete_deployment fails id store = answer_delete (deployment_delete fails id store)
