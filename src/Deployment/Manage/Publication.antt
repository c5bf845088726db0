-- ===== src/Deployment/Manage/Publication.antt =====
-- PublishDeployment on every branch.
use mathlib.Core.Option
use maos_core.Common.{◌≡◌, ◌≢◌, ◌==◌, Bool, true, false, not, ◌&&◌, ℕ, some, String}
use maos_core.Models.{Deployment}
use maos_core.Deployment.Store.{Store, find_deployment}
use maos_core.Deployment.Store.Statements.{
  is_publishable, others_deploying, start_deploying, set_deployment_deploying,
}
use maos_core.Deployment.Manage.{Response, success, bad_request, answer_publish}

-- The deployment may be published, and now it is deploying and its job started.
abbrev pub Publishes : ℕ → ℕ → String → Store → Store × Response × Bool → Type 0
Publishes id now user s (s', r, starts) =
    (d : Deployment) × (find_deployment s id ≡ some d)
    × (is_publishable d ≡ true)
    × (others_deploying s ≡ false)
    × (r ≡ success)
    × (starts ≡ true)
    × (find_deployment s' id ≡ some (start_deploying now user d))
    × ((n : ℕ) → n ≢ id → find_deployment s' n ≡ find_deployment s n)

abbrev pub Declines : ℕ → Store → Store × Response × Bool → Type 0
Declines id s (s', r, starts) =
    ((d : Deployment)
      → find_deployment s id ≡ some d
      → is_publishable d ≡ true
      → others_deploying s ≡ true)
    × ((message : String) × (r ≡ bad_request message))
    × (starts ≡ false)
    × ((n : ℕ) → find_deployment s' n ≡ find_deployment s n)

abbrev starts_row : ℕ → Store → Deployment → Bool
starts_row id s d = (d.id == id) && (is_publishable d && not (others_deploying s))

module _ (id now : ℕ) (user : String) (s : Store) where
  abbrev answer : Store × Response × Bool
  answer = answer_publish (set_deployment_deploying false now id user s)
