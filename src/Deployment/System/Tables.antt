-- ===== src/Deployment/System/Tables.antt =====
-- What the statements keep of the table `deployments`.
use maos_core.Common.{
  ltb, true, ◌≡◌, ◌≢◌, ◌≤◌, ◌<◌, refl, sym, arith, ◌==◌, Bool, List, ℕ, Option, none, some, String,
  if_rule, subst,
}
use maos_core.Common.Table.{
  find-holds, find_where, update_where, count_where, row_update, count-update-eq,
}
use maos_core.Common.Membership.{Memᴰ-find, All-Memᴰ, All, All-update}
use maos_core.Deployment.System.Lifecycle.{
  Life, here, once, at, sent_for_review, rejected, view, update-Life,
}
use maos_core.Models.{DeploymentStatus, Bytes, Deployment, same_status}
use maos_core.Deployment.Store.Statements.{
  is_draft, set_name, submit, can_reject, reject, is_deploying, is_deployed, is_deploying_id,
}

-- A row with an id that was given out, and with a suite.
pub record Entry (next_id : ℕ) (d : Deployment) : Type 0 where
  pub given : d.id < next_id
  pub suite : d.config_suite_id ≢ none

pub record TableInv (t : List Deployment) (next_id : ℕ) : Type 0 where
  pub unique : (k : ℕ) → count_where (λ d. d.id == k) t ≤ 1
  pub entries : All (Entry next_id) t
  pub one_deploying : count_where is_deploying t ≤ 1
  pub one_deployed : count_where is_deployed t ≤ 1

-- Ids and suites stay as they are.
pub record KeepsKeys (f : Deployment → Deployment) : Type 0 where
  pub ids : (d : Deployment) → (f d).id ≡ d.id
  pub suites : (d : Deployment) → (f d).config_suite_id ≡ d.config_suite_id

pub update-TableInv :
    (p : Deployment → Bool) (f : Deployment → Deployment) (t : List Deployment) (n : ℕ)
    → KeepsKeys f
    → count_where is_deploying (update_where p f t) ≤ 1
    → count_where is_deployed (update_where p f t) ≤ 1
    → TableInv t n
    → TableInv (update_where p f t) n
update-TableInv p f t n keys a b v = record {
  unique = λ k. one_each k;
  entries = All-update (Entry n) p f t (λ d m e. if_rule (Entry n) (p d) (moved d e) e) v.entries;
  one_deploying = a;
  one_deployed = b;
}
  where
    moved : (d : Deployment) → Entry n d → Entry n (f d)
    moved d e = record {
      given = subst (λ k. k < n) (sym (keys.ids d)) e.given;
      suite = subst (λ s. s ≢ none) (sym (keys.suites d)) e.suite;
    }

    one_each : (k : ℕ) → count_where (λ d. d.id == k) (update_where p f t) ≤ 1
    one_each k =
        subst (λ c. c ≤ 1)
          (sym (count-update-eq p (λ d. d.id == k) f (λ d. ground (arith, keys.ids d)) t))
          (v.unique k)

-- An update that moves no row into or out of the two states.
pub record Quiet (p : Deployment → Bool) (f : Deployment → Deployment) : Type 0 where
  pub keys : KeepsKeys f
  pub deploying : (d : Deployment) → is_deploying (row_update p f d) ≡ is_deploying d
  pub deployed : (d : Deployment) → is_deployed (row_update p f d) ≡ is_deployed d
  pub moves : (d : Deployment) → p d ≡ true → Life (at d.status) (at (f d).status)

pub Quiet-TableInv :
    (p : Deployment → Bool) (f : Deployment → Deployment) (t : List Deployment) (n : ℕ)
    → Quiet p f
    → TableInv t n
    → TableInv (update_where p f t) n
Quiet-TableInv p f t n q v =
    update-TableInv p f t n q.keys
      (rw (count-update-eq p is_deploying f q.deploying t) v.one_deploying)
      (rw (count-update-eq p is_deployed f q.deployed t) v.one_deployed) v

pub Quiet-owned :
    (p : Deployment → Bool) (f : Deployment → Deployment) (t : List Deployment) (k : ℕ)
    → Quiet p f
    → count_where (is_deploying_id k) (update_where p f t) ≡ count_where (is_deploying_id k) t
unfolding is_deploying_id
Quiet-owned p f t k q =
    count-update-eq p (is_deploying_id k) f (λ d. ground (arith, q.keys.ids d, q.deploying d)) t

pub set_name-Quiet :
    (p : Deployment → Bool) (name : Option String) (reviewers : Option (List String))
    → Quiet p (set_name name reviewers)
unfolding is_deploying is_deployed same_status
set_name-Quiet p name reviewers = record {
  keys = record { ids = λ d. refl; suites = λ d. refl };
  deploying = λ d. ground arith;
  deployed = λ d. ground arith;
  moves = λ d h. here;
}

pub logs-Quiet :
    (p : Deployment → Bool) (logs : Bytes) → Quiet p (λ d. record d { migration_logs = some logs })
unfolding is_deploying is_deployed same_status
logs-Quiet p logs = record {
  keys = record { ids = λ d. refl; suites = λ d. refl };
  deploying = λ d. ground arith;
  deployed = λ d. ground arith;
  moves = λ d h. here;
}

pub drafted : (k : ℕ) (d : Deployment) → is_draft k d ≡ true → d.status ≡ DeploymentStatus.draft
unfolding is_draft same_status
drafted k d h = ground arith

pub submit-Quiet : (k : ℕ) → Quiet (is_draft k) submit
unfolding is_deploying is_deployed same_status is_draft
submit-Quiet k = record {
  keys = record { ids = λ d. refl; suites = λ d. refl };
  deploying = λ d. ground arith;
  deployed = λ d. ground arith;
  moves = λ d h. rw (drafted k d h) (once sent_for_review);
}

reviewed :
    (k : ℕ) (user : String) (d : Deployment)
    → can_reject k user d ≡ true
    → d.status ≡ DeploymentStatus.reviewing
unfolding can_reject same_status
reviewed k user d h = ground arith

pub reject-Quiet :
    (k now : ℕ) (user : String) (notes : Bytes) → Quiet (can_reject k user) (reject now user notes)
unfolding is_deploying is_deployed same_status can_reject
reject-Quiet k now user notes = record {
  keys = record { ids = λ d. refl; suites = λ d. refl };
  deploying = λ d. ground arith;
  deployed = λ d. ground arith;
  moves = λ d h. rw (reviewed k user d h) (once rejected);
}

pub Quiet-Life :
    (p : Deployment → Bool) (f : Deployment → Deployment) (t : List Deployment) (n k : ℕ)
    → Quiet p f
    → Life (view k t n) (view k (update_where p f t) n)
Quiet-Life p f t n k q = update-Life p f t n k q.keys.ids (λ d e h. q.moves d h)

-- The id of a row that is found was given out.
pub found_given :
    (t : List Deployment) (n k : ℕ) (d : Deployment)
    → TableInv t n
    → find_where (λ x. x.id == k) t ≡ some d
    → ltb k n ≡ true
found_given t n k d v f =
    let e = All-Memᴰ (Entry n) t v.entries (Memᴰ-find (λ x. x.id == k) t f) in
    ground (arith, e.given, find-holds (λ x. x.id == k) t d f)
