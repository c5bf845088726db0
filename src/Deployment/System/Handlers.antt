-- ===== src/Deployment/System/Handlers.antt =====
-- What each handler, and each part of a job, keeps of the table `deployments`.

use maos_core.Deployment.System.Moves.{
  insert-owned, unused_row, delete-owned, insert-TableInv, delete-TableInv,
}
use maos_core.Deployment.System.Rules.{
  create_rule, update_rule, reject_rule, submit_rule, delete_rule,
}
use maos_core.Common.Table.{count_of_find_none, find_where, count_where, update_where}
use maos_core.Deployment.System.Lifecycle.{insert-Life, delete-Life, view, Life, here}
use maos_core.Deployment.System.Tables.{
  reject-Quiet, set_name-Quiet, found_given, drafted, submit-Quiet, Quiet-owned, Quiet-Life,
  Quiet-TableInv, Quiet, TableInv,
}
use maos_core.Deployment.Manage.{
  rejection_notes, create_deployment, update_deployment, reject_deployment, submit_deployment,
  delete_deployment, SubmitFaults,
}
use maos_core.Models.{Fetched, Deployment, Bytes}
use maos_core.Deployment.Store.{new_deployment, name_taken, is_some, insert_with, Store}
use maos_core.Deployment.Store.Statements.{
  reject, set_name, can_reject, submit, is_draft, is_deploying, is_deploying_id, others_deploying,
}
use maos_core.Common.{
  inr, inl, if_rule, ◌≤◌, Option-cases, List, String, false, arith, ℕ, Option, Bool, ◌≡◌, refl,
}

abbrev pub StoreInv : Store → Type 0
StoreInv s = TableInv s.deployments s.next_id

-- Every deployment goes on with its life.
abbrev pub Lives : Store → Store → Type 0
Lives s s' = (k : ℕ) → Life (view k s.deployments s.next_id) (view k s'.deployments s'.next_id)

-- The deployments under way are still so.
pub record Kept (s s' : Store) : Type 0 where
  pub inv : StoreInv s'
  pub lives : Lives s s'
  pub owned :
      (k : ℕ)
      → count_where (is_deploying_id k) s.deployments
        ≤ count_where (is_deploying_id k) s'.deployments

pub same_Kept : (s : Store) → StoreInv s → Kept s s
same_Kept s v = record { inv = v; lives = λ k. here; owned = λ k. omega arith }

Quiet-Kept :
    (p : Deployment → Bool) (f : Deployment → Deployment) (s : Store)
    → Quiet p f
    → StoreInv s
    → Kept s (record s { deployments = update_where p f s.deployments })
Quiet-Kept p f s q v = record {
  inv = Quiet-TableInv p f s.deployments s.next_id q v;
  lives = λ k. Quiet-Life p f s.deployments s.next_id k q;
  owned = λ k. omega (arith, Quiet-owned p f s.deployments k q);
}

insert-Kept :
    (preferred : Option ℕ → Bool) (now : ℕ) (name user : String) (reviewers : Option (List String))
    (s : Store)
    → StoreInv s
    → Kept s (insert_with preferred now name user reviewers s).0
unfolding insert_with
insert-Kept preferred now name user reviewers s v =
    if_rule (λ (q : Store × Fetched Deployment). Kept s q.0) (name_taken name s.deployments)
      (same_Kept s v)
      (record {
        inv =
            insert-TableInv s.deployments s.next_id
              (new_deployment s.next_id s.next_suite_id now name user reviewers) refl refl (λ e. cc)
              v;
        lives = λ k.
            insert-Life s.deployments s.next_id k
              (new_deployment s.next_id s.next_suite_id now name user reviewers) refl refl
              (unused_row s.deployments s.next_id v);
        owned = λ k.
            insert-owned s.deployments
              (new_deployment s.next_id s.next_suite_id now name user reviewers) k;
      })

pub create-Kept :
    (fails : Bool) (now : ℕ) (name user : String) (reviewers : Option (List String))
    (from' : Option ℕ) (s : Store)
    → StoreInv s
    → Kept s (create_deployment fails now name user reviewers from' s).0
create-Kept fails now name user reviewers from' s v =
    create_rule (Kept s) s (same_Kept s v) fails now name user reviewers from'
      (λ p r. insert-Kept p now name user r s v)

pub update-Kept :
    (fails : Bool) (id : ℕ) (name : Option String) (reviewers : Option (List String)) (s : Store)
    → StoreInv s
    → Kept s (update_deployment fails id name reviewers s).0
update-Kept fails id name reviewers s v =
    update_rule (Kept s) s (same_Kept s v) fails id name reviewers (
      Quiet-Kept (is_draft id) (set_name name reviewers) s
        (set_name-Quiet (is_draft id) name reviewers) v)

pub submit-Kept :
    (faults : SubmitFaults) (id : ℕ) (s : Store)
    → StoreInv s
    → Kept s (submit_deployment faults id s).0
submit-Kept faults id s v =
    submit_rule (Kept s) s (same_Kept s v) faults id
      (Quiet-Kept (is_draft id) submit s (submit-Quiet id) v)

pub reject-Kept :
    (is_json : Bytes → Bool) (fails : Bool) (now id : ℕ) (user : String) (reason : Bytes)
    (s : Store)
    → StoreInv s
    → Kept s (reject_deployment is_json fails now id user reason s).0
reject-Kept is_json fails now id user reason s v =
    reject_rule (Kept s) s (same_Kept s v) is_json fails now id user reason (
      Quiet-Kept (can_reject id user) (reject now user (rejection_notes reason)) s
        (reject-Quiet id now user (rejection_notes reason)) v)

pub delete-Kept :
    (fails : Bool) (id : ℕ) (s : Store) → StoreInv s → Kept s (delete_deployment fails id s).0
delete-Kept fails id s v = delete_rule (Kept s) s (same_Kept s v) fails id (record {
  inv = delete-TableInv (is_draft id) s.deployments s.next_id v;
  lives = λ k.
      delete-Life (is_draft id) s.deployments s.next_id k (v.unique k) (λ d h. drafted id d h)
        (λ d f. found_given s.deployments s.next_id k d v f);
  owned = λ k. omega (arith, delete-owned id k s.deployments);
})

pub none_deploying :
    (s : Store) → others_deploying s ≡ false → count_where is_deploying s.deployments ≡ 0
unfolding others_deploying is_some
none_deploying s h = elim (Option-cases (find_where is_deploying s.deployments)) [
  | inl e ↦ count_of_find_none is_deploying s.deployments e
  | inr (d, e) ↦ absurd (cc)
]
