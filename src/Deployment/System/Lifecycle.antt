-- ===== src/Deployment/System/Lifecycle.antt =====
-- The abstract life of one deployment, which forgets the table, the other deployments and the jobs.
use mathlib.Core.Option
use maos_core.Common.{
  ◌≡◌, ◌≢◌, ◌≤◌, refl, arith, ◌==◌, ltb, Bool, true, false, not, List, [], ◌∷◌, ◌++◌, ℕ, suc,
  Option, none, some, Bool-cases, Option-cases, if◌then◌else◌, inl, inr, ◌∙◌, subst, ap,
}
use maos_core.Common.Table.{
  find_where, update_where, delete_where, count_where, row_update, find-update, find-append,
  find-append_none, find-delete, find-and,
}
use maos_core.Models.{Deployment, DeploymentStatus}

pub data Stage : Type 0 where
  absent : Stage
  at : DeploymentStatus → Stage
  gone : Stage

-- What may happen to a deployment.
pub data Event : Stage → Stage → Type 0 where
  created : Event absent (at DeploymentStatus.draft)
  deleted : Event (at DeploymentStatus.draft) gone
  sent_for_review : Event (at DeploymentStatus.draft) (at DeploymentStatus.reviewing)
  rejected : Event (at DeploymentStatus.reviewing) (at DeploymentStatus.rejected)
  started : Event (at DeploymentStatus.draft) (at DeploymentStatus.deploying)
  approved : Event (at DeploymentStatus.reviewing) (at DeploymentStatus.deploying)
  landed : Event (at DeploymentStatus.deploying) (at DeploymentStatus.deployed)
  failed : Event (at DeploymentStatus.deploying) (at DeploymentStatus.failed)
  retired : Event (at DeploymentStatus.deployed) (at DeploymentStatus.retired)

-- Any number of events, one after another.
pub data Life (a : Stage) : Stage → Type 0 where
  here : Life a a
  later : {b c : Stage} → Life a b → Event b c → Life a c

pub once : {a b : Stage} → Event a b → Life a b
once e = later here e

pub Life-trans : {a b c : Stage} → Life a b → Life b c → Life a c
Life-trans l here = l
Life-trans l (later m e) = later (Life-trans l m) e

pub Life_of_eq : {a b : Stage} → a ≡ b → Life a b
Life_of_eq {a} e = subst (Life a) e here

abbrev pub seen : Bool → Option Deployment → Stage
seen given none = if given then gone else absent
seen given (some d) = at d.status

-- The stage of the deployment with an id: ids below the next one were given out.
abbrev pub view : ℕ → List Deployment → ℕ → Stage
view k t next_id = seen (ltb k next_id) (find_where (λ d. d.id == k) t)

seen_update :
    (given : Bool) (p : Deployment → Bool) (f : Deployment → Deployment) (o : Option Deployment)
    → ((d : Deployment) → o ≡ some d → p d ≡ true → Life (at d.status) (at (f d).status))
    → Life (seen given o) (seen given (Option.map (row_update p f) o))
seen_update given p f none h = here
seen_update given p f (some d) h = elim (Bool-cases (p d)) [
  | inl e ↦ rw e (h d refl e)
  | inr e ↦ rw e here
]

-- An UPDATE, as the one row sees it.
pub update-Life :
    (p : Deployment → Bool) (f : Deployment → Deployment) (t : List Deployment) (n k : ℕ)
    → ((d : Deployment) → (f d).id ≡ d.id)
    → ((d : Deployment)
        → find_where (λ x. x.id == k) t ≡ some d
        → p d ≡ true
        → Life (at d.status) (at (f d).status))
    → Life (view k t n) (view k (update_where p f t) n)
update-Life p f t n k ids h =
    rw (find-update (λ x. x.id == k) p f (λ x. ground (arith, ids x)) t)
      (seen_update (ltb k n) p f (find_where (λ x. x.id == k) t) h)

seen_delete :
    (p : Deployment → Bool) (o : Option Deployment)
    → ((d : Deployment) → o ≡ some d → p d ≡ true → d.status ≡ DeploymentStatus.draft)
    → Life (seen true o) (seen true (Option.bind o (λ d. if not (p d) then some d else none)))
unfolding Option.bind
seen_delete p none h = here
seen_delete p (some d) h = elim (Bool-cases (p d)) [
  | inl e ↦ rw (e, h d refl e) (once deleted)
  | inr e ↦ rw e here
]

-- A DELETE of drafts.
pub delete-Life :
    (p : Deployment → Bool) (t : List Deployment) (n k : ℕ)
    → count_where (λ x. x.id == k) t ≤ 1
    → ((d : Deployment) → p d ≡ true → d.status ≡ DeploymentStatus.draft)
    → ((d : Deployment) → find_where (λ x. x.id == k) t ≡ some d → ltb k n ≡ true)
    → Life (view k t n) (view k (delete_where p t) n)
delete-Life p t n k one drafts given = elim (Option-cases (find_where (λ x. x.id == k) t)) [
  | inl e ↦ Life_of_eq (rw (after, e) (unfold Option.bind in refl))
  | inr (d, e) ↦
      rw (after, given d e) (seen_delete p (find_where (λ x. x.id == k) t) (λ x g h. drafts x h))
]
  where
    after :
        find_where (λ x. x.id == k) (delete_where p t)
        ≡ Option.bind (find_where (λ x. x.id == k) t) (λ d. if not (p d) then some d else none)
    after = find-delete (λ x. x.id == k) p t ∙ find-and (λ x. x.id == k) (λ x. not (p x)) t one

below_self : (n k : ℕ) → n ≡ k → ltb k n ≡ false
below_self n k h = ground arith

same_side : (n k : ℕ) → n ≢ k → ltb k n ≡ ltb k (suc n)
same_side n k h = ground arith

-- An INSERT of a draft under the next id.
pub insert-Life :
    (t : List Deployment) (n k : ℕ) (d : Deployment)
    → d.id ≡ n
    → d.status ≡ DeploymentStatus.draft
    → find_where (λ x. x.id == n) t ≡ none
    → Life (view k t n) (view k (t ++ d ∷ []) (suc n))
unfolding find_where
insert-Life t n k d e s fresh = elim (Option-cases (find_where (λ x. x.id == k) t)) [
  | inr (x, f) ↦ Life_of_eq (rw (f, find-append (λ y. y.id == k) t (d ∷ []) x f) refl)
  | inl f ↦
      rw (f, find-append_none (λ y. y.id == k) t (d ∷ []) f)
        (elim (Bool-cases (d.id == k)) [
          | inl g ↦ rw (g, s, below_self n k (ground arith)) (once created)
          | inr g ↦ rw g (Life_of_eq (ap (λ b. seen b none) (same_side n k (ground arith))))
        ])
]
