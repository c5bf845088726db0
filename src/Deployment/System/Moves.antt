-- ===== src/Deployment/System/Moves.antt =====
-- What the statements keep of the table that add or delete rows, or move them into or out of the
-- states deploying and deployed.
use maos_core.Common.{
  ◌⊎◌, ◌≡◌, ◌≢◌, ◌≤◌, refl, arith, ◌==◌, Bool, true, false, not, ◌&&◌, List, [], ◌∷◌, ◌++◌, ℕ, suc,
  none, some, String, Bool-cases, inl, inr,
}
use maos_core.Common.Table.{
  find_none_of_count, find_where, update_where, delete_where, count_where, count-update-eq,
  count-update-le, count-update-drop, count-update-zero, count_mono, count-delete-le,
  count-delete-eq, count-append,
}
use maos_core.Common.Membership.{All, All-append, All-map, All-delete}
use maos_core.Models.{Deployment, DeploymentStatus, same_status}
use maos_core.Deployment.Store.Statements.{
  is_draft, is_deploying, is_deployed, is_publishable, is_deploying_id, start_deploying, retire,
  finish_deploying,
}
use maos_core.Deployment.System.Tables.{Entry, TableInv, update-TableInv}

unused_id :
    (n k : ℕ) (t : List Deployment) → n ≤ k → All (Entry n) t → count_where (λ d. d.id == k) t ≡ 0
unfolding count_where
unused_id n k [] le h = refl
unused_id n k (x ∷ xs) le h = ground (arith, unused_id n k xs le h.1, h.0.given)

pub unused_row : (t : List Deployment) (n : ℕ) → TableInv t n → find_where (λ d. d.id == n) t ≡ none
unused_row t n v = find_none_of_count (λ d. d.id == n) t (unused_id n n t (omega arith) v.entries)

pub insert-TableInv :
    (t : List Deployment) (n : ℕ) (d : Deployment)
    → d.id ≡ n
    → d.status ≡ DeploymentStatus.draft
    → d.config_suite_id ≢ none
    → TableInv t n
    → TableInv (t ++ d ∷ []) (suc n)
unfolding count_where is_deploying is_deployed same_status
insert-TableInv t n d e s c v = record {
  unique = λ k. one_each k (Bool-cases (d.id == k));
  entries =
      All-append (Entry (suc n)) t (d ∷ [])
        (All-map (Entry n) (Entry (suc n)) t
          (λ x h. record { given = omega (arith, h.given); suite = h.suite }) v.entries)
        (record { given = omega arith; suite = c }, tt);
  one_deploying = rw (count-append is_deploying t (d ∷ []), s) (omega (arith, v.one_deploying));
  one_deployed = rw (count-append is_deployed t (d ∷ []), s) (omega (arith, v.one_deployed));
}
  where
    one_each :
        (k : ℕ)
        → ((d.id == k) ≡ true) ⊎ ((d.id == k) ≡ false)
        → count_where (λ x. x.id == k) (t ++ d ∷ []) ≤ 1
    one_each k (inl h) =
        rw (count-append (λ x. x.id == k) t (d ∷ []), h)
          (omega (arith, unused_id n k t (ground arith) v.entries))
    one_each k (inr h) =
        rw (count-append (λ x. x.id == k) t (d ∷ []), h) (omega (arith, v.unique k))

pub insert-owned :
    (t : List Deployment) (d : Deployment) (k : ℕ)
    → count_where (is_deploying_id k) t ≤ count_where (is_deploying_id k) (t ++ d ∷ [])
insert-owned t d k = omega (arith, count-append (is_deploying_id k) t (d ∷ []))

pub delete-TableInv :
    (p : Deployment → Bool) (t : List Deployment) (n : ℕ)
    → TableInv t n
    → TableInv (delete_where p t) n
delete-TableInv p t n v = record {
  unique = λ k. omega (arith, count-delete-le p (λ d. d.id == k) t, v.unique k);
  entries = All-delete (Entry n) p t v.entries;
  one_deploying = omega (arith, count-delete-le p is_deploying t, v.one_deploying);
  one_deployed = omega (arith, count-delete-le p is_deployed t, v.one_deployed);
}

pub delete-owned :
    (id k : ℕ) (t : List Deployment)
    → count_where (is_deploying_id k) (delete_where (is_draft id) t)
      ≡ count_where (is_deploying_id k) t
unfolding is_draft is_deploying_id is_deploying same_status
delete-owned id k t = count-delete-eq (is_draft id) (is_deploying_id k) (λ d h. ground arith) t

abbrev pub can_start : ℕ → Bool → Deployment → Bool
can_start id others d = (d.id == id) && (is_publishable d && not others)

pub start-TableInv :
    (id now : ℕ) (user : String) (others : Bool) (t : List Deployment) (n : ℕ)
    → (others ≡ false → count_where is_deploying t ≡ 0)
    → TableInv t n
    → TableInv (update_where (can_start id others) (start_deploying now user) t) n
unfolding is_deployed same_status is_publishable
start-TableInv id now user others t n none_yet v =
    update-TableInv (can_start id others) (start_deploying now user) t n
      (record { ids = λ d. refl; suites = λ d. refl }) (deploying_after others refl)
      (rw
        (count-update-eq (can_start id others) is_deployed (start_deploying now user)
          (λ d. ground arith) t)
        v.one_deployed)
      v
  where
    deploying_after :
        (b : Bool)
        → others ≡ b
        → count_where is_deploying (update_where (can_start id others) (start_deploying now user) t)
          ≤ 1
    deploying_after true e =
        rw
          (count-update-eq (can_start id others) is_deploying (start_deploying now user)
            (λ d. ground arith) t)
          v.one_deploying
    deploying_after false e = omega (
      arith,
      count-update-le (can_start id others) is_deploying (start_deploying now user) t,
      none_yet e,
      count_mono (can_start id others) (λ d. d.id == id) (λ d h. ground arith) t,
      v.unique id,
    )

pub publish-TableInv :
    (id now : ℕ) (user : String) (t : List Deployment) (n : ℕ)
    → TableInv t n
    → TableInv
        (update_where
          (is_deploying_id id)
          (finish_deploying now)
          (update_where is_deployed (retire now user) t))
        n
unfolding is_deployed is_deploying is_deploying_id same_status
publish-TableInv id now user t n v =
    update-TableInv (is_deploying_id id) (finish_deploying now) retired n
      (record { ids = λ d. refl; suites = λ d. refl })
      (omega (
        arith,
        count-update-drop (is_deploying_id id) is_deploying (finish_deploying now)
            (λ d. ground arith) retired,
        retired_inv.one_deploying,
      ))
      (omega (
        arith,
        count-update-le (is_deploying_id id) is_deployed (finish_deploying now) retired,
        none_deployed,
        count_mono (is_deploying_id id) is_deploying (λ d h. ground arith) retired,
        retired_inv.one_deploying,
      ))
      retired_inv
  where
    retired : List Deployment
    retired = update_where is_deployed (retire now user) t

    none_deployed : count_where is_deployed retired ≡ 0
    none_deployed =
        count-update-zero is_deployed is_deployed (retire now user) (λ d. ground arith) t

    retired_inv : TableInv retired n
    retired_inv =
        update-TableInv is_deployed (retire now user) t n
          (record { ids = λ d. refl; suites = λ d. refl })
          (omega (
            arith,
            count-update-drop is_deployed is_deploying (retire now user) (λ d. ground arith) t,
            v.one_deploying,
          ))
          (omega (arith, none_deployed)) v

pub fail-TableInv :
    (id : ℕ) (error : String) (t : List Deployment) (n : ℕ)
    → TableInv t n
    → TableInv
        (update_where
          (λ d. d.id == id)
          (λ d. record d { last_error = some error; status = DeploymentStatus.failed })
          t)
        n
unfolding is_deployed is_deploying same_status
fail-TableInv id error t n v =
    update-TableInv (λ d. d.id == id) failing t n (record { ids = λ d. refl; suites = λ d. refl })
      (omega (
        arith,
        count-update-drop (λ d. d.id == id) is_deploying failing (λ d. ground arith) t,
        v.one_deploying,
      ))
      (omega (
        arith,
        count-update-drop (λ d. d.id == id) is_deployed failing (λ d. ground arith) t,
        v.one_deployed,
      ))
      v
  where
    failing : Deployment → Deployment
    failing d = record d { last_error = some error; status = DeploymentStatus.failed }
