-- ===== src/Invocation/Queue/Finalize.antt =====
-- InvocationSetCompleteIfRunning and InvocationSetFailureIfRunning: who may finish an invocation.
use mathlib.Core.Option
use maos_core.Common.{
  ◌≡◌, refl, ◌==◌, Bool, true, false, ◌&&◌, List, [], ◌∷◌, ℕ, arith, if◌then◌else◌, Bool-cases,
  Option-cases, inl, inr, ap, ◌≢◌, ◌⊎◌, ◌∙◌, Option, none, some, get_last?,
}
use maos_core.Common.Int.{pos}
use maos_core.Common.Table.{find_where, update_where, row_update, find-update, find-holds, find-and}
use maos_core.Models.{Bytes, Invocation, running, Fetched, row, no_rows, same_state}
use maos_core.Invocation.Queue.{
  Db, find_by_id, is_finalizable, finalize_with, complete, discard, last_is,
  invocation_set_complete_if_running, invocation_set_failure_if_running,
}
use maos_core.Invocation.Queue.Invariant.{one_row, Inv}

-- The row is running, and the caller is the last who took it.
pub record HeldBy (caller : ℕ) (i : Invocation) : Type 0 where
  pub runs : i.state ≡ running
  pub taken : get_last? i.attempted_by ≡ some caller

-- The row is finished, and no other changes.
abbrev pub Finishes : ℕ → ℕ → (Invocation → Invocation) → Db → Db × Fetched Invocation → Type 0
Finishes k caller f db (db', answer) =
    (i : Invocation) × (find_by_id db (pos k) ≡ some i)
    × HeldBy caller i
    × (answer ≡ row (f i))
    × (find_by_id db' (pos k) ≡ some (f i))
    × ((n : ℕ) → n ≢ k → find_by_id db' (pos n) ≡ find_by_id db (pos n))

abbrev pub Refuses : ℕ → ℕ → Db → Db × Fetched Invocation → Type 0
Refuses k caller db (db', answer) =
    ((i : Invocation) → find_by_id db (pos k) ≡ some i → ¬ HeldBy caller i)
    × (answer ≡ no_rows)
    × (db'.invocations ≡ db.invocations)

update_none :
    {A : Type 0} (p : A → Bool) (f : A → A) (t : List A)
    → find_where p t ≡ none
    → update_where p f t ≡ t
unfolding find_where update_where
update_none p f [] h = refl
update_none p f (x ∷ xs) h = ground (arith, update_none p f xs)

abbrev held : ℕ → Invocation → Bool
held caller i = same_state i.state running && last_is (get_last? i.attempted_by) caller

held_of : (caller : ℕ) (i : Invocation) → held caller i ≡ true → HeldBy caller i
unfolding same_state
held_of caller i h = ground arith

of_held : (caller : ℕ) (i : Invocation) → HeldBy caller i → held caller i ≡ true
unfolding same_state
of_held caller i h = rw (h.runs, h.taken) (ground arith)

module _ (k caller : ℕ) (f : Invocation → Invocation) (db : Db) (v : Inv db)
    (ids : (x : Invocation) → (f x).id ≡ x.id) where
  abbrev answer : Db × Fetched Invocation
  answer = finalize_with false (is_finalizable (pos k) caller) f db

  matching :
      find_where (is_finalizable (pos k) caller) db.invocations
      ≡ Option.bind (find_by_id db (pos k)) (λ x. if held caller x then some x else none)
  unfolding is_finalizable find_by_id
  matching = find-and (λ x. x.id == k) (held caller) db.invocations (v.unique k)

  after :
      (n : ℕ)
      → find_by_id answer.0 (pos n)
        ≡ Option.map (row_update (is_finalizable (pos k) caller) f) (find_by_id db (pos n))
  unfolding find_by_id
  after n =
      find-update (λ x. x.id == n) (is_finalizable (pos k) caller) f (λ x. ground (arith, ids x))
        db.invocations

  holds : (n : ℕ) (x : Invocation) → find_by_id db (pos n) ≡ some x → (x.id == n) ≡ true
  unfolding find_by_id
  holds n x h = find-holds (λ y. y.id == n) db.invocations x h

  own_row :
      (i : Invocation)
      → find_by_id db (pos k) ≡ some i
      → held caller i ≡ true
      → row_update (is_finalizable (pos k) caller) f i ≡ f i
  unfolding is_finalizable
  own_row i e h = rw (holds k i e, h)

  other_row :
      (n : ℕ)
      → n ≢ k
      → (o : Option Invocation) → ((x : Invocation) → o ≡ some x → (x.id == n) ≡ true)
      → Option.map (row_update (is_finalizable (pos k) caller) f) o ≡ o
  unfolding is_finalizable
  other_row n ne none h = refl
  other_row n ne (some x) h = ground (arith, h x refl)

  refused :
      find_where (is_finalizable (pos k) caller) db.invocations ≡ none
      → ((i : Invocation) → find_by_id db (pos k) ≡ some i → ¬ HeldBy caller i)
      → Refuses k caller db answer
  refused e h = (h, rw e, update_none (is_finalizable (pos k) caller) f db.invocations e)

  finalize_cases : Finishes k caller f db answer ⊎ Refuses k caller db answer
  unfolding Option.bind
  finalize_cases = elim (Option-cases (find_by_id db (pos k))) [
    | inl e ↦ inr (refused (matching ∙ rw e) (λ i h c. cc))
    | inr (i, e) ↦ elim (Bool-cases (held caller i)) [
      | inl h ↦ inl (
        i,
        e,
        held_of caller i h,
        rw (matching, e, h),
        after k ∙ rw e (ap some (own_row i e h)),
        λ n ne. after n ∙ other_row n ne (find_by_id db (pos n)) (λ x g. holds n x g),
      )
      | inr h ↦ inr (
          refused (matching ∙ rw (e, h))
            (λ j g c. cc (of_held caller j c, one_row (find_by_id db (pos k)) i j e g)))
    ]
  ]

-- In a table that keeps the invariant, and without an error of the database: a completion is
-- accepted exactly when the invocation runs and the caller is the last who took it; then the row is
-- completed with the result and the time, and no other row changes. In every other case no row
-- changes and none comes back.
pub set_complete_cases :
    (k caller at : ℕ) (result : Bytes) (db : Db)
    → Inv db
    → let r = invocation_set_complete_if_running false db (pos k) caller at result in
      Finishes k caller (complete at result) db r ⊎ Refuses k caller db r
unfolding invocation_set_complete_if_running
set_complete_cases k caller at result db v =
    finalize_cases k caller (complete at result) db v (λ x. refl)

-- In a table that keeps the invariant, and without an error of the database: an error report is
-- accepted exactly when the invocation runs and the caller is the last who took it; then the row is
-- discarded with the errors and the time, and no other row changes. In every other case no row
-- changes and none comes back.
pub set_failure_cases :
    (k caller at : ℕ) (errors : Bytes) (db : Db)
    → Inv db
    → let r = invocation_set_failure_if_running false db (pos k) caller at errors in
      Finishes k caller (discard at errors) db r ⊎ Refuses k caller db r
unfolding invocation_set_failure_if_running
set_failure_cases k caller at errors db v =
    finalize_cases k caller (discard at errors) db v (λ x. refl)
